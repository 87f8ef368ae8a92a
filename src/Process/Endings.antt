-- ===== src/Process/Endings.antt =====
-- In which state a process ends.
use schroedinger_sync.Base.{
  ℕ, not, ◌&&◌, ◌≡◌, refl, arith, Bool, true, false, Option, none, some, List, [], ◌∷◌, is_empty,
  Bytes, Bool-cases, inl, inr,
}
use schroedinger_sync.Result.{Error, is_desktop_not_found, Result, ok, err}
use schroedinger_sync.Process.{
  Event, chrome_launched, chrome_closed, redactor_flushed, exited, Process, Ending, returns, exits,
  teardown, fatal, exit_on_session_failure, main_returned, navigated, key_read, open_claude_session,
  run_active_teardown, happens, sweep_profile_dir,
}

-- Does Chrome run behind these events?
abbrev pub running : List Event → Bool
running [] = false
running (chrome_launched ∷ _) = true
running (chrome_closed ∷ _) = false
running (_ ∷ earlier) = running earlier

-- Has the process exited?
abbrev pub ended : List Event → Bool
ended [] = false
ended (exited _ ∷ _) = true
ended (_ ∷ earlier) = ended earlier

-- The process has exited with the status `code`, once, behind the flush of the redactor, and Chrome
-- was not left running.
abbrev pub IsOver : ℕ → List Event → Type 0
IsOver code (exited c ∷ redactor_flushed ∷ earlier) =
    (c ≡ code) × (running earlier ≡ false) × (ended earlier ≡ false)
IsOver code _ = ⊥

module _ {N : Type 0} where
  -- No session is open.
  abbrev pub IsQuiet : Process N → Type 0
  IsQuiet p = (p.active ≡ false) × (ended p.events ≡ false) × (running p.events ≡ false)

  -- A live process: Chrome runs only while the teardown is registered.
  abbrev pub IsLive : Process N → Type 0
  IsLive p = (ended p.events ≡ false) × (not p.active && running p.events ≡ false)

  -- How a command may end: back in `main` without a session, or exited.
  abbrev pub IsEnd : Ending N → Type 0
  IsEnd (returns p) = (ended p.events ≡ false) × (running p.events ≡ false)
  IsEnd (exits p) = IsOver 1 p.events

  -- The status of the process, by how its command ends.
  abbrev pub status : Ending N → ℕ
  status (returns p) = 0
  status (exits p) = 1

module _ {N : Type 0} (close : N → N) where
  pub teardown-IsEnd : (p : Process N) → IsLive p → IsEnd (returns (teardown close p))
  unfolding teardown happens
  teardown-IsEnd p (live, closed) = (live, refl)

  pub fatal-IsEnd : (message : Bytes) (p : Process N) → IsLive p → IsEnd (fatal close message p)
  unfolding fatal run_active_teardown teardown happens
  fatal-IsEnd message p (live, closed) = elim (Bool-cases p.active) [
    | inl set ↦ rw (set, fatal, run_active_teardown) (refl, refl, live)
    | inr shut ↦ rw (shut, fatal, run_active_teardown) (refl, (rw shut at closed), live)
  ]

  pub exit_on_session_failure-IsEnd :
      (e : Error) (p : Process N) → IsLive p → IsEnd (exit_on_session_failure close e p)
  unfolding exit_on_session_failure
  exit_on_session_failure-IsEnd e p h = elim (Bool-cases (is_desktop_not_found e)) [
    | inl missing ↦ rw (missing, exit_on_session_failure) (fatal-IsEnd _ p h)
    | inr present ↦ rw (present, exit_on_session_failure) (fatal-IsEnd _ p h)
  ]

  pub main_returned-IsOver :
      (x : Ending N) → IsEnd x → IsOver (status x) (main_returned close x).events
  unfolding main_returned happens
  main_returned-IsOver (returns p) (live, closed) = (refl, closed, live)
  main_returned-IsOver (exits p) over = over

sweep_profile_dir-ended :
    {N : Type 0} (reparse_point : Bool) (p : Process N)
    → ended p.events ≡ false
    → ended (sweep_profile_dir reparse_point p).events ≡ false
unfolding sweep_profile_dir happens
sweep_profile_dir-ended reparse_point p h = ground arith

module _ {N : Type 0} (read_key : List Bytes → Result Bytes × List Bytes) (reparse_point : Bool)
    (navigate : Bytes → N → Option Error × N) (close : N → N) where
  navigated-IsLive :
      (r : Option Error × N) (p : Process N)
      → p.active ≡ true
      → ended p.events ≡ false
      → IsLive (navigated read_key reparse_point navigate close r p).1
  unfolding navigated teardown happens
  navigated-IsLive (none, n) p a h = rw a (h, refl)
  navigated-IsLive (some e, n) p a h = (h, refl)

  key_read-IsLive :
      (r : Result Bytes) (p : Process N)
      → IsQuiet p
      → IsLive (key_read read_key reparse_point navigate close r p).1
  unfolding key_read sweep_profile_dir happens
  key_read-IsLive (err e) p (a, h, c) = (h, rw a c)
  key_read-IsLive (ok key) p (a, h, c) = elim (Bool-cases (is_empty key)) [
    | inl empty ↦ rw empty (h, rw a c)
    | inr given ↦ rw given (navigated-IsLive _ _ refl (sweep_profile_dir-ended reparse_point p h))
  ]

  pub open_claude_session-IsLive :
      (p : Process N)
      → IsQuiet p
      → IsLive (open_claude_session read_key reparse_point navigate close p).1
  unfolding open_claude_session
  open_claude_session-IsLive p (a, h, c) = key_read-IsLive (read_key p.secrets).0 _ (a, h, c)
