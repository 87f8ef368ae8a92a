-- ===== src/Process/Kept.antt =====
-- What the opening and the closing of a session leave alone.
use schroedinger_sync.Base.{
  ◌≡◌, refl, Bool, true, false, Option, none, some, List, is_empty, Bytes, Bool-cases, inl, inr,
}
use schroedinger_sync.Result.{Error, is_desktop_not_found, Result, ok, err}
use schroedinger_sync.Disk.{Disk}
use schroedinger_sync.Process.{
  Process, Ending, returns, exits, profile_swept, happens, sweep_profile_dir, teardown,
  run_active_teardown, fatal, exit_on_session_failure, navigated, key_read, open_claude_session,
}

module _ {N : Type 0} where
  -- The process that a command leaves.
  abbrev pub left : Ending N → Process N
  left (returns p) = p
  left (exits p) = p

  -- The directory and the registry of secrets are the given ones.
  abbrev pub Keeps : Disk → List Bytes → Process N → Type 0
  Keeps d secrets p = (p.disk ≡ d) × (p.secrets ≡ secrets)

module _ {N : Type 0} (close : N → N) where
  pub fatal-disk : (message : Bytes) (p : Process N) → (left (fatal close message p)).disk ≡ p.disk
  unfolding fatal run_active_teardown teardown happens
  fatal-disk message p = elim (Bool-cases p.active) [
    | inl set ↦ rw (set, fatal, run_active_teardown) refl
    | inr shut ↦ rw (shut, fatal, run_active_teardown) refl
  ]

  pub exit_on_session_failure-disk :
      (e : Error) (p : Process N) → (left (exit_on_session_failure close e p)).disk ≡ p.disk
  unfolding exit_on_session_failure
  exit_on_session_failure-disk e p = elim (Bool-cases (is_desktop_not_found e)) [
    | inl missing ↦ rw (missing, exit_on_session_failure) (fatal-disk _ p)
    | inr present ↦ rw (present, exit_on_session_failure) (fatal-disk _ p)
  ]

module _ {N : Type 0} (read_key : List Bytes → Result Bytes × List Bytes) (reparse_point : Bool)
    (navigate : Bytes → N → Option Error × N) (close : N → N) where
  navigated-Keeps :
      (r : Option Error × N) (p : Process N)
      → Keeps p.disk p.secrets (navigated read_key reparse_point navigate close r p).1
  unfolding navigated teardown happens
  navigated-Keeps (none, n) p = (refl, refl)
  navigated-Keeps (some e, n) p = (refl, refl)

  key_read-Keeps :
      (r : Result Bytes) (p : Process N)
      → Keeps p.disk p.secrets (key_read read_key reparse_point navigate close r p).1
  unfolding key_read
  key_read-Keeps (err e) p = (refl, refl)
  key_read-Keeps (ok key) p = elim (Bool-cases (is_empty key)) [
    | inl empty ↦ rw empty (refl, refl)
    | inr given ↦ rw given (swept reparse_point)
  ]
    where
      swept :
          (b : Bool)
          → Keeps p.disk p.secrets
              (navigated read_key reparse_point navigate close
                (navigate key (sweep_profile_dir b p).session.net)
                (record (sweep_profile_dir b p) { active = true })).1
      swept true = unfold sweep_profile_dir in navigated-Keeps _ (record p { active = true })
      swept false =
          unfold sweep_profile_dir happens in
          navigated-Keeps _ (record (happens profile_swept p) { active = true })

  -- A session that is opened, or not, leaves the directory alone, and the registry is what
  -- `readSessionKey` made of it.
  pub open_claude_session-Keeps :
      (p : Process N)
      → Keeps p.disk
          (read_key p.secrets).1
          (open_claude_session read_key reparse_point navigate close p).1
  unfolding open_claude_session
  open_claude_session-Keeps p =
      key_read-Keeps (read_key p.secrets).0 (record p { secrets = (read_key p.secrets).1 })
