-- ===== src/Tray/Sessions.antt =====
-- What a quit, and the end of a round, leave of the browser sessions.
use schroedinger_sync.Base.{
  ℕ, ◌≤◌, ◌≡◌, refl, arith, Bool, true, false, not, ◌&&◌, Option, none, some, ==_iff, ◌==◌,
  if◌then◌else◌,
}
use schroedinger_sync.Tray.Induction.{Clicked, Reach-induction}
use schroedinger_sync.Tray.{
  Worker, launched, forgetting, cancelling, Pump, idle, quit_forget, quit_cancel, quit_redactor,
  quit_exit, gone, System, worker_step, pump_step, take_teardown, cancel, initial, Reach,
}

-- The worker is where a Chrome of its session may run.
abbrev pub in_session : Worker → Bool
in_session launched = true
in_session forgetting = true
in_session cancelling = true
in_session _ = false

abbrev Known : Option ℕ → System → Type 0
Known none s = Unit
Known (some i) s = i ≤ s.session

-- Session `i` is over: a newer one has been opened, or its context is cancelled and its Chrome gone.
abbrev Settled : Option ℕ → System → Type 0
Settled none s = Unit
Settled (some i) s = (i ≤ s.session) × (s.session ≡ i → (s.cancelled ≡ true) × (s.chrome ≡ false))

-- What the place of the pump says about the session whose teardown it took.
abbrev Taken : Pump → System → Type 0
Taken (quit_forget i) s = i ≤ s.session
Taken (quit_cancel i) s = i ≤ s.session
Taken (quit_redactor t) s = Settled t s
Taken (quit_exit t) s = Settled t s
Taken (gone t) s = Settled t s
Taken _ s = Unit

record Inv (s : System) : Type 0 where
  known : Known s.active s
  taken : Taken s.pump s
  round : (s.chrome && not (in_session s.worker)) ≡ false
  one : s.older ≡ false

initial-Inv : Inv initial
initial-Inv = ground arith

worker_step-Inv :
    (w : Worker) (c : Bool) (s : System) → s.worker ≡ w → Inv s → Inv (worker_step w c s)
unfolding worker_step
worker_step-Inv w c s e h = ground arith

pump_step-Inv : (p : Pump) (s : System) → s.pump ≡ p → Inv s → Inv (pump_step p s)
unfolding pump_step take_teardown cancel
pump_step-Inv (quit_cancel i) s e h = ground (arith, ==_iff s.session i)
pump_step-Inv p s e h = ground arith

click-Inv : (s : System) → s.pump ≡ idle → Inv s → Clicked Inv s
click-Inv s e h = ground arith

Reach-Inv : {s : System} → Reach s → Inv s
Reach-Inv =
    Reach-induction Inv (λ c s. worker_step-Inv s.worker c s refl)
      (λ s. pump_step-Inv s.pump s refl) click-Inv initial-Inv

-- May the Chrome of session `i` run?
abbrev pub chrome_of : ℕ → System → Bool
chrome_of i s = if s.session == i then s.chrome else s.older

-- The session whose teardown the quit found registered has no Chrome when the process exits, whether
-- the syncing goroutine has opened a newer session meanwhile or not.
pub Reach-gone : {s : System} {i : ℕ} → Reach s → s.pump ≡ gone (some i) → chrome_of i s ≡ false
Reach-gone {s} {i} r e = let h = Reach-Inv r in ground (arith, ==_iff s.session i)

-- Chrome runs inside a round's sessions only: while the goroutine waits for the next round, or has
-- returned, none is left of any session.
pub Reach-round :
    {s : System} → Reach s → in_session s.worker ≡ false → (s.chrome ≡ false) × (s.older ≡ false)
Reach-round r out = let h = Reach-Inv r in ground arith
