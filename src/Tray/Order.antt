-- ===== src/Tray/Order.antt =====
-- tray.go: the calls to the icon, the mutex and the flag `shuttingDown`.
use schroedinger_sync.Base.{◌≡◌, refl, arith, Bool, true, false, not, ◌&&◌, List, [], ◌∷◌, any}
use schroedinger_sync.Tray.Induction.{Clicked, Reach-induction}
use schroedinger_sync.Tray.{
  Call, remove_icon, Holder, by_worker, by_pump, Worker, busy_test, busy_call, busy_unlock,
  done_test, done_call, done_unlock, Pump, idle, notice_lock, notice_call, notice_unlock, quit_lock,
  quit_remove, quit_unlock, System, worker_step, pump_step, take_teardown, cancel, initial, Reach,
}

abbrev is_removal : Call → Bool
is_removal remove_icon = true
is_removal _ = false

-- No call came after the icon's removal; the last call stands first.
abbrev pub in_order : List Call → Bool
in_order [] = true
in_order (c ∷ cs) = not (any is_removal cs) && in_order cs

-- The worker is between its lock and its unlock, and about to call.
abbrev inside : Worker → Bool
inside busy_test = true
inside busy_call = true
inside busy_unlock = true
inside done_test = true
inside done_call = true
inside done_unlock = true
inside _ = false

abbrev calling : Worker → Bool
calling busy_call = true
calling done_call = true
calling _ = false

abbrev pump_inside : Pump → Bool
pump_inside notice_call = true
pump_inside notice_unlock = true
pump_inside quit_remove = true
pump_inside quit_unlock = true
pump_inside _ = false

abbrev quitting : Pump → Bool
quitting idle = false
quitting notice_lock = false
quitting notice_call = false
quitting notice_unlock = false
quitting _ = true

abbrev icon_gone : Pump → Bool
icon_gone quit_lock = false
icon_gone quit_remove = false
icon_gone p = quitting p

abbrev worker_holds : Holder → Bool
worker_holds by_worker = true
worker_holds _ = false

abbrev pump_holds : Holder → Bool
pump_holds by_pump = true
pump_holds _ = false

record Inv (s : System) : Type 0 where
  worker_lock : worker_holds s.holder ≡ inside s.worker
  pump_lock : pump_holds s.holder ≡ pump_inside s.pump
  flag : s.shutting_down ≡ quitting s.pump
  gone_iff : any is_removal s.calls ≡ icon_gone s.pump
  caller : (calling s.worker && icon_gone s.pump) ≡ false
  ordered : in_order s.calls ≡ true

initial-Inv : Inv initial
initial-Inv = ground arith

worker_step-Inv :
    (w : Worker) (c : Bool) (s : System) → s.worker ≡ w → Inv s → Inv (worker_step w c s)
unfolding worker_step
worker_step-Inv w c s e h = ground arith

pump_step-Inv : (p : Pump) (s : System) → s.pump ≡ p → Inv s → Inv (pump_step p s)
unfolding pump_step take_teardown cancel
pump_step-Inv p s e h = ground arith

click-Inv : (s : System) → s.pump ≡ idle → Inv s → Clicked Inv s
click-Inv s e h = ground arith

Reach-Inv : {s : System} → Reach s → Inv s
Reach-Inv =
    Reach-induction Inv (λ c s. worker_step-Inv s.worker c s refl)
      (λ s. pump_step-Inv s.pump s refl) click-Inv initial-Inv

-- However the two goroutines interleave, no call reaches the systray object behind the removal of
-- the icon.
pub Reach-in_order : {s : System} → Reach s → in_order s.calls ≡ true
Reach-in_order r = (Reach-Inv r).ordered

-- The two goroutines are never inside the guarded calls together.
pub Reach-exclusive : {s : System} → Reach s → (inside s.worker && pump_inside s.pump) ≡ false
Reach-exclusive r = let h = Reach-Inv r in ground arith
