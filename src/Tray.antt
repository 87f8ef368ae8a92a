-- ===== src/Tray.antt =====
-- tray.go, with the teardown registry of security.go and the session of cdp.go: the goroutine that
-- syncs and the message pump that runs the menu's callbacks, interleaved in any order. A step is one
-- access to what they share. The menu entry for the logs touches nothing shared and is left out.
pub mod Induction
pub mod Order
pub mod Sessions
pub mod Icon
use schroedinger_sync.Base.{
  ℕ, ◌+◌, Bool, true, false, not, ◌&&◌, ◌||◌, Option, none, some, List, [], ◌∷◌, ◌==◌,
  if◌then◌else◌,
}

-- The calls into the systray object.
pub data Call : Type 0 where
  set_tooltip show_notification remove_icon : Call

-- Who holds `trayMu`.
pub data Holder : Type 0 where
  free by_worker by_pump : Holder

-- Where the goroutine of `trayMain` stands. Inside `runCycle` it opens and closes sessions.
pub data Worker : Type 0 where
  -- the first tooltip of a round: before the lock, behind it, behind the test, before the unlock
  busy_lock busy_test busy_call busy_unlock : Worker
  -- no session; registered; Chrome runs; the two halves of the worker's own teardown
  cycling registered launched forgetting cancelling : Worker
  -- the second tooltip, the test of the flag, the `select`, the return
  done_lock done_test done_call done_unlock deciding waiting returned : Worker

-- Where the message pump stands. Behind `runActiveTeardown` the quit remembers the session whose
-- teardown it took, if there was one.
pub data Pump : Type 0 where
  idle : Pump
  notice_lock notice_call notice_unlock : Pump
  quit_lock quit_remove quit_unlock quit_take : Pump
  quit_forget quit_cancel : ℕ → Pump
  quit_redactor quit_exit gone : Option ℕ → Pump

pub record System : Type 0 where
  pub worker : Worker
  pub pump : Pump
  pub holder : Holder
  pub shutting_down : Bool
  -- the calls so far, the last one first
  pub calls : List Call
  -- the channel `syncNow`, which holds one token at most
  pub sync_now : Bool
  -- the number of the session opened last, whether its context is cancelled, whether its Chrome
  -- runs, and whether the Chrome of an earlier session does
  pub session : ℕ
  pub cancelled : Bool
  pub chrome : Bool
  pub older : Bool
  -- `activeTeardown`, by the number of its session
  pub active : Option ℕ
  pub redactor_stopped : Bool

-- What happens next: the worker moves, with a choice where the outside makes one, or the user
-- clicks, or the pump goes on with its callback.
pub data Action : Type 0 where
  work : Bool → Action
  click_sync click_status click_quit pump_on : Action

abbrev is_free : Holder → Bool
is_free free = true
is_free _ = false

-- `registerTeardown(nil); cancelT(); ...` of session `i`, behind its first half. The Chrome of an
-- earlier session is not told from those before it, so that `older` stays.
cancel : ℕ → System → System
cancel i s = if s.session == i then record s { chrome = false; cancelled = true } else s

-- A step of the worker.
pub worker_step : Worker → Bool → System → System
worker_step busy_lock c s =
    if is_free s.holder then record s { holder = by_worker; worker = busy_test } else s
worker_step busy_test c s =
    if s.shutting_down then record s { worker = busy_unlock } else record s { worker = busy_call }
worker_step busy_call c s = record s { calls = set_tooltip ∷ s.calls; worker = busy_unlock }
worker_step busy_unlock c s = record s { holder = free; worker = cycling }
worker_step cycling c s =
    if c
    then record s {
      session = s.session + 1;
      cancelled = false;
      chrome = false;
      older = s.older || s.chrome;
      active = some (s.session + 1);
      worker = registered;
    }
    else record s { worker = done_lock }
worker_step registered c s =
    if c && not s.cancelled
    then record s { chrome = true; worker = launched }
    else record s { worker = forgetting }
worker_step launched c s = if c then s else record s { worker = forgetting }
worker_step forgetting c s = record s { active = none; worker = cancelling }
worker_step cancelling c s = record s { chrome = false; cancelled = true; worker = cycling }
worker_step done_lock c s =
    if is_free s.holder then record s { holder = by_worker; worker = done_test } else s
worker_step done_test c s =
    if s.shutting_down then record s { worker = done_unlock } else record s { worker = done_call }
worker_step done_call c s = record s { calls = set_tooltip ∷ s.calls; worker = done_unlock }
worker_step done_unlock c s = record s { holder = free; worker = deciding }
worker_step deciding c s =
    if s.shutting_down then record s { worker = returned } else record s { worker = waiting }
worker_step waiting c s =
    if c
    then record s { worker = busy_lock }
    else if s.sync_now
    then record s { sync_now = false; worker = busy_lock }
    else s
worker_step returned c s = s

take_teardown : Option ℕ → System → System
take_teardown none s = record s { active = none; pump = quit_redactor none }
take_teardown (some i) s = record s { active = none; pump = quit_forget i }

-- The pump goes on with a callback.
pub pump_step : Pump → System → System
pump_step idle s = s
pump_step notice_lock s =
    if is_free s.holder then record s { holder = by_pump; pump = notice_call } else s
pump_step notice_call s = record s { calls = show_notification ∷ s.calls; pump = notice_unlock }
pump_step notice_unlock s = record s { holder = free; pump = idle }
pump_step quit_lock s =
    if is_free s.holder then record s { holder = by_pump; pump = quit_remove } else s
pump_step quit_remove s = record s { calls = remove_icon ∷ s.calls; pump = quit_unlock }
pump_step quit_unlock s = record s { holder = free; pump = quit_take }
pump_step quit_take s = take_teardown s.active s
pump_step (quit_forget i) s = record s { active = none; pump = quit_cancel i }
pump_step (quit_cancel i) s = let z = cancel i s in record z { pump = quit_redactor (some i) }
pump_step (quit_redactor t) s = record s { redactor_stopped = true; pump = quit_exit t }
pump_step (quit_exit t) s = record s { pump = gone t }
pump_step (gone t) s = s

-- A click starts a callback if the pump is not inside one.
click : Pump → System → System → System
click idle clicked s = clicked
click _ clicked s = s

act_on : Action → System → System
act_on (work c) s = worker_step s.worker c s
act_on click_sync s = click s.pump (record s { sync_now = true }) s
act_on click_status s = click s.pump (record s { pump = notice_lock }) s
act_on click_quit s = click s.pump (record s { shutting_down = true; pump = quit_lock }) s
act_on pump_on s = pump_step s.pump s

abbrev pub exited : Pump → Bool
exited (gone _) = true
exited _ = false

-- One step; nothing moves behind `os.Exit`.
unfoldable pub step : Action → System → System
unfolding worker_step pump_step click act_on take_teardown cancel
step a s = if exited s.pump then s else act_on a s

-- The state in which `trayMain` has shown the icon.
abbrev pub initial : System
initial = record {
  worker = busy_lock;
  pump = idle;
  holder = free;
  shutting_down = false;
  calls = [];
  sync_now = false;
  session = 0;
  cancelled = true;
  chrome = false;
  older = false;
  active = none;
  redactor_stopped = false;
}

-- What the two goroutines can reach together.
pub data Reach : System → Type 0 where
  start : Reach initial
  later : {s : System} → Reach s → (a : Action) → Reach (step a s)
