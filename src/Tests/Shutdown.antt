-- ===== src/Tests/Shutdown.antt =====
-- The tray's two goroutines, run.
use schroedinger_sync.Base.{◌≡◌, refl, true, false, none, List, [], ◌∷◌, ◌++◌}
use schroedinger_sync.Tray.{
  gone, System, Action, work, click_quit, pump_on, step, initial, Reach, start, later,
}
use schroedinger_sync.Tray.Order.{in_order, Reach-in_order}
use schroedinger_sync.Tray.Sessions.{chrome_of, Reach-gone, Reach-round}

record Run : Type 0 where
  last : System
  reach : Reach last

-- The actions, one after the other.
run : List Action → Run → Run
run [] r = r
run (a ∷ as') r = run as' (record { last = step a r.last; reach = later r.reach a })

abbrev beginning : Run
beginning = record { last = initial; reach = start }

abbrev round_begun : List Action
round_begun = work true ∷ work true ∷ work true ∷ work true ∷ work true ∷ work true ∷ []

-- The user quits while Chrome runs.
abbrev quit : List Action
quit =
    click_quit ∷ pump_on ∷ pump_on ∷ pump_on ∷ pump_on ∷ pump_on ∷ pump_on ∷ pump_on ∷ pump_on ∷ []

abbrev quit_run : Run
quit_run = run (round_begun ++ quit) beginning

Reach-in_order_example : in_order quit_run.last.calls ≡ true
Reach-in_order_example = Reach-in_order quit_run.reach

Reach-gone_example : chrome_of 1 quit_run.last ≡ false
unfolding run step
Reach-gone_example = Reach-gone {i = 1} quit_run.reach refl

Reach-round_example : (beginning.last.chrome ≡ false) × (beginning.last.older ≡ false)
Reach-round_example = Reach-round beginning.reach refl

-- The user quits before the session is registered: the registry is empty when the quit empties it,
-- and the Chrome that is launched behind that is still there when the process is gone.
abbrev late : List Action
late =
    work true
    ∷ work true
    ∷ work true
    ∷ work true
    ∷ click_quit
    ∷ pump_on
    ∷ pump_on
    ∷ pump_on
    ∷ pump_on
    ∷ work true
    ∷ work true
    ∷ pump_on
    ∷ pump_on
    ∷ []

late_launch :
    ((run late beginning).last.pump ≡ gone none) × ((run late beginning).last.chrome ≡ true)
unfolding run step
late_launch = (refl, refl)
