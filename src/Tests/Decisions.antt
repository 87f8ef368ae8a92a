-- ===== src/Tests/Decisions.antt =====
-- The daemon's decisions, run.
use schroedinger_sync.Base.{◌≡◌, true, false, [], ◌∷◌, any, take}
use schroedinger_sync.Daemon.Decisions.{supervise_grace_off_polls}
use schroedinger_sync.Daemon.Decisions.Supervise.{Poll, up, supervised, supervised-active}

abbrev nothing : Poll
nothing = record { desktop = false; vscode = false }

abbrev editor : Poll
editor = record { desktop = false; vscode = true }

supervised-active_example :
    (supervised (nothing ∷ nothing ∷ editor ∷ [])).active
    ≡ any up (take supervise_grace_off_polls (nothing ∷ nothing ∷ editor ∷ []))
supervised-active_example = supervised-active (nothing ∷ nothing ∷ editor ∷ [])
