-- ===== src/Commands/Dispatch.antt =====
-- main.go: the dispatch of `main` on the command line.
use schroedinger_sync.Base.{
  ℕ, Bool, ◌||◌, Option, none, some, List, [], ◌∷◌, if◌then◌else◌, is_empty, Bytes, ascii, ◌=?◌,
}
use schroedinger_sync.Result.{Error, Result}
use schroedinger_sync.Fetch.InPage.{RawAnswer}
use schroedinger_sync.Process.{Process, Ending, fatal, main_returned}
use schroedinger_sync.Probe.Report.{cdp_probe}
use schroedinger_sync.Commands.{cdp_smoke, cdp_harvest}

-- What the first argument of the program asks for.
pub data Command : Type 0 where
  run_harvest run_probe run_watch run_supervise run_tray : Command
  run_install_task run_uninstall_task run_cleanup_temp run_smoke unknown : Command

-- The dispatch of `main`: on the first argument, "" without one.
unfoldable pub command_of : List Bytes → Command
command_of [] = run_smoke
command_of (cmd ∷ _) =
    if cmd =? ascii "harvest"
    then run_harvest
    else if cmd =? ascii "probe"
    then run_probe
    else if cmd =? ascii "watch"
    then run_watch
    else if cmd =? ascii "supervise"
    then run_supervise
    else if cmd =? ascii "tray"
    then run_tray
    else if cmd =? ascii "install-task"
    then run_install_task
    else if cmd =? ascii "uninstall-task"
    then run_uninstall_task
    else if cmd =? ascii "cleanup-temp"
    then run_cleanup_temp
    else if is_empty cmd || cmd =? ascii "smoke"
    then run_smoke
    else unknown

-- The command itself; `others` are the daemons and the administration.
module _ {N : Type 0} (get : Bytes → N → Result Bytes × N)
    (read_key : List Bytes → Result Bytes × List Bytes) (reparse_point : Bool)
    (navigate : Bytes → N → Option Error × N) (close : N → N) (hash_content : Bytes → Bytes)
    (fuel : ℕ) (now : Bytes) (describe : Error → Bytes) (raw_get : Bytes → N → Result RawAnswer × N)
    (others : Command → Process N → Option (Ending N)) where
  unfoldable pub run : Command → Process N → Option (Ending N)
  run run_harvest p = cdp_harvest get read_key reparse_point navigate close hash_content fuel now p
  run run_probe p = cdp_probe describe get raw_get close read_key reparse_point navigate fuel now p
  run run_smoke p = cdp_smoke get read_key reparse_point navigate close p
  run unknown p = some (fatal close (ascii "unknown command:") p)
  run c p = others c p

  -- `main`: behind a command that returns comes the deferred flush of the redactor; `none` says that
  -- the command did not end.
  unfoldable pub main : List Bytes → Process N → Option (Process N)
  unfolding run
  main args p = elim (run (command_of args) p) [
    | none ↦ none
    | some x ↦ some (main_returned close x)
  ]
