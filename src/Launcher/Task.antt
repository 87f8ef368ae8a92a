-- ===== src/Launcher/Task.antt =====
-- daemon.go: `installTask` and `uninstallTask`. The user's Startup folder is a directory of its own.
-- What is only printed on the way is left out.
use schroedinger_sync.Base.{Bool, true, false, Option, none, some, List, [], ◌∷◌, Bytes, ascii}
use schroedinger_sync.Disk.{Disk, write_file, remove_reported}
use schroedinger_sync.Process.{Process, Ending, returns, fatal}
use schroedinger_sync.Launcher.{launcher_of}

-- The last element of `startupVbsPath`.
abbrev pub startup_vbs_name : Bytes
startup_vbs_name = ascii "GSOC-Schroedinger-Sync.vbs"

-- `os.Args[2]`, if it is there.
unfoldable pub out_dir_of : List Bytes → Bytes
out_dir_of (_ ∷ out_dir ∷ _) = out_dir
out_dir_of _ = []

module _ {N : Type 0} (close : N → N) where
  unfoldable pub launcher_written : Bool × Disk → Process N → Ending N × Disk
  launcher_written (true, d) p = (returns p, d)
  launcher_written (false, d) p = (fatal close (ascii "FAIL @write startup launcher:") p, d)

  unfoldable pub launcher_made : Option Bytes → Disk → Process N → Ending N × Disk
  launcher_made none d p = (fatal close (ascii "FAIL: outDir must not contain a line break:") p, d)
  launcher_made (some content) d p = launcher_written (write_file startup_vbs_name content d) p

  -- `installTask`, on the path of the program and its arguments.
  unfoldable pub install_task : Option Bytes → List Bytes → Disk → Process N → Ending N × Disk
  unfolding launcher_made launcher_written out_dir_of
  install_task none args d p = (fatal close (ascii "FAIL: cannot resolve own path:") p, d)
  install_task (some exe) args d p = launcher_made (launcher_of exe (out_dir_of args)) d p

-- `uninstallTask`; an error is only printed.
unfoldable pub uninstall_task : Disk → Bool × Disk
uninstall_task d = remove_reported startup_vbs_name d
