-- ===== src/Tests/Installing.antt =====
-- The autostart launcher and the process list, run.
use schroedinger_sync.Base.{ℕ, ◌≡◌, refl, false, some, List, [], ◌∷◌, Bytes, ascii, ◌=?◌}
use schroedinger_sync.Base.Map.{lookup, insert}
use schroedinger_sync.Disk.{Disk, write_file, remove_reported}
use schroedinger_sync.Disk.Atomic.{at}
use schroedinger_sync.Launcher.{out_dir_has_line_break, launcher_of}
use schroedinger_sync.Launcher.Task.{startup_vbs_name, out_dir_of, install_task, uninstall_task}
use schroedinger_sync.Launcher.Installed.{install_task-installed, uninstall_task-install_task}
use schroedinger_sync.Process.{Process}
use schroedinger_sync.Tests.Server.{session, empty_disk}

-- The Startup folder of another program.
abbrev startup : Disk
startup = record empty_disk { files = (ascii "a.lnk", ascii "x") ∷ [] }

abbrev process : Process ℕ
process = record { session = session; disk = empty_disk; secrets = []; active = false; events = [] }

abbrev arguments : List Bytes
arguments = ascii "install-task" ∷ ascii "d" ∷ []

abbrev installed : Disk
installed = (install_task (λ (n : ℕ). n) (some (ascii "e")) arguments startup process).1

install_task-installed_example : at startup_vbs_name installed ≡ launcher_of (ascii "e") (ascii "d")
unfolding ◌=?◌ install_task write_file launcher_of out_dir_of out_dir_has_line_break
install_task-installed_example =
    install_task-installed (λ (n : ℕ). n) (ascii "e") arguments startup process refl
      startup_vbs_name

uninstall_task-install_task_example :
    at (ascii "a.lnk") (uninstall_task installed).1 ≡ some (ascii "x")
unfolding ◌=?◌ install_task uninstall_task write_file remove_reported lookup insert launcher_of
    out_dir_of out_dir_has_line_break
uninstall_task-install_task_example =
    uninstall_task-install_task (λ (n : ℕ). n) (ascii "e") arguments startup process refl
      (ascii "a.lnk") refl
