-- ===== src/Launcher/Installed.antt =====
-- What installing and uninstalling leave in the Startup folder.
use mathlib.Core.Path.{subst}
use schroedinger_sync.Base.{
  ◌≡◌, refl, ◌∙◌, arith, Bool, true, false, Option, none, some, List, if◌then◌else◌, Bytes, ascii,
  ◌=?◌, =?_iff, Bool-cases, inl, inr,
}
use schroedinger_sync.Disk.{Disk, write_file}
use schroedinger_sync.Disk.Atomic.{at, at-write_file, write_file-done, at-remove_reported}
use schroedinger_sync.Process.{Process, Ending, fatal}
use schroedinger_sync.Process.Endings.{status}
use schroedinger_sync.Launcher.{launcher_of}
use schroedinger_sync.Launcher.Task.{
  startup_vbs_name, out_dir_of, launcher_written, launcher_made, install_task, uninstall_task,
}

module _ {N : Type 0} (close : N → N) where
  -- The folder behind an installation that has succeeded: the launcher `made`, and what was there.
  abbrev Installs : Option Bytes → Disk → Ending N × Disk → Type 0
  Installs made d r =
      status r.0 ≡ 0 → (k : Bytes) → at k r.1 ≡ (if startup_vbs_name =? k then made else at k d)

  fatal-status : (message : Bytes) (p : Process N) → status (fatal close message p) ≡ 1
  unfolding fatal
  fatal-status message p = refl

  failed : {T : Type 0} (message : Bytes) (p : Process N) → status (fatal close message p) ≡ 0 → T
  failed message p h = absurd (omega (arith, fatal-status message p))

  launcher_written-Installs :
      (content : Bytes) (d : Disk) (p : Process N)
      → Installs (some content) d (launcher_written close (write_file startup_vbs_name content d) p)
  launcher_written-Installs content d p =
      by_case (write_file startup_vbs_name content d) (write_file-done startup_vbs_name content d)
        (λ k. at-write_file k startup_vbs_name content d)
    where
      by_case :
          (w : Bool × Disk)
          → (w.0 ≡ true → at startup_vbs_name w.1 ≡ some content)
          → ((k : Bytes) → (startup_vbs_name =? k) ≡ false → at k w.1 ≡ at k d)
          → Installs (some content) d (launcher_written close w p)
      by_case (false, e) here others h k =
          unfold launcher_written in failed (ascii "FAIL @write startup launcher:") p h
      by_case (true, e) here others h k = elim (Bool-cases (startup_vbs_name =? k)) [
        | inl same ↦
            unfold launcher_written in
            rw same
              (subst (λ j. at j e ≡ some content) ((=?_iff startup_vbs_name k).0 same) (here refl))
        | inr other ↦ unfold launcher_written in rw other (others k other)
      ]

  launcher_made-Installs :
      (made : Option Bytes) (d : Disk) (p : Process N)
      → Installs made d (launcher_made close made d p)
  unfolding launcher_made
  launcher_made-Installs none d p h k = failed _ p h
  launcher_made-Installs (some content) d p h k = launcher_written-Installs content d p h k

  module _ (exe : Bytes) (args : List Bytes) (d : Disk) (p : Process N)
      (installed : status (install_task close (some exe) args d p).0 ≡ 0) where
    -- An installation that exits with the status 0 has left the launcher for the given directory in the
    -- Startup folder, and every other file there as it was.
    pub install_task-installed :
        (k : Bytes)
        → at k (install_task close (some exe) args d p).1
          ≡ (if startup_vbs_name =? k then launcher_of exe (out_dir_of args) else at k d)
    unfolding install_task
    install_task-installed = launcher_made-Installs _ d p installed

    -- Where the uninstallation that follows reports success, the launcher is gone, and every other file
    -- of the Startup folder is as it was before the installation.
    pub uninstall_task-install_task :
        (k : Bytes)
        → (uninstall_task (install_task close (some exe) args d p).1).0 ≡ true
        → at k (uninstall_task (install_task close (some exe) args d p).1).1
          ≡ (if startup_vbs_name =? k then none else at k d)
    unfolding uninstall_task
    uninstall_task-install_task k removed =
        at-remove_reported k startup_vbs_name (install_task close (some exe) args d p).1
        ∙ elim (Bool-cases (startup_vbs_name =? k)) [
          | inl same ↦ rw (removed, same) refl
          | inr other ↦ rw (removed, other) (install_task-installed k ∙ rw other refl)
        ]
