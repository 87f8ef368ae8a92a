-- ===== src/Tests/Residues.antt =====
-- The sweep of temporary directories, run.
use schroedinger_sync.Base.{
  ℕ, ◌≡◌, refl, Bool, true, false, Option, some, if◌then◌else◌, arith, [], ◌∷◌, List, ◌==◌, ascii,
  ◌=?◌,
}
use schroedinger_sync.Base.Map.{lookup}
use schroedinger_sync.Text.Decimal.{show}
use schroedinger_sync.Cleanup.{plain, reparse_point, Profile, Leftover, Residue, cleanup_temp}
use schroedinger_sync.Cleanup.Windows.{process_alive, cleanup_temp-living}
use schroedinger_sync.Cleanup.Spared.{node_at}

-- Process 7 is alive, process 8 is gone.
abbrev alive : ℕ → Bool
alive pid = pid == 7

abbrev profiles : List Profile
profiles =
    record { path = ascii "c/7"; name = ascii "7"; is_dir = true }
    ∷ record { path = ascii "c/8"; name = ascii "8"; is_dir = true }
    ∷ []

abbrev leftovers : List Leftover
leftovers = record { path = ascii "t/x"; age = some 301 } ∷ []

abbrev residue : Residue
residue = record {
  nodes = (ascii "c/7", plain) ∷ (ascii "c/8", plain) ∷ (ascii "t/x", reparse_point) ∷ [];
  outcomes = [];
  removed = 0;
  err_n = 0;
}

-- The process list of Windows: process 7 is active, process 8 has exited.
abbrev exit_code : ℕ → Option ℕ
exit_code handle = some (if handle == 7 then 259 else 0)

cleanup_temp-living_example :
    node_at
      (ascii "c/7")
      (cleanup_temp false (process_alive (λ pid. some pid) exit_code) profiles leftovers residue)
    ≡ some plain
unfolding process_alive lookup ◌=?◌ show
cleanup_temp-living_example =
    cleanup_temp-living (process_alive (λ pid. some pid) exit_code) 7 refl (omega arith)
      (ascii "c/7") false profiles leftovers residue refl refl
