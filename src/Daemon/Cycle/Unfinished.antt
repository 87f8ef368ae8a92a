-- ===== src/Daemon/Cycle/Unfinished.antt =====
-- daemon.go: the state file behind a whole cycle whose harvest did not finish.
use schroedinger_sync.Base.{◌≡◌, ◌⊎◌, Option, some, Bytes}
use schroedinger_sync.Result.{Error, Result}
use schroedinger_sync.Disk.{Disk}
use schroedinger_sync.Disk.Atomic.{at}
use schroedinger_sync.State.{state_file_name, state_text, load_state}
use schroedinger_sync.Daemon.Cycle.{Outside}

module _ {N : Type 0} (get : Bytes → N → Result Bytes × N) (open_session : N → Option Error × N)
    (close_session : N → N) (hash_content : Bytes → Bytes) where
  -- The state file of `f` is the one of `d`, or the text of the state that was read from it, with
  -- nothing but the time of the last refresh of the surfaces set.
  abbrev pub IsTouched : Outside → Disk → Disk → Type 0
  IsTouched o d f =
      (at state_file_name f ≡ at state_file_name d)
      ⊎ ((e : Disk) × (at state_file_name e ≡ at state_file_name d)
          × (at state_file_name f
              ≡ some (state_text (record (load_state e) { last_surfaces = o.surfaces_time }))))
