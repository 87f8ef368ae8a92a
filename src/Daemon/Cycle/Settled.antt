-- ===== src/Daemon/Cycle/Settled.antt =====
-- daemon.go: the part of `runCycle` about the conversations, twice in a row.
use schroedinger_sync.Base.{
  ℕ, ◌≡◌, refl, arith, true, false, Option, none, some, any, is_empty, Bytes, ◌=?◌, =?_refl,
}
use schroedinger_sync.Result.{Error, Result}
use schroedinger_sync.Fetch.{Session}
use schroedinger_sync.Disk.{Disk}
use schroedinger_sync.State.{SyncState, state_file_name, load_state, save_state}
use schroedinger_sync.State.RoundTrip.{IsPlain, load_state-save_state}
use schroedinger_sync.Sync.{Sync}
use schroedinger_sync.Daemon.Decisions.{cookie_watermark}
use schroedinger_sync.Daemon.Cycle.{
  Outside, no_activity, sync_due, cycle_status, save_if, chats_done, chat_cycle, harvest_once,
}

-- The state that a pass without an error puts down.
abbrev pub settled_state : {N : Type 0} → Outside → Sync N → SyncState
settled_state o y = record (y.state) {
  last_sync = o.sync_time;
  last_cookie_mod = o.cookie_mod;
  retry_cycles = 0;
}

cycle_status-settled :
    {N : Type 0} (o : Outside) (y : Sync N)
    → y.err_n ≡ 0
    → (cycle_status o (none, y)).1 ≡ some (settled_state o y)
unfolding cycle_status cookie_watermark
cycle_status-settled o y clean = rw clean refl

-- Nothing is due on that state while the cookie file keeps its time.
sync_due-settled :
    {N : Type 0} (o : Outside) (y : Sync N)
    → IsPlain (settled_state o y)
    → (save_state (settled_state o y) y.disk).0 ≡ true
    → any (λ l. l =? state_file_name) (save_state (settled_state o y) y.disk).1.locked ≡ false
    → is_empty o.sync_time ≡ false
    → sync_due o.cookie_mod (load_state (save_state (settled_state o y) y.disk).1) ≡ false
unfolding sync_due
sync_due-settled o y plain saved readable timed =
    let (time, cookie, _, _, _) =
      load_state-save_state (settled_state o y) y.disk plain saved readable in
    rw (time, cookie, timed, =?_refl o.cookie_mod) (ground arith)

module _ {N : Type 0} (get : Bytes → N → Result Bytes × N) (open_session : N → Option Error × N)
    (close_session : N → N) (hash_content : Bytes → Bytes) (fuel : ℕ) where
  -- Where a sync is due, and the harvest ends without an error, and the state that then holds (its
  -- texts in ASCII, every conversation once, a time that is not empty) is saved and can be read, the
  -- part of the cycle about the conversations puts that state down, and the same part of the next
  -- cycle, run on what it left, does nothing as long as the cookie file keeps its time. The refresh
  -- of the surfaces is not meant.
  pub chat_cycle-settled :
      (o o' : Outside) (y : Sync N) (σ : Session N) (d : Disk)
      → sync_due o.cookie_mod (load_state d) ≡ true
      → harvest_once get open_session close_session hash_content fuel (load_state d) σ d
        ≡ some (none, y)
      → y.err_n ≡ 0
      → IsPlain (settled_state o y)
      → (save_state (settled_state o y) y.disk).0 ≡ true
      → any (λ l. l =? state_file_name) (save_state (settled_state o y) y.disk).1.locked ≡ false
      → is_empty o.sync_time ≡ false
      → o'.cookie_mod ≡ o.cookie_mod
      → (chat_cycle get open_session close_session hash_content fuel o σ d
          ≡ some (
            (cycle_status o (none, y)).0,
            (y.session, (save_state (settled_state o y) y.disk).1),
          ))
        × (chat_cycle get open_session close_session hash_content fuel o' y.session
              (save_state (settled_state o y) y.disk).1
            ≡ some (no_activity, (y.session, (save_state (settled_state o y) y.disk).1)))
  unfolding chat_cycle chats_done save_if
  chat_cycle-settled o o' y σ d due harvested clean plain saved readable timed same = (
    rw (due, harvested, chats_done, cycle_status-settled o y clean) refl,
    rw (same, sync_due-settled o y plain saved readable timed) refl,
  )
