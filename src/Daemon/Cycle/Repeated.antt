-- ===== src/Daemon/Cycle/Repeated.antt =====
-- daemon.go: `runCycle` twice in a row.
use schroedinger_sync.Base.{
  ℕ, ◌<◌, ◌≡◌, refl, arith, true, false, Option, none, some, any, is_empty, Bytes, ◌=?◌,
}
use schroedinger_sync.Result.{Error, Result}
use schroedinger_sync.Fetch.{Session}
use schroedinger_sync.Disk.{Disk}
use schroedinger_sync.State.{SyncState, state_file_name, load_state, save_state}
use schroedinger_sync.State.RoundTrip.{IsPlain, load_state-save_state}
use schroedinger_sync.Sync.{Sync}
use schroedinger_sync.Daemon.Cycle.{
  Outside, Status, no_activity, sync_due, cycle_status, chat_cycle, harvest_once, surfaces_due,
  surfaces_cycle, run_cycle,
}
use schroedinger_sync.Daemon.Cycle.Settled.{settled_state, chat_cycle-settled}

-- The time is one, and less than a day ago.
abbrev pub IsRecent : (Bytes → Option ℕ) → Bytes → Type 0
IsRecent age time =
    (is_empty time ≡ false) × ((seconds : ℕ) × (age time ≡ some seconds) × (seconds < 86400))

surfaces_due-IsRecent :
    (age : Bytes → Option ℕ) (s : SyncState) (time : Bytes)
    → s.last_surfaces ≡ time
    → IsRecent age time
    → surfaces_due age s ≡ false
unfolding surfaces_due
surfaces_due-IsRecent age s time same (given, (seconds, known, recent)) =
    rw (same, given, known) (ground arith)

module _ {N : Type 0} (get : Bytes → N → Result Bytes × N) (open_session : N → Option Error × N)
    (close_session : N → N) (hash_content : Bytes → Bytes) (fuel : ℕ) where
  surfaces_cycle_idle :
      (age : Bytes → Option ℕ) (o : Outside) (σ : Session N) (d : Disk)
      → surfaces_due age (load_state d) ≡ false
      → surfaces_cycle get open_session close_session hash_content age o (σ, d) ≡ (σ, d)
  unfolding surfaces_cycle
  surfaces_cycle_idle age o σ d rest = rw rest refl

  run_cycle_idle :
      (age : Bytes → Option ℕ) (o : Outside) (σ τ : Session N) (d e : Disk) (status : Status)
      → o.desktop_running ≡ false
      → chat_cycle get open_session close_session hash_content fuel o σ d ≡ some (status, (τ, e))
      → surfaces_due age (load_state e) ≡ false
      → run_cycle get open_session close_session hash_content fuel age o σ d ≡ some (status, (τ, e))
  unfolding run_cycle
  run_cycle_idle age o σ τ d e status closed chats rest =
      rw chats (simp (closed, surfaces_cycle_idle age o τ e rest))

  -- While Claude Desktop is closed and the surfaces have been refreshed within a day, at both times:
  -- where a sync is due, and the harvest ends without an error, and the state that then holds (its
  -- texts in ASCII, every conversation once, a time that is not empty) is saved and can be read, the
  -- cycle puts that state down, and the next cycle, run on what it left, does nothing as long as the
  -- cookie file keeps its time.
  pub run_cycle-settled :
      (age age' : Bytes → Option ℕ) (o o' : Outside) (y : Sync N) (σ : Session N) (d : Disk)
      → o.desktop_running ≡ false
      → o'.desktop_running ≡ false
      → IsRecent age y.state.last_surfaces
      → IsRecent age' y.state.last_surfaces
      → sync_due o.cookie_mod (load_state d) ≡ true
      → harvest_once get open_session close_session hash_content fuel (load_state d) σ d
        ≡ some (none, y)
      → y.err_n ≡ 0
      → IsPlain (settled_state o y)
      → (save_state (settled_state o y) y.disk).0 ≡ true
      → any (λ l. l =? state_file_name) (save_state (settled_state o y) y.disk).1.locked ≡ false
      → is_empty o.sync_time ≡ false
      → o'.cookie_mod ≡ o.cookie_mod
      → (run_cycle get open_session close_session hash_content fuel age o σ d
          ≡ some (
            (cycle_status o (none, y)).0,
            (y.session, (save_state (settled_state o y) y.disk).1),
          ))
        × (run_cycle get open_session close_session hash_content fuel age' o' y.session
              (save_state (settled_state o y) y.disk).1
            ≡ some (no_activity, (y.session, (save_state (settled_state o y) y.disk).1)))
  run_cycle-settled age age' o o' y σ d closed closed' recent recent' due harvested clean plain
        saved readable timed same =
      let e = (save_state (settled_state o y) y.disk).1 in
      let (_, _, refreshed, _, _) =
        load_state-save_state (settled_state o y) y.disk plain saved readable in
      let (first, second) =
        chat_cycle-settled get open_session close_session hash_content fuel o o' y σ d due harvested
          clean plain saved readable timed same in
      (
        run_cycle_idle age o σ y.session d e (cycle_status o (none, y)).0 closed first
            (surfaces_due-IsRecent age (load_state e) y.state.last_surfaces refreshed recent),
        run_cycle_idle age' o' y.session y.session e e no_activity closed' second
            (surfaces_due-IsRecent age' (load_state e) y.state.last_surfaces refreshed recent'),
      )
