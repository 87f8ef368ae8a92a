-- ===== src/Daemon/Cycle.antt =====
-- daemon.go: `harvestOnce`, `refreshSurfaces` and `runCycle`. Chrome's session, the processes and
-- the clock are parameters; what is only logged is left out.
pub mod StateFile
pub mod Settled
pub mod Whole
pub mod Refreshed
pub mod Repeated
pub mod Unfinished
use schroedinger_sync.Base.{
  ℕ, ◌+◌, ◌*◌, Bool, true, false, not, ◌&&◌, ◌||◌, Option, none, some, List, if◌then◌else◌, ltb,
  leb, is_empty, Bytes, ascii, ◌=?◌,
}
use schroedinger_sync.Result.{Error, other, is_desktop_not_found, Result, ok, err}
use schroedinger_sync.Api.{ConvSummary}
use schroedinger_sync.Fetch.{Session, resolve_org, list_all_conversations}
use schroedinger_sync.Disk.{Disk, mkdir_all}
use schroedinger_sync.State.{SyncState, load_state, save_state}
use schroedinger_sync.Sync.{Sync, sync_conversations}
use schroedinger_sync.Surfaces.{harvest_projects, harvest_memory}
use schroedinger_sync.Daemon.Decisions.{cookie_watermark}

-- What the outside shows in one cycle: the process list, the cookie file's time ("" if there is
-- none), and the times at which the two refreshes are recorded.
pub record Outside : Type 0 where
  pub desktop_running : Bool
  pub cookie_mod : Bytes
  pub sync_time : Bytes
  pub memory_time : Bytes
  pub surfaces_time : Bytes

-- The status line of a cycle, by what it says.
pub data Status : Type 0 where
  desktop_busy no_activity desktop_missing : Status
  sync_failed : Error → Status
  synced : ℕ → ℕ → ℕ → ℕ → Status

-- `itemDelay` in milliseconds
abbrev pub item_delay : ℕ
item_delay = 1200

-- `surfacesRefreshEvery` in seconds
abbrev pub surfaces_refresh_every : ℕ
surfaces_refresh_every = 24 * 3600

unfoldable pub fresh_sync : {N : Type 0} → Session N → Disk → SyncState → Sync N
fresh_sync σ d s = record {
  session = σ;
  disk = d;
  state = s;
  new_n = 0;
  changed_n = 0;
  seed_n = 0;
  err_n = 0;
}

-- Is an activity or a first sync due? `activity || first`
unfoldable pub sync_due : Bytes → SyncState → Bool
sync_due cookie s =
    not (is_empty cookie) && not (cookie =? s.last_cookie_mod) || is_empty s.last_sync

-- `dueSurfaces`; `age` gives the seconds since a time, `none` if it is no time.
unfoldable pub surfaces_due : (Bytes → Option ℕ) → SyncState → Bool
surfaces_due age s = if is_empty s.last_surfaces then true else elim (age s.last_surfaces) [
  | some seconds ↦ leb surfaces_refresh_every seconds
  | none ↦ true
]

save_if : Option SyncState → Disk → Disk
save_if none d = d
save_if (some s) d = (save_state s d).1

module _ {N : Type 0} where
  -- The status and the state to save behind `harvestOnce`, `none` if it is not saved.
  unfoldable pub cycle_status : Outside → Option Error × Sync N → Status × Option SyncState
  cycle_status o (some e, y) =
      (if is_desktop_not_found e then desktop_missing else sync_failed e, none)
  cycle_status o (none, y) =
      let (watermark, retries) =
        cookie_watermark o.cookie_mod y.state.last_cookie_mod (ltb 0 (y.new_n + y.changed_n))
          y.err_n y.state.retry_cycles in
      (
        synced y.new_n y.changed_n y.seed_n y.err_n,
        some (record (y.state) {
          last_sync = o.sync_time;
          last_cookie_mod = watermark;
          retry_cycles = retries;
        }),
      )

module _ {N : Type 0} (get : Bytes → N → Result Bytes × N) (open_session : N → Option Error × N)
    (close_session : N → N) (hash_content : Bytes → Bytes) where
  -- Behind `listAllConversations`.
  unfoldable pub harvest_listed :
      Bytes → SyncState → Disk → Result (List ConvSummary) × Session N → Option Error × Sync N
  harvest_listed org s d (err e, σ) = (some e, fresh_sync σ d s)
  harvest_listed org s d (ok all, σ) =
      sync_conversations get hash_content org item_delay all (fresh_sync σ d s)

  -- The listing of the conversations may have run out of fuel.
  harvest_listing :
      Bytes
      → SyncState
      → Disk
      → Option (Result (List ConvSummary) × Session N)
      → Option (Option Error × Sync N)
  harvest_listing org s d none = none
  harvest_listing org s d (some listed) = some (harvest_listed org s d listed)

  -- Behind `resolveOrg`.
  harvest_org : ℕ → SyncState → Disk → Result Bytes × Session N → Option (Option Error × Sync N)
  harvest_org fuel s d (err e, σ) = some (some e, fresh_sync σ d s)
  harvest_org fuel s d (ok org, σ) = harvest_listing org s d (list_all_conversations get fuel org σ)

  -- The deferred `teardown`.
  torn_down : Option (Option Error × Sync N) → Option (Option Error × Sync N)
  torn_down none = none
  torn_down (some (e, y)) =
      some (e, record y { session = record (y.session) { net = close_session y.session.net } })

  -- Behind `openClaudeSession`.
  harvest_opened : ℕ → SyncState → Disk → Option Error × Session N → Option (Option Error × Sync N)
  harvest_opened fuel s d (some e, σ) = some (some e, fresh_sync σ d s)
  harvest_opened fuel s d (none, σ) = torn_down (harvest_org fuel s d (resolve_org get σ))

  -- `harvestOnce`; `none` if the listing runs out of fuel.
  unfoldable pub harvest_once : ℕ → SyncState → Session N → Disk → Option (Option Error × Sync N)
  unfolding harvest_opened harvest_org harvest_listing torn_down
  harvest_once fuel s σ d =
      let (made, e) = mkdir_all d in
      let (failure, n) = open_session σ.net in
      let harvested = harvest_opened fuel s e (failure, record σ { net = n }) in
      if not made then some (some (other (ascii "mkdir")), fresh_sync σ e s) else harvested

  -- `refreshSurfaces` behind `resolveOrg`
  surfaces_of : Bytes → Result Bytes × Session N → Disk → Bool × (Session N × Disk)
  surfaces_of now (err e, σ) d = (false, (σ, d))
  surfaces_of now (ok org, σ) d =
      let p = harvest_projects get hash_content org σ d in
      let (memory, (τ, e)) = harvest_memory get hash_content org now p.session p.disk in
      (leb p.err_n 0 && elim memory [ ok _ ↦ true | err _ ↦ false ], (τ, e))

  -- `refreshSurfaces`: was everything harvested?
  unfoldable pub refresh_surfaces : Bytes → Session N → Disk → Bool × (Session N × Disk)
  unfolding surfaces_of
  refresh_surfaces now σ d =
      let (failure, n) = open_session σ.net in
      let opened = record σ { net = n } in
      let (complete, (τ, e)) = surfaces_of now (resolve_org get opened) d in
      elim failure [
        | some _ ↦ (false, (opened, d))
        | none ↦ (complete, (record τ { net = close_session τ.net }, e))
      ]

  -- Behind `harvestOnce` in `runCycle`.
  chats_done : Outside → Option (Option Error × Sync N) → Option (Status × (Session N × Disk))
  unfolding save_if
  chats_done o none = none
  chats_done o (some h) =
      let (status, state) = cycle_status o h in some (status, (h.1.session, save_if state h.1.disk))

  -- The part of `runCycle` about the conversations.
  unfoldable pub chat_cycle : ℕ → Outside → Session N → Disk → Option (Status × (Session N × Disk))
  unfolding chats_done
  chat_cycle fuel o σ d =
      let s = load_state d in
      let done = chats_done o (harvest_once fuel s σ d) in
      if sync_due o.cookie_mod s then done else some (no_activity, (σ, d))

  -- The part about project documents and memory.
  unfoldable pub surfaces_cycle : (Bytes → Option ℕ) → Outside → Session N × Disk → Session N × Disk
  surfaces_cycle age o (σ, d) =
      let s = load_state d in
      let (complete, (τ, e)) = refresh_surfaces o.memory_time σ d in
      if surfaces_due age s
      then (
        τ,
        if complete then (save_state (record s { last_surfaces = o.surfaces_time }) e).1 else e,
      )
      else (σ, d)

  -- `runCycle`: the status, and what is left of session and disk.
  unfoldable pub run_cycle :
      ℕ → (Bytes → Option ℕ) → Outside → Session N → Disk → Option (Status × (Session N × Disk))
  run_cycle fuel age o σ d =
      let chats = chat_cycle fuel o σ d in
      if o.desktop_running
      then some (desktop_busy, (σ, d))
      else elim chats [ none ↦ none | some (status, w) ↦ some (status, surfaces_cycle age o w) ]
