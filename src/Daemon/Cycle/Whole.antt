-- ===== src/Daemon/Cycle/Whole.antt =====
-- daemon.go: the state file behind a cycle of `runCycle`.
use mathlib.Core.Path.{subst}
use mathlib.Core.Option.{some-injective}
use schroedinger_sync.Base.{
  ℕ, ◌≡◌, ◌⊎◌, refl, sym, ◌∙◌, ap, Bool, true, false, Option, none, some, if◌then◌else◌, Bytes,
  ascii, =?_refl, Bool-cases, inl, inr,
}
use schroedinger_sync.Text.Search.{has_prefix}
use schroedinger_sync.Result.{Error, Result, ok, err}
use schroedinger_sync.Fetch.{Session, resolve_org}
use schroedinger_sync.Disk.{Disk}
use schroedinger_sync.Disk.Atomic.{at, at-save_atomically}
use schroedinger_sync.State.{
  SyncState, state_file_name, state_prefix, state_text, load_state, save_state,
}
use schroedinger_sync.Sync.{Sync}
use schroedinger_sync.Surfaces.{harvest_projects}
use schroedinger_sync.Surfaces.Effects.{harvest_projects-keeps_file, harvest_memory-keeps_file}
use schroedinger_sync.Daemon.Cycle.{
  Outside, Status, desktop_busy, save_if, cycle_status, chats_done, sync_due, chat_cycle,
  surfaces_of, refresh_surfaces, surfaces_due, surfaces_cycle, run_cycle,
}
use schroedinger_sync.Daemon.Cycle.StateFile.{state_file-IsExport, Kept, harvest_once-Kept}

-- Behind `d` the state file is as it was, or whole.
abbrev pub IsWhole : Disk → Disk → Type 0
IsWhole d e =
    (at state_file_name e ≡ at state_file_name d)
    ⊎ ((s : SyncState) × (at state_file_name e ≡ some (state_text s)))

pub IsWhole-trans : (d e f : Disk) → IsWhole d e → IsWhole e f → IsWhole d f
IsWhole-trans d e f (inl same) (inl same') = inl (same' ∙ same)
IsWhole-trans d e f (inr (s, h)) (inl same') = inr (s, same' ∙ h)
IsWhole-trans d e f p (inr (s, h)) = inr (s, h)

pub save_state-whole :
    (s : SyncState) (d : Disk)
    → (at state_file_name (save_state s d).1 ≡ at state_file_name d)
      ⊎ (at state_file_name (save_state s d).1 ≡ some (state_text s))
unfolding save_state
save_state-whole s d =
    let saved =
      at-save_atomically state_file_name state_prefix state_file_name (state_text s) d
        (unfold has_prefix in refl) in
    elim (Bool-cases (save_state s d).0) [
      | inl done ↦ inr (saved ∙ rw (done, =?_refl state_file_name) refl)
      | inr failed ↦ inl (saved ∙ rw failed refl)
    ]

save_state-IsWhole : (s : SyncState) (d : Disk) → IsWhole d (save_state s d).1
save_state-IsWhole s d = elim (save_state-whole s d) [ inl old ↦ inl old | inr new ↦ inr (s, new) ]

save_if-IsWhole : (s : Option SyncState) (d : Disk) → IsWhole d (save_if s d)
unfolding save_if
save_if-IsWhole none d = inl refl
save_if-IsWhole (some s) d = save_state-IsWhole s d

module _ {N : Type 0} (get : Bytes → N → Result Bytes × N) (open_session : N → Option Error × N)
    (close_session : N → N) (hash_content : Bytes → Bytes) where
  -- How a cycle that ends leaves the disk.
  abbrev Ends : Disk → Option (Status × (Session N × Disk)) → Type 0
  Ends d none = Unit
  Ends d (some (status, (σ, e))) = IsWhole d e

  chats_done-Ends :
      (o : Outside) (d : Disk) (h : Option (Option Error × Sync N))
      → Kept get open_session close_session hash_content d h
      → Ends d (chats_done get open_session close_session hash_content o h)
  unfolding chats_done
  chats_done-Ends o d none k = tt
  chats_done-Ends o d (some (e, y)) k =
      IsWhole-trans d y.disk (save_if (cycle_status o (e, y)).1 y.disk) (inl k)
        (save_if-IsWhole (cycle_status o (e, y)).1 y.disk)

  chat_cycle-Ends :
      (fuel : ℕ) (o : Outside) (σ : Session N) (d : Disk)
      → Ends d (chat_cycle get open_session close_session hash_content fuel o σ d)
  unfolding chat_cycle
  chat_cycle-Ends fuel o σ d = elim (Bool-cases (sync_due o.cookie_mod (load_state d))) [
    | inl due ↦
        rw (due, chat_cycle)
          (chats_done-Ends o d _
            (harvest_once-Kept get open_session close_session hash_content fuel (load_state d) σ d))
    | inr idle ↦ rw (idle, chat_cycle) (inl refl)
  ]

  surfaces_of-keeps_file :
      (now : Bytes) (r : Result Bytes) (σ : Session N) (d : Disk)
      → at state_file_name
          (surfaces_of get open_session close_session hash_content now (r, σ) d).1.1
        ≡ at state_file_name d
  unfolding surfaces_of
  surfaces_of-keeps_file now (err e) σ d = refl
  surfaces_of-keeps_file now (ok org) σ d =
      let p = harvest_projects get hash_content org σ d in
      harvest_memory-keeps_file get hash_content (ascii "sync-state.json") state_file-IsExport org
        now p.session p.disk
      ∙ harvest_projects-keeps_file get hash_content (ascii "sync-state.json") state_file-IsExport
          org σ d

  pub refresh_surfaces-keeps_file :
      (now : Bytes) (σ : Session N) (d : Disk)
      → at state_file_name
          (refresh_surfaces get open_session close_session hash_content now σ d).1.1
        ≡ at state_file_name d
  unfolding refresh_surfaces
  refresh_surfaces-keeps_file now σ d = cases (open_session σ.net).0
    where
      opened : Session N
      opened = record σ { net = (open_session σ.net).1 }

      done : Bool × (Session N × Disk)
      done = surfaces_of get open_session close_session hash_content now (resolve_org get opened) d

      cases :
          (failure : Option Error)
          → at state_file_name
              (elim failure as (λ _. Bool × (Session N × Disk)) [
                | some _ ↦ (false, (opened, d))
                | none ↦
                    (done.0, (record (done.1.0) { net = close_session done.1.0.net }, done.1.1))
              ]).1.1
            ≡ at state_file_name d
      cases (some e) = refl
      cases none =
          surfaces_of-keeps_file now (resolve_org get opened).0 (resolve_org get opened).1 d

  surfaces_cycle-IsWhole :
      (age : Bytes → Option ℕ) (o : Outside) (w : Session N × Disk)
      → IsWhole w.1 (surfaces_cycle get open_session close_session hash_content age o w).1
  unfolding surfaces_cycle
  surfaces_cycle-IsWhole age o (σ, d) = elim (Bool-cases (surfaces_due age (load_state d))) [
    | inl due ↦ rw due (refreshed result (refresh_surfaces-keeps_file o.memory_time σ d))
    | inr rest ↦ rw rest (inl refl)
  ]
    where
      result : Bool × (Session N × Disk)
      result = refresh_surfaces get open_session close_session hash_content o.memory_time σ d

      again : SyncState
      again = record (load_state d) { last_surfaces = o.surfaces_time }

      refreshed :
          (r : Bool × (Session N × Disk))
          → at state_file_name r.1.1 ≡ at state_file_name d
          → IsWhole d (if r.0 then (save_state again r.1.1).1 else r.1.1)
      refreshed r kept = elim (Bool-cases r.0) [
        | inl complete ↦ rw complete (
            IsWhole-trans d r.1.1 (save_state again r.1.1).1 (inl kept)
              (save_state-IsWhole again r.1.1))
        | inr partial ↦ rw partial (inl kept)
      ]

  -- A cycle that ends leaves the state file as it was, or as the whole text of a state, whatever the
  -- server and the disk answer.
  pub run_cycle-IsWhole :
      (fuel : ℕ) (age : Bytes → Option ℕ) (o : Outside) (σ τ : Session N) (d e : Disk)
      (status : Status)
      → run_cycle get open_session close_session hash_content fuel age o σ d ≡ some (status, (τ, e))
      → IsWhole d e
  unfolding run_cycle
  run_cycle-IsWhole fuel age o σ τ d e status = started o.desktop_running
    where
      chats : Option (Status × (Session N × Disk))
      chats = chat_cycle get open_session close_session hash_content fuel o σ d

      from_chats :
          (chats : Option (Status × (Session N × Disk)))
          → Ends d chats
          → elim chats as (λ _. Option (Status × (Session N × Disk))) [
            | none ↦ none
            | some (s, w) ↦
                some (s, surfaces_cycle get open_session close_session hash_content age o w)
          ]
            ≡ some (status, (τ, e))
          → IsWhole d e
      from_chats none ends h = absurd (cc h)
      from_chats (some (s, (ρ, f))) ends h =
          let later = surfaces_cycle get open_session close_session hash_content age o (ρ, f) in
          let same : later.1 ≡ e = ap (λ w. w.1.1) (some-injective (s, later) (status, (τ, e)) h) in
          subst (IsWhole d) same
            (IsWhole-trans d f later.1 ends (surfaces_cycle-IsWhole age o (ρ, f)))

      started :
          (busy : Bool)
          → (if busy
              then some (desktop_busy, (σ, d))
              else elim chats as (λ _. Option (Status × (Session N × Disk))) [
                | none ↦ none
                | some (s, w) ↦
                    some (s, surfaces_cycle get open_session close_session hash_content age o w)
              ])
            ≡ some (status, (τ, e))
          → IsWhole d e
      started true h =
          inl (ap (λ w. at state_file_name w.1.1) (sym (some-injective _ (status, (τ, e)) h)))
      started false h = from_chats chats (chat_cycle-Ends fuel o σ d) h
