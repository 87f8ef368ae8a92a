-- ===== src/Daemon/Cycle/StateFile.antt =====
-- daemon.go: the state file behind the part of `runCycle` about the conversations.
use schroedinger_sync.Base.{
  ℕ, ◌≡◌, Bool, refl, sym, ◌∙◌, ap, true, false, Option, none, some, List, [], ◌∷◌, all, arith, inl,
  inr, Bool-cases, Bytes, ascii, ◌=?◌,
}
use mathlib.Core.Option.{some-injective}
use schroedinger_sync.Text.Search.{has_prefix}
use schroedinger_sync.Result.{Error, Result, ok, err}
use schroedinger_sync.Api.{ConvSummary}
use schroedinger_sync.Names.Visible.{conv_filename-visible}
use schroedinger_sync.Fetch.{Session, resolve_org, list_all_conversations}
use schroedinger_sync.Disk.{Disk, mkdir_all}
use schroedinger_sync.Disk.Atomic.{at}
use schroedinger_sync.Integrity.Laws.{IsExport}
use schroedinger_sync.State.{SyncState, state_file_name, load_state}
use schroedinger_sync.Sync.{Sync}
use schroedinger_sync.Sync.Effects.{spared, sync_conversations-keeps_file}
use schroedinger_sync.Daemon.Cycle.{
  Outside, Status, synced, no_activity, item_delay, fresh_sync, sync_due, cycle_status,
  harvest_listed, harvest_org, harvest_listing, harvest_opened, torn_down, chats_done, harvest_once,
  chat_cycle, save_if,
}

-- The state file is no export's.
pub state_file-IsExport : IsExport state_file_name
state_file-IsExport = (unfold has_prefix in refl, unfold ◌=?◌ in refl)

-- Did the cycle end with a finished harvest?
abbrev pub is_synced : Status → Bool
is_synced (synced _ _ _ _) = true
is_synced _ = false

state_file-spared : (cs : List ConvSummary) → spared state_file_name cs ≡ true
state_file-spared [] = refl
state_file-spared (c ∷ cs) =
    ground (arith, conv_filename-visible c (ascii "sync-state.json"), state_file-spared cs)

module _ {N : Type 0} (get : Bytes → N → Result Bytes × N) (open_session : N → Option Error × N)
    (close_session : N → N) (hash_content : Bytes → Bytes) where
  abbrev pub Kept : Disk → Option (Option Error × Sync N) → Type 0
  Kept d none = Unit
  Kept d (some (e, y)) = at state_file_name y.disk ≡ at state_file_name d

  harvest_listed-Kept :
      (org : Bytes) (s : SyncState) (d : Disk) (listed : Result (List ConvSummary) × Session N)
      → at state_file_name
          (harvest_listed get open_session close_session hash_content org s d listed).1.disk
        ≡ at state_file_name d
  unfolding harvest_listed fresh_sync
  harvest_listed-Kept org s d (err e, σ) = refl
  harvest_listed-Kept org s d (ok all, σ) =
      sync_conversations-keeps_file get hash_content org item_delay state_file_name
        state_file-IsExport all _ (state_file-spared all)

  harvest_org-Kept :
      (fuel : ℕ) (s : SyncState) (d : Disk) (org : Result Bytes × Session N)
      → Kept d (harvest_org get open_session close_session hash_content fuel s d org)
  unfolding harvest_org harvest_listing fresh_sync
  harvest_org-Kept fuel s d (err e, σ) = refl
  harvest_org-Kept fuel s d (ok org, σ) = listing (list_all_conversations get fuel org σ)
    where
      listing :
          (l : Option (Result (List ConvSummary) × Session N))
          → Kept d (harvest_listing get open_session close_session hash_content org s d l)
      listing none = tt
      listing (some listed) = harvest_listed-Kept org s d listed

  torn_down-Kept :
      (d : Disk) (h : Option (Option Error × Sync N))
      → Kept d h
      → Kept d (torn_down get open_session close_session hash_content h)
  unfolding torn_down
  torn_down-Kept d none k = tt
  torn_down-Kept d (some (e, y)) k = k

  harvest_opened-Kept :
      (fuel : ℕ) (s : SyncState) (d : Disk) (opened : Option Error × Session N)
      → Kept d (harvest_opened get open_session close_session hash_content fuel s d opened)
  unfolding harvest_opened fresh_sync
  harvest_opened-Kept fuel s d (some e, σ) = refl
  harvest_opened-Kept fuel s d (none, σ) =
      torn_down-Kept d _ (harvest_org-Kept fuel s d (resolve_org get σ))

  pub harvest_once-Kept :
      (fuel : ℕ) (s : SyncState) (σ : Session N) (d : Disk)
      → Kept d (harvest_once get open_session close_session hash_content fuel s σ d)
  unfolding harvest_once mkdir_all fresh_sync
  harvest_once-Kept fuel s σ d = elim (Bool-cases (mkdir_all d).0) [
    | inl made ↦ rw (made, harvest_once) (harvest_opened-Kept fuel s _ _)
    | inr failed ↦ rw (failed, harvest_once) refl
  ]

  chats_done_keeps :
      (o : Outside) (d : Disk) (h : Option (Option Error × Sync N)) (status : Status)
      (w : Session N × Disk)
      → Kept d h
      → chats_done get open_session close_session hash_content o h ≡ some (status, w)
      → is_synced status ≡ false
      → at state_file_name w.1 ≡ at state_file_name d
  unfolding chats_done cycle_status save_if
  chats_done_keeps o d none status w k h no' = cc
  chats_done_keeps o d (some (some e, y)) status w k h no' =
      ap (λ p. at state_file_name p.1.1) (sym (some-injective _ (status, w) h)) ∙ k
  chats_done_keeps o d (some (none, y)) status w k h no' =
      let finished : is_synced status ≡ true =
        ap (λ p. is_synced p.0) (sym (some-injective _ (status, w) h)) in
      cc

  -- The part of a cycle about the conversations leaves the state file as it was where its harvest is
  -- not finished, for whatever reason. The part about the surfaces, which follows, is not meant.
  pub chat_cycle-keeps_state :
      (fuel : ℕ) (o : Outside) (σ : Session N) (d : Disk) (status : Status) (w : Session N × Disk)
      → chat_cycle get open_session close_session hash_content fuel o σ d ≡ some (status, w)
      → is_synced status ≡ false
      → at state_file_name w.1 ≡ at state_file_name d
  unfolding chat_cycle
  chat_cycle-keeps_state fuel o σ d status w h no' =
      elim (Bool-cases (sync_due o.cookie_mod (load_state d))) [
        | inl due ↦
            let done : chats_done get open_session close_session hash_content o
                  (harvest_once get open_session close_session hash_content fuel (load_state d) σ d)
                ≡ some (status, w) =
              rw (due, chat_cycle) at h in
            chats_done_keeps o d _ status w (harvest_once-Kept fuel (load_state d) σ d) done no'
        | inr rest ↦
            let same : some (no_activity, (σ, d)) ≡ some (status, w) = rw (rest, chat_cycle) at h in
            ap (λ p. at state_file_name p.1.1) (sym (some-injective _ (status, w) same))
      ]
