-- ===== src/Sync/Fresh.antt =====
-- What an export leaves on the disk, as the next pass looks at it.
use schroedinger_sync.Base.{
  ℕ, ◌≡◌, ◌⊎◌, refl, sym, ◌∙◌, ap, Bool, true, false, ◌&&◌, Option, none, some, List, [], ◌∷◌,
  if◌then◌else◌, ltb, length, is_empty, Bytes, ◌=?◌, Bool-cases, Option-cases, inl, inr,
}
use schroedinger_sync.Result.{Error, is_deadline, Result, ok, err}
use schroedinger_sync.Api.{ConvSummary}
use schroedinger_sync.Text.Runes.{trunc}
use schroedinger_sync.Names.{conv_filename}
use schroedinger_sync.Markdown.{conv_to_markdown, file_conv_updated_at}
use schroedinger_sync.Fetch.{Session, fetch_conv_body}
use schroedinger_sync.Disk.{Disk, stat, read_file}
use schroedinger_sync.Disk.Atomic.{at}
use schroedinger_sync.Integrity.Locks.{write_markdown-locked}
use schroedinger_sync.Daemon.Decisions.{
  ConvActionKind, action_fetch, action_skip, action_seed, conv_action,
}
use schroedinger_sync.Sync.{
  Sync, entry, remember, failed, decide, Step, next, abort, written, fetched, fetch_one, act,
  sync_one, sync_conversations, file_ok, file_updated, min_file_size_bytes,
}
use schroedinger_sync.Sync.Loop.{after, count_progress-others}
use schroedinger_sync.Sync.Exports.{sync_one-exported}

-- A file whose text is large enough and carries the conversation's timestamp.
abbrev pub is_fresh : ConvSummary → Option Bytes → Bool
is_fresh c none = false
is_fresh c (some text) =
    ltb min_file_size_bytes (length text)
    && file_conv_updated_at (some text) =? trunc c.updated_at 19

pub fresh_file :
    (c : ConvSummary) (d : Disk)
    → d.locked ≡ []
    → (file_ok (conv_filename c) d && file_updated (conv_filename c) d =? trunc c.updated_at 19)
      ≡ is_fresh c (at (conv_filename c) d)
unfolding file_ok file_updated stat read_file
fresh_file c d open_all = elim (Option-cases (at (conv_filename c) d)) [
  | inl missing ↦ rw (open_all, missing) refl
  | inr (text, there) ↦ rw (open_all, there) (both (ltb min_file_size_bytes (length text)) _ _)
]
  where
    both : (b : Bool) (x t : Bytes) → (b && (if b then x else []) =? t) ≡ (b && x =? t)
    both true x t = refl
    both false x t = refl

-- `convAction` fetches unless the file is fresh.
conv_action-stale :
    (c : ConvSummary) (known : Option Bytes) (ok_file : Bool) (updated : Bytes)
    → (ok_file && updated =? trunc c.updated_at 19) ≡ false
    → conv_action c known ok_file updated ≡ action_fetch
unfolding conv_action
conv_action-stale c none ok_file updated h = rw h refl
conv_action-stale c (some known) ok_file updated h = elim (Bool-cases (known =? c.updated_at)) [
  | inl same ↦ rw (same, h) refl
  | inr moved ↦ rw moved refl
]

pub decide-fresh :
    {N : Type 0} (c : ConvSummary) (y : Sync N)
    → y.disk.locked ≡ []
    → (decide c y ≡ action_fetch) ⊎ (is_fresh c (at (conv_filename c) y.disk) ≡ true)
decide-fresh c y open_all =
    let same = fresh_file c y.disk open_all in
    elim (Bool-cases (is_fresh c (at (conv_filename c) y.disk))) [
      | inl fresh ↦ inr fresh
      | inr stale ↦ inl (conv_action-stale c (entry c y) _ _ (same ∙ stale))
    ]

module _ {N : Type 0} (get : Bytes → N → Result Bytes × N) (hash_content : Bytes → Bytes)
    (org : Bytes) (delay : ℕ) where
  written-locked :
      (c : ConvSummary) (w : Option Bool × Disk) (y : Sync N)
      → (written get hash_content org delay c w y).disk.locked ≡ w.1.locked
  unfolding written failed remember
  written-locked c (none, d) y = refl
  written-locked c (some m, d) y =
      ap (λ e. e.locked) (count_progress-others c (entry c y) (record y { disk = d })).1

  fetched-locked :
      (c : ConvSummary) (r : Result Bytes) (y : Sync N)
      → (after (fetched get hash_content org delay c r y)).disk.locked ≡ y.disk.locked
  unfolding fetched failed
  fetched-locked c (err e) y = elim (Bool-cases (is_deadline e)) [
    | inl h ↦ rw h refl
    | inr h ↦ rw h refl
  ]
  fetched-locked c (ok body) y = elim (Bool-cases (is_empty (conv_to_markdown body))) [
    | inl h ↦ rw h refl
    | inr h ↦ rw h (written-locked c _ y ∙ write_markdown-locked hash_content _ _ y.disk)
  ]

  act-locked :
      (a : ConvActionKind) (c : ConvSummary) (y : Sync N)
      → (after (act get hash_content org delay a c y)).disk.locked ≡ y.disk.locked
  unfolding act fetch_one remember
  act-locked action_skip c y = refl
  act-locked action_seed c y = refl
  act-locked action_fetch c y = fetched-locked c _ _

  -- The texts that the server's answers about a conversation are turned into are fresh.
  abbrev pub IsDated : ConvSummary → Type 0
  IsDated c =
      (σ : Session N) (body : Bytes)
      → (fetch_conv_body get org c.uuid σ).0 ≡ ok body
      → is_empty (conv_to_markdown body) ≡ false
      → is_fresh c (some (conv_to_markdown body)) ≡ true

  -- A step without an error leaves a fresh file.
  pub sync_one-fresh :
      (c : ConvSummary) (y z : Sync N)
      → IsDated c
      → y.disk.locked ≡ []
      → sync_one get hash_content org delay c y ≡ next z
      → z.err_n ≡ y.err_n
      → is_fresh c (at (conv_filename c) z.disk) ≡ true
  unfolding sync_one act remember
  sync_one-fresh c y z dated open_all e calm = by_action (decide c y) refl
    where
      idle :
          (a : ConvActionKind)
          → (a ≡ action_fetch → ⊥)
          → at (conv_filename c) (after (act get hash_content org delay a c y)).disk
            ≡ at (conv_filename c) y.disk
      idle action_skip other = refl
      idle action_seed other = refl
      idle action_fetch other = absurd (other refl)

      fresh_before :
          (a : ConvActionKind)
          → decide c y ≡ a
          → (a ≡ action_fetch → ⊥)
          → is_fresh c (at (conv_filename c) y.disk) ≡ true
      fresh_before a d other = elim (decide-fresh c y open_all) [
        | inl fetch ↦ absurd (other (sym d ∙ fetch))
        | inr fresh ↦ fresh
      ]

      kept :
          (a : ConvActionKind)
          → decide c y ≡ a
          → (a ≡ action_fetch → ⊥)
          → is_fresh c (at (conv_filename c) z.disk) ≡ true
      kept a d other =
          let stepped : act get hash_content org delay a c y ≡ next z =
            ap (λ b. act get hash_content org delay b c y) (sym d) ∙ e in
          let same : at (conv_filename c) (after (act get hash_content org delay a c y)).disk
              ≡ at (conv_filename c) z.disk =
            ap (λ s. at (conv_filename c) (after s).disk) stepped in
          ap (is_fresh c) (sym same ∙ idle a other) ∙ fresh_before a d other

      by_action :
          (a : ConvActionKind) → decide c y ≡ a → is_fresh c (at (conv_filename c) z.disk) ≡ true
      by_action action_fetch d =
          let (body, answered, filled, there) =
            sync_one-exported get hash_content org delay c y z d e calm in
          rw there (dated y.session body answered filled)
      by_action action_skip d = kept action_skip d (λ f. cc f)
      by_action action_seed d = kept action_seed d (λ f. cc f)

  pub sync_one-locked :
      (c : ConvSummary) (y : Sync N)
      → (after (sync_one get hash_content org delay c y)).disk.locked ≡ y.disk.locked
  unfolding sync_one
  sync_one-locked c y = act-locked (decide c y) c y

  pub sync_conversations-locked :
      (cs : List ConvSummary) (y : Sync N)
      → (sync_conversations get hash_content org delay cs y).1.disk.locked ≡ y.disk.locked
  unfolding sync_conversations
  sync_conversations-locked [] y = refl
  sync_conversations-locked (c ∷ cs) y =
      stepped (sync_one get hash_content org delay c y) (sync_one-locked c y)
        (sync_conversations-locked cs)
    where
      stepped :
          (s : Step N)
          → (after s).disk.locked ≡ y.disk.locked
          → ((z : Sync N)
              → (sync_conversations get hash_content org delay cs z).1.disk.locked ≡ z.disk.locked)
          → (elim s as (λ _. Option Error × Sync N) [
            | next z ↦ sync_conversations get hash_content org delay cs z
            | abort e z ↦ (some e, z)
          ]).1.disk.locked
            ≡ y.disk.locked
      stepped (next z) h later = later z ∙ h
      stepped (abort e z) h later = h
