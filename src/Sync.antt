-- ===== src/Sync.antt =====
-- daemon.go: `syncConversations`, the loop over the listed conversations.
pub mod Loop
pub mod Missing
pub mod Effects
pub mod Exports
pub mod Fresh
pub mod Settled
use schroedinger_sync.Base.{
  ℕ, ◌+◌, Bool, true, false, not, Option, none, some, List, [], ◌∷◌, ◌++◌, if◌then◌else◌, ltb,
  length, is_empty, Bytes, ascii, ◌=?◌,
}
use schroedinger_sync.Base.Map.{lookup, insert}
use schroedinger_sync.Result.{Error, deadline, is_deadline, Result, ok, err}
use schroedinger_sync.Api.{ConvSummary}
use schroedinger_sync.Text.Runes.{trunc}
use schroedinger_sync.Names.{conv_filename}
use schroedinger_sync.Markdown.{conv_to_markdown, file_conv_updated_at}
use schroedinger_sync.Fetch.{Session, sleep, fetch_conv_body}
use schroedinger_sync.Disk.{Disk, stat, read_file}
use schroedinger_sync.Integrity.{write_markdown}
use schroedinger_sync.State.{SyncState}
use schroedinger_sync.Daemon.Decisions.{
  ConvActionKind, action_fetch, action_skip, action_seed, conv_action,
}

-- What the loop works on: the session, the disk, the sync state, and the counters that it
-- returns.
pub record Sync (N : Type 0) : Type 0 where
  pub session : Session N
  pub disk : Disk
  pub state : SyncState
  pub new_n : ℕ
  pub changed_n : ℕ
  pub seed_n : ℕ
  pub err_n : ℕ

-- `minFileSizeBytes`
abbrev pub min_file_size_bytes : ℕ
min_file_size_bytes = 100

-- The file exists and is not trivially small.
abbrev big_enough : Option Bytes → Bool
big_enough none = false
big_enough (some content) = ltb min_file_size_bytes (length content)

unfoldable pub file_ok : Bytes → Disk → Bool
unfolding stat
file_ok fname d = big_enough (stat fname d)

unfoldable pub file_updated : Bytes → Disk → Bytes
unfolding read_file
file_updated fname d = if file_ok fname d then file_conv_updated_at (read_file fname d) else []

-- `fileIsCurrent` (cdp.go), the rule of the one-shot harvest.
unfoldable pub file_is_current : ConvSummary → Disk → Bool
file_is_current c d =
    let fname = conv_filename c in
    if file_ok fname d
    then file_conv_updated_at (read_file fname d) =? trunc c.updated_at 19
    else false

module _ {N : Type 0} where
  unfoldable pub entry : ConvSummary → Sync N → Option Bytes
  entry c y = lookup c.uuid y.state.conversations

  unfoldable pub remember : ConvSummary → Sync N → Sync N
  remember c y = record y {
    state = record (y.state) { conversations = insert c.uuid c.updated_at y.state.conversations };
  }

  unfoldable pub failed : Sync N → Sync N
  failed y = record y { err_n = y.err_n + 1 }

  -- Progress is counted where the state moves: a new conversation, or a change on the server.
  unfoldable pub count_progress : ConvSummary → Option Bytes → Sync N → Sync N
  count_progress c none y = record y { new_n = y.new_n + 1 }
  count_progress c (some known) y =
      if not (known =? c.updated_at) then record y { changed_n = y.changed_n + 1 } else y

  -- What the loop does about a conversation, as `convAction` answers.
  abbrev pub decide : ConvSummary → Sync N → ConvActionKind
  decide c y =
      let fname = conv_filename c in
      conv_action c (entry c y) (file_ok fname y.disk) (file_updated fname y.disk)

-- How the work on one conversation ends: the loop goes on, or is broken off.
pub data Step (N : Type 0) : Type 0 where
  next : Sync N → Step N
  abort : Error → Sync N → Step N

module _ {N : Type 0} (get : Bytes → N → Result Bytes × N) (hash_content : Bytes → Bytes)
    (org : Bytes) (delay : ℕ) where
  -- Behind `writeMarkdown`.
  unfoldable pub written : ConvSummary → Option Bool × Disk → Sync N → Sync N
  written c (none, d) y = failed (record y { disk = d })
  written c (some manifest_ok, d) y =
      let counted = count_progress c (entry c y) (record y { disk = d }) in
      let remembered = remember c counted in
      record remembered { session = sleep delay remembered.session }

  -- Behind `fetchConvBody`.
  unfoldable pub fetched : ConvSummary → Result Bytes → Sync N → Step N
  fetched c (err e) y = if is_deadline e then abort e y else next (failed y)
  fetched c (ok body) y =
      let md = conv_to_markdown body in
      if is_empty md
      then next (failed y)
      else next (written c (write_markdown hash_content (conv_filename c) md y.disk) y)

  unfoldable pub fetch_one : ConvSummary → Sync N → Step N
  fetch_one c y =
      let (r, σ) = fetch_conv_body get org c.uuid y.session in
      fetched c r (record y { session = σ })

  unfoldable pub act : ConvActionKind → ConvSummary → Sync N → Step N
  act action_skip c y = next y
  act action_seed c y =
      let remembered = remember c y in next (record remembered { seed_n = y.seed_n + 1 })
  act action_fetch c y = fetch_one c y

  unfoldable pub sync_one : ConvSummary → Sync N → Step N
  sync_one c y = act (decide c y) c y

  -- `syncConversations`: `none`, or the error that broke the loop off.
  unfoldable pub sync_conversations : List ConvSummary → Sync N → Option Error × Sync N
  sync_conversations [] y = (none, y)
  sync_conversations (c ∷ cs) y = elim (sync_one c y) [
    | next z ↦ sync_conversations cs z
    | abort e z ↦ (some e, z)
  ]
