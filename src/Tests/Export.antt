-- ===== src/Tests/Export.antt =====
-- The loop over the conversations, run.
use mathlib.Core.Path.{subst}
use schroedinger_sync.Sync.Missing.{missing, sync_conversations-missing}
use schroedinger_sync.Sync.Fresh.{is_fresh}
use schroedinger_sync.Sync.Settled.{sync_conversations-settled}
use schroedinger_sync.Base.{
  ◌+◌, ◌≤◌, ◌≡◌, refl, ap, none, some, true, false, [], ◌∷◌, is_empty, Bytes, ascii, ◌=?◌,
}
use schroedinger_sync.Base.Map.{lookup}
use schroedinger_sync.Result.{ok, err}
use schroedinger_sync.Text.Search.{has_prefix, contains, replace_all}
use schroedinger_sync.Text.Runes.{trunc, trim_space}
use schroedinger_sync.Names.{path_safe, sanitize, conv_filename}
use schroedinger_sync.Json.Decode.{unmarshal, slice}
use schroedinger_sync.Api.Decode.{conversation}
use schroedinger_sync.Markdown.{
  conv_to_markdown, render, conv_header, conv_title, one_line, is_no_conversation,
  file_conv_updated_at, split_lines, find_updated,
}
use schroedinger_sync.Fetch.{
  fetch_conv_body, fetch_conv_body_delay, try_variants, get_with_retry_delay, attempt, judge,
  is_rate_limited, looks_like_challenge,
}
use schroedinger_sync.Disk.{write_file}
use schroedinger_sync.Integrity.{write_markdown}
use schroedinger_sync.Disk.Atomic.{at}
use schroedinger_sync.Daemon.Decisions.{conv_action}
use schroedinger_sync.Sync.{
  sync_one, sync_conversations, act, fetch_one, fetched, written, failed, count_progress, remember,
  entry, file_ok,
}
use schroedinger_sync.Sync.Loop.{after, sync_conversations-recorded}
use schroedinger_sync.Sync.Effects.{sync_conversations-keeps_file}
use schroedinger_sync.Sync.Exports.{sync_one-exported}
use schroedinger_sync.Tests.Server.{answering, limiting, body, chat, no_hash, start, settled}

sync_one-exported_example :
    (b : Bytes) × ((fetch_conv_body (answering body) (ascii "o") chat.uuid start.session).0 ≡ ok b)
    × (is_empty (conv_to_markdown b) ≡ false)
    × (at
          (conv_filename chat)
          (after (sync_one (answering body) no_hash (ascii "o") 0 chat start)).disk
        ≡ some (conv_to_markdown b))
unfolding sync_one act fetch_one fetched written failed remember count_progress entry lookup
    conv_action file_ok fetch_conv_body fetch_conv_body_delay try_variants get_with_retry_delay
    attempt judge is_rate_limited looks_like_challenge contains has_prefix trim_space
    conv_to_markdown conversation render conv_header conv_title one_line is_no_conversation trunc
    replace_all unmarshal slice write_markdown write_file
sync_one-exported_example =
    sync_one-exported (answering body) no_hash (ascii "o") 0 chat start
      (after (sync_one (answering body) no_hash (ascii "o") 0 chat start)) refl refl refl

sync_conversations-recorded_example :
    lookup
      (ascii "0123456789")
      (sync_conversations
        (answering body)
        no_hash
        (ascii "o")
        0
        (chat ∷ [])
        start).1.state.conversations
    ≡ some chat.updated_at
unfolding sync_conversations sync_one act fetch_one fetched written failed remember count_progress
    entry lookup conv_action file_ok fetch_conv_body fetch_conv_body_delay try_variants
    get_with_retry_delay attempt judge is_rate_limited looks_like_challenge contains has_prefix
    trim_space conv_to_markdown conversation render conv_header conv_title one_line
    is_no_conversation trunc replace_all unmarshal slice ◌=?◌ write_markdown write_file
sync_conversations-recorded_example =
    sync_conversations-recorded (answering body) no_hash (ascii "o") 0 (chat ∷ []) start refl refl
      (ascii "0123456789")

sync_conversations-keeps_file_example :
    at
      (ascii "notes.md")
      (sync_conversations (answering body) no_hash (ascii "o") 0 (chat ∷ []) settled).1.disk
    ≡ none
unfolding has_prefix ◌=?◌ conv_filename path_safe sanitize lookup trunc
sync_conversations-keeps_file_example =
    sync_conversations-keeps_file (answering body) no_hash (ascii "o") 0 (ascii "notes.md")
      (refl, refl) (chat ∷ []) settled refl

-- A conversation with an answer of some length.
abbrev long_body : Bytes
long_body =
    ascii
      "{\"name\":\"A\",\"updated_at\":\"2026-01-02T00:00:00Z\",\"model\":\"a model with a name that is long enough for the file to count\"}"

sync_conversations-settled_example :
    sync_conversations
      (answering long_body)
      no_hash
      (ascii "o")
      0
      (chat ∷ [])
      (sync_conversations (answering long_body) no_hash (ascii "o") 0 (chat ∷ []) start).1
    ≡ (none, (sync_conversations (answering long_body) no_hash (ascii "o") 0 (chat ∷ []) start).1)
unfolding sync_conversations sync_one act fetch_one fetched written failed remember count_progress
    entry lookup conv_action file_ok fetch_conv_body fetch_conv_body_delay try_variants
    get_with_retry_delay attempt judge is_rate_limited looks_like_challenge contains has_prefix
    trim_space conv_to_markdown conversation render conv_header conv_title one_line
    is_no_conversation trunc replace_all unmarshal slice ◌=?◌ write_markdown write_file
    file_conv_updated_at split_lines find_updated
sync_conversations-settled_example =
    sync_conversations-settled (answering long_body) no_hash (ascii "o") 0 (chat ∷ []) start
      (
        refl,
        refl,
        λ σ b e filled.
            let same : long_body ≡ b = ap (λ r. elim r [ ok t ↦ t | err _ ↦ [] ]) e in
            subst (λ t. is_fresh chat (some (conv_to_markdown t)) ≡ true) same refl,
        tt,
      )
      refl refl refl

-- The server only sends rate-limit notices: the conversation is not recorded, and counted.
sync_conversations-missing_example :
    missing
        (sync_conversations limiting no_hash (ascii "o") 0 (chat ∷ []) start).1.state.conversations
        (chat ∷ [])
      + 0
    ≤ (sync_conversations limiting no_hash (ascii "o") 0 (chat ∷ []) start).1.err_n
unfolding sync_conversations sync_one act fetch_one fetched written failed remember count_progress
    entry lookup conv_action file_ok fetch_conv_body fetch_conv_body_delay try_variants
    get_with_retry_delay attempt judge is_rate_limited looks_like_challenge contains has_prefix
    trim_space
sync_conversations-missing_example =
    sync_conversations-missing limiting no_hash (ascii "o") 0 (chat ∷ []) start (refl, tt) refl
