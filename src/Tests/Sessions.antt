-- ===== src/Tests/Sessions.antt =====
-- Retries, listings and cycles, run.
use schroedinger_sync.Fetch.InPage.{get_script, raw_get_script}
use schroedinger_sync.Fetch.InPage.Script.{Fetches, scripts-Fetches}
use schroedinger_sync.Base.{
  List, ℕ, zero, suc, Option, if◌then◌else◌, ◌=?◌, ◌≡◌, refl, arith, some, false, [], ◌∷◌, List,
  Bytes, ascii,
}
use schroedinger_sync.Result.{Error, deadline, Result, ok}
use schroedinger_sync.Text.Search.{has_prefix, contains}
use schroedinger_sync.Text.Runes.{trim_space}
use schroedinger_sync.Json.Decode.{unmarshal, slice}
use schroedinger_sync.Api.{ConvSummary}
use schroedinger_sync.Api.Decode.{summaries}
use schroedinger_sync.Fetch.{
  Session, judge, attempt, get_with_retry_delay, try_variants, fetch_conv_body,
  fetch_conv_body_delay, list_pages, get_with_retry, list_all_conversations, is_rate_limited,
  looks_like_challenge,
}
use schroedinger_sync.Fetch.Retry.{IsClean, fetch_conv_body-IsClean}
use schroedinger_sync.Fetch.Pages.{Serves, list_all_conversations_complete}
use schroedinger_sync.Fetch.Whole.{flat, ArePages, list_all_conversations-ArePages}
use schroedinger_sync.Disk.{Outcome, Disk}
use schroedinger_sync.State.{state_file_name}
use schroedinger_sync.Daemon.Cycle.{Outside}
use schroedinger_sync.Tests.Server.{answering, limiting, body, session, empty_disk}

-- The path `/p` is rate-limited, every other one is answered.
limiting_p : Bytes → ℕ → Result Bytes × ℕ
limiting_p path n = if path =? ascii "/p" then limiting path n else answering body path n

fetch_conv_body-IsClean_example : IsClean body
unfolding fetch_conv_body fetch_conv_body_delay try_variants get_with_retry_delay attempt judge
    is_rate_limited looks_like_challenge contains has_prefix trim_space
fetch_conv_body-IsClean_example =
    fetch_conv_body-IsClean (answering body) (ascii "o") (ascii "u") session body refl

abbrev listing : Bytes
listing = ascii "[{\"uuid\":\"u\"}]"

abbrev listed : ConvSummary
listed = record { uuid = ascii "u"; name = []; created_at = []; updated_at = [] }

Serves-listing : Serves (answering listing) (ascii "o") (listed ∷ []) (λ k. listing)
unfolding judge is_rate_limited looks_like_challenge contains has_prefix trim_space summaries
    unmarshal slice
Serves-listing zero h = ((λ n. refl), refl)
Serves-listing (suc k) h = absurd (omega arith)

list_all_conversations_complete_example :
    (τ : Session ℕ) × (list_all_conversations (answering listing) 1 (ascii "o") session
      ≡ some (ok (listed ∷ []), τ))
list_all_conversations_complete_example =
    list_all_conversations_complete (answering listing) (ascii "o") (listed ∷ []) (λ k. listing)
      Serves-listing 1 session (omega arith)

abbrev listing_end : Session ℕ
listing_end = record { net = 1; slept = [] }

list_all_conversations-ArePages_example :
    (pages : List (List ConvSummary)) × (listed ∷ [] ≡ flat pages)
    × ArePages (answering listing) (ascii "o") 0 session pages
unfolding list_all_conversations list_pages get_with_retry get_with_retry_delay judge attempt
    is_rate_limited looks_like_challenge contains has_prefix trim_space summaries unmarshal slice
list_all_conversations-ArePages_example =
    list_all_conversations-ArePages (answering listing) (ascii "o") 1 session listing_end
      (listed ∷ []) refl

abbrev quiet : Outside
quiet = record {
  desktop_running = false;
  cookie_mod = ascii "2026-01-01T00:00:00Z";
  sync_time = ascii "2026-01-01T00:01:00Z";
  memory_time = ascii "2026-01-01T00:02:00Z";
  surfaces_time = ascii "2026-01-01T00:03:00Z";
}

-- A session that cannot be opened.
abbrev closed_door : ℕ → Option Error × ℕ
closed_door n = (some deadline, n)

abbrev recorded_disk : List Outcome → Disk
recorded_disk outcomes = record empty_disk {
  files = (state_file_name, ascii "{}") ∷ [];
  outcomes = outcomes;
}

-- An identifier that tries to leave the literal.
abbrev quoting : Bytes
quoting = ascii "/a\"),alert(1"

scripts-Fetches_example :
    Fetches (get_script quoting) quoting (ascii ",{credentials:'include'}).then(r=>r.text())")
    × Fetches (raw_get_script quoting) quoting (
        ascii
          ",{credentials:'include'}).then(async r=>JSON.stringify({s:r.status,b:(await r.text()).slice(0,6000)}))")
scripts-Fetches_example = scripts-Fetches quoting refl
