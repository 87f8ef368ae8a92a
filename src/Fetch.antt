-- ===== src/Fetch.antt =====
-- cdp.go: fetching from the API through an open session. The session (Chrome, Cloudflare, the
-- server) is a parameter: `get` answers a path and changes a state of its own.
pub mod Retry
pub mod Pages
pub mod Whole
pub mod InPage
use schroedinger_sync.Base.{
  ℕ, zero, suc, ◌+◌, ◌*◌, Bool, true, false, not, ◌&&◌, ◌||◌, Option, none, some, List, [], ◌∷◌,
  ◌++◌, ◌==◌, if◌then◌else◌, ltb, length, Bytes, ascii,
}
use schroedinger_sync.Text.Search.{has_prefix, contains}
use schroedinger_sync.Text.Runes.{trunc, trim_space}
use schroedinger_sync.Text.Decimal.{show}
use schroedinger_sync.Result.{Error, rate_limited, challenge, other, is_rate_limit, Result, ok, err}
use schroedinger_sync.Api.{ConvSummary}
use schroedinger_sync.Api.Decode.{summaries, organizations}

-- `isRateLimited`
unfoldable pub is_rate_limited : Bytes → Bool
is_rate_limited body =
    contains body (ascii "rate_limit_error") || contains body (ascii "Temporarily unavailable")

-- `looksLikeChallenge`
unfoldable pub looks_like_challenge : Bytes → Bool
looks_like_challenge body = has_prefix (trim_space body) (ascii "<")

-- What `getWithRetryDelay` makes of an answer.
pub data Verdict : Type 0 where
  fails : Error → Verdict
  limited : Verdict
  page : Bytes → Verdict

unfoldable pub judge : Result Bytes → Verdict
judge (err e) = fails e
judge (ok body) =
    if is_rate_limited body
    then limited
    else if looks_like_challenge body
    then fails challenge
    else page body

-- An open session: the state behind `get`, and the milliseconds slept so far, the last one last.
pub record Session (N : Type 0) : Type 0 where
  pub net : N
  pub slept : List ℕ

unfoldable pub sleep : {N : Type 0} → ℕ → Session N → Session N
sleep ms σ = record σ { slept = σ.slept ++ (ms ∷ []) }

-- The variants of the query, from the full one to the smallest.
abbrev pub variants : List Bytes
variants =
    ascii "?tree=True&rendering_mode=messages&render_all_tools=true&consistency=strong"
    ∷ ascii "?tree=True&rendering_mode=messages"
    ∷ ascii "?rendering_mode=messages"
    ∷ []

-- The first organization of the list, which is the only one harvested.
only_org : Bytes → Option (List Bytes) → Result Bytes
only_org body none = err (other (ascii "cannot parse orgs: " ++ trunc body 200))
only_org body (some []) = err (other (ascii "cannot parse orgs: " ++ trunc body 200))
only_org body (some (uuid ∷ _)) = ok uuid

-- What `resolveOrg` makes of the body.
unfoldable pub first_org : Bytes → Result Bytes
unfolding only_org
first_org body =
    let t = trim_space body in
    if has_prefix t (ascii "<") || contains t (ascii "Just a moment")
    then err (other (ascii "still Cloudflare-challenged: " ++ trunc t 160))
    else only_org body (organizations body)

abbrev pub page_limit : ℕ
page_limit = 100

abbrev pub page_path : Bytes → ℕ → Bytes
page_path org offset =
    ascii "/api/organizations/"
    ++ (org
        ++ (ascii "/chat_conversations?limit="
            ++ (show page_limit ++ (ascii "&offset=" ++ show offset))))

module _ {N : Type 0} (get : Bytes → N → Result Bytes × N) where
  unfoldable pub attempt : Bytes → Session N → Result Bytes × Session N
  attempt path σ = let (r, n) = get path σ.net in (r, record σ { net = n })

  -- `getWithRetryDelay`, by the retries that are left: `maxRetry - i`.
  unfoldable pub get_with_retry_delay : Bytes → ℕ → ℕ → Session N → Result Bytes × Session N
  get_with_retry_delay path zero delay σ =
      let (r, τ) = attempt path σ in
      elim (judge r) [
        | fails e ↦ (err e, τ)
        | limited ↦ (err rate_limited, τ)
        | page body ↦ (ok body, τ)
      ]
  get_with_retry_delay path (suc left) delay σ =
      let (r, τ) = attempt path σ in
      elim (judge r) [
        | fails e ↦ (err e, τ)
        | limited ↦ get_with_retry_delay path left (delay * 2) (sleep delay τ)
        | page body ↦ (ok body, τ)
      ]

  -- `getWithRetry`
  unfoldable pub get_with_retry : Bytes → ℕ → Session N → Result Bytes × Session N
  get_with_retry path max_retry = get_with_retry_delay path max_retry 2000

  -- The loop of `fetchConvBodyDelay` over the variants of the query.
  unfoldable pub try_variants :
      Bytes → ℕ → ℕ → List Bytes → Error → Session N → Result Bytes × Session N
  try_variants base retry_base gap [] last σ = (err last, σ)
  try_variants base retry_base gap (q ∷ qs) last σ =
      let (r, τ) = get_with_retry_delay (base ++ q) 4 retry_base σ in
      elim r [
        | ok body ↦ (ok body, τ)
        | err e ↦
            let rest = try_variants base retry_base gap qs e (sleep gap τ) in
            if not (is_rate_limit e) then (err e, τ) else rest
      ]

  unfoldable pub fetch_conv_body_delay :
      Bytes → Bytes → ℕ → ℕ → Session N → Result Bytes × Session N
  fetch_conv_body_delay org uuid retry_base gap =
      let base = ascii "/api/organizations/" ++ (org ++ (ascii "/chat_conversations/" ++ uuid)) in
      try_variants base retry_base gap variants (other [])

  -- `fetchConvBody`
  unfoldable pub fetch_conv_body : Bytes → Bytes → Session N → Result Bytes × Session N
  fetch_conv_body org uuid = fetch_conv_body_delay org uuid 2000 3000

  -- `resolveOrg`
  unfoldable pub resolve_org : Session N → Result Bytes × Session N
  resolve_org σ =
      let (r, τ) = get_with_retry (ascii "/api/organizations") 3 σ in
      elim r [ err e ↦ (err e, τ) | ok body ↦ (first_org body, τ) ]

  -- The loop of `listAllConversations`. A server that goes on sending full pages keeps it going:
  -- `none` says that the fuel ran out.
  unfoldable pub list_pages :
      ℕ → Bytes → ℕ → List ConvSummary → Session N → Option (Result (List ConvSummary) × Session N)
  list_pages zero org offset all σ = none
  list_pages (suc fuel) org offset all σ =
      let (r, τ) = get_with_retry (page_path org offset) 6 σ in
      elim r [
        | err e ↦ some (err e, τ)
        | ok body ↦ elim (summaries body) [
          | none ↦ some (err (other (ascii "list parse: " ++ trunc body 160)), τ)
          | some listed ↦
              let more = list_pages fuel org (offset + page_limit) (all ++ listed) (sleep 800 τ) in
              if ltb (length listed) page_limit then some (ok (all ++ listed), τ) else more
        ]
      ]

  -- `listAllConversations`
  unfoldable pub list_all_conversations :
      ℕ → Bytes → Session N → Option (Result (List ConvSummary) × Session N)
  list_all_conversations fuel org = list_pages fuel org 0 []
