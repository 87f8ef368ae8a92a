-- ===== src/Probe.antt =====
-- probe.go: the count over all conversations, by model, platform and project.
pub mod Tally
pub mod Report
use schroedinger_sync.Base.{
  ℕ, zero, suc, ◌+◌, Bool, true, false, Option, none, some, List, [], ◌∷◌, if◌then◌else◌, ltb,
  length, is_empty, Bytes, ascii,
}
use schroedinger_sync.Base.Map.{Map, lookup, insert}
use schroedinger_sync.Result.{Error, Result, ok, err}
use schroedinger_sync.Json.{Value}
use schroedinger_sync.Json.Decode.{Decoded, well, text_into, struct, slice, unmarshal, names}
use schroedinger_sync.Fetch.{Session, sleep, get_with_retry, page_limit, page_path}

-- A conversation of a page.
pub record Tagged : Type 0 where
  pub model : Bytes
  pub platform : Bytes
  pub project_uuid : Bytes

tagged_field : Bytes → Bytes → Value → Tagged → Decoded Tagged
unfolding names text_into
tagged_field k raw v c =
    if names (ascii "model") k
    then text_into (λ t. record c { model = t }) c v
    else if names (ascii "platform") k
    then text_into (λ t. record c { platform = t }) c v
    else if names (ascii "project_uuid") k
    then text_into (λ t. record c { project_uuid = t }) c v
    else well c

unfoldable pub tagged_page : Bytes → Option (List Tagged)
unfolding unmarshal slice tagged_field struct
tagged_page =
    unmarshal
      (slice (struct (record { model = []; platform = []; project_uuid = [] }) tagged_field))

pub record Counts : Type 0 where
  pub total : ℕ
  pub models : Map ℕ
  pub platforms : Map ℕ
  pub with_project : ℕ
  -- the offset at which a page could not be had, and why
  pub fault : Option (ℕ × Error)

abbrev or_zero : Option ℕ → ℕ
or_zero none = 0
or_zero (some n) = n

-- `m[k]++`
unfoldable pub increment : Bytes → Map ℕ → Map ℕ
increment k m = insert k (or_zero (lookup k m) + 1) m

-- The loop over a page, without `total`.
unfoldable pub count_page : List Tagged → Counts → Counts
count_page [] t = t
count_page (c ∷ cs) t = count_page cs (record t {
  models = increment c.model t.models;
  platforms = increment c.platform t.platforms;
  with_project = if is_empty c.project_uuid then t.with_project else t.with_project + 1;
})

unfoldable pub counted_page : List Tagged → Counts → Counts
counted_page page t = record (count_page page t) { total = t.total + length page }

module _ {N : Type 0} (get : Bytes → N → Result Bytes × N) where
  -- The loop over the pages: an error, or a page that is none, ends it with what was counted.
  -- `none` says that the fuel ran out.
  unfoldable pub tally_pages : ℕ → Bytes → ℕ → Counts → Session N → Option (Counts × Session N)
  tally_pages zero org offset t σ = none
  tally_pages (suc fuel) org offset t σ =
      let (r, τ) = get_with_retry get (page_path org offset) 6 σ in
      elim r [
        | err e ↦ some (record t { fault = some (offset, e) }, τ)
        | ok body ↦ elim (tagged_page body) [
          | none ↦ some (t, τ)
          | some page ↦
              let more =
                tally_pages fuel org (offset + page_limit) (counted_page page t) (sleep 600 τ) in
              if ltb (length page) page_limit then some (counted_page page t, τ) else more
        ]
      ]

abbrev pub no_counts : Counts
no_counts = record { total = 0; models = []; platforms = []; with_project = 0; fault = none }
