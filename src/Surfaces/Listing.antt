-- ===== src/Surfaces/Listing.antt =====
-- surfaces.go: the project documents that the server lists, and the files that hold them.
use schroedinger_sync.Base.{
  ℕ, zero, suc, ◌≡◌, refl, Option, none, some, List, [], ◌∷◌, if◌then◌else◌, ◌++◌, map, length,
  ascii, Bytes, ◌=?◌,
}
use schroedinger_sync.Result.{Result, ok, err}
use schroedinger_sync.Api.{ProjectSummary, ProjectDoc}
use schroedinger_sync.Api.Decode.{projects, docs}
use schroedinger_sync.Names.{doc_filename}
use schroedinger_sync.Fetch.{Session, sleep, get_with_retry}
use schroedinger_sync.Surfaces.{doc_markdown, projects_path}

-- What file `k` holds when the documents have been written one after the other over `old`.
abbrev pub final : List (ProjectSummary × ProjectDoc) → Bytes → Option Bytes → Option Bytes
final [] k old = old
final ((p, d) ∷ qs) k old =
    final qs k (if doc_filename p d =? k then some (doc_markdown p d) else old)

-- The pauses behind `n` documents.
abbrev pub paused : {N : Type 0} → ℕ → Session N → Session N
paused zero σ = σ
paused (suc n) σ = paused n (sleep 150 σ)

-- The documents that an answer lists; `none` if the request failed or its body cannot be read.
abbrev pub listed : Result Bytes → Option (List ProjectDoc)
listed (err e) = none
listed (ok body) = docs body

-- The documents of a project before those of the next ones; `none` if a list is missing.
abbrev pub joined :
    ProjectSummary
    → List ProjectDoc
    → Option (List (ProjectSummary × ProjectDoc))
    → Option (List (ProjectSummary × ProjectDoc))
joined p ds none = none
joined p ds (some rest) = some (map (λ d. (p, d)) ds ++ rest)

module _ {N : Type 0} (get : Bytes → N → Result Bytes × N) where
  -- The documents that the server lists for the projects, asked for one after the other; `none` if
  -- one of the requests fails.
  abbrev pub documents_of :
      Bytes → List ProjectSummary → Session N → Option (List (ProjectSummary × ProjectDoc))
  documents_of org [] σ = some []
  documents_of org (p ∷ ps) σ =
      let (r, τ) =
        get_with_retry get (projects_path org ++ (ascii "/" ++ (p.uuid ++ ascii "/docs"))) 5 σ in
      elim (listed r) [
        | none ↦ none
        | some ds ↦ joined p ds (documents_of org ps (paused (length ds) τ))
      ]

  -- The documents of all projects that the server lists.
  abbrev pub documents : Bytes → Session N → Option (List (ProjectSummary × ProjectDoc))
  documents org σ =
      let (r, τ) = get_with_retry get (projects_path org) 5 σ in
      elim r [
        | err e ↦ none
        | ok body ↦ elim (projects body) [ none ↦ none | some ps ↦ documents_of org ps τ ]
      ]

pub final-append :
    (qs rs : List (ProjectSummary × ProjectDoc)) (k : Bytes) (old : Option Bytes)
    → final (qs ++ rs) k old ≡ final rs k (final qs k old)
final-append [] rs k old = refl
final-append ((p, d) ∷ qs) rs k old = final-append qs rs k _
