-- ===== src/Fetch/Whole.antt =====
-- cdp.go: the pages of a `listAllConversations` that succeeds.
use mathlib.Core.List.{append_assoc, append-nil}
use mathlib.Core.Path.{subst}
use schroedinger_sync.Base.{
  ℕ, zero, suc, ◌+◌, ◌≤◌, ◌<◌, ◌≡◌, refl, ◌∙◌, arith, Option, none, some, List, [], ◌∷◌, ◌++◌,
  if◌then◌else◌, ltb, length, Bytes, ascii, Bool-cases, inl, inr,
}
use schroedinger_sync.Result.{Result, ok, err, other}
use schroedinger_sync.Text.Runes.{trunc}
use schroedinger_sync.Api.{ConvSummary}
use schroedinger_sync.Api.Decode.{summaries}
use schroedinger_sync.Fetch.{
  Session, sleep, get_with_retry, page_limit, page_path, list_pages, list_all_conversations,
}

abbrev pub flat : List (List ConvSummary) → List ConvSummary
flat [] = []
flat (p ∷ ps) = p ++ flat ps

module _ {N : Type 0} (get : Bytes → N → Result Bytes × N) (org : Bytes) where
  abbrev pub asked : ℕ → Session N → Result Bytes × Session N
  asked offset σ = get_with_retry get (page_path org offset) 6 σ

  -- The request for the page at `offset` succeeded, with these conversations.
  abbrev pub IsPage : ℕ → Session N → List ConvSummary → Type 0
  IsPage offset σ listed =
      (body : Bytes) × ((asked offset σ).0 ≡ ok body) × (summaries body ≡ some listed)

  -- The pages from `offset` on, asked for one after the other: each of them was answered, each but
  -- the last one is full, and the last one is not.
  abbrev pub ArePages : ℕ → Session N → List (List ConvSummary) → Type 0
  ArePages offset σ [] = ⊥
  ArePages offset σ (p ∷ []) = IsPage offset σ p × (length p < page_limit)
  ArePages offset σ (p ∷ q ∷ ps) =
      IsPage offset σ p
      × (page_limit ≤ length p)
      × ArePages (offset + page_limit) (sleep 800 (asked offset σ).1) (q ∷ ps)

  ArePages-cons :
      (offset : ℕ) (σ : Session N) (p : List ConvSummary) (ps : List (List ConvSummary))
      → IsPage offset σ p
      → page_limit ≤ length p
      → ArePages (offset + page_limit) (sleep 800 (asked offset σ).1) ps
      → ArePages offset σ (p ∷ ps)
  ArePages-cons offset σ p [] page full later = absurd later
  ArePages-cons offset σ p (q ∷ ps) page full later = (page, full, later)

  -- The listing goes on from `all` by whole pages.
  abbrev pub Extends : ℕ → Session N → List ConvSummary → List ConvSummary → Type 0
  Extends offset σ all found =
      (pages : List (List ConvSummary)) × (found ≡ all ++ flat pages) × ArePages offset σ pages

  -- If it succeeds.
  abbrev Outcome :
      ℕ → Session N → List ConvSummary → Option (Result (List ConvSummary) × Session N) → Type 0
  Outcome offset σ all none = Unit
  Outcome offset σ all (some (err e, τ)) = Unit
  Outcome offset σ all (some (ok found, τ)) = Extends offset σ all found

  Outcome_later :
      (offset : ℕ) (σ : Session N) (all p : List ConvSummary)
      (o : Option (Result (List ConvSummary) × Session N))
      → IsPage offset σ p
      → page_limit ≤ length p
      → Outcome (offset + page_limit) (sleep 800 (asked offset σ).1) (all ++ p) o
      → Outcome offset σ all o
  Outcome_later offset σ all p none page full h = tt
  Outcome_later offset σ all p (some (err e, τ)) page full h = tt
  Outcome_later offset σ all p (some (ok found, τ)) page full (ps, e, h) =
      (p ∷ ps, e ∙ append_assoc all p (flat ps), ArePages-cons offset σ p ps page full h)

  list_pages-Outcome :
      (fuel offset : ℕ) (all : List ConvSummary) (σ : Session N)
      → Outcome offset σ all (list_pages get fuel org offset all σ)
  unfolding list_pages
  list_pages-Outcome zero offset all σ = tt
  list_pages-Outcome (suc fuel) offset all σ =
      answered
        (λ p.
          list_pages-Outcome fuel (offset + page_limit) (all ++ p) (sleep 800 (asked offset σ).1))
        (asked offset σ).0 refl
    where
      τ : Session N
      τ = (asked offset σ).1

      more : List ConvSummary → Option (Result (List ConvSummary) × Session N)
      more p = list_pages get fuel org (offset + page_limit) (all ++ p) (sleep 800 τ)

      parsed : Bytes → Option (List ConvSummary) → Option (Result (List ConvSummary) × Session N)
      parsed body none = some (err (other (ascii "list parse: " ++ trunc body 160)), τ)
      parsed body (some p) = if ltb (length p) page_limit then some (ok (all ++ p), τ) else more p

      Later : Type 0
      Later =
          (p : List ConvSummary) → Outcome (offset + page_limit) (sleep 800 τ) (all ++ p) (more p)

      parsed-Outcome :
          Later
          → (body : Bytes) (o : Option (List ConvSummary)) → (asked offset σ).0 ≡ ok body
          → summaries body ≡ o
          → Outcome offset σ all (parsed body o)
      parsed-Outcome later body none e s = tt
      parsed-Outcome later body (some p) e s = elim (Bool-cases (ltb (length p) page_limit)) [
        | inl short ↦ rw short (p ∷ [], simp append-nil, ((body, e, s), ground arith))
        | inr full ↦
            rw full (Outcome_later offset σ all p (more p) (body, e, s) (ground arith) (later p))
      ]

      answered :
          Later
          → (r : Result Bytes) → (asked offset σ).0 ≡ r
          → Outcome offset σ all
              (elim r [ err e ↦ some (err e, τ) | ok body ↦ parsed body (summaries body) ])
      answered later (err e) same = tt
      answered later (ok body) same = parsed-Outcome later body (summaries body) same refl

  -- A listing that succeeds is never a part of the list: it consists of pages that were all answered
  -- and read, each of them full but the last.
  pub list_all_conversations-ArePages :
      (fuel : ℕ) (σ τ : Session N) (all : List ConvSummary)
      → list_all_conversations get fuel org σ ≡ some (ok all, τ)
      → (pages : List (List ConvSummary)) × (all ≡ flat pages) × ArePages 0 σ pages
  unfolding list_all_conversations
  list_all_conversations-ArePages fuel σ τ all e =
      subst (Outcome 0 σ []) e (list_pages-Outcome fuel 0 [] σ)
