-- ===== src/Fetch/Pages.antt =====
-- cdp.go: `listAllConversations` against a server that answers every page properly.
use mathlib.Core.List.{append_assoc}
use schroedinger_sync.Base.{
  ℕ, zero, suc, ◌+◌, ◌*◌, ◌≤◌, ◌<◌, ◌≡◌, refl, sym, ◌∙◌, ap, arith, true, false, some, List, [],
  ◌∷◌, ◌++◌, if◌then◌else◌, ltb, length, take, drop, Bytes, length-drop, drop-drop,
  take-append-drop, Bool-cases, inl, inr,
}
use schroedinger_sync.Result.{Result, ok}
use schroedinger_sync.Api.{ConvSummary}
use schroedinger_sync.Api.Decode.{summaries}
use schroedinger_sync.Fetch.{
  page, judge, Session, sleep, get_with_retry, page_limit, page_path, list_pages,
  list_all_conversations,
}
use schroedinger_sync.Fetch.Retry.{get_with_retry_delay_page}

take_short {ℓ} :
    {A : Type ℓ} (n : ℕ) (xs : List A) → ltb (length (take n xs)) n ≡ true → take n xs ≡ xs
take_short zero xs h = ground arith
take_short (suc n) [] h = refl
take_short (suc n) (x ∷ xs) h = ap (◌∷◌ x) (take_short n xs (ground arith))

take_full {ℓ} :
    {A : Type ℓ} (n : ℕ) (xs : List A) → ltb (length (take n xs)) n ≡ false → n ≤ length xs
take_full zero xs h = omega arith
take_full (suc n) [] h = ground arith
take_full (suc n) (x ∷ xs) h = ground (arith, take_full n xs)

module _ {N : Type 0} (get : Bytes → N → Result Bytes × N) (org : Bytes) where
  -- One page of the loop.
  list_pages_step :
      (fuel offset : ℕ) (all listed : List ConvSummary) (σ : Session N) (body : Bytes)
      → judge (get (page_path org offset) σ.net).0 ≡ page body
      → summaries body ≡ some listed
      → list_pages get (suc fuel) org offset all σ ≡ (
          if ltb (length listed) page_limit
          then some (ok (all ++ listed), (get_with_retry get (page_path org offset) 6 σ).1)
          else list_pages get fuel org
              (offset + page_limit)
              (all ++ listed)
              (sleep 800 (get_with_retry get (page_path org offset) 6 σ).1))
  unfolding list_pages get_with_retry
  list_pages_step fuel offset all listed σ body h e = rw (
    ap (λ x. x.0) (get_with_retry_delay_page get (page_path org offset) 6 2000 σ body h),
    e,
    list_pages,
  )

module _ {N : Type 0} (get : Bytes → N → Result Bytes × N) (org : Bytes)
    (convs : List ConvSummary) where
  -- The server holds `convs`, and answers each page request up to their end by that part of them.
  abbrev pub Serves : (ℕ → Bytes) → Type 0
  Serves body =
      (k : ℕ)
      → k * page_limit ≤ length convs
      → ((n : N) → judge (get (page_path org (k * page_limit)) n).0 ≡ page (body k))
        × (summaries (body k) ≡ some (take page_limit (drop (k * page_limit) convs)))

  module _ (body : ℕ → Bytes) (serves : Serves body) where
    list_pages_complete :
        (fuel k : ℕ) (all : List ConvSummary) (σ : Session N)
        → length convs < (fuel + k) * page_limit
        → k * page_limit ≤ length convs
        → (τ : Session N) × (list_pages get fuel org (k * page_limit) all σ
            ≡ some (ok (all ++ drop (k * page_limit) convs), τ))
    list_pages_complete zero k all σ h l = absurd (omega arith)
    list_pages_complete (suc fuel) k all σ h l =
        let at = k * page_limit in
        let left = drop at convs in
        let listed = take page_limit left in
        let (answers, parses) = serves k l in
        let step = list_pages_step get org fuel at all listed σ (body k) (answers σ.net) parses in
        let τ₁ = (get_with_retry get (page_path org at) 6 σ).1 in
        elim (Bool-cases (ltb (length listed) page_limit)) [
          | inl short ↦ (
            τ₁,
            step ∙ rw short (ap (λ t. some (ok (all ++ t), τ₁)) (take_short page_limit left short)),
          )
          | inr full ↦
              let room : page_limit ≤ length left = take_full page_limit left full in
              let next : at + page_limit ≡ suc k * page_limit = omega arith in
              let inside : suc k * page_limit ≤ length convs =
                omega (arith, length-drop at convs) in
              let (τ, rest) =
                list_pages_complete fuel (suc k) (all ++ listed) (sleep 800 τ₁) (omega arith)
                  inside in
              let whole : (all ++ listed) ++ drop (suc k * page_limit) convs ≡ all ++ left =
                append_assoc all listed _
                ∙ ap (λ t. all ++ (listed ++ t))
                    (ap (λ n. drop n convs) (sym next) ∙ sym (drop-drop at page_limit convs))
                ∙ ap (λ t. all ++ t) (take-append-drop page_limit left) in
              (τ, step ∙ rw (full, next) (rest ∙ ap (λ t. some (ok t, τ)) whole))
        ]

    -- Against a server that answers the request for each page at the first attempt, in any state, by
    -- a body that reads as that part of its list: a listing with fuel for all pages ends, and returns
    -- the whole list, in its order.
    pub list_all_conversations_complete :
        (fuel : ℕ) (σ : Session N)
        → length convs < fuel * page_limit
        → (τ : Session N) × (list_all_conversations get fuel org σ ≡ some (ok convs, τ))
    unfolding list_all_conversations
    list_all_conversations_complete fuel σ h =
        list_pages_complete fuel 0 [] σ (omega arith) (omega arith)
