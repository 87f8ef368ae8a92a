-- ===== src/Fetch/Retry.antt =====
-- The retry loop and the fallback to lighter queries.
use mathlib.Core.List.{append_assoc, append-nil}
use schroedinger_sync.Base.{
  ℕ, zero, suc, ◌*◌, ◌≤◌, ◌≡◌, refl, sym, ◌⊎◌, inl, inr, ◌∙◌, arith, false, List, [], ◌∷◌, ◌++◌,
  Bytes,
}
use schroedinger_sync.Result.{Error, rate_limited, is_rate_limit, Result, ok, err, Result-cases}
use schroedinger_sync.Fetch.{
  is_rate_limited, looks_like_challenge, Verdict, fails, limited, page, judge, Session, sleep,
  attempt, get_with_retry_delay, try_variants, variants, fetch_conv_body_delay, fetch_conv_body,
}

-- A body that is neither a rate-limit notice nor an HTML page.
abbrev pub IsClean : Bytes → Type 0
IsClean body = (is_rate_limited body ≡ false) × (looks_like_challenge body ≡ false)

-- The pauses of `k` retries, each twice the one before.
abbrev pub backoff : ℕ → ℕ → List ℕ
backoff delay zero = []
backoff delay (suc k) = delay ∷ backoff (delay * 2) k

judge-IsClean :
    (r : Result Bytes) {body : Bytes} → judge r ≡ page body → IsClean body × (r ≡ ok body)
unfolding judge
judge-IsClean (ok body) h = ground arith
judge-IsClean (err e) h = ground arith

-- The three verdicts.
judge-cases :
    (v : Verdict)
    → ((e : Error) × (v ≡ fails e)) ⊎ ((v ≡ limited) ⊎ ((body : Bytes) × (v ≡ page body)))
judge-cases (fails e) = inl (e, refl)
judge-cases limited = inr (inl refl)
judge-cases (page body) = inr (inr (body, refl))

module _ {N : Type 0} (get : Bytes → N → Result Bytes × N) where
  -- A body that comes back is neither a rate-limit notice nor an HTML page.
  pub get_with_retry_delay-IsClean :
      (path : Bytes) (left delay : ℕ) (σ : Session N) (body : Bytes)
      → (get_with_retry_delay get path left delay σ).0 ≡ ok body
      → IsClean body
  unfolding get_with_retry_delay
  get_with_retry_delay-IsClean path zero delay σ body h =
      ground (arith, judge-IsClean (attempt get path σ).0 {body = body})
  get_with_retry_delay-IsClean path (suc left) delay σ body h = ground (
    arith,
    judge-IsClean (attempt get path σ).0 {body = body},
    get_with_retry_delay-IsClean path left (delay * 2) (sleep delay (attempt get path σ).1) body,
  )

  -- However the loop ends, it has slept at most `maxRetry` times, the pauses doubling.
  pub get_with_retry_delay_pauses :
      (path : Bytes) (left delay : ℕ) (σ : Session N)
      → (k : ℕ) × (k ≤ left)
        × ((get_with_retry_delay get path left delay σ).1.slept ≡ σ.slept ++ backoff delay k)
  unfolding get_with_retry_delay attempt sleep
  get_with_retry_delay_pauses path zero delay σ =
      (0, ground arith, ground (arith, append-nil σ.slept))
  get_with_retry_delay_pauses path (suc left) delay σ =
      elim (judge-cases (judge (attempt get path σ).0)) [
        | inl (e, h) ↦
            rw (h, get_with_retry_delay) (0, omega arith, ground (arith, append-nil σ.slept))
        | inr (inl h) ↦
            let (k, le, e) =
              get_with_retry_delay_pauses path left (delay * 2)
                (sleep delay (attempt get path σ).1) in
            rw (h, get_with_retry_delay)
              (suc k, omega arith, e ∙ append_assoc σ.slept (delay ∷ []) (backoff (delay * 2) k))
        | inr (inr (body, h)) ↦
            rw (h, get_with_retry_delay) (0, omega arith, ground (arith, append-nil σ.slept))
      ]

  -- The server answers this path by rate-limit notices only.
  abbrev pub AlwaysLimited : Bytes → Type 0
  AlwaysLimited path = (n : N) → judge (get path n).0 ≡ limited

  -- Against such a server every retry is used, and the sentinel comes back.
  pub get_with_retry_delay_exhausted :
      (path : Bytes) (left delay : ℕ) (σ : Session N)
      → AlwaysLimited path
      → ((get_with_retry_delay get path left delay σ).0 ≡ err rate_limited)
        × ((get_with_retry_delay get path left delay σ).1.slept ≡ σ.slept ++ backoff delay left)
  unfolding get_with_retry_delay attempt sleep
  get_with_retry_delay_exhausted path zero delay σ a =
      rw (a σ.net, get_with_retry_delay) (refl, sym (append-nil σ.slept))
  get_with_retry_delay_exhausted path (suc left) delay σ a =
      let (sentinel, e) =
        get_with_retry_delay_exhausted path left (delay * 2) (sleep delay (attempt get path σ).1)
          a in
      rw (a σ.net, get_with_retry_delay)
        (sentinel, e ∙ append_assoc σ.slept (delay ∷ []) (backoff (delay * 2) left))

  -- A first answer that is a proper body is returned at once.
  pub get_with_retry_delay_page :
      (path : Bytes) (left delay : ℕ) (σ : Session N) (body : Bytes)
      → judge (get path σ.net).0 ≡ page body
      → get_with_retry_delay get path left delay σ ≡ (ok body, (attempt get path σ).1)
  unfolding get_with_retry_delay attempt
  get_with_retry_delay_page path zero delay σ body h = rw (h, get_with_retry_delay)
  get_with_retry_delay_page path (suc left) delay σ body h = rw (h, get_with_retry_delay)

  abbrev pub AllLimited : Bytes → List Bytes → Type 0
  AllLimited base [] = Unit
  AllLimited base (q ∷ qs) = AlwaysLimited (base ++ q) × AllLimited base qs

  -- Where the heavier variants are rate-limited for good, the first lighter one that is answered
  -- by a proper body gives the result.
  pub try_variants_fallback :
      (base : Bytes) (retry_base gap : ℕ) (qs : List Bytes) (q : Bytes) (rest : List Bytes)
      (last : Error) (σ : Session N) (body : Bytes)
      → AllLimited base qs
      → ((n : N) → judge (get (base ++ q) n).0 ≡ page body)
      → (try_variants get base retry_base gap (qs ++ q ∷ rest) last σ).0 ≡ ok body
  unfolding try_variants
  try_variants_fallback base retry_base gap [] q rest last σ body a h =
      rw (get_with_retry_delay_page (base ++ q) 4 retry_base σ body (h σ.net), try_variants)
  try_variants_fallback base retry_base gap (v ∷ qs) q rest last σ body (a, as') h =
      rw ((get_with_retry_delay_exhausted (base ++ v) 4 retry_base σ a).0, try_variants)
        (try_variants_fallback base retry_base gap qs q rest _ _ body as' h)

  -- An error other than the sentinel ends the fallback at once.
  pub try_variants_hard_error :
      (base : Bytes) (retry_base gap : ℕ) (q : Bytes) (rest : List Bytes) (last e : Error)
      (σ : Session N)
      → is_rate_limit e ≡ false
      → (get_with_retry_delay get (base ++ q) 4 retry_base σ).0 ≡ err e
      → try_variants get base retry_base gap (q ∷ rest) last σ
        ≡ (err e, (get_with_retry_delay get (base ++ q) 4 retry_base σ).1)
  unfolding try_variants
  try_variants_hard_error base retry_base gap q rest last e σ h k = rw (k, h, try_variants)

  pub try_variants-IsClean :
      (base : Bytes) (retry_base gap : ℕ) (qs : List Bytes) (last : Error) (σ : Session N)
      (body : Bytes)
      → (try_variants get base retry_base gap qs last σ).0 ≡ ok body
      → IsClean body
  unfolding try_variants
  try_variants-IsClean base retry_base gap [] last σ body h = cc
  try_variants-IsClean base retry_base gap (q ∷ qs) last σ body h =
      let clean = get_with_retry_delay-IsClean (base ++ q) 4 retry_base σ body in
      let later = λ (e : Error).
        try_variants-IsClean base retry_base gap qs e
          (sleep gap (get_with_retry_delay get (base ++ q) 4 retry_base σ).1) body in
      elim (Result-cases (get_with_retry_delay get (base ++ q) 4 retry_base σ).0) [
        | inl (b, r) ↦ ground (arith, clean)
        | inr (e, r) ↦ ground (arith, later e)
      ]

  -- What `fetchConvBody` returns as a body is never a rate-limit notice or an HTML page.
  pub fetch_conv_body-IsClean :
      (org uuid : Bytes) (σ : Session N) (body : Bytes)
      → (fetch_conv_body get org uuid σ).0 ≡ ok body
      → IsClean body
  unfolding fetch_conv_body fetch_conv_body_delay
  fetch_conv_body-IsClean org uuid σ body h = try_variants-IsClean _ 2000 3000 variants _ σ body h
