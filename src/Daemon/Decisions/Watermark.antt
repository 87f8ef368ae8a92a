-- ===== src/Daemon/Decisions/Watermark.antt =====
-- The Cookie-DB watermark over a row of cycles.
use schroedinger_sync.Base.{
  ◌⊎◌, inl, inr, ℕ, ◌+◌, ◌<◌, Bool, true, false, List, [], ◌∷◌, ◌≡◌, refl, ap, arith, ◌==◌,
  if◌then◌else◌, Bytes,
}
use schroedinger_sync.Daemon.Decisions.{cookie_watermark, max_retry_cycles}

-- What a cycle reports: whether it moved the state, and how many items failed.
pub record Report : Type 0 where
  pub progress : Bool
  pub errors : ℕ

-- The watermark and the counter after a row of cycles at the same Cookie-DB time.
unfoldable pub watermarks : Bytes → List Report → Bytes × ℕ → Bytes × ℕ
watermarks cur [] s = s
watermarks cur (r ∷ rs) (prev, retries) =
    watermarks cur rs (cookie_watermark cur prev r.progress r.errors retries)

-- The counter stays below the cap.
pub cookie_watermark-lt-cap :
    (cur prev : Bytes) (progress : Bool) (errors retries : ℕ)
    → (cookie_watermark cur prev progress errors retries).1 < max_retry_cycles
unfolding cookie_watermark
cookie_watermark-lt-cap cur prev progress errors retries = ground arith

abbrev pub stalled : Report → Bool
stalled r = if r.errors == 0 then false else if r.progress then false else true

-- A cycle leaves the watermark or moves it to the current time.
cookie_watermark-cases :
    (cur prev : Bytes) (progress : Bool) (errors retries : ℕ)
    → ((cookie_watermark cur prev progress errors retries).0 ≡ prev)
      ⊎ ((cookie_watermark cur prev progress errors retries).0 ≡ cur)
unfolding cookie_watermark
cookie_watermark-cases cur prev progress errors retries = ground arith

watermarks_stay :
    (cur : Bytes) (rs : List Report) (prev : Bytes) (retries : ℕ)
    → prev ≡ cur
    → (watermarks cur rs (prev, retries)).0 ≡ cur
unfolding watermarks
watermarks_stay cur [] prev retries e = e
watermarks_stay cur (r ∷ rs) prev retries e =
    watermarks_stay cur rs _ _
      (ground (arith, cookie_watermark-cases cur prev r.progress r.errors retries))

watermarks-cons :
    (cur prev : Bytes) (retries : ℕ) (r : Report) (rs : List Report) {w : Bytes} {n : ℕ}
    → cookie_watermark cur prev r.progress r.errors retries ≡ (w, n)
    → watermarks cur (r ∷ rs) (prev, retries) ≡ watermarks cur rs (w, n)
unfolding watermarks
watermarks-cons cur prev retries r rs e = ap (watermarks cur rs) e

stalled_step :
    (cur prev : Bytes) (r : Report) (retries : ℕ)
    → stalled r ≡ true
    → ((cookie_watermark cur prev r.progress r.errors retries).0 ≡ cur)
      ⊎ (((cookie_watermark cur prev r.progress r.errors retries) ≡ (prev, retries + 1))
          × (retries + 1 < max_retry_cycles))
unfolding cookie_watermark
stalled_step cur prev r retries h = ground arith

-- After three stalled cycles the watermark is the current Cookie-DB time, wherever the counter
-- stood before them, and later cycles at that time leave it there.
pub watermarks_advance :
    (cur prev : Bytes) (retries : ℕ) (a b c : Report) (rest : List Report)
    → stalled a ≡ true
    → stalled b ≡ true
    → stalled c ≡ true
    → (watermarks cur (a ∷ b ∷ c ∷ rest) (prev, retries)).0 ≡ cur
watermarks_advance cur prev retries a b c rest ha hb hc =
    elim (stalled_step cur prev a retries ha) [
      | inl e ↦ moved prev retries a (b ∷ c ∷ rest) e
      | inr (e, _) ↦
          rw (watermarks-cons cur prev retries a (b ∷ c ∷ rest) e)
            (elim (stalled_step cur prev b (retries + 1) hb) [
              | inl e ↦ moved prev (retries + 1) b (c ∷ rest) e
              | inr (e, _) ↦
                  rw (watermarks-cons cur prev (retries + 1) b (c ∷ rest) e)
                    (elim (stalled_step cur prev c (retries + 1 + 1) hc) [
                      | inl e ↦ moved prev (retries + 1 + 1) c rest e
                      | inr (_, below) ↦ absurd (omega arith)
                    ])
            ])
    ]
  where
    moved :
        (w : Bytes) (n : ℕ) (r : Report) (rs : List Report)
        → (cookie_watermark cur w r.progress r.errors n).0 ≡ cur
        → (watermarks cur (r ∷ rs) (w, n)).0 ≡ cur
    moved w n r rs e = rw (watermarks-cons cur w n r rs refl) (watermarks_stay cur rs _ _ e)
