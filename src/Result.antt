-- ===== src/Result.antt =====
-- The errors that the program tells apart by `errors.Is`; a result is a value or an error.
use schroedinger_sync.Base.{Bytes, Bool, true, false, ◌≡◌, refl, ◌⊎◌, inl, inr}

pub data Error : Type 0 where
  -- `context.DeadlineExceeded`, `errRateLimited` and `ErrDesktopNotFound`, wrapped or not
  deadline rate_limited desktop_not_found : Error
  -- the HTML page of `getWithRetryDelay`
  challenge : Error
  -- any other error, by its message
  other : Bytes → Error

pub data Result {ℓ} (A : Type ℓ) : Type ℓ where
  ok : A → Result A
  err : Error → Result A

-- `errors.Is(e, context.DeadlineExceeded)` and its like
abbrev pub is_deadline : Error → Bool
is_deadline deadline = true
is_deadline _ = false

abbrev pub is_rate_limit : Error → Bool
is_rate_limit rate_limited = true
is_rate_limit _ = false

abbrev pub is_desktop_not_found : Error → Bool
is_desktop_not_found desktop_not_found = true
is_desktop_not_found _ = false

pub Result-cases {ℓ} :
    {A : Type ℓ} (r : Result A) → ((a : A) × (r ≡ ok a)) ⊎ ((e : Error) × (r ≡ err e))
Result-cases (ok a) = inl (a, refl)
Result-cases (err e) = inr (e, refl)
