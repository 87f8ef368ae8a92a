-- ===== src/Text/Decimal/Digits.antt =====
-- What `strconv.Itoa` writes of a number above zero.
use schroedinger_sync.Base.{
  ℕ, zero, suc, ◌/◌, ◌≤◌, ◌<◌, true, [], ◌∷◌, ◌≡◌, refl, inl, inr, arith, Bool-cases, ltb, all,
  Bytes,
}
use schroedinger_sync.Text.Runes.{within}
use schroedinger_sync.Text.Decimal.{digit, digits_onto, show}

-- Digits, the first of them not a zero.
abbrev pub IsNumeral : Bytes → Type 0
IsNumeral [] = ⊥
IsNumeral (c ∷ s) = (b'0' < c) × (c ≤ b'9') × (all (within b'0' b'9') s ≡ true)

digits_onto-IsNumeral :
    (fuel n : ℕ) (rest : Bytes)
    → n < fuel
    → 0 < n
    → all (within b'0' b'9') rest ≡ true
    → IsNumeral (digits_onto fuel n rest)
unfolding digits_onto digit
digits_onto-IsNumeral zero n rest l p h = absurd (omega arith)
digits_onto-IsNumeral (suc fuel) n rest l p h = elim (Bool-cases (ltb n 10)) [
  | inl one ↦ rw one (omega arith, ground arith, h)
  | inr more ↦
      rw more (digits_onto-IsNumeral fuel (n / 10) _ (ground arith) (ground arith) (ground arith))
]

pub show-IsNumeral : (n : ℕ) → 0 < n → IsNumeral (show n)
unfolding show
show-IsNumeral n p = digits_onto-IsNumeral (suc n) n [] (omega arith) p refl
