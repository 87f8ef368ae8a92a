-- ===== src/Text/Decimal.antt =====
-- `strconv.Itoa` on a natural number (`%d`), and `strconv.Atoi`.
pub mod Digits
use schroedinger_sync.Base.{
  ℕ, zero, suc, ◌+◌, ◌-◌, ◌*◌, ◌/◌, ◌%◌, ◌<◌, Bool, true, false, ◌&&◌, Option, none, some, [], ◌∷◌,
  ◌≡◌, ap, ◌∙◌, inl, inr, arith, ◌==◌, if◌then◌else◌, Bool-cases, ltb→lt, ltb, leb, Bytes,
}

digit : ℕ → ℕ
digit n = b'0' + n

-- The digits of `n` in front of `rest`. `fuel` rounds are enough for a number below it.
digits_onto : ℕ → ℕ → Bytes → Bytes
digits_onto zero n rest = rest
digits_onto (suc fuel) n rest =
    let more = digits_onto fuel (n / 10) (digit (n % 10) ∷ rest) in
    if ltb n 10 then digit n ∷ rest else more

unfoldable pub show : ℕ → Bytes
unfolding digits_onto digit
show n = digits_onto (suc n) n []

is_digit : ℕ → Bool
is_digit c = leb b'0' c && leb c b'9'

-- `none` at a byte that is no digit.
digits_value : ℕ → Bytes → Option ℕ
digits_value acc [] = some acc
digits_value acc (c ∷ s) =
    let rest = digits_value (acc * 10 + (c - b'0')) s in if is_digit c then rest else none

unsigned : Bytes → Option ℕ
unsigned [] = none
unsigned (c ∷ s) = digits_value 0 (c ∷ s)

-- What `Atoi` returns: the sign and the magnitude. A number outside `int` is a range error there,
-- and is kept here; the callers refuse both.
pub record Signed : Type 0 where
  pub negative : Bool
  pub magnitude : ℕ

signed : Bool → Option ℕ → Option Signed
signed minus none = none
signed minus (some m) = some (record { negative = minus; magnitude = m })

unfoldable pub atoi : Bytes → Option Signed
unfolding signed unsigned digits_value is_digit
atoi [] = none
atoi (c ∷ s) =
    if c == b'-'
    then signed true (unsigned s)
    else signed false (if c == b'+' then unsigned s else unsigned (c ∷ s))

digits_value-digit :
    (acc d : ℕ) (rest : Bytes)
    → d < 10
    → digits_value acc (digit d ∷ rest) ≡ digits_value (acc * 10 + d) rest
unfolding digits_value is_digit digit
digits_value-digit acc d rest h =
    let e : acc * 10 + (b'0' + d - b'0') ≡ acc * 10 + d = omega arith in rw e (ground arith)

-- With more rounds than the number, the digits are the number's.
digits_value-digits_onto :
    (fuel n : ℕ) (rest : Bytes)
    → n < fuel
    → digits_value 0 (digits_onto fuel n rest) ≡ digits_value n rest
unfolding digits_onto
digits_value-digits_onto zero n rest h = absurd (omega arith)
digits_value-digits_onto (suc fuel) n rest h = elim (Bool-cases (ltb n 10)) [
  | inl one ↦
      let whole : 0 * 10 + n ≡ n = omega arith in
      rw one (digits_value-digit 0 n rest (ltb→lt n 10 one) ∙ ap (λ m. digits_value m rest) whole)
  | inr more ↦
      let whole : n / 10 * 10 + n % 10 ≡ n = omega arith in
      rw more (
        digits_value-digits_onto fuel (n / 10) _ (ground arith)
        ∙ digits_value-digit (n / 10) (n % 10) rest (omega arith)
        ∙ ap (λ m. digits_value m rest) whole)
]

-- The first byte written is a digit.
digits_onto-digit :
    (fuel n : ℕ) (rest : Bytes)
    → n < fuel
    → (d : ℕ) × (more : Bytes) × (digits_onto fuel n rest ≡ digit d ∷ more) × (d < 10)
unfolding digits_onto
digits_onto-digit zero n rest h = absurd (omega arith)
digits_onto-digit (suc fuel) n rest h = elim (Bool-cases (ltb n 10)) [
  | inl one ↦ (n, rest, rw one, ltb→lt n 10 one)
  | inr more ↦ rw more (digits_onto-digit fuel (n / 10) _ (ground arith))
]

atoi-digit :
    (d : ℕ) (more : Bytes)
    → d < 10
    → atoi (digit d ∷ more) ≡ signed false (digits_value 0 (digit d ∷ more))
unfolding atoi digit
atoi-digit d more h = ground arith

-- `Atoi` reads back what `Itoa` writes.
pub atoi-show : (n : ℕ) → atoi (show n) ≡ some (record { negative = false; magnitude = n })
unfolding show signed digits_value
atoi-show n =
    let (d, more, e, small) = digits_onto-digit (suc n) n [] (omega arith) in
    rw e (
      atoi-digit d more small
      ∙ ap (signed false) (rw e at (digits_value-digits_onto (suc n) n [] (omega arith))))
