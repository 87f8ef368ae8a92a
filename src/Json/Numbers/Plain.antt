-- ===== src/Json/Numbers/Plain.antt =====
-- Numbers without a sign, a fraction or an exponent.
use schroedinger_sync.Base.{
  ℕ, ◌≡◌, refl, arith, Bool, true, false, ◌||◌, some, [], ◌∷◌, ◌++◌, ◌==◌, all, Bytes,
}
use schroedinger_sync.Text.Runes.{within}
use schroedinger_sync.Text.Decimal.Digits.{IsNumeral}
use schroedinger_sync.Json.Numbers.{
  digits, digits_after, whole, fraction, exponent, minus, scan_number,
}

-- No digit, no point and no exponent follows.
abbrev pub stops : ℕ → Bool
stops c = c == b',' || c == b'\n'

digits-append :
    (s rest : Bytes) (c : ℕ)
    → all (within b'0' b'9') s ≡ true
    → stops c ≡ true
    → digits (s ++ c ∷ rest) ≡ (s, c ∷ rest)
unfolding digits
digits-append [] rest c h e = ground arith
digits-append (d ∷ s) rest c h e = rw (digits-append s rest c (ground arith) e) (ground arith)

pub scan_number-IsNumeral :
    (s rest : Bytes) (c : ℕ)
    → IsNumeral s
    → stops c ≡ true
    → scan_number (s ++ c ∷ rest) ≡ some (s, c ∷ rest)
unfolding scan_number minus whole digits_after fraction exponent
scan_number-IsNumeral [] rest c n e = absurd n
scan_number-IsNumeral (d ∷ s) rest c (low, high, h) e =
    let first : all (within b'0' b'9') (d ∷ s) ≡ true = ground arith in
    let not_minus : (d == b'-') ≡ false = ground arith in
    let not_zero : (d == b'0') ≡ false = ground arith in
    let not_point : (c == b'.') ≡ false = ground arith in
    let not_exponent : (c == b'e' || c == b'E') ≡ false = ground arith in
    rw (not_minus, not_zero, digits-append (d ∷ s) rest c first e, not_point, not_exponent) refl
