-- ===== src/Json/Written/Counts.antt =====
-- Counts inside an object.
use schroedinger_sync.Base.{
  ℕ, zero, suc, ◌≤◌, ◌<◌, ◌≡◌, refl, arith, true, false, some, [], ◌∷◌, ◌++◌, ◌==◌, length, Bytes,
}
use schroedinger_sync.Text.Decimal.{show}
use schroedinger_sync.Text.Decimal.Digits.{IsNumeral, show-IsNumeral}
use schroedinger_sync.Json.{number}
use schroedinger_sync.Json.Numbers.Plain.{scan_number-IsNumeral}
use schroedinger_sync.Json.Read.{is_json_space, skip_spaces, read_number, read_scalar, read_value}
use schroedinger_sync.Json.Written.Objects.{is_end, IsWritten}

-- The first byte of a numeral starts no other value.
read_scalar-numeral :
    (d : ℕ) (s : Bytes) → b'0' < d → d ≤ b'9' → read_scalar d s ≡ read_number (d ∷ s)
unfolding read_scalar
read_scalar-numeral d s low high =
    let quote : (d == b'"') ≡ false = ground arith in
    let n : (d == b'n') ≡ false = ground arith in
    let t : (d == b't') ≡ false = ground arith in
    let f : (d == b'f') ≡ false = ground arith in rw (quote, n, t, f) refl

read_value-numeral :
    (d : ℕ) (s rest : Bytes) (c f : ℕ)
    → IsNumeral (d ∷ s)
    → is_end c ≡ true
    → read_value (suc f) (d ∷ s ++ c ∷ rest) ≡ some (number (d ∷ s), c ∷ rest)
unfolding read_value read_number
read_value-numeral d s rest c f (low, high, h) e =
    let brace : (d == b'{') ≡ false = ground arith in
    let bracket : (d == b'[') ≡ false = ground arith in
    rw
      (
        brace,
        bracket,
        read_scalar-numeral d (s ++ c ∷ rest) low high,
        scan_number-IsNumeral (d ∷ s) rest c (low, high, h) e,
      )
      refl

numeral-IsWritten : (t : Bytes) → IsNumeral t → IsWritten t (number t)
unfolding skip_spaces
numeral-IsWritten [] n = absurd n
numeral-IsWritten (d ∷ s) (low, high, h) =
    let solid : is_json_space d ≡ false = ground arith in (λ u. rw solid refl, read)
  where
    read :
        (f c : ℕ) (rest : Bytes)
        → is_end c ≡ true
        → length (d ∷ s) ≤ f
        → read_value f (d ∷ s ++ c ∷ rest) ≡ some (number (d ∷ s), c ∷ rest)
    read zero c rest e l = absurd (omega arith)
    read (suc f) c rest e l = read_value-numeral d s rest c f (low, high, h) e

pub show-IsWritten : (n : ℕ) → 0 < n → IsWritten (show n) (number (show n))
show-IsWritten n p = numeral-IsWritten (show n) (show-IsNumeral n p)
