-- ===== src/Json/Numbers.antt =====
-- JSON numbers: the longest prefix that is one, as bytes.
pub mod Plain
use schroedinger_sync.Base.{
  ◌||◌, Option, none, some, [], ◌∷◌, ◌++◌, ◌==◌, if◌then◌else◌, is_empty, Bytes,
}
use schroedinger_sync.Text.Runes.{within}

-- The digits at the start of a text, and what follows them.
digits : Bytes → Bytes × Bytes
digits [] = ([], [])
digits (c ∷ s) =
    let (ds, rest) = digits s in if within b'0' b'9' c then (c ∷ ds, rest) else ([], c ∷ s)

-- Digits that must be there, behind what has been read.
digits_after : Bytes → Bytes → Option (Bytes × Bytes)
digits_after read s =
    let (ds, rest) = digits s in if is_empty ds then none else some (read ++ ds, rest)

-- `(0|[1-9][0-9]*)`
whole : Bytes → Bytes → Option (Bytes × Bytes)
whole read [] = none
whole read (c ∷ s) = if c == b'0' then some (read ++ c ∷ [], s) else digits_after read (c ∷ s)

-- `(\.[0-9]+)?`
fraction : Bytes × Bytes → Option (Bytes × Bytes)
fraction (read, []) = some (read, [])
fraction (read, c ∷ s) = if c == b'.' then digits_after (read ++ c ∷ []) s else some (read, c ∷ s)

exponent_sign : Bytes → Bytes → Option (Bytes × Bytes)
exponent_sign read [] = none
exponent_sign read (c ∷ s) =
    if c == b'+' || c == b'-' then digits_after (read ++ c ∷ []) s else digits_after read (c ∷ s)

-- `([eE][+-]?[0-9]+)?`
exponent : Bytes × Bytes → Option (Bytes × Bytes)
exponent (read, []) = some (read, [])
exponent (read, c ∷ s) =
    if c == b'e' || c == b'E' then exponent_sign (read ++ c ∷ []) s else some (read, c ∷ s)

and_then :
    Option (Bytes × Bytes) → (Bytes × Bytes → Option (Bytes × Bytes)) → Option (Bytes × Bytes)
and_then none f = none
and_then (some r) f = f r

minus : Bytes → Bytes × Bytes
minus [] = ([], [])
minus (c ∷ s) = if c == b'-' then (c ∷ [], s) else ([], c ∷ s)

unfoldable pub scan_number : Bytes → Option (Bytes × Bytes)
unfolding digits digits_after whole fraction exponent_sign exponent and_then minus
scan_number s =
    let (sign, rest) = minus s in and_then (and_then (whole sign rest) fraction) exponent
