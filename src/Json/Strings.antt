-- ===== src/Json/Strings.antt =====
-- JSON string literals: the scan to the closing quote, and `unquote`.
use schroedinger_sync.Base.{
  ℕ, zero, suc, ◌+◌, ◌-◌, ◌*◌, ◌/◌, ◌%◌, Bool, not, ◌&&◌, ◌||◌, Option, none, some, [], ◌∷◌, ◌++◌,
  ◌==◌, if◌then◌else◌, ltb, take, drop, Bytes,
}
use schroedinger_sync.Text.Runes.{within, lead, follow, rewritten}

-- A control character ends the scan in an error.
unfoldable pub scanned : ℕ → Option (Bytes × Bytes) → Option (Bytes × Bytes)
scanned c none = none
scanned c (some (body, rest)) = if ltb c 0x20 then none else some (c ∷ body, rest)

-- The body of a literal up to its closing quote, escapes as they stand, and what follows. The
-- flag says that the byte before was a backslash that escapes this one.
unfoldable pub scan_string : Bool → Bytes → Option (Bytes × Bytes)
unfolding scanned
scan_string escaped [] = none
scan_string escaped (c ∷ s) =
    let later = scanned c (scan_string (not escaped && c == b'\\') s) in
    if not escaped && c == b'"' then some ([], s) else later

unfoldable pub hex_digit : ℕ → Option ℕ
hex_digit c =
    if within b'0' b'9' c
    then some (c - b'0')
    else if within b'a' b'f' c
    then some (c - b'a' + 10)
    else if within b'A' b'F' c
    then some (c - b'A' + 10)
    else none

-- Four hexadecimal digits (`getu4`).
unfoldable pub hex4 : Bytes → Option ℕ
hex4 (a ∷ b ∷ c ∷ d ∷ _) = elim (hex_digit a) [
  | none ↦ none
  | some w ↦ elim (hex_digit b) [
    | none ↦ none
    | some x ↦ elim (hex_digit c) [
      | none ↦ none
      | some y ↦ elim (hex_digit d) [
        | none ↦ none
        | some z ↦ some (w * 4096 + x * 256 + y * 16 + z)
      ]
    ]
  ]
]
hex4 _ = none

-- `utf8.AppendRune`
unfoldable pub encode_rune : ℕ → Bytes
encode_rune r =
    if ltb r 0x80
    then r ∷ []
    else if ltb r 0x800
    then (0xC0 + r / 64) ∷ (0x80 + r % 64) ∷ []
    else if ltb r 0x10000
    then (0xE0 + r / 4096) ∷ (0x80 + r / 64 % 64) ∷ (0x80 + r % 64) ∷ []
    else (0xF0 + r / 262144) ∷ (0x80 + r / 4096 % 64) ∷ (0x80 + r / 64 % 64) ∷ (0x80 + r % 64) ∷ []

unfoldable pub replacement : Bytes
replacement = 0xEF ∷ 0xBF ∷ 0xBD ∷ []

-- The low half of a surrogate pair, if the text goes on with its escape.
unfoldable pub low_surrogate : Bytes → Option ℕ
low_surrogate (b ∷ u ∷ s) =
    if b == b'\\' && u == b'u'
    then elim (hex4 s) [ none ↦ none | some y ↦ if within 0xDC00 0xDFFF y then some y else none ]
    else none
low_surrogate _ = none

-- What `\u` stands for, and how many bytes after the backslash it takes.
unfoldable pub unicode_escape : ℕ → Bytes → Bytes × ℕ
unicode_escape r after =
    if within 0xD800 0xDFFF r
    then elim (if within 0xD800 0xDBFF r then low_surrogate after else none) [
      | none ↦ (replacement, 5)
      | some y ↦ (encode_rune ((r - 0xD800) * 1024 + (y - 0xDC00) + 0x10000), 11)
    ]
    else (encode_rune r, 5)

-- What an escape stands for, from the byte after the backslash on.
unfoldable pub escape : Bytes → Option (Bytes × ℕ)
escape [] = none
escape (e ∷ s) =
    if e == b'"' || (e == b'\\' || e == b'/')
    then some (e ∷ [], 1)
    else if e == b'b'
    then some (8 ∷ [], 1)
    else if e == b'f'
    then some (12 ∷ [], 1)
    else if e == b'n'
    then some (10 ∷ [], 1)
    else if e == b'r'
    then some (13 ∷ [], 1)
    else if e == b't'
    then some (9 ∷ [], 1)
    else if e == b'u'
    then elim (hex4 s) [ none ↦ none | some r ↦ some (unicode_escape r (drop 4 s)) ]
    else none

-- The piece that begins with a byte: an escape, or a rune; an invalid byte becomes U+FFFD.
unfoldable pub piece : ℕ → Bytes → Option (Bytes × ℕ)
piece c s =
    if c == b'\\'
    then escape s
    else let more = follow (lead c) s in some (rewritten (c ∷ take more s), more)

unfoldable pub prepend : Bytes → Option Bytes → Option Bytes
prepend out none = none
prepend out (some rest) = some (out ++ rest)

-- `unquote` on the body of a literal. The counter holds how many bytes of the last piece are
-- still to be passed over.
unfoldable pub unquote : ℕ → Bytes → Option Bytes
unfolding piece escape unicode_escape low_surrogate replacement hex4 hex_digit prepend encode_rune
    lead follow rewritten
unquote skip [] = some []
unquote (suc k) (c ∷ s) = unquote k s
unquote zero (c ∷ s) = elim (piece c s) [ none ↦ none | some (out, n) ↦ prepend out (unquote n s) ]
