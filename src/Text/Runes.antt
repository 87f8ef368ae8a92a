-- ===== src/Text/Runes.antt =====
-- Runes of UTF-8: Go's `[]rune(s)` and back, `trunc` (cdp.go), and `strings.TrimSpace`.
pub mod Bounds
pub mod Plain
use schroedinger_sync.Base.{
  ℕ, zero, suc, ◌-◌, Bool, true, false, ◌&&◌, ◌||◌, List, [], ◌∷◌, ◌++◌, ◌==◌, if◌then◌else◌, leb,
  ltb, length, take, map, Bytes, ◌=?◌,
}

abbrev pub within : ℕ → ℕ → ℕ → Bool
within lo hi c = leb lo c && leb c hi

abbrev continues : ℕ → Bool
continues = within 0x80 0xBF

-- What `utf8`'s table of first bytes says of a byte: it stands alone (ASCII or invalid), or it
-- leads a sequence of two, three or four bytes, the second of them in the given range.
pub data Lead : Type 0 where
  alone : Lead
  two : Lead
  three : ℕ → ℕ → Lead
  four : ℕ → ℕ → Lead

unfoldable pub lead : ℕ → Lead
lead b =
    if within 0xC2 0xDF b
    then two
    else if b == 0xE0
    then three 0xA0 0xBF
    else if b == 0xED
    then three 0x80 0x9F
    else if within 0xE1 0xEF b
    then three 0x80 0xBF
    else if b == 0xF0
    then four 0x90 0xBF
    else if within 0xF1 0xF3 b
    then four 0x80 0xBF
    else if b == 0xF4
    then four 0x80 0x8F
    else alone

-- How many bytes follow the first one in a rune; none if the sequence is broken off.
unfoldable pub follow : Lead → Bytes → ℕ
follow alone _ = 0
follow two (c ∷ _) = if continues c then 1 else 0
follow (three lo hi) (c ∷ d ∷ _) = if within lo hi c && continues d then 2 else 0
follow (four lo hi) (c ∷ d ∷ e ∷ _) =
    if within lo hi c && (continues d && continues e) then 3 else 0
follow _ _ = 0

-- The encodings of the runes, in order. The counter holds how many bytes of the last rune are
-- still to be passed over.
unfoldable pub runes_from : ℕ → Bytes → List Bytes
unfolding lead follow
runes_from skip [] = []
runes_from (suc k) (b ∷ bs) = runes_from k bs
runes_from zero (b ∷ bs) = let more = follow (lead b) bs in (b ∷ take more bs) ∷ runes_from more bs

unfoldable pub runes : Bytes → List Bytes
unfolding runes_from
runes s = runes_from 0 s

abbrev pub concat : List Bytes → Bytes
concat [] = []
concat (r ∷ rs) = r ++ concat rs

-- What `string(r)` writes for a rune: an invalid byte has become U+FFFD.
unfoldable pub rewritten : Bytes → Bytes
rewritten (b ∷ []) = if ltb b 0x80 then b ∷ [] else 0xEF ∷ 0xBF ∷ 0xBD ∷ []
rewritten r = r

unfoldable pub trunc : Bytes → ℕ → Bytes
unfolding runes rewritten
trunc s n = if ltb n (length (runes s)) then concat (map rewritten (take n (runes s))) else s

-- `unicode.IsSpace`, on the encoding of a rune.
unfoldable pub is_space : Bytes → Bool
is_space (b ∷ []) = within 9 13 b || b == 32
is_space (a ∷ b ∷ []) = a == 0xC2 && (b == 0x85 || b == 0xA0)
is_space (a ∷ b ∷ c ∷ []) =
    (a == 0xE1 && (b == 0x9A && c == 0x80))
    || (a == 0xE2 && (b == 0x80 && (within 0x80 0x8A c || (c == 0xA8 || (c == 0xA9 || c == 0xAF)))))
    || (a == 0xE2 && (b == 0x81 && c == 0x9F))
    || (a == 0xE3 && (b == 0x80 && c == 0x80))
is_space _ = false

unfoldable pub drop_spaces : List Bytes → List Bytes
drop_spaces [] = []
drop_spaces (r ∷ rs) = let rest = drop_spaces rs in if is_space r then rest else r ∷ rs

-- A rune stays if it is no space, or if one that is no space follows.
unfoldable pub trim_onto : Bytes → List Bytes → List Bytes
trim_onto r [] = if is_space r then [] else r ∷ []
trim_onto r (q ∷ qs) = r ∷ q ∷ qs

unfoldable pub drop_spaces_right : List Bytes → List Bytes
drop_spaces_right [] = []
drop_spaces_right (r ∷ rs) = trim_onto r (drop_spaces_right rs)

unfoldable pub trim_space : Bytes → Bytes
unfolding runes is_space drop_spaces trim_onto drop_spaces_right
trim_space s = concat (drop_spaces_right (drop_spaces (runes s)))
