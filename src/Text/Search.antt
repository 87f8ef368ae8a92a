-- ===== src/Text/Search.antt =====
-- `strings.HasPrefix`, `HasSuffix`, `Contains`, `Index`, `ReplaceAll`, `TrimSuffix` and `Join`.
pub mod Replace
pub mod Ends
pub mod Heads
use schroedinger_sync.Base.{
  ℕ, zero, suc, ◌+◌, ◌-◌, Bool, true, false, ◌&&◌, ◌||◌, Option, none, some, List, [], ◌∷◌, ◌++◌,
  ◌==◌, if◌then◌else◌, leb, length, drop, take, Bytes, ◌=?◌,
}

unfoldable pub has_prefix : Bytes → Bytes → Bool
has_prefix s [] = true
has_prefix [] (w ∷ ws) = false
has_prefix (c ∷ s) (w ∷ ws) = c == w && has_prefix s ws

unfoldable pub has_suffix : Bytes → Bytes → Bool
has_suffix s t = leb (length t) (length s) && drop (length s - length t) s =? t

unfoldable pub contains : Bytes → Bytes → Bool
unfolding has_prefix
contains [] w = has_prefix [] w
contains (c ∷ s) w = has_prefix (c ∷ s) w || contains s w

-- The text from the first occurrence of `w` onwards, if there is one: `s[strings.Index(s, w):]`.
unfoldable pub from_first : Bytes → Bytes → Option Bytes
unfolding has_prefix
from_first [] w = if has_prefix [] w then some [] else none
from_first (c ∷ s) w = if has_prefix (c ∷ s) w then some (c ∷ s) else from_first s w

-- `strings.ReplaceAll` for a non-empty `old`: the leftmost occurrences that do not overlap. The
-- counter holds how many bytes of the last occurrence are still to be passed over.
unfoldable pub replace_from : ℕ → Bytes → Bytes → Bytes → Bytes
unfolding has_prefix
replace_from skip [] old new = []
replace_from (suc k) (c ∷ s) old new = replace_from k s old new
replace_from zero (c ∷ s) old new =
    let hit = has_prefix (c ∷ s) old in
    (if hit then new else c ∷ []) ++ replace_from (if hit then length old - 1 else 0) s old new

unfoldable pub replace_all : Bytes → Bytes → Bytes → Bytes
unfolding replace_from
replace_all s old new = replace_from 0 s old new

unfoldable pub trim_suffix : Bytes → Bytes → Bytes
unfolding has_suffix
trim_suffix s t = if has_suffix s t then take (length s - length t) s else s

-- `strings.Join`
unfoldable pub join : List Bytes → Bytes → Bytes
join [] sep = []
join (p ∷ []) sep = p
join (p ∷ q ∷ ps) sep = p ++ (sep ++ join (q ∷ ps) sep)

-- `strings.ToLower` on the letters A to Z.
unfoldable pub lower : Bytes → Bytes
lower [] = []
lower (c ∷ s) = (if leb b'A' c && leb c b'Z' then c + 32 else c) ∷ lower s
