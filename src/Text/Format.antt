-- ===== src/Text/Format.antt =====
-- The verbs of `fmt` that the program's reports use on texts, lists and counts.
use schroedinger_sync.Base.{ℕ, zero, suc, ◌-◌, List, [], ◌∷◌, ◌++◌, map, length, take, Bytes, ascii}
use schroedinger_sync.Base.Map.{Map}
use schroedinger_sync.Text.Runes.{runes, concat}
use schroedinger_sync.Text.Search.{join}

unfoldable pub spaces : ℕ → Bytes
spaces zero = []
spaces (suc n) = b' ' ∷ spaces n

-- `%-ws`: filled up with spaces to a width in runes.
unfoldable pub pad_right : ℕ → Bytes → Bytes
unfolding runes spaces
pad_right w s = s ++ spaces (w - length (runes s))

-- `%.ps`: cut to a number of runes, invalid bytes kept as they are.
unfoldable pub cut : ℕ → Bytes → Bytes
unfolding runes
cut p s = concat (take p (runes s))

-- `%q` on a text of printable ASCII without quotes and backslashes.
unfoldable pub plain_quote : Bytes → Bytes
plain_quote s = b'"' ∷ (s ++ ascii "\"")

-- `%v` on a list of texts.
unfoldable pub show_list : List Bytes → Bytes
unfolding join
show_list ss = ascii "[" ++ (join ss (ascii " ") ++ ascii "]")

keyed : Bytes × Bytes → Bytes
keyed (k, v) = k ++ (ascii ":" ++ v)

-- `%v` on a map whose keys are in order and whose values are shown already.
unfoldable pub show_map : Map Bytes → Bytes
unfolding keyed join
show_map m = ascii "map[" ++ (join (map keyed m) (ascii " ") ++ ascii "]")
