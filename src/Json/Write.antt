-- ===== src/Json/Write.antt =====
-- `json.Marshal` on a string (`jsStringLiteral`, cdp.go) and `json.MarshalIndent` with two spaces
-- on an object.
use schroedinger_sync.Base.{
  ℕ, ◌+◌, ◌-◌, ◌/◌, ◌%◌, Bool, true, false, ◌&&◌, ◌||◌, [], ◌∷◌, ◌++◌, ◌==◌, if◌then◌else◌, ltb,
  map, Bytes, ascii,
}
use schroedinger_sync.Base.Map.{Map}
use schroedinger_sync.Text.Search.{join}
use schroedinger_sync.Text.Runes.{runes, concat}

unfoldable pub hex : ℕ → ℕ
hex d = if ltb d 10 then b'0' + d else b'a' + (d - 10)

unfoldable pub backslashed : ℕ → Bytes
backslashed c = b'\\' ∷ c ∷ []

-- An ASCII byte inside a literal.
unfoldable pub escaped_byte : ℕ → Bytes
escaped_byte b =
    if b == b'"' || b == b'\\'
    then backslashed b
    else if b == 8
    then backslashed b'b'
    else if b == 12
    then backslashed b'f'
    else if b == 10
    then backslashed b'n'
    else if b == 13
    then backslashed b'r'
    else if b == 9
    then backslashed b't'
    else if ltb b 0x20 || (b == b'<' || (b == b'>' || b == b'&'))
    then ascii "\\u00" ++ (hex (b / 16) ∷ hex (b % 16) ∷ [])
    else b ∷ []

-- A rune inside a literal: an invalid byte is written as U+FFFD, and the two line separators of
-- JavaScript are escaped.
unfoldable pub escaped_rune : Bytes → Bytes
escaped_rune (b ∷ []) = if ltb b 0x80 then escaped_byte b else ascii "\\ufffd"
escaped_rune (a ∷ b ∷ c ∷ []) =
    if a == 0xE2 && (b == 0x80 && c == 0xA8)
    then ascii "\\u2028"
    else if a == 0xE2 && (b == 0x80 && c == 0xA9)
    then ascii "\\u2029"
    else a ∷ b ∷ c ∷ []
escaped_rune r = r

-- `jsStringLiteral`
unfoldable pub js_string_literal : Bytes → Bytes
unfolding hex backslashed escaped_byte escaped_rune
js_string_literal s = b'"' ∷ (concat (map escaped_rune (runes s)) ++ ascii "\"")

-- The order of keys.
unfoldable pub less : Bytes → Bytes → Bool
less s [] = false
less [] (d ∷ t) = true
less (c ∷ s) (d ∷ t) = ltb c d || (c == d && less s t)

unfoldable pub insert_key : Bytes × Bytes → Map Bytes → Map Bytes
insert_key (k, v) [] = (k, v) ∷ []
insert_key (k, v) ((j, w) ∷ m) =
    let rest = insert_key (k, v) m in if less k j then (k, v) ∷ (j, w) ∷ m else (j, w) ∷ rest

unfoldable pub sorted : Map Bytes → Map Bytes
unfolding less insert_key
sorted [] = []
sorted (e ∷ m) = insert_key e (sorted m)

unfoldable pub field_line : Bytes → Bytes × Bytes → Bytes
field_line indent (k, v) = indent ++ (ascii "  " ++ (js_string_literal k ++ (ascii ": " ++ v)))

-- An object at an indentation; the values are written already.
unfoldable pub object_text : Bytes → Map Bytes → Bytes
unfolding field_line
object_text indent [] = ascii "{}"
object_text indent (e ∷ m) =
    ascii "{\n"
    ++ (join (map (field_line indent) (e ∷ m)) (ascii ",\n")
        ++ (ascii "\n" ++ (indent ++ ascii "}")))

unfoldable pub quoted : Bytes × Bytes → Bytes × Bytes
quoted (k, v) = (k, js_string_literal v)

-- A `map[string]string`.
unfoldable pub map_text : Bytes → Map Bytes → Bytes
unfolding quoted
map_text indent m = object_text indent (map quoted (sorted m))
