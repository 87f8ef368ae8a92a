-- ===== src/Json/Read.antt =====
-- `json.Unmarshal`'s scan: the whole text must be one value.
use schroedinger_sync.Base.{
  ℕ, zero, suc, ◌-◌, Bool, true, false, ◌||◌, Option, none, some, [], ◌∷◌, ◌==◌, if◌then◌else◌,
  is_empty, length, take, drop, Bytes, ascii,
}
use schroedinger_sync.Text.Search.{has_prefix}
use schroedinger_sync.Json.{
  Value, null, boolean, number, text, array, object, Items, nil, item, Members, end, member,
}
use schroedinger_sync.Json.Strings.{scan_string, unquote}
use schroedinger_sync.Json.Numbers.{scan_number}

infixl 5 ◌>>=◌
abbrev pub ◌>>=◌ {ℓ κ} : {A : Type ℓ} {B : Type κ} → Option A → (A → Option B) → Option B
none >>= f = none
some a >>= f = f a

-- `isSpace` of the scanner
abbrev pub is_json_space : ℕ → Bool
is_json_space c = c == b' ' || (c == b'\t' || (c == b'\r' || c == b'\n'))

unfoldable pub skip_spaces : Bytes → Bytes
skip_spaces [] = []
skip_spaces (c ∷ s) = let rest = skip_spaces s in if is_json_space c then rest else c ∷ s

unfoldable pub literal : Bytes → Value → Bytes → Option (Value × Bytes)
literal word v s = if has_prefix s word then some (v, drop (length word) s) else none

-- The bytes of `s` in front of `rest`.
unfoldable pub span : Bytes → Bytes → Bytes
span s rest = take (length s - length rest) s

-- What follows a byte that must stand here.
unfoldable pub expect : ℕ → Bytes → Option Bytes
expect b [] = none
expect b (c ∷ s) = if c == b then some s else none

unfoldable pub read_string : Bytes → Option (Bytes × Bytes)
read_string s = do (body, rest) ← scan_string false s; t ← unquote 0 body; some (t, rest)

unfoldable pub read_text : Bytes → Option (Value × Bytes)
read_text s = do (t, rest) ← read_string s; some (text t, rest)

unfoldable pub read_number : Bytes → Option (Value × Bytes)
read_number s = do (n, rest) ← scan_number s; some (number n, rest)

-- The values that hold no other, by their first byte.
unfoldable pub read_scalar : ℕ → Bytes → Option (Value × Bytes)
read_scalar c s =
    if c == b'"'
    then read_text s
    else if c == b'n'
    then literal (ascii "null") null (c ∷ s)
    else if c == b't'
    then literal (ascii "true") (boolean true) (c ∷ s)
    else if c == b'f'
    then literal (ascii "false") (boolean false) (c ∷ s)
    else read_number (c ∷ s)

unfoldable pub starts : ℕ → Bytes → Bool
starts b [] = false
starts b (c ∷ s) = c == b

-- Every call takes a byte at least, so fuel above the length of the text is enough.
unfoldable mutual
  unfolding literal span expect read_string read_text read_number read_scalar starts skip_spaces

  pub read_value : ℕ → Bytes → Option (Value × Bytes)
  read_value zero s = none
  read_value (suc f) [] = none
  read_value (suc f) (c ∷ s) =
      let inner = skip_spaces s in
      let empty_object = some (object end, drop 1 inner) in
      let empty_array = some (array nil, drop 1 inner) in
      let members = (do (ms, rest) ← read_members f inner; some (object ms, rest)) in
      let items = (do (xs, rest) ← read_items f inner; some (array xs, rest)) in
      if c == b'{'
      then if starts b'}' inner then empty_object else members
      else if c == b'['
      then if starts b']' inner then empty_array else items
      else read_scalar c s

  pub read_items : ℕ → Bytes → Option (Items × Bytes)
  read_items zero s = none
  read_items (suc f) s = do
    (v, after) ← read_value f s
    let rest = skip_spaces after
    let last = (do r ← expect b']' rest; some (item (span s after) v nil, r))
    let more = (do
      r ← expect b',' rest
      (xs, r') ← read_items f (skip_spaces r)
      some (item (span s after) v xs, r'))
    if starts b',' rest then more else last

  pub read_members : ℕ → Bytes → Option (Members × Bytes)
  read_members zero s = none
  read_members (suc f) s = do
    quoted ← expect b'"' s
    (key, after_key) ← read_string quoted
    colon ← expect b':' (skip_spaces after_key)
    let start = skip_spaces colon
    (v, after) ← read_value f start
    let rest = skip_spaces after
    let last = (do r ← expect b'}' rest; some (member key (span start after) v end, r))
    let more = (do
      r ← expect b',' rest
      (ms, r') ← read_members f (skip_spaces r)
      some (member key (span start after) v ms, r'))
    if starts b',' rest then more else last

-- Only spaces may follow the value.
unfoldable pub complete : Option (Value × Bytes) → Option Value
complete none = none
complete (some (v, rest)) = if is_empty (skip_spaces rest) then some v else none

unfoldable pub parse : Bytes → Option Value
unfolding read_value read_items read_members complete skip_spaces scan_string unquote scan_number
    has_prefix
parse s = complete (read_value (suc (length s)) (skip_spaces s))
