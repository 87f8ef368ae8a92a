-- ===== src/Json/Decode.antt =====
-- `json.Unmarshal` into a struct, a slice or a string. An ill-typed field does not stop the
-- decoding: it is skipped, and the result is marked. Where a key stands twice the later value
-- counts; names of fields are compared without regard to the case of ASCII letters.
use schroedinger_sync.Base.{
  Bool, true, false, ◌&&◌, Option, none, some, List, [], ◌∷◌, if◌then◌else◌, Bytes, ◌=?◌,
}
use schroedinger_sync.Text.Search.{lower}
use schroedinger_sync.Json.{
  Value, null, text, array, object, Items, nil, item, Members, end, member,
}
use schroedinger_sync.Json.Read.{parse}

-- What has been decoded, and whether `Unmarshal` returns no error.
pub record Decoded {ℓ} (A : Type ℓ) : Type ℓ where
  pub value : A
  pub fine : Bool

module _ {ℓ} {A : Type ℓ} where
  abbrev pub well : A → Decoded A
  well a = record { value = a; fine = true }

  abbrev pub ill : A → Decoded A
  ill a = record { value = a; fine = false }

  -- A string field; `null` leaves it alone.
  unfoldable pub text_into : (Bytes → A) → A → Value → Decoded A
  text_into set old (text t) = well (set t)
  text_into set old null = well old
  text_into set old _ = ill old

  -- The fields of an object, each assigned in its turn.
  unfoldable pub decode_members :
      (Bytes → Bytes → Value → A → Decoded A) → Members → Decoded A → Decoded A
  decode_members assign end d = d
  decode_members assign (member k raw v ms) d =
      let r = assign k raw v d.value in
      decode_members assign ms (record { value = r.value; fine = d.fine && r.fine })

  unfoldable pub struct : A → (Bytes → Bytes → Value → A → Decoded A) → Value → Decoded A
  unfolding decode_members
  struct zero_value assign (object ms) = decode_members assign ms (well zero_value)
  struct zero_value assign null = well zero_value
  struct zero_value assign _ = ill zero_value

module _ {ℓ} {A : Type ℓ} where
  unfoldable pub decode_items : (Value → Decoded A) → Items → Decoded (List A)
  decode_items f nil = well []
  decode_items f (item raw v xs) =
      let r = f v in
      let rest = decode_items f xs in
      record { value = r.value ∷ rest.value; fine = r.fine && rest.fine }

  unfoldable pub slice : (Value → Decoded A) → Value → Decoded (List A)
  unfolding decode_items
  slice f (array xs) = decode_items f xs
  slice f null = well []
  slice f _ = ill []

-- A slice field.
abbrev pub list_into {ℓ κ} : {A : Type ℓ} {B : Type κ} → (List B → A) → Decoded (List B) → Decoded A
list_into set d = record { value = set d.value; fine = d.fine }

module _ {ℓ} {A : Type ℓ} where
  -- A result without an error.
  abbrev pub no_error : Decoded A → Option A
  no_error d = if d.fine then some d.value else none

  -- `json.Unmarshal(s, &v) == nil`, with what `v` then holds.
  unfoldable pub unmarshal : (Value → Decoded A) → Bytes → Option A
  unfolding parse
  unmarshal f s = elim (parse s) [ none ↦ none | some v ↦ no_error (f v) ]

-- Is this the key of the field?
unfoldable pub names : Bytes → Bytes → Bool
unfolding lower ◌=?◌
names field key = lower key =? lower field
