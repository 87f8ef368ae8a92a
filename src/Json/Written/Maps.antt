-- ===== src/Json/Written/Maps.antt =====
-- A `map[string]string` is written in the order of its keys, and read back with the same entries.
use schroedinger_sync.Base.{
  ◌≡◌, refl, ◌∙◌, arith, true, false, Option, none, some, List, [], ◌∷◌, if◌then◌else◌, all, map,
  Bool-cases, inl, inr, Bytes, ◌=?◌, =?_iff,
}
use schroedinger_sync.Base.Map.{Map, lookup, insert, lookup-insert}
use schroedinger_sync.Text.Runes.Bounds.{is_ascii}
use schroedinger_sync.Json.{text, object, Members}
use schroedinger_sync.Json.Read.{is_json_space, parse}
use schroedinger_sync.Json.Write.{less, insert_key, sorted, quoted, map_text}
use schroedinger_sync.Json.Written.Strings.{js_string_literal-ascii}
use schroedinger_sync.Json.Written.Objects.{
  IsWritten, literal_of, literal_of-IsWritten, Entry, AreEntries, members_of,
}
use schroedinger_sync.Json.Written.Texts.{line_of, object_text-IsWritten, parse-object_text}
use schroedinger_sync.Integrity.{map_into}

-- Every key stands once, as in a Go map.
abbrev pub IsDistinct : Map Bytes → Type 0
IsDistinct [] = Unit
IsDistinct ((k, v) ∷ m) = (lookup k m ≡ none) × IsDistinct m

lookup-insert_key :
    (k v j : Bytes) (m : Map Bytes)
    → lookup k m ≡ none
    → lookup j (insert_key (k, v) m) ≡ (if k =? j then some v else lookup j m)
unfolding lookup insert_key
lookup-insert_key k v j [] h = refl
lookup-insert_key k v j ((i, w) ∷ m) h =
    ground (arith, =?_iff k j, =?_iff i k, =?_iff i j, lookup-insert_key k v j m)

lookup-none :
    (k i w : Bytes) (m : Map Bytes)
    → lookup k ((i, w) ∷ m) ≡ none
    → ((k =? i) ≡ false) × (lookup k m ≡ none)
unfolding lookup
lookup-none k i w m h = ground (arith, =?_iff k i, =?_iff i k)

IsDistinct-insert_key :
    (k v : Bytes) (m : Map Bytes)
    → lookup k m ≡ none
    → IsDistinct m
    → IsDistinct (insert_key (k, v) m)
unfolding lookup insert_key
IsDistinct-insert_key k v [] h d = (refl, tt)
IsDistinct-insert_key k v ((i, w) ∷ m) h (f, d) =
    let (other, absent) = lookup-none k i w m h in
    elim (Bool-cases (less k i)) [
      | inl before ↦ rw (before, insert_key) (h, (f, d))
      | inr behind ↦
          rw (behind, insert_key)
            (lookup-insert_key k v i m absent ∙ rw other f, IsDistinct-insert_key k v m absent d)
    ]

-- Sorting a map keeps its entries.
sorted_entries :
    (m : Map Bytes)
    → IsDistinct m
    → IsDistinct (sorted m) × ((j : Bytes) → lookup j (sorted m) ≡ lookup j m)
unfolding sorted lookup
sorted_entries [] d = (tt, λ j. refl)
sorted_entries ((k, v) ∷ m) (h, d) =
    let (later, same) = sorted_entries m d in
    (
      IsDistinct-insert_key k v (sorted m) (same k ∙ h) later,
      λ j. lookup-insert_key k v j (sorted m) (same k ∙ h) ∙ rw (same j) refl,
    )

-- The entries as they are written.
abbrev pub entries : Map Bytes → List Entry
entries [] = []
entries ((k, v) ∷ m) = record { key = k; written = literal_of v; value = text v } ∷ entries m

abbrev override : Option Bytes → Option Bytes → Option Bytes
override (some v) old = some v
override none old = old

lookup-map_into :
    (l acc : Map Bytes) (j : Bytes)
    → IsDistinct l
    → lookup j (map_into (members_of (entries l)) acc) ≡ override (lookup j l) (lookup j acc)
unfolding lookup map_into members_of
lookup-map_into [] acc j d = refl
lookup-map_into ((k, v) ∷ l) acc j (h, d) =
    lookup-map_into l (insert k v acc) j d ∙ elim (Bool-cases (k =? j)) [
      | inl same ↦
          let absent : lookup j l ≡ none = rw ((=?_iff k j).0 same) at h in
          rw (lookup-insert k j v acc, same, absent) refl
      | inr differs ↦ rw (lookup-insert k j v acc, differs) refl
    ]

-- Keys and values in ASCII.
abbrev pub IsAscii : Map Bytes → Type 0
IsAscii [] = Unit
IsAscii ((k, v) ∷ m) = (all is_ascii k ≡ true) × (all is_ascii v ≡ true) × IsAscii m

IsAscii-insert_key :
    (k v : Bytes) (m : Map Bytes)
    → all is_ascii k ≡ true
    → all is_ascii v ≡ true
    → IsAscii m
    → IsAscii (insert_key (k, v) m)
unfolding insert_key
IsAscii-insert_key k v [] hk hv m = (hk, hv, m)
IsAscii-insert_key k v ((i, w) ∷ m) hk hv (hi, hw, hm) = elim (Bool-cases (less k i)) [
  | inl before ↦ rw (before, insert_key) (hk, hv, (hi, hw, hm))
  | inr behind ↦ rw (behind, insert_key) (hi, hw, IsAscii-insert_key k v m hk hv hm)
]

IsAscii-sorted : (m : Map Bytes) → IsAscii m → IsAscii (sorted m)
unfolding sorted
IsAscii-sorted [] h = tt
IsAscii-sorted ((k, v) ∷ m) (hk, hv, h) =
    IsAscii-insert_key k v (sorted m) hk hv (IsAscii-sorted m h)

entries-AreEntries : (m : Map Bytes) → IsAscii m → AreEntries (entries m)
entries-AreEntries [] h = tt
entries-AreEntries ((k, v) ∷ m) (hk, hv, h) =
    ((hk, literal_of-IsWritten v hv), entries-AreEntries m h)

quoted-entries : (m : Map Bytes) → IsAscii m → map quoted m ≡ map line_of (entries m)
unfolding quoted
quoted-entries [] h = refl
quoted-entries ((k, v) ∷ m) (hk, hv, h) = rw (js_string_literal-ascii v hv, quoted-entries m h) refl

-- The members that the text of a map is read back as.
abbrev pub map_members : Map Bytes → Members
map_members m = members_of (entries (sorted m))

pub map_text-IsWritten :
    (ind : Bytes) (m : Map Bytes)
    → all is_json_space ind ≡ true
    → IsAscii m
    → IsWritten (map_text ind m) (object (map_members m))
unfolding map_text
map_text-IsWritten ind m h a = rw (quoted-entries (sorted m) (IsAscii-sorted m a)) (
    object_text-IsWritten ind (entries (sorted m)) h
      (entries-AreEntries (sorted m) (IsAscii-sorted m a)))

pub parse-map_text :
    (m : Map Bytes) → IsAscii m → parse (map_text [] m) ≡ some (object (map_members m))
unfolding map_text
parse-map_text m a =
    rw (quoted-entries (sorted m) (IsAscii-sorted m a))
      (parse-object_text (entries (sorted m)) (entries-AreEntries (sorted m) (IsAscii-sorted m a)))

-- A map decoded from them has the entries of the map that was written.
pub lookup-map_members :
    (m : Map Bytes) (j : Bytes) → IsDistinct m → lookup j (map_into (map_members m) []) ≡ lookup j m
lookup-map_members m j d =
    let (sorted_distinct, same) = sorted_entries m d in
    lookup-map_into (sorted m) [] j sorted_distinct ∙ rw (same j) (nothing (lookup j m))
  where
    nothing : (o : Option Bytes) → override o (lookup j []) ≡ o
    nothing none = unfold lookup in refl
    nothing (some v) = refl

pub IsAscii-insert :
    (k v : Bytes) (m : Map Bytes)
    → all is_ascii k ≡ true
    → all is_ascii v ≡ true
    → IsAscii m
    → IsAscii (insert k v m)
unfolding insert
IsAscii-insert k v [] hk hv h = (hk, hv, tt)
IsAscii-insert k v ((j, w) ∷ m) hk hv (hj, hw, h) = elim (Bool-cases (j =? k)) [
  | inl same ↦ rw (same, insert) (hk, hv, h)
  | inr other ↦ rw (other, insert) (hj, hw, IsAscii-insert k v m hk hv h)
]

IsAscii-map_into :
    (l acc : Map Bytes) → IsAscii l → IsAscii acc → IsAscii (map_into (members_of (entries l)) acc)
unfolding map_into members_of
IsAscii-map_into [] acc hl h = h
IsAscii-map_into ((k, v) ∷ l) acc (hk, hv, hl) h =
    IsAscii-map_into l (insert k v acc) hl (IsAscii-insert k v acc hk hv h)

-- It is in ASCII too.
pub IsAscii-map_members : (m : Map Bytes) → IsAscii m → IsAscii (map_into (map_members m) [])
IsAscii-map_members m h = IsAscii-map_into (sorted m) [] (IsAscii-sorted m h) tt
