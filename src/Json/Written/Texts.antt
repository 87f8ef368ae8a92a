-- ===== src/Json/Written/Texts.antt =====
-- The text that `json.MarshalIndent` writes for an object, read back.
use mathlib.Core.List.{append_assoc, append-nil}
use schroedinger_sync.Base.{
  ℕ, zero, suc, ◌+◌, ◌≤◌, ◌<◌, ◌≡◌, refl, sym, ◌∙◌, ap, arith, true, false, some, List, [], ◌∷◌,
  ◌++◌, all, map, length, length-append, Bytes, ascii,
}
use schroedinger_sync.Text.Search.{join}
use schroedinger_sync.Text.Runes.Bounds.{is_ascii}
use schroedinger_sync.Json.{object}
use schroedinger_sync.Json.Read.{is_json_space, skip_spaces, starts, read_value, parse, complete}
use schroedinger_sync.Json.Write.{field_line, object_text}
use schroedinger_sync.Json.Written.Strings.{body_of, js_string_literal-ascii}
use schroedinger_sync.Json.Written.Objects.{
  IsWritten, Entry, AreEntries, members_of, from, cost, skip_spaces-append, skip_spaces-from,
  read_members-from, member_text,
}

-- An entry as it is given to `object_text`.
abbrev pub line_of : Entry → Bytes × Bytes
line_of e = (e.key, e.written)

field_line-append :
    (ind : Bytes) (e : Entry) (u : Bytes)
    → all is_ascii e.key ≡ true
    → field_line ind (line_of e) ++ u ≡ ind ++ b' ' ∷ b' ' ∷ member_text e.key e.written u
unfolding field_line
field_line-append ind e u h = rw (js_string_literal-ascii e.key h) (simp append_assoc refl)

-- The lines behind the first brace, and the closing one.
lines-from :
    (ind : Bytes) (e : Entry) (es : List Entry) (rest : Bytes)
    → AreEntries (e ∷ es)
    → join (map (field_line ind) (map line_of (e ∷ es))) (ascii ",\n")
        ++ (b'\n' ∷ (ind ++ b'}' ∷ rest))
      ≡ ind ++ b' ' ∷ b' ' ∷ from ind e es rest
unfolding join from
lines-from ind e [] rest ((h, w), ws) = field_line-append ind e _ h
lines-from ind e (e' ∷ es) rest ((h, w), ws) =
    append_assoc (field_line ind (line_of e)) _ _
    ∙ ap (λ u. field_line ind (line_of e) ++ b',' ∷ b'\n' ∷ u) (lines-from ind e' es rest ws)
    ∙ field_line-append ind e _ h

object_text-from :
    (ind : Bytes) (e : Entry) (es : List Entry) (rest : Bytes)
    → AreEntries (e ∷ es)
    → object_text ind (map line_of (e ∷ es)) ++ rest
      ≡ b'{' ∷ b'\n' ∷ (ind ++ b' ' ∷ b' ' ∷ from ind e es rest)
unfolding object_text
object_text-from ind e es rest w =
    let lines = join (map (field_line ind) (map line_of (e ∷ es))) (ascii ",\n") in
    ap (λ u. b'{' ∷ b'\n' ∷ u)
      (append_assoc lines (b'\n' ∷ (ind ++ ascii "}")) rest
        ∙ ap (λ u. lines ++ b'\n' ∷ u) (append_assoc ind (ascii "}") rest)
        ∙ lines-from ind e es rest w)

length-member_text : (k t u : Bytes) → length t + length u < length (member_text k t u)
length-member_text k t u =
    omega (arith, length-append (body_of k) (b'"' ∷ b':' ∷ b' ' ∷ (t ++ u)), length-append t u)

cost-from :
    (ind : Bytes) (e : Entry) (es : List Entry) (rest : Bytes)
    → cost e es ≤ length (from ind e es rest)
unfolding cost from
cost-from ind e [] rest =
    omega (arith, length-member_text e.key e.written (b'\n' ∷ (ind ++ b'}' ∷ rest)))
cost-from ind e (e' ∷ es) rest =
    let later = from ind e' es rest in
    omega (
      arith,
      length-member_text e.key e.written (b',' ∷ b'\n' ∷ (ind ++ b' ' ∷ b' ' ∷ later)),
      length-append ind (b' ' ∷ b' ' ∷ later),
      cost-from ind e' es rest,
    )

starts-from :
    (ind : Bytes) (e : Entry) (es : List Entry) (rest : Bytes)
    → starts b'}' (from ind e es rest) ≡ false
unfolding starts from
starts-from ind e [] rest = refl
starts-from ind e (e' ∷ es) rest = refl

-- An object's text starts with its brace.
read_value-braced :
    (ind : Bytes) (e : Entry) (es : List Entry) (rest : Bytes) (f : ℕ)
    → all is_json_space ind ≡ true
    → AreEntries (e ∷ es)
    → cost e es ≤ f
    → read_value (suc f) (b'{' ∷ b'\n' ∷ (ind ++ b' ' ∷ b' ' ∷ from ind e es rest))
      ≡ some (object (members_of (e ∷ es)), rest)
unfolding read_value skip_spaces starts
read_value-braced ind e es rest f h w l =
    let line : skip_spaces (ind ++ b' ' ∷ b' ' ∷ from ind e es rest) ≡ from ind e es rest =
      skip_spaces-append ind (b' ' ∷ b' ' ∷ from ind e es rest) h
      ∙ skip_spaces-from ind e es rest in
    rw (line, starts-from ind e es rest, read_members-from ind e es rest f h w l) refl

cost-object_text :
    (ind : Bytes) (e : Entry) (es : List Entry)
    → AreEntries (e ∷ es)
    → cost e es < length (object_text ind (map line_of (e ∷ es)))
cost-object_text ind e es w =
    let whole = ap (length {A = ℕ}) (object_text-from ind e es [] w) in
    omega (
      arith,
      whole,
      length-append (object_text ind (map line_of (e ∷ es))) [],
      length-append ind (b' ' ∷ b' ' ∷ from ind e es []),
      cost-from ind e es [],
    )

read_value-object_text :
    (ind : Bytes) (e : Entry) (es : List Entry) (rest : Bytes) (f : ℕ)
    → all is_json_space ind ≡ true
    → AreEntries (e ∷ es)
    → cost e es < f
    → read_value f (object_text ind (map line_of (e ∷ es)) ++ rest)
      ≡ some (object (members_of (e ∷ es)), rest)
read_value-object_text ind e es rest zero h w l = absurd (omega arith)
read_value-object_text ind e es rest (suc f) h w l =
    ap (read_value (suc f)) (object_text-from ind e es rest w)
    ∙ read_value-braced ind e es rest f h w (omega arith)

read_value-empty :
    (ind rest : Bytes) (f : ℕ)
    → 0 < f
    → read_value f (object_text ind [] ++ rest) ≡ some (object (members_of []), rest)
unfolding read_value object_text skip_spaces starts members_of
read_value-empty ind rest zero l = absurd (omega arith)
read_value-empty ind rest (suc f) l = refl

-- What `object_text` writes is read back as an object, behind the fuel of its length.
pub object_text-IsWritten :
    (ind : Bytes) (es : List Entry)
    → all is_json_space ind ≡ true
    → AreEntries es
    → IsWritten (object_text ind (map line_of es)) (object (members_of es))
unfolding skip_spaces
object_text-IsWritten ind [] h w = (
  λ u. unfold object_text in refl,
  λ f c rest e l.
      read_value-empty ind (c ∷ rest) f (let two : 2 ≤ f = unfold object_text in l in omega arith),
)
object_text-IsWritten ind (e ∷ es) h w = (
  λ u. rw (object_text-from ind e es u w) refl,
  λ f c rest en l.
      read_value-object_text ind e es (c ∷ rest) f h w (omega (arith, cost-object_text ind e es w)),
)

-- `json.Unmarshal` of an object's text reads its members, each with its text.
pub parse-object_text :
    (es : List Entry)
    → AreEntries es
    → parse (object_text [] (map line_of es)) ≡ some (object (members_of es))
unfolding parse complete skip_spaces
parse-object_text [] w = unfold object_text read_value starts members_of in refl
parse-object_text (e ∷ es) w =
    let s = object_text [] (map line_of (e ∷ es)) in
    let braced = sym (append-nil s) ∙ object_text-from [] e es [] w in
    let read =
      read_value-object_text [] e es [] (suc (length s)) refl w
        (omega (arith, cost-object_text [] e es w)) in
    let unspaced : skip_spaces s ≡ s = ap skip_spaces braced ∙ sym braced in
    ap complete (ap (read_value (suc (length s))) (unspaced ∙ sym (append-nil s)) ∙ read)
