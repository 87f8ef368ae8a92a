-- ===== src/Json/Written/Strings.antt =====
-- String literals, for the texts in ASCII.
use mathlib.Core.List.{append_assoc, append-nil}
use schroedinger_sync.Base.{
  ℕ, ◌+◌, ◌*◌, ◌/◌, ◌%◌, ◌<◌, ◌≡◌, refl, sym, ◌∙◌, ap, arith, Bool, true, false, ◌||◌, Option, none,
  some, [], ◌∷◌, ◌++◌, ◌==◌, if◌then◌else◌, ltb, all, map, Bytes, ascii, ltb→lt, lt→ltb, ==_iff,
}
use schroedinger_sync.Text.Runes.{follow, rewritten, concat}
use schroedinger_sync.Text.Runes.Bounds.{is_ascii, lead-ascii, singles, runes-ascii}
use schroedinger_sync.Json.Strings.{
  scan_string, scanned, unquote, piece, escape, hex4, hex_digit, prepend, encode_rune,
  unicode_escape,
}
use schroedinger_sync.Json.Read.{read_string}
use schroedinger_sync.Json.Write.{hex, backslashed, escaped_byte, escaped_rune, js_string_literal}

abbrev put_front : Bytes → Option (Bytes × Bytes) → Option (Bytes × Bytes)
put_front w none = none
put_front w (some (body, rest)) = some (w ++ body, rest)

hex_lem :
    (d : ℕ)
    → d < 16
    → (hex_digit (hex d) ≡ some d)
      × (ltb (hex d) 0x20 ≡ false)
      × ((hex d == b'"') ≡ false)
      × ((hex d == b'\\') ≡ false)
unfolding hex hex_digit
hex_lem d h = ground arith

scan_string-escaped_byte :
    (b : ℕ) (t : Bytes)
    → b < 0x80
    → scan_string false (escaped_byte b ++ t) ≡ put_front (escaped_byte b) (scan_string false t)
unfolding scan_string scanned escaped_byte backslashed
scan_string-escaped_byte b t h =
    ground (arith, hex_lem (b / 16) (omega arith), hex_lem (b % 16) (omega arith))

-- One step of `unquote`.
unquote-piece :
    (c : ℕ) (s out : Bytes) (n : ℕ)
    → piece c s ≡ some (out, n)
    → unquote 0 (c ∷ s) ≡ prepend out (unquote n s)
unfolding unquote
unquote-piece c s out n e =
    ap (λ p. elim p as (λ _. Option Bytes) [ none ↦ none | some (o, k) ↦ prepend o (unquote k s) ])
      e

piece-plain : (b : ℕ) (t : Bytes) → b < 0x80 → (b == b'\\') ≡ false → piece b t ≡ some (b ∷ [], 0)
unfolding piece follow rewritten
piece-plain b t h n = rw (n, lead-ascii b (lt→ltb b 0x80 h)) (rw (lt→ltb b 0x80 h) refl)

encode_rune-ascii : (b : ℕ) → b < 0x80 → encode_rune b ≡ b ∷ []
unfolding encode_rune
encode_rune-ascii b h = ground arith

unicode_escape-ascii : (b : ℕ) (t : Bytes) → b < 0x80 → unicode_escape b t ≡ (b ∷ [], 5)
unfolding unicode_escape
unicode_escape-ascii b t h = ground (arith, encode_rune-ascii b h)

hex4_lem :
    (a b c d : ℕ) (t : Bytes) {w x y z : ℕ}
    → hex_digit a ≡ some w
    → hex_digit b ≡ some x
    → hex_digit c ≡ some y
    → hex_digit d ≡ some z
    → hex4 (a ∷ b ∷ c ∷ d ∷ t) ≡ some (w * 4096 + x * 256 + y * 16 + z)
unfolding hex4
hex4_lem a b c d t ha hb hc hd = rw (ha, hb, hc, hd, hex4) refl

piece_self :
    (b : ℕ) (t : Bytes) → (b == b'"' || b == b'\\') ≡ true → piece b'\\' (b ∷ t) ≡ some (b ∷ [], 1)
unfolding piece escape
piece_self b t h = ground arith

hex4-hex :
    (x y : ℕ) (t : Bytes)
    → x < 16
    → y < 16
    → hex4 (b'0' ∷ b'0' ∷ hex x ∷ hex y ∷ t) ≡ some (x * 16 + y)
hex4-hex x y t hx hy =
    let zero_digit : hex_digit b'0' ≡ some 0 = unfold hex_digit in refl in
    let whole : 0 * 4096 + 0 * 256 + x * 16 + y ≡ x * 16 + y = omega arith in
    hex4_lem b'0' b'0' (hex x) (hex y) t zero_digit zero_digit (hex_lem x hx).0 (hex_lem y hy).0
    ∙ ap some whole

piece_long :
    (b : ℕ) (t : Bytes)
    → b < 0x80
    → piece b'\\' (ascii "u00" ++ (hex (b / 16) ∷ hex (b % 16) ∷ t)) ≡ some (b ∷ [], 5)
unfolding piece escape
piece_long b t h =
    let whole : b / 16 * 16 + b % 16 ≡ b = omega arith in
    ap
      (λ r. elim r as (λ _. Option (Bytes × ℕ)) [
        | none ↦ none
        | some c ↦ some (unicode_escape c t)
      ])
      (hex4-hex (b / 16) (b % 16) t (omega arith) (omega arith) ∙ ap some whole)
    ∙ ap some (unicode_escape-ascii b t h)

unquote_if :
    (c : Bool) (x y t : Bytes) (r : Option Bytes)
    → (c ≡ true → unquote 0 (x ++ t) ≡ r)
    → (c ≡ false → unquote 0 (y ++ t) ≡ r)
    → unquote 0 ((if c then x else y) ++ t) ≡ r
unquote_if true x y t r f g = f refl
unquote_if false x y t r f g = g refl

unquote-escaped_byte :
    (b : ℕ) (t : Bytes)
    → b < 0x80
    → unquote 0 (escaped_byte b ++ t) ≡ prepend (b ∷ []) (unquote 0 t)
unfolding escaped_byte backslashed
unquote-escaped_byte b t h =
    let long : unquote 0 (ascii "\\u00" ++ (hex (b / 16) ∷ hex (b % 16) ∷ t))
        ≡ prepend (b ∷ []) (unquote 0 t) =
      unquote-piece b'\\' _ (b ∷ []) 5 (piece_long b t h) ∙ (unfold unquote in refl) in
    let plain : (b == b'\\') ≡ false → unquote 0 (b ∷ t) ≡ prepend (b ∷ []) (unquote 0 t) =
      λ n. unquote-piece b t (b ∷ []) 0 (piece-plain b t h n) in
    let short : (e out : ℕ)
        → piece b'\\' (e ∷ t) ≡ some (out ∷ [], 1)
        → out ≡ b
        → unquote 0 (b'\\' ∷ e ∷ t) ≡ prepend (b ∷ []) (unquote 0 t) =
      λ e out k same.
        unquote-piece b'\\' (e ∷ t) (out ∷ []) 1 k ∙ (unfold unquote in rw same refl) in
    let known : (c : ℕ) → (b == c) ≡ true → c ≡ b = λ c e. sym ((==_iff b c).0 e) in
    unquote_if _ _ _ t _ (λ e. short b b (piece_self b t e) refl)
      (λ e1.
        unquote_if _ _ _ t _ (λ e. short b'b' 8 (unfold piece escape in refl) (known 8 e))
          (λ _.
            unquote_if _ _ _ t _ (λ e. short b'f' 12 (unfold piece escape in refl) (known 12 e))
              (λ _.
                unquote_if _ _ _ t _ (λ e. short b'n' 10 (unfold piece escape in refl) (known 10 e))
                  (λ _.
                    unquote_if _ _ _ t _
                      (λ e. short b'r' 13 (unfold piece escape in refl) (known 13 e))
                      (λ _.
                        unquote_if _ _ _ t _
                          (λ e. short b't' 9 (unfold piece escape in refl) (known 9 e))
                          (λ _.
                            unquote_if (ltb b 0x20 || (b == b'<' || (b == b'>' || b == b'&')))
                              (ascii "\\u00" ++ (hex (b / 16) ∷ hex (b % 16) ∷ [])) (b ∷ []) t _
                              (λ _. long) (λ _. plain (ground arith))))))))

-- The body of a literal.
unfoldable pub body_of : Bytes → Bytes
body_of [] = []
body_of (b ∷ s) = escaped_byte b ++ body_of s

put_front-append :
    (v w : Bytes) (r : Option (Bytes × Bytes)) → put_front v (put_front w r) ≡ put_front (v ++ w) r
put_front-append v w none = refl
put_front-append v w (some (body, rest)) = rw append_assoc

scan_string-body_of :
    (s t : Bytes)
    → all is_ascii s ≡ true
    → scan_string false (body_of s ++ t) ≡ put_front (body_of s) (scan_string false t)
unfolding body_of
scan_string-body_of [] t h = nothing (scan_string false t)
  where
    nothing : (r : Option (Bytes × Bytes)) → r ≡ put_front [] r
    nothing none = refl
    nothing (some _) = refl
scan_string-body_of (b ∷ s) t h = rw append_assoc (
    scan_string-escaped_byte b (body_of s ++ t) (ltb→lt b 0x80 (ground arith))
    ∙ ap (put_front (escaped_byte b)) (scan_string-body_of s t (ground arith))
    ∙ put_front-append (escaped_byte b) (body_of s) (scan_string false t))

unquote-body_of : (s : Bytes) → all is_ascii s ≡ true → unquote 0 (body_of s) ≡ some s
unfolding body_of unquote prepend
unquote-body_of [] h = refl
unquote-body_of (b ∷ s) h =
    unquote-escaped_byte b (body_of s) (ltb→lt b 0x80 (ground arith))
    ∙ ap (prepend (b ∷ [])) (unquote-body_of s (ground arith))

concat-escaped :
    (s : Bytes) → all is_ascii s ≡ true → concat (map escaped_rune (singles s)) ≡ body_of s
unfolding body_of escaped_rune
concat-escaped [] h = refl
concat-escaped (b ∷ s) h = let later = concat-escaped s (ground arith) in ground arith

-- A literal as it is written.
pub js_string_literal-ascii :
    (s : Bytes) → all is_ascii s ≡ true → js_string_literal s ≡ b'"' ∷ (body_of s ++ ascii "\"")
unfolding js_string_literal
js_string_literal-ascii s h = rw (runes-ascii s h, concat-escaped s h) refl

-- The scan of a literal stops at its closing quote and gives the text back.
pub read_string-body_of :
    (s rest : Bytes)
    → all is_ascii s ≡ true
    → read_string (body_of s ++ b'"' ∷ rest) ≡ some (s, rest)
unfolding read_string
read_string-body_of s rest h =
    let scanned_all : scan_string false (body_of s ++ b'"' ∷ rest) ≡ some (body_of s, rest) =
      scan_string-body_of s (b'"' ∷ rest) h ∙ (unfold scan_string in rw append-nil refl) in
    rw (scanned_all, unquote-body_of s h) refl
