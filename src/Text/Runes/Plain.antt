-- ===== src/Text/Runes/Plain.antt =====
-- Texts without space: `TrimSpace` keeps them.
use schroedinger_sync.Base.{
  ℕ, ◌≡◌, refl, ap, arith, Bool, true, false, ◌&&◌, [], ◌∷◌, leb, all, Bytes,
}
use schroedinger_sync.Text.Runes.{
  concat, is_space, drop_spaces, trim_onto, drop_spaces_right, trim_space,
}
use schroedinger_sync.Text.Runes.Bounds.{is_ascii, singles, runes-ascii}

-- A printable byte of ASCII that is no space.
abbrev pub is_plain : ℕ → Bool
is_plain c = leb 0x21 c && leb c 0x7e

is_ascii-plain : (s : Bytes) → all is_plain s ≡ true → all is_ascii s ≡ true
is_ascii-plain [] h = refl
is_ascii-plain (c ∷ s) h = ground (arith, is_ascii-plain s)

is_space-plain : (c : ℕ) → is_plain c ≡ true → is_space (c ∷ []) ≡ false
unfolding is_space
is_space-plain c h = ground arith

drop_spaces-singles : (s : Bytes) → all is_plain s ≡ true → drop_spaces (singles s) ≡ singles s
unfolding drop_spaces
drop_spaces-singles [] h = refl
drop_spaces-singles (c ∷ s) h = rw (is_space-plain c (ground arith)) refl

drop_spaces_right-singles :
    (s : Bytes) → all is_plain s ≡ true → drop_spaces_right (singles s) ≡ singles s
unfolding drop_spaces_right trim_onto
drop_spaces_right-singles [] h = refl
drop_spaces_right-singles (c ∷ []) h = rw (is_space-plain c (ground arith)) refl
drop_spaces_right-singles (c ∷ d ∷ s) h =
    ap (trim_onto (c ∷ [])) (drop_spaces_right-singles (d ∷ s) (ground arith))

concat-singles : (s : Bytes) → concat (singles s) ≡ s
concat-singles [] = refl
concat-singles (c ∷ s) = ap (◌∷◌ c) (concat-singles s)

pub trim_space-plain : (s : Bytes) → all is_plain s ≡ true → trim_space s ≡ s
unfolding trim_space
trim_space-plain s h =
    rw (runes-ascii s (is_ascii-plain s h), drop_spaces-singles s h, drop_spaces_right-singles s h)
      (concat-singles s)
