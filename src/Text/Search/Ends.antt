-- ===== src/Text/Search/Ends.antt =====
-- Searches in a text that ends in a byte which the word lacks.
use schroedinger_sync.Base.{
  ℕ, zero, suc, ◌-◌, ◌≤◌, true, [], ◌∷◌, ◌++◌, ◌≡◌, refl, ap, sym, ◌∙◌, arith, length, Bytes, inl,
  inr, Bool-cases,
}
use mathlib.Core.List.{append_assoc}
use schroedinger_sync.Text.Search.{has_prefix, replace_from}
use schroedinger_sync.Text.Search.Replace.{
  lacks, has_prefix-lacks, replace_from_hit, replace_from_miss,
}

pub has_prefix-append : (s rest w : Bytes) → has_prefix s w ≡ true → has_prefix (s ++ rest) w ≡ true
unfolding has_prefix
has_prefix-append s rest [] h = refl
has_prefix-append [] rest (c ∷ w) h = cc
has_prefix-append (b ∷ s) rest (c ∷ w) h = ground (arith, has_prefix-append s rest w)

pub length-le-of_has_prefix : (s w : Bytes) → has_prefix s w ≡ true → length w ≤ length s
unfolding has_prefix
length-le-of_has_prefix s [] h = omega arith
length-le-of_has_prefix [] (c ∷ w) h = cc
length-le-of_has_prefix (b ∷ s) (c ∷ w) h = ground (arith, length-le-of_has_prefix s w)

has_prefix-end :
    (s w : Bytes) (b : ℕ) → lacks w b ≡ true → has_prefix (s ++ b ∷ []) w ≡ has_prefix s w
has_prefix-end s w b l = ground (arith, has_prefix-lacks s [] w b l, has_prefix-append s (b ∷ []) w)

-- The last byte stays where it is if the replaced word lacks it.
pub replace_from-append :
    (k : ℕ) (s : Bytes) (c : ℕ) (old new : Bytes) (b : ℕ)
    → k ≤ length s
    → lacks (c ∷ old) b ≡ true
    → replace_from k (s ++ b ∷ []) (c ∷ old) new ≡ replace_from k s (c ∷ old) new ++ b ∷ []
unfolding replace_from
replace_from-append zero [] c old new b h l = unfold has_prefix in ground arith
replace_from-append (suc k) [] c old new b h l = absurd (omega arith)
replace_from-append (suc k) (a ∷ s) c old new b h l =
    replace_from-append k s c old new b (omega arith) l
replace_from-append zero (a ∷ s) c old new b h l =
    elim (Bool-cases (has_prefix (a ∷ s) (c ∷ old))) [
      | inl hit ↦
          let tail = length (c ∷ old) - 1 in
          let short : tail ≤ length s =
            omega (arith, length-le-of_has_prefix (a ∷ s) (c ∷ old) hit) in
          replace_from_hit a (s ++ b ∷ []) (c ∷ old) new
            (has_prefix-end (a ∷ s) (c ∷ old) b l ∙ hit)
          ∙ ap (λ t. new ++ t) (replace_from-append tail s c old new b short l)
          ∙ sym (append_assoc new (replace_from tail s (c ∷ old) new) (b ∷ []))
          ∙ ap (λ t. t ++ b ∷ []) (sym (replace_from_hit a s (c ∷ old) new hit))
      | inr miss ↦
          replace_from_miss a (s ++ b ∷ []) (c ∷ old) new
            (has_prefix-end (a ∷ s) (c ∷ old) b l ∙ miss)
          ∙ ap (◌∷◌ a) (replace_from-append 0 s c old new b (omega arith) l)
          ∙ ap (λ t. t ++ b ∷ []) (sym (replace_from_miss a s (c ∷ old) new miss))
    ]
