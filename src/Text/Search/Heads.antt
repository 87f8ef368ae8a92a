-- ===== src/Text/Search/Heads.antt =====
-- Searches in the head of a text.
use schroedinger_sync.Base.{ℕ, zero, suc, ◌≡◌, refl, arith, true, false, [], ◌∷◌, take, Bytes}
use schroedinger_sync.Text.Search.{has_prefix, contains}

has_prefix-take : (n : ℕ) (s w : Bytes) → has_prefix (take n s) w ≡ true → has_prefix s w ≡ true
unfolding has_prefix
has_prefix-take n s [] h = refl
has_prefix-take zero s (c ∷ w) h = cc
has_prefix-take (suc n) [] (c ∷ w) h = h
has_prefix-take (suc n) (b ∷ s) (c ∷ w) h = ground (arith, has_prefix-take n s w)

-- A word that a text lacks, its head lacks too.
pub contains-take :
    (n : ℕ) (s : Bytes) (c : ℕ) (w : Bytes)
    → contains s (c ∷ w) ≡ false
    → contains (take n s) (c ∷ w) ≡ false
unfolding contains
contains-take zero s c w h = unfold has_prefix in refl
contains-take (suc n) [] c w h = h
contains-take (suc n) (b ∷ s) c w h =
    ground (arith, contains-take n s c w, has_prefix-take (suc n) (b ∷ s) (c ∷ w))
