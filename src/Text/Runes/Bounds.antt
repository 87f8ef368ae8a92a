-- ===== src/Text/Runes/Bounds.antt =====
-- What `trunc` and `TrimSpace` keep.
use schroedinger_sync.Base.{
  ℕ, zero, suc, ◌≤◌, Bool, true, List, [], ◌∷◌, ◌++◌, ◌≡◌, refl, sym, ◌∙◌, ◌<◌, arith, ap, ltb,
  length, take, all, map, Bytes, take-of_le, length-take-le, length-take_of_le, lt→ltb, ltb→lt, inl,
  inr, Bool-cases,
}
use schroedinger_sync.Text.Runes.{
  Lead, alone, two, three, four, lead, follow, runes_from, runes, concat, rewritten, trunc,
}

abbrev pub is_ascii : ℕ → Bool
is_ascii b = ltb b 0x80

abbrev pub singles : Bytes → List Bytes
singles = map (λ (b : ℕ). b ∷ [])

pub lead-ascii : (b : ℕ) → is_ascii b ≡ true → lead b ≡ alone
unfolding lead
lead-ascii b h = ground arith

pub runes-ascii : (s : Bytes) → all is_ascii s ≡ true → runes s ≡ singles s
unfolding runes follow
runes-ascii [] h = refl
runes-ascii (b ∷ s) h =
    rw (lead-ascii b (ground arith), follow) (ap (◌∷◌ (b ∷ [])) (runes-ascii s (ground arith)))

length-singles : (s : Bytes) → length (singles s) ≡ length s
length-singles [] = refl
length-singles (b ∷ s) = ap suc (length-singles s)

rewritten-singles :
    (n : ℕ) (s : Bytes)
    → all is_ascii s ≡ true
    → concat (map rewritten (take n (singles s))) ≡ take n s
unfolding rewritten
rewritten-singles zero s h = refl
rewritten-singles (suc n) [] h = refl
rewritten-singles (suc n) (b ∷ s) h = ground (arith, rewritten-singles n s)

-- An ASCII text is cut at a byte.
pub trunc-ascii : (s : Bytes) (n : ℕ) → all is_ascii s ≡ true → trunc s n ≡ take n s
unfolding trunc
trunc-ascii s n h = elim (Bool-cases (ltb n (length s))) [
  | inl long ↦ rw (runes-ascii s h, length-singles s, long) (rewritten-singles n s h)
  | inr short ↦ rw (runes-ascii s h, length-singles s, short) (sym (take-of_le n s (ground arith)))
]

-- Written out and read again, a rune is one rune, whatever follows.
abbrev Stable : Bytes → Type 0
Stable r = (rest : Bytes) → runes (rewritten r ++ rest) ≡ rewritten r ∷ runes rest

-- What follows a rune has no part in its length.
follow-take :
    (l : Lead) (bs rest : Bytes)
    → 0 < follow l bs
    → follow l (take (follow l bs) bs ++ rest) ≡ follow l bs
unfolding follow
follow-take alone bs rest h = absurd (omega arith)
follow-take two [] rest h = absurd (omega arith)
follow-take two (c ∷ bs) rest h = ground arith
follow-take (three lo hi) [] rest h = absurd (omega arith)
follow-take (three lo hi) (c ∷ []) rest h = absurd (omega arith)
follow-take (three lo hi) (c ∷ d ∷ bs) rest h = ground arith
follow-take (four lo hi) [] rest h = absurd (omega arith)
follow-take (four lo hi) (c ∷ []) rest h = absurd (omega arith)
follow-take (four lo hi) (c ∷ d ∷ []) rest h = absurd (omega arith)
follow-take (four lo hi) (c ∷ d ∷ e ∷ bs) rest h = ground arith

follow-le-length : (l : Lead) (bs : Bytes) → follow l bs ≤ length bs
unfolding follow
follow-le-length two (c ∷ bs) = ground arith
follow-le-length (three lo hi) (c ∷ d ∷ bs) = ground arith
follow-le-length (four lo hi) (c ∷ d ∷ e ∷ bs) = ground arith
follow-le-length _ _ = omega arith

-- A decoded rune is passed over whole.
runes_from-append : (r rest : Bytes) → runes_from (length r) (r ++ rest) ≡ runes_from 0 rest
unfolding runes_from
runes_from-append [] rest = refl
runes_from-append (b ∷ r) rest = runes_from-append r rest

take-append : (r rest : Bytes) → take (length r) (r ++ rest) ≡ r
take-append [] rest = refl
take-append (b ∷ r) rest = ap (◌∷◌ b) (take-append r rest)

-- A sequence whose length its first byte and what it holds settle is read as one rune.
runes_from-sequence :
    (b : ℕ) (r rest : Bytes)
    → follow (lead b) (r ++ rest) ≡ length r
    → runes_from 0 (b ∷ (r ++ rest)) ≡ (b ∷ r) ∷ runes_from 0 rest
unfolding runes_from
runes_from-sequence b r rest h = rw (h, take-append, runes_from-append)

rune_at-Stable : (b : ℕ) (bs : Bytes) (m : ℕ) → follow (lead b) bs ≡ m → Stable (b ∷ take m bs)
unfolding runes rewritten
rune_at-Stable b bs zero e rest = elim (Bool-cases (is_ascii b)) [
  | inl plain ↦
      rw plain (runes_from-sequence b [] rest (rw (lead-ascii b plain) (unfold follow in refl)))
  | inr broken ↦
      rw broken (runes_from-sequence 0xEF (0xBF ∷ 0xBD ∷ []) rest (unfold lead follow in refl))
]
rune_at-Stable b [] (suc m) e rest = absurd (omega (arith, follow-le-length (lead b) []))
rune_at-Stable b (c ∷ bs) (suc m) e rest =
    let size : length (take (suc m) (c ∷ bs)) ≡ suc m =
      length-take_of_le (suc m) (c ∷ bs) (omega (arith, follow-le-length (lead b) (c ∷ bs))) in
    let kept = follow-take (lead b) (c ∷ bs) rest (omega arith) in
    let seen : follow (lead b) (take (suc m) (c ∷ bs) ++ rest) ≡ suc m = rw e at kept in
    runes_from-sequence b (c ∷ take m bs) rest (seen ∙ sym size)

abbrev pub AllStable : List Bytes → Type 0
AllStable [] = Unit
AllStable (r ∷ rs) = Stable r × AllStable rs

runes_from-AllStable : (k : ℕ) (s : Bytes) → AllStable (runes_from k s)
unfolding runes_from
runes_from-AllStable k [] = tt
runes_from-AllStable (suc k) (b ∷ s) = runes_from-AllStable k s
runes_from-AllStable zero (b ∷ s) =
    (rune_at-Stable b s _ refl, runes_from-AllStable (follow (lead b) s) s)

runes-rewritten :
    (n : ℕ) (rs : List Bytes)
    → AllStable rs
    → runes (concat (map rewritten (take n rs))) ≡ map rewritten (take n rs)
runes-rewritten zero rs h = unfold runes in refl
runes-rewritten (suc n) [] h = unfold runes in refl
runes-rewritten (suc n) (r ∷ rs) (stable, h) =
    stable (concat (map rewritten (take n rs))) ∙ ap (◌∷◌ (rewritten r)) (runes-rewritten n rs h)

-- A cut text reads back as the first `n` runes of the text: no rune is split.
pub runes-trunc :
    (s : Bytes) (n : ℕ)
    → n < length (runes s)
    → runes (trunc s n) ≡ map rewritten (take n (runes s))
unfolding trunc
runes-trunc s n h =
    rw (lt→ltb n (length (runes s)) h)
      (runes-rewritten n (runes s) (unfold runes in runes_from-AllStable 0 s))

length-map : (rs : List Bytes) → length (map rewritten rs) ≡ length rs
length-map [] = refl
length-map (r ∷ rs) = ap suc (length-map rs)

-- Whatever the bytes of the text, the result has at most `n` runes.
pub length-runes-trunc : (s : Bytes) (n : ℕ) → length (runes (trunc s n)) ≤ n
length-runes-trunc s n = elim (Bool-cases (ltb n (length (runes s)))) [
  | inl long ↦ rw (runes-trunc s n (ltb→lt _ _ long), length-map) (length-take-le n (runes s))
  | inr short ↦ unfold trunc in rw short (ground arith)
]
