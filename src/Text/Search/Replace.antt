-- ===== src/Text/Search/Replace.antt =====
-- What `strings.ReplaceAll` leaves of the words that occurred before it.
use schroedinger_sync.Base.{
  ℕ, zero, suc, ◌-◌, Bool, true, false, ◌&&◌, false, not, [], ◌∷◌, ◌++◌, ◌≡◌, ◌⊎◌, inl, inr, refl,
  arith, ◌==◌, length, any, is_empty, Bytes, Bool-cases,
}
use mathlib.Core.List.{append_assoc}
use schroedinger_sync.Text.Search.{has_prefix, contains, replace_from}

-- The byte stands nowhere in the word.
abbrev pub lacks : Bytes → ℕ → Bool
lacks w b = not (any (λ c. c == b) w)

pub lacks-append : (s t : Bytes) (b : ℕ) → lacks (s ++ t) b ≡ (lacks s b && lacks t b)
lacks-append [] t b = refl
lacks-append (c ∷ s) t b = ground (arith, lacks-append s t b)

-- Replacing a byte by another one leaves none of it.
pub lacks-replace :
    (s : Bytes) (b c : ℕ) → (c == b) ≡ false → lacks (replace_from 0 s (b ∷ []) (c ∷ [])) b ≡ true
unfolding replace_from has_prefix
lacks-replace [] b c h = refl
lacks-replace (x ∷ s) b c h = ground (arith, lacks-replace s b c)

-- A word without `b`, found at the start of `t ++ b ∷ rest`, was found inside `t`.
pub has_prefix-lacks :
    (t rest w : Bytes) (b : ℕ)
    → lacks w b ≡ true
    → has_prefix (t ++ b ∷ rest) w ≡ true
    → has_prefix t w ≡ true
unfolding has_prefix
has_prefix-lacks [] rest [] b l h = refl
has_prefix-lacks [] rest (c ∷ w) b l h = ground arith
has_prefix-lacks (a ∷ t) rest [] b l h = refl
has_prefix-lacks (a ∷ t) rest (c ∷ w) b l h = ground (arith, has_prefix-lacks t rest w b)

-- A non-empty word without `b` that occurs in `t ++ b ∷ rest` occurs in `t` or in `rest`.
pub contains-lacks :
    (t rest : Bytes) (c : ℕ) (w : Bytes) (b : ℕ)
    → lacks (c ∷ w) b ≡ true
    → contains (t ++ b ∷ rest) (c ∷ w) ≡ true
    → (contains t (c ∷ w) ≡ true) ⊎ (contains rest (c ∷ w) ≡ true)
unfolding contains has_prefix
contains-lacks [] rest c w b l h = ground arith
contains-lacks (a ∷ t) rest c w b l h =
    ground (arith, contains-lacks t rest c w b, has_prefix-lacks t rest w b)

-- A replacement that begins with `[` cannot begin a word without `[`.
has_prefix-replace :
    (s old new w : Bytes)
    → lacks w b'[' ≡ true
    → has_prefix (replace_from 0 s old (b'[' ∷ new)) w ≡ true
    → has_prefix s w ≡ true
unfolding replace_from has_prefix
has_prefix-replace [] old new [] l h = refl
has_prefix-replace [] old new (x ∷ w) l h = h
has_prefix-replace (c ∷ s) old new [] l h = refl
has_prefix-replace (c ∷ s) old new (x ∷ w) l h = ground (arith, has_prefix-replace s old new w)

-- One step of the scan, at an occurrence and elsewhere.
pub replace_from_hit :
    (c : ℕ) (s old new : Bytes)
    → has_prefix (c ∷ s) old ≡ true
    → replace_from 0 (c ∷ s) old new ≡ new ++ replace_from (length old - 1) s old new
unfolding replace_from
replace_from_hit c s old new h = rw h

pub replace_from_miss :
    (c : ℕ) (s old new : Bytes)
    → has_prefix (c ∷ s) old ≡ false
    → replace_from 0 (c ∷ s) old new ≡ c ∷ replace_from 0 s old new
unfolding replace_from
replace_from_miss c s old new h = rw h

module _ (mid : Bytes) where
  -- A replacement in square brackets.
  abbrev pub mark : Bytes
  mark = b'[' ∷ (mid ++ b']' ∷ [])

  -- A word that no replacement can bring forth: non-empty, without brackets, and not inside `mid`.
  abbrev pub Foreign : Bytes → Type 0
  Foreign w =
      (is_empty w ≡ false)
      × (lacks w b'[' ≡ true)
      × (lacks w b']' ≡ true)
      × (contains mid w ≡ false)

  contains-mark :
      (rest w : Bytes) → Foreign w → contains (mark ++ rest) w ≡ true → contains rest w ≡ true
  unfolding contains has_prefix
  contains-mark rest [] f h = cc (f.0)
  contains-mark rest (c ∷ w) f h =
      let h' : contains (b'[' ∷ (mid ++ b']' ∷ rest)) (c ∷ w) ≡ true = rw append_assoc at h in
      ground (arith, contains-lacks mid rest c w b']' f.2)

  has_prefix-kept :
      (c : ℕ) (s old w : Bytes)
      → Foreign w
      → has_prefix (c ∷ replace_from 0 s old mark) w ≡ true
      → has_prefix (c ∷ s) w ≡ true
  unfolding has_prefix
  has_prefix-kept c s old [] f h = refl
  has_prefix-kept c s old (x ∷ w) f h =
      ground (arith, has_prefix-replace s old (mid ++ b']' ∷ []) w)

  -- What occurs after the replacement occurred before it.
  pub contains-replace_from :
      (k : ℕ) (s old w : Bytes)
      → Foreign w
      → contains (replace_from k s old mark) w ≡ true
      → contains s w ≡ true
  unfolding contains replace_from
  contains-replace_from k [] old w f h = h
  contains-replace_from (suc k) (c ∷ s) old w f h =
      ground (arith, contains-replace_from k s old w f)
  contains-replace_from zero (c ∷ s) old w f h = elim (Bool-cases (has_prefix (c ∷ s) old)) [
    | inl hit ↦
        let later = contains-mark _ w f (rw (replace_from_hit c s old mark hit) at h) in
        ground (arith, contains-replace_from (length old - 1) s old w f later)
    | inr miss ↦
        let kept : contains (c ∷ replace_from 0 s old mark) w ≡ true =
          rw (replace_from_miss c s old mark miss) at h in
        ground (arith, contains-replace_from 0 s old w f, has_prefix-kept c s old w f)
  ]

  -- The replaced word occurs no more.
  pub contains-replace_from_self :
      (k : ℕ) (s old : Bytes) → Foreign old → contains (replace_from k s old mark) old ≡ true → ⊥
  unfolding contains replace_from
  contains-replace_from_self k [] [] f h = cc (f.0)
  contains-replace_from_self k [] (x ∷ old) f h = unfold has_prefix in cc
  contains-replace_from_self (suc k) (c ∷ s) old f h = contains-replace_from_self k s old f h
  contains-replace_from_self zero (c ∷ s) old f h = elim (Bool-cases (has_prefix (c ∷ s) old)) [
    | inl hit ↦
        let later = contains-mark _ old f (rw (replace_from_hit c s old mark hit) at h) in
        contains-replace_from_self (length old - 1) s old f later
    | inr miss ↦
        let kept : contains (c ∷ replace_from 0 s old mark) old ≡ true =
          rw (replace_from_miss c s old mark miss) at h in
        ground (arith, contains-replace_from_self 0 s old f, has_prefix-kept c s old old f)
  ]
