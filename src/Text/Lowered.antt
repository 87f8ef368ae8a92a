-- ===== src/Text/Lowered.antt =====
-- `strings.ToLower`. What `unicode.ToLower` makes of a rune outside ASCII is a parameter.
use schroedinger_sync.Base.{
  ℕ, zero, suc, ◌≤◌, true, false, [], ◌∷◌, ◌++◌, ◌≡◌, refl, arith, if◌then◌else◌, all, take, map,
  Bytes, Bool-cases, inl, inr,
}
use schroedinger_sync.Text.Runes.{
  Lead, alone, two, three, four, lead, follow, runes_from, runes, concat, rewritten,
}
use schroedinger_sync.Text.Runes.Bounds.{is_ascii, lead-ascii}
use schroedinger_sync.Text.Search.{has_prefix, contains, lower}

-- The next `k` bytes are outside ASCII, as in a rune.
abbrev Rest : ℕ → Bytes → Type 0
Rest zero s = Unit
Rest (suc k) [] = Unit
Rest (suc k) (b ∷ s) = (is_ascii b ≡ false) × Rest k s

-- The bytes that may stand second in a rune are outside ASCII.
abbrev IsForeign : Lead → Type 0
IsForeign alone = Unit
IsForeign two = Unit
IsForeign (three lo hi) = 0x80 ≤ lo
IsForeign (four lo hi) = 0x80 ≤ lo

lead-IsForeign : (b : ℕ) → IsForeign (lead b)
unfolding lead
lead-IsForeign b = ground arith

follow-Rest : (l : Lead) (s : Bytes) → IsForeign l → Rest (follow l s) s
unfolding follow
follow-Rest alone s h = tt
follow-Rest two [] h = tt
follow-Rest two (c ∷ s) h = ground arith
follow-Rest (three lo hi) [] h = tt
follow-Rest (three lo hi) (c ∷ []) h = tt
follow-Rest (three lo hi) (c ∷ d ∷ s) h = ground arith
follow-Rest (four lo hi) [] h = tt
follow-Rest (four lo hi) (c ∷ []) h = tt
follow-Rest (four lo hi) (c ∷ d ∷ []) h = tt
follow-Rest (four lo hi) (c ∷ d ∷ e ∷ s) h = ground arith

pub contains-append : (r s w : Bytes) → contains s w ≡ true → contains (r ++ s) w ≡ true
unfolding contains
contains-append [] s w h = h
contains-append (b ∷ r) s w h = ground (arith, contains-append r s w)

pub contains-of_has_prefix : (s w : Bytes) → has_prefix s w ≡ true → contains s w ≡ true
unfolding contains
contains-of_has_prefix [] w h = h
contains-of_has_prefix (b ∷ s) w h = ground arith

module _ (lower_rune : Bytes → Bytes) where
  -- A rune as `strings.Map` writes it.
  unfoldable pub lowered : Bytes → Bytes
  unfolding rewritten lower
  lowered r = if all is_ascii r then lower r else lower_rune (rewritten r)

  unfoldable pub to_lower : Bytes → Bytes
  unfolding lowered lower runes
  to_lower s = if all is_ascii s then lower s else concat (map lowered (runes s))

  -- The text behind `k` bytes of a rune, in lower case.
  lowered_from : ℕ → Bytes → Bytes
  lowered_from k s = concat (map lowered (runes_from k s))

  lowered_from-ascii :
      (b : ℕ) (s : Bytes)
      → is_ascii b ≡ true
      → lowered_from 0 (b ∷ s) ≡ lower (b ∷ []) ++ lowered_from 0 s
  unfolding lowered_from lowered runes_from follow
  lowered_from-ascii b s h = rw (lead-ascii b h, follow, h) refl

  has_prefix-lowered_from :
      (s w : Bytes)
      → all is_ascii w ≡ true
      → has_prefix (lower s) w ≡ true
      → has_prefix (lowered_from 0 s) w ≡ true
  unfolding has_prefix lower
  has_prefix-lowered_from s [] a h = refl
  has_prefix-lowered_from [] (c ∷ w) a h = cc
  has_prefix-lowered_from (b ∷ s) (c ∷ w) a h =
      let plain : is_ascii b ≡ true = ground arith in
      rw (lowered_from-ascii b s plain) (ground (arith, has_prefix-lowered_from s w))

  lowered_from-rest : (k b : ℕ) (s : Bytes) → lowered_from (suc k) (b ∷ s) ≡ lowered_from k s
  unfolding lowered_from runes_from
  lowered_from-rest k b s = refl

  lowered_from-rune :
      (b : ℕ) (s : Bytes)
      → lowered_from 0 (b ∷ s)
        ≡ lowered (b ∷ take (follow (lead b) s) s) ++ lowered_from (follow (lead b) s) s
  unfolding lowered_from runes_from
  lowered_from-rune b s = refl

  -- The rest of a rune holds no ASCII, so no ASCII word begins in it.
  contains-lowered_from :
      (k : ℕ) (s : Bytes) (c : ℕ) (w : Bytes)
      → Rest k s
      → all is_ascii (c ∷ w) ≡ true
      → contains (lower s) (c ∷ w) ≡ true
      → contains (lowered_from k s) (c ∷ w) ≡ true
  unfolding contains lower has_prefix
  contains-lowered_from k [] c w rest a h = absurd (cc h)
  contains-lowered_from (suc k) (b ∷ s) c w (foreign, rest) a h =
      rw (lowered_from-rest k b s) (contains-lowered_from k s c w rest a (ground arith))
  contains-lowered_from zero (b ∷ s) c w rest a h =
      elim (Bool-cases (has_prefix (lower (b ∷ s)) (c ∷ w))) [
        | inl here ↦
            contains-of_has_prefix (lowered_from 0 (b ∷ s)) (c ∷ w)
              (has_prefix-lowered_from (b ∷ s) (c ∷ w) a here)
        | inr later ↦
            let more = follow (lead b) s in
            rw (lowered_from-rune b s) (
              contains-append (lowered (b ∷ take more s)) (lowered_from more s) (c ∷ w) (
                contains-lowered_from more s c w (follow-Rest (lead b) s (lead-IsForeign b)) a
                  (ground arith)))
      ]

  -- A word in ASCII that stands in the text up to the case of ASCII letters stands in the lowered
  -- text.
  pub contains-to_lower :
      (s : Bytes) (c : ℕ) (w : Bytes)
      → all is_ascii (c ∷ w) ≡ true
      → contains (lower s) (c ∷ w) ≡ true
      → contains (to_lower s) (c ∷ w) ≡ true
  unfolding to_lower runes
  contains-to_lower s c w a h = elim (Bool-cases (all is_ascii s)) [
    | inl plain ↦ rw plain h
    | inr foreign ↦ rw foreign (unfold lowered_from in contains-lowered_from 0 s c w tt a h)
  ]
