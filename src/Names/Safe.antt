-- ===== src/Names/Safe.antt =====
-- The characters of the names that cdp.go makes.
use schroedinger_sync.Base.{
  ℕ, Bool, true, false, not, List, [], ◌∷◌, ◌++◌, keep, zero, suc, map, ltb, length, take, all-take,
  all-append, all-keep, Bool-cases, inl, inr, is_empty, all, Bytes, ascii, ◌≡◌, refl, arith, ◌≤◌,
}
use schroedinger_sync.Text.Runes.{
  trunc, trim_space, runes, runes_from, concat, rewritten, lead, follow, drop_spaces, trim_onto,
  drop_spaces_right,
}
use schroedinger_sync.Text.Runes.Bounds.{length-runes-trunc}
use schroedinger_sync.Api.{ConvSummary, ProjectSummary, ProjectDoc}
use schroedinger_sync.Names.{
  doc_base, doc_filename, is_bad, is_blank, collapse, is_path_safe, path_safe, sanitize,
  conv_filename,
}

-- The test passes the bytes that the program writes itself.
abbrev pub allows_own : (ℕ → Bool) → Bool
allows_own p = all p (0xEF ∷ 0xBF ∷ 0xBD ∷ ascii "Untitledproject_.md")

module _ (p : ℕ → Bool) where
  all-runes_from : (k : ℕ) (s : Bytes) → all p s ≡ true → all (all p) (runes_from k s) ≡ true
  unfolding runes_from
  all-runes_from k [] h = refl
  all-runes_from (suc k) (b ∷ s) h = all-runes_from k s (ground arith)
  all-runes_from zero (b ∷ s) h =
      ground (arith, all-take p (follow (lead b) s) s, all-runes_from (follow (lead b) s) s)

  all-concat : (rs : List Bytes) → all (all p) rs ≡ true → all p (concat rs) ≡ true
  all-concat [] h = refl
  all-concat (r ∷ rs) h = ground (arith, all-append p r (concat rs), all-concat rs)

  all-rewritten : (r : Bytes) → allows_own p ≡ true → all p r ≡ true → all p (rewritten r) ≡ true
  unfolding rewritten
  all-rewritten [] o h = refl
  all-rewritten (b ∷ []) o h = ground arith
  all-rewritten (b ∷ c ∷ r) o h = h

  all-map-rewritten :
      (rs : List Bytes)
      → allows_own p ≡ true
      → all (all p) rs ≡ true
      → all (all p) (map rewritten rs) ≡ true
  all-map-rewritten [] o h = refl
  all-map-rewritten (r ∷ rs) o h = ground (arith, all-rewritten r o, all-map-rewritten rs o)

  -- What all bytes of a text pass, all bytes of the cut text pass.
  pub all-trunc :
      (s : Bytes) (n : ℕ) → allows_own p ≡ true → all p s ≡ true → all p (trunc s n) ≡ true
  unfolding trunc
  all-trunc s n o h = elim (Bool-cases (ltb n (length (runes s)))) [
    | inl long ↦
        let cut = take n (runes_from 0 s) in
        rw long (
          all-concat (map rewritten cut)
            (all-map-rewritten cut o (all-take (all p) n (runes_from 0 s) (all-runes_from 0 s h))))
    | inr short ↦ rw short h
  ]

  all-drop_spaces : (rs : List Bytes) → all (all p) rs ≡ true → all (all p) (drop_spaces rs) ≡ true
  unfolding drop_spaces
  all-drop_spaces [] h = refl
  all-drop_spaces (r ∷ rs) h = ground (arith, all-drop_spaces rs)

  all-trim_onto :
      (r : Bytes) (rs : List Bytes)
      → all p r ≡ true
      → all (all p) rs ≡ true
      → all (all p) (trim_onto r rs) ≡ true
  unfolding trim_onto
  all-trim_onto r [] h hs = ground arith
  all-trim_onto r (q ∷ qs) h hs = ground arith

  all-drop_spaces_right :
      (rs : List Bytes) → all (all p) rs ≡ true → all (all p) (drop_spaces_right rs) ≡ true
  unfolding drop_spaces_right
  all-drop_spaces_right [] h = refl
  all-drop_spaces_right (r ∷ rs) h =
      ground (arith, all-trim_onto r (drop_spaces_right rs), all-drop_spaces_right rs)

  pub all-trim_space : (s : Bytes) → all p s ≡ true → all p (trim_space s) ≡ true
  unfolding trim_space
  all-trim_space s h =
      let rs = runes_from 0 s in
      all-concat (drop_spaces_right (drop_spaces rs))
        (all-drop_spaces_right (drop_spaces rs) (all-drop_spaces rs (all-runes_from 0 s h)))

  all-collapse :
      (inside : Bool) (s : Bytes)
      → allows_own p ≡ true
      → all p s ≡ true
      → all p (collapse inside s) ≡ true
  unfolding collapse
  all-collapse inside [] o h = refl
  all-collapse inside (c ∷ s) o h = ground (arith, all-collapse (is_blank c) s o)

  -- What all bytes of a title pass, its cleaned form passes.
  all-sanitize :
      (name : Bytes)
      → allows_own p ≡ true
      → all p (keep (λ c. not (is_bad c)) name) ≡ true
      → all p (sanitize name) ≡ true
  unfolding sanitize
  all-sanitize name o h =
      let cleaned = keep (λ c. not (is_bad c)) name in
      let joined = collapse false (trim_space cleaned) in
      ground (arith, all-trunc joined 80 o (all-collapse false _ o (all-trim_space cleaned h)))

-- The test of `reBadChars` holds of no byte.
abbrev pub no_bad : Bytes → Bool
no_bad = all (λ c. not (is_bad c))

no_bad_own : allows_own (λ c. not (is_bad c)) ≡ true
unfolding is_bad
no_bad_own = refl

no_bad-sanitize : (name : Bytes) → no_bad (sanitize name) ≡ true
no_bad-sanitize name = all-sanitize (λ c. not (is_bad c)) name no_bad_own (all-keep _ name)

path_safe-not-bad : (c : ℕ) → is_path_safe c ≡ true → not (is_bad c) ≡ true
unfolding is_path_safe is_bad
path_safe-not-bad c h = ground arith

all-implies :
    (p q : ℕ → Bool) (s : Bytes)
    → ((c : ℕ) → p c ≡ true → q c ≡ true)
    → all p s ≡ true
    → all q s ≡ true
all-implies p q [] h a = refl
all-implies p q (c ∷ s) h a = ground (arith, h c, all-implies p q s h)

no_bad-path_safe : (s : Bytes) → no_bad (path_safe s) ≡ true
unfolding path_safe
no_bad-path_safe s =
    all-implies is_path_safe (λ c. not (is_bad c)) (keep is_path_safe s) path_safe-not-bad
      (all-keep is_path_safe s)

no_bad-append : (s t : Bytes) → no_bad s ≡ true → no_bad t ≡ true → no_bad (s ++ t) ≡ true
no_bad-append s t h k = ground (arith, all-append (λ c. not (is_bad c)) s t)

no_bad_dash : no_bad (ascii "_") ≡ true
unfolding is_bad
no_bad_dash = refl

no_bad_md : no_bad (ascii ".md") ≡ true
unfolding is_bad
no_bad_md = refl

no_bad_project : no_bad (ascii "project_") ≡ true
unfolding is_bad
no_bad_project = refl

-- Whatever the server sends, the name of a conversation's file holds no separator, no colon, no
-- other reserved character and no control character.
pub no_bad-conv_filename : (c : ConvSummary) → no_bad (conv_filename c) ≡ true
unfolding conv_filename
no_bad-conv_filename c =
    search (no_bad-append, no_bad-path_safe, no_bad-sanitize, no_bad_dash, no_bad_md) depth 12

no_bad-doc_base : (p : ProjectSummary) (d : ProjectDoc) → no_bad (doc_base p d) ≡ true
unfolding doc_base
no_bad-doc_base p d =
    search (no_bad-append, no_bad-path_safe, no_bad-sanitize, no_bad_dash, no_bad_project) depth 12

-- The same holds of the name of a project document's file.
pub no_bad-doc_filename : (p : ProjectSummary) (d : ProjectDoc) → no_bad (doc_filename p d) ≡ true
unfolding doc_filename
no_bad-doc_filename p d = ground (
  arith,
  no_bad-doc_base p d,
  no_bad-append (doc_base p d) (ascii ".md") (no_bad-doc_base p d) no_bad_md,
)

-- A cleaned title is not empty and has at most 80 runes.
pub sanitize_bounds :
    (name : Bytes) → (is_empty (sanitize name) ≡ false) × (length (runes (sanitize name)) ≤ 80)
unfolding sanitize
sanitize_bounds name =
    let joined = collapse false (trim_space (keep (λ c. not (is_bad c)) name)) in
    elim (Bool-cases (is_empty (trunc joined 80))) [
      | inl nothing ↦ rw nothing (refl, unfold runes in omega arith)
      | inr something ↦ rw something (something, length-runes-trunc joined 80)
    ]
