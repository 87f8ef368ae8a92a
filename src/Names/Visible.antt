-- ===== src/Names/Visible.antt =====
-- The names of exports, and the program's own files, whose names begin with a dot.
use schroedinger_sync.Base.{
  ℕ, true, false, [], ◌∷◌, ◌++◌, ◌≡◌, refl, arith, ◌==◌, all, Bytes, ◌=?◌, all-keep,
}
use schroedinger_sync.Text.Search.{has_prefix}
use schroedinger_sync.Text.Runes.{trunc}
use schroedinger_sync.Api.{ConvSummary, ProjectSummary, ProjectDoc}
use schroedinger_sync.Names.{is_path_safe, path_safe, conv_filename, doc_base, doc_filename}

dot-unsafe : (c : ℕ) → is_path_safe c ≡ true → (c == b'.') ≡ false
unfolding is_path_safe
dot-unsafe c h = ground arith

-- A text of safe bytes and an underscore does not begin with a dot.
module _ (rest k : Bytes) where
  safe-visible :
      (s : Bytes) → all is_path_safe s ≡ true → ((s ++ b'_' ∷ rest) =? (b'.' ∷ k)) ≡ false
  unfolding ◌=?◌
  safe-visible [] h = refl
  safe-visible (c ∷ s) h = ground (arith, dot-unsafe c)

  safe-has_prefix :
      (s : Bytes) → all is_path_safe s ≡ true → has_prefix (s ++ b'_' ∷ rest) (b'.' ∷ k) ≡ false
  unfolding has_prefix
  safe-has_prefix [] h = refl
  safe-has_prefix (c ∷ s) h = ground (arith, dot-unsafe c)

module _ (c : ConvSummary) (k : Bytes) where
  pub conv_filename-visible : (conv_filename c =? (b'.' ∷ k)) ≡ false
  unfolding conv_filename path_safe
  conv_filename-visible = safe-visible _ k _ (all-keep is_path_safe (trunc c.created_at 10))

  pub conv_filename-has_prefix : has_prefix (conv_filename c) (b'.' ∷ k) ≡ false
  unfolding conv_filename path_safe
  conv_filename-has_prefix = safe-has_prefix _ k _ (all-keep is_path_safe (trunc c.created_at 10))

module _ (p : ProjectSummary) (d : ProjectDoc) (k : Bytes) where
  pub doc_filename-visible : (doc_filename p d =? (b'.' ∷ k)) ≡ false
  unfolding doc_filename doc_base ◌=?◌
  doc_filename-visible = ground arith
