-- ===== src/Integrity/Laws.antt =====
-- What an export leaves on disk.
use schroedinger_sync.Base.{
  Bool, true, false, ◌&&◌, Option, some, [], ◌≡◌, refl, sym, ◌∙◌, arith, if◌then◌else◌, Bytes, ◌=?◌,
  =?_refl,
}
use mathlib.Core.Option.{some-injective}
use schroedinger_sync.Base.Map.{insert}
use schroedinger_sync.Text.Search.{has_prefix}
use schroedinger_sync.Json.Write.{map_text}
use schroedinger_sync.Disk.{Disk, write_file}
use schroedinger_sync.Disk.Atomic.{at, at-save_atomically, at-write_file, write_file-done}
use schroedinger_sync.Integrity.{
  manifest_file_name, manifest_prefix, load_manifest, save_manifest, record_hash, write_markdown,
}

-- The name is not one of the manifest's own files.
abbrev pub IsExport : Bytes → Type 0
IsExport name = (has_prefix name manifest_prefix ≡ false) × ((manifest_file_name =? name) ≡ false)

module _ (hash_content : Bytes → Bytes) (fname content : Bytes) where
  -- The part of `writeMarkdown` behind the write of the file.
  at-record_hash :
      (k : Bytes) (e : Disk)
      → has_prefix k manifest_prefix ≡ false
      → (saved : Bool) × ((record_hash hash_content fname content (true, e)).0 ≡ some saved)
        × (at k (record_hash hash_content fname content (true, e)).1 ≡ (
            if saved && manifest_file_name =? k
            then some (map_text [] (insert fname (hash_content content) (load_manifest e)))
            else at k e))
  unfolding record_hash save_manifest
  at-record_hash k e away =
      (_, refl, at-save_atomically k manifest_prefix manifest_file_name _ e away)

  record_hash-written :
      (p : Bool × Disk)
      → (p.0 ≡ true → at fname p.1 ≡ some content)
      → IsExport fname
      → (m : Bool) → (record_hash hash_content fname content p).0 ≡ some m
      → at fname (record_hash hash_content fname content p).1 ≡ some content
  record_hash-written (false, e) w x m h = unfold record_hash in cc
  record_hash-written (true, e) w (away, own) m h =
      let (saved, _, kept) = at-record_hash fname e away in kept ∙ ground (arith, w refl)

  record_hash-manifest :
      (p : Bool × Disk) (old : Option Bytes) (m : Bool)
      → at manifest_file_name p.1 ≡ old
      → (record_hash hash_content fname content p).0 ≡ some m
      → at manifest_file_name (record_hash hash_content fname content p).1 ≡ (
          if m
          then some (map_text [] (insert fname (hash_content content) (load_manifest p.1)))
          else old)
  record_hash-manifest (false, e) old m same h = unfold record_hash in cc
  record_hash-manifest (true, e) old m same h =
      let (saved, r, kept) = at-record_hash manifest_file_name e (unfold has_prefix in refl) in
      let agree : saved ≡ m = some-injective saved m (sym r ∙ h) in
      kept ∙ ground (arith, =?_refl manifest_file_name)

  record_hash-others :
      (k : Bytes) (p : Bool × Disk)
      → IsExport k
      → at k (record_hash hash_content fname content p).1 ≡ at k p.1
  record_hash-others k (false, e) x = unfold record_hash in refl
  record_hash-others k (true, e) (away, own) =
      let (saved, _, kept) = at-record_hash k e away in kept ∙ ground arith

module _ (hash_content : Bytes → Bytes) (fname content : Bytes) (d : Disk) where
  -- An export that is not reported as failed is on disk, complete, whatever became of the
  -- manifest.
  pub write_markdown-written :
      IsExport fname
      → (m : Bool) → (write_markdown hash_content fname content d).0 ≡ some m
      → at fname (write_markdown hash_content fname content d).1 ≡ some content
  unfolding write_markdown
  write_markdown-written =
      record_hash-written hash_content fname content _ (write_file-done fname content d)

  -- If the hash is reported as recorded, the manifest's text is the old manifest with the hash of
  -- the content at the file's name; if not, the manifest is as it was.
  pub write_markdown-manifest :
      (fname =? manifest_file_name) ≡ false
      → (m : Bool) → (write_markdown hash_content fname content d).0 ≡ some m
      → at manifest_file_name (write_markdown hash_content fname content d).1 ≡ (
          if m
          then some (
              map_text [] (
                insert fname (hash_content content) (load_manifest (write_file fname content d).1)))
          else at manifest_file_name d)
  unfolding write_markdown
  write_markdown-manifest other m h =
      record_hash-manifest hash_content fname content (write_file fname content d) _ m
        (at-write_file manifest_file_name fname content d other) h

  -- Every other export is left alone, whatever the system answers.
  pub write_markdown-others :
      (k : Bytes)
      → IsExport k
      → (fname =? k) ≡ false
      → at k (write_markdown hash_content fname content d).1 ≡ at k d
  unfolding write_markdown
  write_markdown-others k x other =
      record_hash-others hash_content fname content k _ x ∙ at-write_file k fname content d other
