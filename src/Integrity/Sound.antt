-- ===== src/Integrity/Sound.antt =====
-- integrity.go: the output directory over exports.
use schroedinger_sync.Base.{
  List, true, false, not, some, ◌≡◌, ◌∙◌, ap, arith, all, any, Bytes, ◌=?◌, =?_iff,
}
use schroedinger_sync.Text.Runes.Bounds.{is_ascii}
use schroedinger_sync.Json.Written.Maps.{IsAscii, IsAscii-insert, IsAscii-map_members}
use schroedinger_sync.Disk.{Disk}
use schroedinger_sync.Integrity.{manifest_file_name, load_manifest, write_markdown}
use schroedinger_sync.Integrity.Hash.{hash_content, is_ascii-hash_content}
use schroedinger_sync.Integrity.Laws.{IsExport}
use schroedinger_sync.Integrity.Locks.{write_markdown-locked}
use schroedinger_sync.Integrity.Verified.{
  is_readable, IsVerified, load_manifest-recorded, write_markdown-IsVerified,
}

-- The manifest can be read, its names and hashes are in ASCII, and every export that it names is on
-- disk with the content whose hash it records.
abbrev pub IsSound : (Bytes → Bytes) → Disk → Type 0
IsSound sum256 d =
    (is_readable d ≡ true) × IsAscii (load_manifest d) × IsVerified (hash_content sum256) d

module _ (sum256 : Bytes → Bytes) (fname content : Bytes) (d : Disk) where
  -- An output directory is sound if its manifest can be read, is in ASCII, and names only exports
  -- that are on disk with the content whose hash it records. It is sound again behind every export
  -- whose hash is reported as recorded, if the export is not one of the manifest's own files and its
  -- name is in ASCII.
  pub write_markdown-IsSound :
      IsExport fname
      → all is_ascii fname ≡ true
      → (write_markdown (hash_content sum256) fname content d).0 ≡ some true
      → IsSound sum256 d
      → IsSound sum256 (write_markdown (hash_content sum256) fname content d).1
  write_markdown-IsSound (away, own) plain_name recorded (readable, plain, truth) =
      let other : (fname =? manifest_file_name) ≡ false =
        ground (arith, =?_iff fname manifest_file_name, =?_iff manifest_file_name fname) in
      let hash = is_ascii-hash_content sum256 in
      let loaded =
        load_manifest-recorded (hash_content sum256) hash fname content d other plain_name plain
          readable recorded in
      (
        ap (λ (ls : List Bytes). not (any (λ l. l =? manifest_file_name) ls))
              (write_markdown-locked (hash_content sum256) fname content d)
            ∙ readable,
        rw loaded (
            IsAscii-map_members _ (
              IsAscii-insert fname (hash_content sum256 content) (load_manifest d) plain_name
                (hash content) plain)),
        write_markdown-IsVerified (hash_content sum256) hash fname content d (away, own) plain_name
            plain readable recorded truth,
      )
