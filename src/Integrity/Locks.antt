-- ===== src/Integrity/Locks.antt =====
-- An export changes nothing about which files can be read.
use schroedinger_sync.Base.{◌≡◌, refl, ◌∙◌, Bool, true, false, Bytes}
use schroedinger_sync.Disk.{Disk}
use schroedinger_sync.Disk.Locks.{write_file-locked, save_atomically-locked}
use schroedinger_sync.Integrity.{record_hash, save_manifest, write_markdown}

module _ (hash_content : Bytes → Bytes) where
  record_hash-locked :
      (fname content : Bytes) (w : Bool × Disk)
      → (record_hash hash_content fname content w).1.locked ≡ w.1.locked
  unfolding record_hash save_manifest
  record_hash-locked fname content (false, d) = refl
  record_hash-locked fname content (true, d) = save_atomically-locked _ _ _ d

  pub write_markdown-locked :
      (fname content : Bytes) (d : Disk)
      → (write_markdown hash_content fname content d).1.locked ≡ d.locked
  unfolding write_markdown
  write_markdown-locked fname content d =
      record_hash-locked fname content _ ∙ write_file-locked fname content d
