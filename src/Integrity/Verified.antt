-- ===== src/Integrity/Verified.antt =====
-- integrity.go: the manifest and the files that it names.
use mathlib.Core.Option.{some-injective}
use mathlib.Core.Path.{subst}
use schroedinger_sync.Base.{
  List, Bool, true, false, not, Option, none, some, [], ◌∷◌, ◌≡◌, refl, sym, ap, ◌∙◌, arith,
  if◌then◌else◌, all, any, Bytes, ◌=?◌, =?_iff, Bool-cases, inl, inr,
}
use schroedinger_sync.Base.Map.{Map, lookup, insert, lookup-insert}
use schroedinger_sync.Text.Runes.Bounds.{is_ascii}
use schroedinger_sync.Json.{Value, Members, end, member, object, null, boolean, number, text, array}
use schroedinger_sync.Json.Read.{parse}
use schroedinger_sync.Json.Write.{map_text}
use schroedinger_sync.Json.Written.Maps.{
  IsDistinct, IsAscii, IsAscii-insert, map_members, parse-map_text, lookup-map_members,
}
use schroedinger_sync.Disk.{Disk, read_file, write_file}
use schroedinger_sync.Disk.Atomic.{at, at-write_file}
use schroedinger_sync.Disk.Locks.{write_file-locked}
use schroedinger_sync.Integrity.{
  Manifest, manifest_file_name, map_value, map_into, manifest_of_value, manifest_of, load_manifest,
  write_markdown,
}
use schroedinger_sync.Integrity.Laws.{
  IsExport, write_markdown-written, write_markdown-manifest, write_markdown-others,
}
use schroedinger_sync.Integrity.Locks.{write_markdown-locked}

IsDistinct-insert : (k v : Bytes) (m : Map Bytes) → IsDistinct m → IsDistinct (insert k v m)
unfolding insert lookup
IsDistinct-insert k v [] d = (refl, tt)
IsDistinct-insert k v ((j, w) ∷ m) (h, d) = elim (Bool-cases (j =? k)) [
  | inl same ↦ rw (same, insert) (rw ((=?_iff j k).0 same) at h, d)
  | inr other ↦
      rw (other, insert)
        (
          lookup-insert k j v m ∙ ground (arith, =?_iff j k, =?_iff k j, h),
          IsDistinct-insert k v m d,
        )
]

map_into-IsDistinct : (ms : Members) (m : Map Bytes) → IsDistinct m → IsDistinct (map_into ms m)
unfolding map_into
map_into-IsDistinct end m d = d
map_into-IsDistinct (member k raw v ms) m d =
    map_into-IsDistinct ms _ (IsDistinct-insert k (map_value v) m d)

manifest_of_value-IsDistinct : (v : Option Value) → IsDistinct (manifest_of_value v)
unfolding manifest_of_value
manifest_of_value-IsDistinct (some (object ms)) = map_into-IsDistinct ms [] tt
manifest_of_value-IsDistinct none = tt
manifest_of_value-IsDistinct (some null) = tt
manifest_of_value-IsDistinct (some (boolean b)) = tt
manifest_of_value-IsDistinct (some (number n)) = tt
manifest_of_value-IsDistinct (some (text t)) = tt
manifest_of_value-IsDistinct (some (array xs)) = tt

manifest_of-IsDistinct : (b : Option Bytes) → IsDistinct (manifest_of b)
unfolding manifest_of
manifest_of-IsDistinct none = tt
manifest_of-IsDistinct (some b) = manifest_of_value-IsDistinct (parse b)

-- A manifest that is loaded holds every name once.
load_manifest-IsDistinct : (d : Disk) → IsDistinct (load_manifest d)
unfolding load_manifest
load_manifest-IsDistinct d = manifest_of-IsDistinct _

-- The manifest's file can be read.
abbrev pub is_readable : Disk → Bool
is_readable d = not (any (λ l. l =? manifest_file_name) d.locked)

load_manifest-text :
    (m : Manifest) (d : Disk)
    → is_readable d ≡ true
    → at manifest_file_name d ≡ some (map_text [] m)
    → IsAscii m
    → load_manifest d ≡ map_into (map_members m) []
unfolding load_manifest read_file manifest_of manifest_of_value
load_manifest-text m d readable here plain =
    let open_ : any (λ l. l =? manifest_file_name) d.locked ≡ false = ground arith in
    rw (open_, here) (ap manifest_of_value (parse-map_text m plain))

-- Loading sees the manifest's file and the locks, and nothing else.
load_manifest-same :
    (d e : Disk)
    → e.locked ≡ d.locked
    → at manifest_file_name e ≡ at manifest_file_name d
    → load_manifest e ≡ load_manifest d
unfolding load_manifest read_file
load_manifest-same d e locks here = rw (locks, here) refl

module _ (hash_content : Bytes → Bytes)
    (hex_digits : (content : Bytes) → all is_ascii (hash_content content) ≡ true)
    (fname content : Bytes) (d : Disk) where
  -- The manifest that is loaded behind an export whose hash is recorded. The names are in ASCII, and
  -- the manifest can be read.
  pub load_manifest-recorded :
      (fname =? manifest_file_name) ≡ false
      → all is_ascii fname ≡ true
      → IsAscii (load_manifest d)
      → is_readable d ≡ true
      → (write_markdown hash_content fname content d).0 ≡ some true
      → load_manifest (write_markdown hash_content fname content d).1
        ≡ map_into (map_members (insert fname (hash_content content) (load_manifest d))) []
  load_manifest-recorded other ascii_name plain readable recorded =
      let e = (write_file fname content d).1 in
      let before : load_manifest e ≡ load_manifest d =
        load_manifest-same d e (write_file-locked fname content d)
          (at-write_file manifest_file_name fname content d other) in
      let same_locks = write_markdown-locked hash_content fname content d in
      load_manifest-text (insert fname (hash_content content) (load_manifest e))
        (write_markdown hash_content fname content d).1
        (ap (λ (ls : List Bytes). not (any (λ l. l =? manifest_file_name) ls)) same_locks
          ∙ readable)
        (write_markdown-manifest hash_content fname content d other true recorded)
        (IsAscii-insert fname _ _ ascii_name (hex_digits content) (rw before plain))
      ∙ ap (λ m. map_into (map_members (insert fname (hash_content content) m)) []) before

  -- It has the hash at the file's name, and what was there before at every other.
  pub load_manifest-write_markdown :
      (k : Bytes)
      → (fname =? manifest_file_name) ≡ false
      → all is_ascii fname ≡ true
      → IsAscii (load_manifest d)
      → is_readable d ≡ true
      → (write_markdown hash_content fname content d).0 ≡ some true
      → lookup k (load_manifest (write_markdown hash_content fname content d).1)
        ≡ (if fname =? k then some (hash_content content) else lookup k (load_manifest d))
  load_manifest-write_markdown k other ascii_name plain readable recorded =
      ap (lookup k) (load_manifest-recorded other ascii_name plain readable recorded)
      ∙ lookup-map_members (insert fname (hash_content content) (load_manifest d)) k
          (IsDistinct-insert fname _ _ (load_manifest-IsDistinct d))
      ∙ lookup-insert fname k (hash_content content) (load_manifest d)

-- Every export that the manifest names is on disk, with the content whose hash is recorded.
abbrev pub IsVerified : (Bytes → Bytes) → Disk → Type 0
IsVerified hash_content d =
    (k h : Bytes)
    → IsExport k
    → lookup k (load_manifest d) ≡ some h
    → (content : Bytes) × (at k d ≡ some content) × (hash_content content ≡ h)

module _ (hash_content : Bytes → Bytes)
    (hex_digits : (content : Bytes) → all is_ascii (hash_content content) ≡ true)
    (fname content : Bytes) (d : Disk) where
  -- A manifest that agrees with the files on disk agrees with them behind every export whose hash is
  -- reported as recorded. The export is not one of the manifest's own files, its name and the names
  -- in the manifest are in ASCII, and the manifest can be read.
  pub write_markdown-IsVerified :
      IsExport fname
      → all is_ascii fname ≡ true
      → IsAscii (load_manifest d)
      → is_readable d ≡ true
      → (write_markdown hash_content fname content d).0 ≡ some true
      → IsVerified hash_content d
      → IsVerified hash_content (write_markdown hash_content fname content d).1
  write_markdown-IsVerified (away, own) plain_name plain readable recorded truth k h x named =
      let other : (fname =? manifest_file_name) ≡ false =
        ground (arith, =?_iff fname manifest_file_name, =?_iff manifest_file_name fname) in
      let entry =
        load_manifest-write_markdown hash_content hex_digits fname content d k other plain_name
          plain readable recorded in
      elim (Bool-cases (fname =? k)) [
        | inl same ↦
            let this : some (hash_content content) ≡ some h = sym (rw same at entry) ∙ named in
            (
              content,
              subst (λ j. at j (write_markdown hash_content fname content d).1 ≡ some content)
                  ((=?_iff fname k).0 same)
                  (write_markdown-written hash_content fname content d (away, own) true recorded),
              some-injective _ _ this,
            )
        | inr differs ↦
            let (c, here, e) = truth k h x (sym (rw differs at entry) ∙ named) in
            (c, write_markdown-others hash_content fname content d k x differs ∙ here, e)
      ]
