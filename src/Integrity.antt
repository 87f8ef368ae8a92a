-- ===== src/Integrity.antt =====
-- integrity.go: the manifest of content hashes, and `writeMarkdown`. SHA-256 is a parameter.
pub mod Hash
pub mod Laws
pub mod Locks
pub mod Sound
pub mod Verified
use schroedinger_sync.Base.{
  Bool, true, false, Option, none, some, List, [], ◌∷◌, if◌then◌else◌, Bytes, ascii,
}
use schroedinger_sync.Base.Map.{Map, insert}
use schroedinger_sync.Json.{Value, null, text, object, Members, end, member}
use schroedinger_sync.Json.Read.{parse}
use schroedinger_sync.Json.Write.{map_text}
use schroedinger_sync.Disk.{Disk, read_file, write_file, save_atomically}

-- `contentManifest`
abbrev pub Manifest : Type 0
Manifest = Map Bytes

abbrev pub manifest_file_name : Bytes
manifest_file_name = ascii ".content-hashes.json"

-- What `Unmarshal` stores for an element of a `map[string]string`: the zero value if it is no text.
map_value : Value → Bytes
map_value (text t) = t
map_value _ = []

-- `Unmarshal` of an object into a map that holds entries already.
unfoldable pub map_into : Members → Map Bytes → Map Bytes
unfolding map_value
map_into end m = m
map_into (member k raw v ms) m = map_into ms (insert k (map_value v) m)

-- The manifest that a text stands for; its error is ignored.
manifest_of_value : Option Value → Manifest
manifest_of_value (some (object ms)) = map_into ms []
manifest_of_value _ = []

manifest_of : Option Bytes → Manifest
manifest_of none = []
manifest_of (some b) = manifest_of_value (parse b)

-- `loadManifest`
unfoldable pub load_manifest : Disk → Manifest
unfolding manifest_of manifest_of_value map_into
load_manifest d = manifest_of (read_file manifest_file_name d)

abbrev pub manifest_prefix : Bytes
manifest_prefix = ascii ".content-hashes-"

-- `saveManifest`
unfoldable pub save_manifest : Manifest → Disk → Bool × Disk
save_manifest m d = save_atomically manifest_prefix manifest_file_name (map_text [] m) d

module _ (hash_content : Bytes → Bytes) where
  record_hash : Bytes → Bytes → Bool × Disk → Option Bool × Disk
  record_hash fname content (false, d) = (none, d)
  record_hash fname content (true, d) =
      let (saved, e) = save_manifest (insert fname (hash_content content) (load_manifest d)) d in
      (some saved, e)

  -- `writeMarkdown`: `none` if the file could not be written, or whether its hash was recorded.
  unfoldable pub write_markdown : Bytes → Bytes → Disk → Option Bool × Disk
  unfolding record_hash
  write_markdown fname content d = record_hash fname content (write_file fname content d)
