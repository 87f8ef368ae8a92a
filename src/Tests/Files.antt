-- ===== src/Tests/Files.antt =====
-- Files and saves, run.
use schroedinger_sync.Base.{
  ◌≡◌, refl, false, ◌&&◌, if◌then◌else◌, some, [], ◌∷◌, Bytes, ascii, ◌=?◌,
}
use schroedinger_sync.Text.Search.{has_prefix}
use schroedinger_sync.Disk.{
  Disk, done, refused, torn, read_file, write_file, save_atomically, create_temp, close_file,
  rename,
}
use schroedinger_sync.Disk.Atomic.{at, at-save_atomically}
use schroedinger_sync.Integrity.{load_manifest, save_manifest, write_markdown}
use schroedinger_sync.Integrity.Laws.{write_markdown-written}
use schroedinger_sync.Integrity.Hash.{hash_content}
use schroedinger_sync.Integrity.Sound.{IsSound, write_markdown-IsSound}
use schroedinger_sync.State.{SyncState, state_prefix, state_file_name, save_state, load_state}
use schroedinger_sync.State.RoundTrip.{load_state-save_state}
use schroedinger_sync.Base.Map.{lookup, insert}
use schroedinger_sync.Tests.Server.{empty_disk, no_hash}

-- The write of the temporary file breaks off behind three bytes.
abbrev breaking : Disk
breaking = record empty_disk {
  files = (state_file_name, ascii "old") ∷ [];
  outcomes = done ∷ torn 3 ∷ [];
}

at-save_atomically_example :
    at state_file_name (save_atomically state_prefix state_file_name (ascii "newer") breaking).1 ≡ (
      if (save_atomically state_prefix state_file_name (ascii "newer") breaking).0
        && state_file_name =? state_file_name
      then some (ascii "newer")
      else at state_file_name breaking)
unfolding has_prefix
at-save_atomically_example =
    at-save_atomically state_file_name state_prefix state_file_name (ascii "newer") breaking refl

-- The export is written, the manifest is not.
abbrev half : Disk
half = record empty_disk { outcomes = done ∷ refused ∷ [] }

write_markdown-written_example :
    at (ascii "a.md") (write_markdown no_hash (ascii "a.md") (ascii "text") half).1
    ≡ some (ascii "text")
unfolding has_prefix ◌=?◌ write_markdown write_file save_manifest save_atomically create_temp
write_markdown-written_example =
    write_markdown-written no_hash (ascii "a.md") (ascii "text") half (refl, refl) false refl

-- An empty directory is sound, and goes on to be.
write_markdown-IsSound_example :
    IsSound no_hash
      (write_markdown (hash_content no_hash) (ascii "a.md") (ascii "text") empty_disk).1
unfolding has_prefix ◌=?◌ write_markdown write_file save_manifest save_atomically create_temp
    close_file rename lookup insert load_manifest read_file
write_markdown-IsSound_example =
    write_markdown-IsSound no_hash (ascii "a.md") (ascii "text") empty_disk (refl, refl) refl refl
      (refl, tt, λ k h x named. absurd (cc named))

-- A state with a conversation and a counter.
abbrev kept : SyncState
kept = record {
  conversations = (ascii "u2", ascii "t") ∷ (ascii "u1", ascii "\"t\"") ∷ [];
  last_sync = ascii "2026-01-02T00:00:00Z";
  last_cookie_mod = ascii "c";
  last_surfaces = [];
  retry_cycles = 12;
}

abbrev kept_disk : Disk
kept_disk = (save_state kept empty_disk).1

load_state-save_state_example :
    ((load_state kept_disk).last_sync ≡ kept.last_sync)
    × ((load_state kept_disk).last_cookie_mod ≡ kept.last_cookie_mod)
    × ((load_state kept_disk).last_surfaces ≡ kept.last_surfaces)
    × ((load_state kept_disk).retry_cycles ≡ kept.retry_cycles)
    × ((uuid : Bytes)
        → lookup uuid (load_state kept_disk).conversations ≡ lookup uuid kept.conversations)
unfolding lookup ◌=?◌ save_state save_atomically create_temp write_file close_file rename insert
load_state-save_state_example =
    load_state-save_state kept empty_disk
      (record {
        distinct = (refl, (refl, tt));
        conversations = (refl, refl, (refl, refl, tt));
        last_sync = refl;
        last_cookie_mod = refl;
        last_surfaces = refl;
      })
      refl refl
