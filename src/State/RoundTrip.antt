-- ===== src/State/RoundTrip.antt =====
-- daemon.go: `loadState` behind `saveState`.
use schroedinger_sync.Base.{
  ℕ, zero, suc, ◌≡◌, refl, ◌∙◌, ap, arith, true, false, some, List, [], ◌∷◌, ◌==◌, if◌then◌else◌,
  all, any, map, Bytes, ascii, ◌=?◌, =?_refl,
}
use schroedinger_sync.Base.Map.{lookup}
use schroedinger_sync.Text.Search.{lower, has_prefix}
use schroedinger_sync.Text.Runes.Bounds.{is_ascii}
use schroedinger_sync.Text.Decimal.{show, atoi-show}
use schroedinger_sync.Json.{number, text, object}
use schroedinger_sync.Json.Read.{parse}
use schroedinger_sync.Json.Decode.{Decoded, struct, decode_members, names, text_into}
use schroedinger_sync.Json.Write.{map_text, object_text}
use schroedinger_sync.Json.Written.Strings.{js_string_literal-ascii}
use schroedinger_sync.Json.Written.Objects.{
  literal_of, literal_of-IsWritten, Entry, AreEntries, members_of,
}
use schroedinger_sync.Json.Written.Texts.{line_of, parse-object_text}
use schroedinger_sync.Json.Written.Maps.{
  IsDistinct, IsAscii, map_members, map_text-IsWritten, lookup-map_members,
}
use schroedinger_sync.Json.Written.Counts.{show-IsWritten}
use schroedinger_sync.Disk.{Disk, read_file}
use schroedinger_sync.Disk.Atomic.{at, at-save_atomically}
use schroedinger_sync.Integrity.{map_into}
use schroedinger_sync.State.{
  SyncState, state_file_name, state_field, conversations_into, retries_into, count_of,
  state_of_value, state_of, load_state, state_text, state_prefix, save_state,
}

-- A state as the daemon keeps it: its texts are in ASCII, and every conversation stands once.
pub record IsPlain (s : SyncState) : Type 0 where
  pub distinct : IsDistinct s.conversations
  pub conversations : IsAscii s.conversations
  pub last_sync : all is_ascii s.last_sync ≡ true
  pub last_cookie_mod : all is_ascii s.last_cookie_mod ≡ true
  pub last_surfaces : all is_ascii s.last_surfaces ≡ true

text_entry : Bytes → Bytes → Entry
text_entry k s = record { key = k; written = literal_of s; value = text s }

retry_entries : ℕ → List Entry
retry_entries zero = []
retry_entries (suc n) =
    record { key = ascii "retry_cycles"; written = show (suc n); value = number (show (suc n)) }
    ∷ []

-- The members of the state's text.
state_entries : SyncState → List Entry
state_entries s =
    record {
      key = ascii "conversations";
      written = map_text (ascii "  ") s.conversations;
      value = object (map_members s.conversations);
    }
    ∷ text_entry (ascii "last_sync") s.last_sync
    ∷ text_entry (ascii "last_cookie_mod") s.last_cookie_mod
    ∷ text_entry (ascii "last_surfaces") s.last_surfaces
    ∷ retry_entries s.retry_cycles

retry_entries-lines :
    (n : ℕ)
    → (if n == 0 then [] else (ascii "retry_cycles", show n) ∷ []) ≡ map line_of (retry_entries n)
unfolding retry_entries
retry_entries-lines zero = refl
retry_entries-lines (suc n) =
    let some_cycles : (suc n == 0) ≡ false = ground arith in rw some_cycles refl

state_text-entries :
    (s : SyncState) → IsPlain s → state_text s ≡ object_text [] (map line_of (state_entries s))
unfolding state_text state_entries text_entry
state_text-entries s p =
    rw
      (
        js_string_literal-ascii s.last_sync p.last_sync,
        js_string_literal-ascii s.last_cookie_mod p.last_cookie_mod,
        js_string_literal-ascii s.last_surfaces p.last_surfaces,
        retry_entries-lines s.retry_cycles,
      )
      refl

retry_entries-AreEntries : (n : ℕ) → AreEntries (retry_entries n)
unfolding retry_entries
retry_entries-AreEntries zero = tt
retry_entries-AreEntries (suc n) = ((refl, show-IsWritten (suc n) (omega arith)), tt)

state_entries-AreEntries : (s : SyncState) → IsPlain s → AreEntries (state_entries s)
unfolding state_entries text_entry
state_entries-AreEntries s p = (
  (refl, map_text-IsWritten (ascii "  ") s.conversations refl p.conversations),
  (
    (refl, literal_of-IsWritten s.last_sync p.last_sync),
    (
      (refl, literal_of-IsWritten s.last_cookie_mod p.last_cookie_mod),
      (
        (refl, literal_of-IsWritten s.last_surfaces p.last_surfaces),
        retry_entries-AreEntries s.retry_cycles,
      ),
    ),
  ),
)

-- What the members are decoded to.
decoded : SyncState → SyncState
decoded s = record s { conversations = map_into (map_members s.conversations) [] }

decoded_retries :
    (n : ℕ) (d : Decoded SyncState)
    → d.value.retry_cycles ≡ 0
    → (decode_members state_field (members_of (retry_entries n)) d).value
      ≡ record (d.value) { retry_cycles = n }
unfolding retry_entries members_of decode_members state_field names lower ◌=?◌ retries_into count_of
decoded_retries zero d h = ap (λ n. record (d.value) { retry_cycles = n }) h
decoded_retries (suc n) d h = rw (atoi-show (suc n)) refl

state_of_value-entries :
    (s : SyncState) → state_of_value (some (object (members_of (state_entries s)))) ≡ decoded s
unfolding state_of_value struct decode_members members_of state_entries text_entry state_field names
    lower ◌=?◌ conversations_into text_into decoded
state_of_value-entries s = decoded_retries s.retry_cycles _ refl

-- The state that the text stands for.
state_of-state_text : (s : SyncState) → IsPlain s → state_of (some (state_text s)) ≡ decoded s
unfolding state_of
state_of-state_text s p =
    ap state_of_value (
      ap parse (state_text-entries s p)
      ∙ parse-object_text (state_entries s) (state_entries-AreEntries s p))
    ∙ state_of_value-entries s

-- The file that a successful save leaves.
at-save_state :
    (s : SyncState) (d : Disk)
    → (save_state s d).0 ≡ true
    → at state_file_name (save_state s d).1 ≡ some (state_text s)
unfolding save_state
at-save_state s d saved =
    at-save_atomically state_file_name state_prefix state_file_name (state_text s) d
      (unfold has_prefix in refl)
    ∙ rw (saved, =?_refl state_file_name) refl

load_state-saved :
    (s : SyncState) (d : Disk)
    → IsPlain s
    → (save_state s d).0 ≡ true
    → any (λ l. l =? state_file_name) (save_state s d).1.locked ≡ false
    → load_state (save_state s d).1 ≡ decoded s
unfolding load_state read_file
load_state-saved s d p saved readable =
    rw (readable, at-save_state s d saved) (state_of-state_text s p)

-- A state whose texts are in ASCII, and in which every conversation stands once, is loaded again
-- behind a save that succeeds, if its file can be read: its times, its watermark, its counter, and
-- for every conversation its timestamp.
pub load_state-save_state :
    (s : SyncState) (d : Disk)
    → IsPlain s
    → (save_state s d).0 ≡ true
    → any (λ l. l =? state_file_name) (save_state s d).1.locked ≡ false
    → (((load_state (save_state s d).1).last_sync ≡ s.last_sync)
        × ((load_state (save_state s d).1).last_cookie_mod ≡ s.last_cookie_mod)
        × ((load_state (save_state s d).1).last_surfaces ≡ s.last_surfaces)
        × ((load_state (save_state s d).1).retry_cycles ≡ s.retry_cycles)
        × ((uuid : Bytes)
            → lookup uuid (load_state (save_state s d).1).conversations
              ≡ lookup uuid s.conversations))
unfolding decoded
load_state-save_state s d p saved readable =
    rw (load_state-saved s d p saved readable)
      (refl, refl, refl, refl, λ uuid. lookup-map_members s.conversations uuid p.distinct)
