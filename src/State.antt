-- ===== src/State.antt =====
-- daemon.go: `syncState`, `loadState` and `saveState`.
pub mod RoundTrip
use schroedinger_sync.Base.{
  ℕ, Bool, Option, none, some, [], ◌∷◌, ◌++◌, ◌==◌, if◌then◌else◌, Bytes, ascii,
}
use schroedinger_sync.Base.Map.{Map}
use schroedinger_sync.Text.Decimal.{show, Signed, atoi}
use schroedinger_sync.Json.{Value, null, number, object}
use schroedinger_sync.Json.Read.{parse}
use schroedinger_sync.Json.Decode.{Decoded, well, ill, text_into, struct, names}
use schroedinger_sync.Json.Write.{js_string_literal, map_text, object_text}
use schroedinger_sync.Disk.{Disk, read_file, save_atomically}
use schroedinger_sync.Integrity.{map_into}

-- `syncState`. A negative counter, which the program never writes, is read as an ill-typed one.
pub record SyncState : Type 0 where
  pub conversations : Map Bytes
  pub last_sync : Bytes
  pub last_cookie_mod : Bytes
  pub last_surfaces : Bytes
  pub retry_cycles : ℕ

abbrev pub state_file_name : Bytes
state_file_name = ascii ".sync-state.json"

abbrev pub fresh_state : SyncState
fresh_state = record {
  conversations = [];
  last_sync = [];
  last_cookie_mod = [];
  last_surfaces = [];
  retry_cycles = 0;
}

-- A map field: entries are added, `null` makes it empty (`loadState` replaces a nil map).
conversations_into : Value → SyncState → Decoded SyncState
conversations_into (object ms) s = well (record s { conversations = map_into ms s.conversations })
conversations_into null s = well (record s { conversations = [] })
conversations_into _ s = ill s

count_of : Option Signed → SyncState → Decoded SyncState
count_of none s = ill s
count_of (some n) s = if n.negative then ill s else well (record s { retry_cycles = n.magnitude })

retries_into : Value → SyncState → Decoded SyncState
retries_into (number n) s = count_of (atoi n) s
retries_into null s = well s
retries_into _ s = ill s

state_field : Bytes → Bytes → Value → SyncState → Decoded SyncState
unfolding names text_into conversations_into retries_into count_of atoi map_into
state_field k raw v s =
    if names (ascii "conversations") k
    then conversations_into v s
    else if names (ascii "last_sync") k
    then text_into (λ t. record s { last_sync = t }) s v
    else if names (ascii "last_cookie_mod") k
    then text_into (λ t. record s { last_cookie_mod = t }) s v
    else if names (ascii "last_surfaces") k
    then text_into (λ t. record s { last_surfaces = t }) s v
    else if names (ascii "retry_cycles") k
    then retries_into v s
    else well s

-- A text that is no JSON leaves the fresh state; an ill-typed field is passed over.
state_of_value : Option Value → SyncState
state_of_value none = fresh_state
state_of_value (some v) = (struct fresh_state state_field v).value

state_of : Option Bytes → SyncState
state_of none = fresh_state
state_of (some b) = state_of_value (parse b)

-- `loadState`
unfoldable pub load_state : Disk → SyncState
unfolding state_of state_of_value state_field struct
load_state d = state_of (read_file state_file_name d)

-- `json.MarshalIndent(s, "", "  ")`; a counter of zero is left out.
unfoldable pub state_text : SyncState → Bytes
state_text s =
    let head =
      (ascii "conversations", map_text (ascii "  ") s.conversations)
      ∷ (ascii "last_sync", js_string_literal s.last_sync)
      ∷ (ascii "last_cookie_mod", js_string_literal s.last_cookie_mod)
      ∷ (ascii "last_surfaces", js_string_literal s.last_surfaces)
      ∷ [] in
    let retries =
      if s.retry_cycles == 0 then [] else (ascii "retry_cycles", show s.retry_cycles) ∷ [] in
    object_text [] (head ++ retries)

abbrev pub state_prefix : Bytes
state_prefix = ascii ".sync-state-"

-- `saveState`
unfoldable pub save_state : SyncState → Disk → Bool × Disk
save_state s d = save_atomically state_prefix state_file_name (state_text s) d
