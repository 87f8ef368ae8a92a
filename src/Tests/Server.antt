-- ===== src/Tests/Server.antt =====
-- A small server, a conversation of it, and the sessions and disks of the other tests.
use schroedinger_sync.Base.{ℕ, ◌+◌, [], ◌∷◌, Bytes, ascii}
use schroedinger_sync.Result.{deadline, Result, ok, err}
use schroedinger_sync.Api.{ConvSummary}
use schroedinger_sync.Fetch.{Session}
use schroedinger_sync.Disk.{Disk}
use schroedinger_sync.State.{fresh_state}
use schroedinger_sync.Sync.{Sync}

-- The server counts its requests, and answers each of them by the same body.
abbrev pub answering : Bytes → Bytes → ℕ → Result Bytes × ℕ
answering body path n = (ok body, n + 1)

abbrev pub timing_out : Bytes → ℕ → Result Bytes × ℕ
timing_out path n = (err deadline, n + 1)

abbrev pub limiting : Bytes → ℕ → Result Bytes × ℕ
limiting = answering (ascii "{\"type\":\"rate_limit_error\"}")

abbrev pub body : Bytes
body = ascii "{\"name\":\"A\",\"updated_at\":\"2026-01-02T00:00:00Z\"}"

abbrev pub chat : ConvSummary
chat = record {
  uuid = ascii "0123456789";
  name = ascii "A";
  created_at = ascii "2026-01-01T00:00:00Z";
  updated_at = ascii "2026-01-02T00:00:00Z";
}

abbrev pub no_hash : Bytes → Bytes
no_hash content = ascii "h"

abbrev pub session : Session ℕ
session = record { net = 0; slept = [] }

abbrev pub empty_disk : Disk
empty_disk = record { files = []; locked = []; outcomes = []; randoms = ascii "1" ∷ ascii "2" ∷ [] }

abbrev pub start : Sync ℕ
start = record {
  session = session;
  disk = empty_disk;
  state = fresh_state;
  new_n = 0;
  changed_n = 0;
  seed_n = 0;
  err_n = 0;
}

-- The export of the conversation, long enough to count.
abbrev pub export_text : Bytes
export_text =
    ascii
      "# A\n\n- Created: 2026-01-01T00:00:00\n- Updated: 2026-01-02T00:00:00\n- Model: m\n\n---\n\n## Human [x]\n\nhello hello\n\n"

abbrev pub settled : Sync ℕ
settled = record start {
  disk = record empty_disk { files = (ascii "2026-01-01_01234567_A.md", export_text) ∷ [] };
  state = record fresh_state {
    conversations = (ascii "0123456789", ascii "2026-01-02T00:00:00Z") ∷ [];
  };
}
