-- ===== src/Security.antt =====
-- security.go: the registry of secrets, `redact`, the stdout redactor and the session teardown.
pub mod Redaction
pub mod Lines
pub mod Terminal
use schroedinger_sync.Base.{
  ℕ, zero, suc, Bool, true, false, Option, none, some, List, [], ◌∷◌, ◌++◌, map, ◌==◌,
  if◌then◌else◌, ltb, length, any, is_empty, Bytes, ascii, ◌=?◌,
}
use schroedinger_sync.Text.Search.{replace_all}

-- `RegisterSecret`, on the registry `secrets`: short values and known ones are left out.
unfoldable pub register_secret : Bytes → List Bytes → List Bytes
register_secret s secrets =
    if ltb (length s) 8
    then secrets
    else if any (λ existing. existing =? s) secrets
    then secrets
    else secrets ++ (s ∷ [])

-- `zeroBytes`: every byte of the buffer is overwritten.
unfoldable pub zero_bytes : Bytes → Bytes
zero_bytes [] = []
zero_bytes (b ∷ bs) = 0 ∷ zero_bytes bs

abbrev pub placeholder : Bytes
placeholder = ascii "[REDACTED]"

-- `redact`, over the registry in its order.
unfoldable pub redact : List Bytes → Bytes → Bytes
redact [] s = s
redact (sec ∷ secrets) s =
    redact secrets (if is_empty sec then s else replace_all s sec placeholder)

-- The reader of `installStdoutRedactor`: what is left of the current line, and what has been
-- written to the real stdout. `ReadString('\n')` hands over a line with its newline.
pub record Pipe : Type 0 where
  pub line : Bytes
  pub written : Bytes

module _ (secrets : List Bytes) where
  -- A byte that a `Print` call wrote to the pipe.
  unfoldable pub receive : Pipe → ℕ → Pipe
  receive p b =
      if b == b'\n'
      then record { line = []; written = p.written ++ redact secrets (p.line ++ (b ∷ [])) }
      else record p { line = p.line ++ (b ∷ []) }

  unfoldable pub receive_all : Pipe → Bytes → Pipe
  receive_all p [] = p
  receive_all p (b ∷ bs) = receive_all (receive p b) bs

  -- The writes of a run, one after the other.
  unfoldable pub receive_writes : Pipe → List Bytes → Pipe
  receive_writes p [] = p
  receive_writes p (w ∷ ws) = receive_writes (receive_all p w) ws

  -- The end of the pipe: what is left without a newline is handed over too.
  unfoldable pub close_pipe : Pipe → Bytes
  close_pipe p = if is_empty p.line then p.written else p.written ++ redact secrets p.line

  -- What reaches the terminal of the writes between the installation and the teardown.
  unfoldable pub redacted_stdout : List Bytes → Bytes
  unfolding receive receive_all receive_writes close_pipe
  redacted_stdout writes = close_pipe (receive_writes (record { line = []; written = [] }) writes)
