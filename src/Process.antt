-- ===== src/Process.antt =====
-- One run of the program: the teardown registry and `fatal` of security.go, and the session of
-- `openClaudeSession` (cdp.go) as a command on the main goroutine sees it. Chrome, the cookie and
-- the server are parameters; of what is printed, the messages of `fatal` are kept.
pub mod Endings
pub mod Kept
use schroedinger_sync.Base.{
  ℕ, Bool, true, false, Option, none, some, List, [], ◌∷◌, ◌++◌, if◌then◌else◌, is_empty, Bytes,
  ascii,
}
use schroedinger_sync.Result.{
  Error, deadline, rate_limited, desktop_not_found, challenge, other, is_desktop_not_found, Result,
  ok, err,
}
use schroedinger_sync.Fetch.{Session}
use schroedinger_sync.Disk.{Disk}

-- What a run does to the outside, in this order.
pub data Event : Type 0 where
  said : Bytes → Event
  profile_swept chrome_launched chrome_closed redactor_flushed : Event
  exited : ℕ → Event

pub record Process (N : Type 0) : Type 0 where
  pub session : Session N
  pub disk : Disk
  pub secrets : List Bytes
  -- is `activeTeardown` set?
  pub active : Bool
  -- the last one first
  pub events : List Event

-- A command returns to `main`, or the process has exited inside it.
pub data Ending (N : Type 0) : Type 0 where
  returns exits : Process N → Ending N

module _ {N : Type 0} where
  unfoldable pub happens : Event → Process N → Process N
  happens e p = record p { events = e ∷ p.events }

  -- `sweepProfileDir`: a reparse point is left alone.
  unfoldable pub sweep_profile_dir : Bool → Process N → Process N
  sweep_profile_dir reparse_point p = if reparse_point then p else happens profile_swept p

module _ {N : Type 0} (close : N → N) where
  -- The `teardown` of `openClaudeSession`.
  unfoldable pub teardown : Process N → Process N
  teardown p =
      happens chrome_closed
        (record p { active = false; session = record (p.session) { net = close p.session.net } })

  -- `runActiveTeardown`
  unfoldable pub run_active_teardown : Process N → Process N
  run_active_teardown p = if p.active then teardown p else p

  -- `fatal`
  unfoldable pub fatal : Bytes → Process N → Ending N
  unfolding run_active_teardown
  fatal message p = exits (
      happens (exited 1)
        (happens redactor_flushed (run_active_teardown (happens (said message) p))))

  -- `exitOnSessionFailure`
  unfoldable pub exit_on_session_failure : Error → Process N → Ending N
  exit_on_session_failure e p =
      if is_desktop_not_found e
      then fatal (ascii "Claude Desktop wurde nicht gefunden") p
      else fatal (ascii "FAIL @session:") p

  -- The end of `main`: the deferred `stopRedactor`.
  unfoldable pub main_returned : Ending N → Process N
  main_returned (exits p) = p
  main_returned (returns p) = happens (exited 0) (happens redactor_flushed p)

-- `%v` on an error, or on none: its message. The two messages with a text from outside are cut short.
unfoldable pub message_of : Option Error → Bytes
message_of none = ascii "<nil>"
message_of (some deadline) = ascii "context deadline exceeded"
message_of (some rate_limited) = ascii "rate-limited"
message_of (some desktop_not_found) =
    ascii "Claude Desktop wurde nicht gefunden "
    ++ (0xE2
        ∷ 0x80
        ∷ 0x94
        ∷ (ascii " bitte installieren, einmal "
            ++ (0xC3 ∷ 0xB6 ∷ ascii "ffnen und einloggen: https://claude.ai/download")))
message_of (some challenge) = ascii "HTML page instead of JSON"
message_of (some (other text)) = text

-- The error of `openClaudeSession` where no key is read: a new one, with the message of the error of
-- `readSessionKey` in its own, since `%v` does not wrap.
unfoldable pub key_failure : Option Error → Error
key_failure e =
    other (ascii "sessionKey via DPAPI failed (close Claude Desktop first): " ++ message_of e)

-- `read_key` is `readSessionKey` on the registry of secrets; `navigate` is the first
-- `chromedp.Run`, which starts Chrome, sets the cookie and waits for the page.
module _ {N : Type 0} (read_key : List Bytes → Result Bytes × List Bytes) (reparse_point : Bool)
    (navigate : Bytes → N → Option Error × N) (close : N → N) where
  -- Behind `chromedp.Run`.
  unfoldable pub navigated : Option Error × N → Process N → Option Error × Process N
  navigated (failure, n) p =
      let q = happens chrome_launched (record p { session = record (p.session) { net = n } }) in
      elim failure [ none ↦ (none, q) | some e ↦ (some e, teardown close q) ]

  -- Behind `readSessionKey`.
  unfoldable pub key_read : Result Bytes → Process N → Option Error × Process N
  key_read (err e) p = (some (key_failure (some e)), p)
  key_read (ok key) p =
      let swept = sweep_profile_dir reparse_point p in
      if is_empty key
      then (some (key_failure none), p)
      else navigated (navigate key swept.session.net) (record swept { active = true })

  -- `openClaudeSession`
  unfoldable pub open_claude_session : Process N → Option Error × Process N
  unfolding key_read navigated
  open_claude_session p =
      let (key, secrets) = read_key p.secrets in key_read key (record p { secrets = secrets })
