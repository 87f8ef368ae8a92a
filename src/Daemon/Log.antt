-- ===== src/Daemon/Log.antt =====
-- daemon.go: `logf` and `setupFileLog`, and `chromedpLogf` (security.go). A write of a line to a sink
-- is taken whole, or refused.
use schroedinger_sync.Base.{
  ℕ, ◌≡◌, refl, Bool, true, false, inl, inr, Option, none, some, List, [], ◌∷◌, ◌++◌, if◌then◌else◌,
  all, Bytes, ascii, Bool-cases,
}
use mathlib.Core.List.{append-nil}
use schroedinger_sync.Text.Search.{has_prefix, contains}
use schroedinger_sync.Text.Search.Replace.{lacks}
use schroedinger_sync.Security.{redact}
use schroedinger_sync.Security.Redaction.{IsOpaque, registered, redact-lacks}
use schroedinger_sync.Security.Lines.{Clean, Clean-append, contains-Clean, redact-newline}

-- The sinks: what went to stdout, write by write, and the content of sync.log, if it is a sink; which
-- of the writes to stdout and to the file that are to come are refused.
pub record Log : Type 0 where
  pub printed : List Bytes
  pub sync_log : Option Bytes
  pub stdout_refuses : List Bool
  pub file_refuses : List Bool

abbrev pub refused : List Bool → Bool
refused [] = false
refused (b ∷ _) = b

abbrev behind : List Bool → List Bool
behind [] = []
behind (_ ∷ bs) = bs

-- `setupFileLog`, with what `MkdirAll` says and what the opened file holds, if it could be opened.
unfoldable pub setup_file_log : Bool → Option Bytes → Log → Log
setup_file_log made none l = l
setup_file_log made (some content) l = if made then record l { sync_log = some content } else l

append_file : Bytes → Option Bytes → Log → Log
append_file line none l = l
append_file line (some content) l = record l {
  sync_log = some (if refused l.file_refuses then content else content ++ line);
  file_refuses = behind l.file_refuses;
}

-- One `Write` of the sink: a `MultiWriter` stops at the first writer that fails.
unfoldable pub write_sink : Bytes → Log → Log
unfolding append_file
write_sink line l =
    let k = record l { stdout_refuses = behind l.stdout_refuses } in
    if refused l.stdout_refuses
    then k
    else append_file line k.sync_log (record k { printed = l.printed ++ (line ∷ []) })

module _ (secrets : List Bytes) where
  -- The text of an entry, at the time `now`.
  abbrev stamped : Bytes × Bytes → Bytes
  stamped (now, text) = ascii "[" ++ (now ++ (ascii "] " ++ text))

  -- `logf`
  unfoldable pub logf : Bytes × Bytes → Log → Log
  unfolding write_sink
  logf e l = write_sink (redact secrets (stamped e ++ ascii "\n")) l

  unfoldable pub log_all : List (Bytes × Bytes) → Log → Log
  log_all [] l = l
  log_all (e ∷ es) l = log_all es (logf e l)

  -- `chromedpLogf`: what goes to stderr.
  unfoldable pub chromedp_logf : Bytes → Bytes
  chromedp_logf text = redact secrets text ++ ascii "\n"

abbrev pub text_of : Option Bytes → Bytes
text_of none = []
text_of (some content) = content

-- A refusal of stdout keeps the line from the file too.
pub write_sink-refused :
    (line : Bytes) (l : Log)
    → refused l.stdout_refuses ≡ true
    → (write_sink line l).sync_log ≡ l.sync_log
unfolding write_sink
write_sink-refused line l h = rw h refl

module _ (secrets : List Bytes) (c : ℕ) (w : Bytes) (o : IsOpaque (c ∷ w))
    (nl : lacks (c ∷ w) b'\n' ≡ true) (known : registered secrets (c ∷ w) ≡ true)
    (ls : all (λ sec. lacks sec b'\n') secrets ≡ true) where
  abbrev pub CleanLog : Log → Type 0
  CleanLog l = Clean secrets c w (text_of l.sync_log)

  append_file-Clean :
      (line : Bytes) (old : Option Bytes) (l : Log)
      → contains line (c ∷ w) ≡ false
      → l.sync_log ≡ old
      → CleanLog l
      → CleanLog (append_file (line ++ b'\n' ∷ []) old l)
  unfolding append_file
  append_file-Clean line none l h e clean = clean
  append_file-Clean line (some content) l h e clean =
      let before : Clean secrets c w content = rw e at clean in
      elim (Bool-cases (refused l.file_refuses)) [
        | inl full ↦ rw full before
        | inr room ↦ rw room (Clean-append secrets c w content line nl h before)
      ]

  write_sink-Clean :
      (line : Bytes) (l : Log)
      → contains line (c ∷ w) ≡ false
      → CleanLog l
      → CleanLog (write_sink (line ++ b'\n' ∷ []) l)
  unfolding write_sink
  write_sink-Clean line l h clean = elim (Bool-cases (refused l.stdout_refuses)) [
    | inl broken ↦ rw broken clean
    | inr fine ↦ rw fine (append_file-Clean line l.sync_log _ h refl clean)
  ]

  logf-Clean : (e : Bytes × Bytes) (l : Log) → CleanLog l → CleanLog (logf secrets e l)
  unfolding logf
  logf-Clean e l clean =
      rw (redact-newline secrets (stamped secrets e) ls)
        (write_sink-Clean _ l (redact-lacks secrets (stamped secrets e) (c ∷ w) o known) clean)

  log_all-Clean :
      (es : List (Bytes × Bytes)) (l : Log) → CleanLog l → CleanLog (log_all secrets es l)
  unfolding log_all
  log_all-Clean [] l clean = clean
  log_all-Clean (e ∷ es) l clean = log_all-Clean es (logf secrets e l) (logf-Clean e l clean)

  -- A log file that is empty, or ends in a newline and is without the secret, stays without it, whatever
  -- is logged and whichever writes are refused. The registered secrets are without newlines, and the secret is one that
  -- the placeholder cannot bring back.
  pub sync_log-lacks :
      (es : List (Bytes × Bytes)) (l : Log)
      → CleanLog l
      → contains (text_of (log_all secrets es l).sync_log) (c ∷ w) ≡ false
  sync_log-lacks es l start = rw append-nil at (
      contains-Clean secrets c w (text_of (log_all secrets es l).sync_log) [] nl
        (unfold contains has_prefix in refl) (log_all-Clean es l start))
