-- ===== src/Tests/Reports.antt =====
-- The probe's report and the log, run.
use schroedinger_sync.Base.{
  ℕ, ◌+◌, ◌≡◌, inr, refl, true, false, Option, none, some, List, [], ◌∷◌, ◌==◌, if◌then◌else◌,
  Bytes, ascii, ◌=?◌,
}
use schroedinger_sync.Text.Search.{contains, has_prefix}
use schroedinger_sync.Result.{Error, Result, ok}
use schroedinger_sync.Fetch.InPage.{RawAnswer}
use schroedinger_sync.Process.{
  Process, Ending, returns, open_claude_session, happens, sweep_profile_dir,
}
use schroedinger_sync.Fetch.{
  resolve_org, get_with_retry, get_with_retry_delay, judge, attempt, is_rate_limited,
  looks_like_challenge, first_org,
}
use schroedinger_sync.Text.Runes.{trim_space}
use schroedinger_sync.Api.Decode.{organizations}
use schroedinger_sync.Probe.{tally_pages, tagged_page}
use schroedinger_sync.Process.Kept.{left}
use schroedinger_sync.Probe.Report.{w, w_all, summary_keys, probe_report, cdp_probe}
use schroedinger_sync.Probe.Report.Saved.{IsSpared, cdp_probe-IsSpared}
use schroedinger_sync.Daemon.Log.{Log, text_of, log_all, sync_log-lacks}
use schroedinger_sync.Tests.Server.{session, empty_disk}

-- A server that echoes the key in whatever it answers.
abbrev echoing : Bytes → ℕ → Result Bytes × ℕ
echoing path n =
    if n == 1 then (ok (ascii "[{\"uuid\":\"sk-ant-1\"}]"), 2) else (ok (ascii "[]"), n + 1)

abbrev echoing_head : Bytes → ℕ → Result RawAnswer × ℕ
echoing_head path n = (ok (record { status = 200; head = ascii "key sk-ant-1" }), n + 1)

abbrev key_of : List Bytes → Result Bytes × List Bytes
key_of secrets = (ok (ascii "sk-ant-1"), ascii "sk-ant-1" ∷ [])

abbrev quiet : Process ℕ
quiet = record { session = session; disk = empty_disk; secrets = []; active = false; events = [] }

abbrev error_text : Error → Bytes
error_text e = ascii "error"

abbrev probe : Option (Ending ℕ)
probe =
    cdp_probe error_text echoing echoing_head (λ n. n) key_of false (λ key n. (none, n + 1)) 2
      (ascii "now") quiet

abbrev or_quiet : Option (Ending ℕ) → Ending ℕ
or_quiet none = returns quiet
or_quiet (some x) = x

cdp_probe-IsSpared_example : IsSpared (ascii "sk-ant-1") empty_disk (left (or_quiet probe)).disk
unfolding contains has_prefix ◌=?◌ cdp_probe open_claude_session resolve_org get_with_retry
    get_with_retry_delay judge attempt happens sweep_profile_dir is_rate_limited
    looks_like_challenge trim_space first_org organizations probe_report tally_pages tagged_page w
    w_all summary_keys
cdp_probe-IsSpared_example =
    cdp_probe-IsSpared b's' (ascii "k-ant-1") error_text echoing echoing_head (λ n. n)
      (refl, refl, refl, refl) refl key_of false (λ key n. (none, n + 1)) 2 (ascii "now") quiet
      (or_quiet probe) refl refl

-- Stdout refuses the second entry.
abbrev log : Log
log = record {
  printed = [];
  sync_log = some (ascii "earlier\n");
  stdout_refuses = false ∷ true ∷ [];
  file_refuses = [];
}

abbrev entries : List (Bytes × Bytes)
entries = (ascii "t", ascii "key sk-ant-1") ∷ (ascii "u", ascii "sk-ant-1") ∷ []

sync_log-lacks_example :
    contains (text_of (log_all (ascii "sk-ant-1" ∷ []) entries log).sync_log) (ascii "sk-ant-1")
    ≡ false
unfolding contains has_prefix ◌=?◌
sync_log-lacks_example =
    sync_log-lacks (ascii "sk-ant-1" ∷ []) b's' (ascii "k-ant-1") (refl, refl, refl, refl) refl refl
      refl entries log (inr (ascii "earlier", refl, refl))
