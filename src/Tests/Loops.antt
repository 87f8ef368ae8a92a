-- ===== src/Tests/Loops.antt =====
-- The loops of the daemon and of the probe, run.
use schroedinger_sync.Base.{
  ℕ, ◌+◌, ◌<◌, ◌≤◌, ◌≡◌, refl, sym, ◌∙◌, ap, ltb, arith, true, false, Option, none, some, List, [],
  ◌∷◌, Bytes, ascii, length,
}
use schroedinger_sync.Json.Decode.{unmarshal, slice}
use schroedinger_sync.Text.Search.{contains, has_prefix}
use schroedinger_sync.Text.Runes.{trim_space}
use schroedinger_sync.Fetch.{
  Session, get_with_retry, get_with_retry_delay, judge, attempt, is_rate_limited,
  looks_like_challenge, page_limit,
}
use schroedinger_sync.Result.{ok, err}
use schroedinger_sync.Daemon.Decisions.{next_supervise_state}
use schroedinger_sync.Daemon.Decisions.Supervise.{idle}
use schroedinger_sync.Daemon.Cycle.{run_cycle}
use schroedinger_sync.Daemon.Cycle.Whole.{IsWhole}
use schroedinger_sync.Daemon.Cadence.Whole.{supervise-IsWhole}
use schroedinger_sync.Daemon.Cadence.{
  Pass, Loop, polled_pass, supervise, supervise_pass, is_due, after_cycle, passed,
  supervise_poll_interval,
}
use schroedinger_sync.Daemon.Cadence.Pace.{IsChain, supervise-spaced}
use schroedinger_sync.Daemon.Cadence.Prompt.{IsCurrent, supervise-prompt}
use schroedinger_sync.Probe.{Counts, tagged_page, tally_pages, no_counts}
use schroedinger_sync.Probe.Tally.{IsBalanced, tally_pages-IsBalanced}
use schroedinger_sync.Tests.Server.{answering, timing_out, no_hash, session, empty_disk}

abbrev standing : Loop ℕ
standing = record {
  session = session;
  disk = empty_disk;
  now = 1000;
  supervisor = idle;
  last_cycle = none;
  cycles = [];
}

-- Claude Desktop runs, so that the cycle only says so; it takes five nanoseconds.
abbrev pass : Pass
pass = record {
  poll = record { desktop = true; vscode = false };
  outside = record {
    desktop_running = true;
    cookie_mod = [];
    sync_time = [];
    memory_time = [];
    surfaces_time = [];
  };
  age = λ t. none;
  polled = 7;
  took = 5;
}

abbrev passes : List Pass
passes = pass ∷ pass ∷ pass ∷ []

abbrev standing_later : Option (Loop ℕ)
standing_later =
    supervise timing_out (λ n. (none, n)) (λ n. n) no_hash 1 25000000000 passes standing

abbrev or_standing : Option (Loop ℕ) → Loop ℕ
or_standing none = standing
or_standing (some y) = y

supervise-spaced_example : IsChain (λ e s. e + 25000000000 ≤ s) (or_standing standing_later).cycles
unfolding supervise supervise_pass polled_pass next_supervise_state is_due after_cycle passed
    run_cycle
supervise-spaced_example =
    supervise-spaced timing_out (λ n. (none, n)) (λ n. n) no_hash 1 25000000000 passes standing
      (or_standing standing_later) refl refl refl

supervise-prompt_example :
    IsChain
      (λ e s. s < e + 25000000000 + supervise_poll_interval + 9)
      (or_standing standing_later).cycles
    × IsCurrent
        (25000000000 + supervise_poll_interval)
        standing.now
        (or_standing standing_later).now
        (or_standing standing_later).cycles
unfolding supervise supervise_pass polled_pass next_supervise_state is_due after_cycle passed
    run_cycle
supervise-prompt_example =
    supervise-prompt timing_out (λ n. (none, n)) (λ n. n) no_hash 1 25000000000 9 (omega arith)
      passes standing (or_standing standing_later) refl refl refl refl

-- Two cycles run in the three passes.
two_cycles : length (or_standing standing_later).cycles ≡ 2
unfolding supervise supervise_pass polled_pass next_supervise_state is_due after_cycle passed
    run_cycle
two_cycles = refl

-- One conversation in all.
abbrev tagged : Bytes
tagged = ascii "[{\"model\":\"m\",\"project_uuid\":\"p\"}]"

tally_pages-IsBalanced_example :
    (u : Counts) × (τ : Session ℕ) × (tally_pages
        (answering tagged)
        1
        (ascii "o")
        0
        no_counts
        session
      ≡ some (u, τ))
    × IsBalanced u
unfolding get_with_retry get_with_retry_delay judge attempt is_rate_limited looks_like_challenge
    contains has_prefix trim_space tagged_page unmarshal slice
tally_pages-IsBalanced_example =
    tally_pages-IsBalanced (answering tagged) (ascii "o") 0
      (λ σ body page a e.
        let same : tagged ≡ body = ap (λ r. elim r [ ok t ↦ t | err _ ↦ [] ]) a in
        let parsed : tagged_page tagged ≡ some page = ap tagged_page same ∙ e in
        ap (λ p. ltb (length p) page_limit)
          (sym (ap (λ o. elim o [ some p ↦ p | none ↦ [] ]) parsed)))
      session

supervise-IsWhole_example : IsWhole standing.disk (or_standing standing_later).disk
unfolding supervise supervise_pass polled_pass next_supervise_state is_due after_cycle passed
    run_cycle
supervise-IsWhole_example =
    supervise-IsWhole timing_out (λ n. (none, n)) (λ n. n) no_hash 1 25000000000 passes standing
      (or_standing standing_later) refl
