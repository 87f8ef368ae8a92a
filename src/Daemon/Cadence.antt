-- ===== src/Daemon/Cadence.antt =====
-- daemon.go: `parseWatchArgs`, and the loops `watchLoop` and `superviseLoop` by their passes.
pub mod Pace
pub mod Prompt
pub mod Whole
use schroedinger_sync.Base.{
  ℕ, ◌+◌, ◌-◌, ◌*◌, Bool, true, false, not, ◌&&◌, ◌||◌, Option, none, some, List, [], ◌∷◌, ◌++◌,
  ltb, leb, if◌then◌else◌, is_empty, Bytes, ascii,
}
use schroedinger_sync.Result.{Error, Result}
use schroedinger_sync.Fetch.{Session}
use schroedinger_sync.Disk.{Disk}
use schroedinger_sync.Daemon.Decisions.{Supervisor, next_supervise_state}
use schroedinger_sync.Daemon.Decisions.Supervise.{Poll}
use schroedinger_sync.Daemon.Cycle.{Status, Outside, run_cycle}

-- `defaultInterval` and `supervisePollInterval` in nanoseconds
abbrev pub default_interval : ℕ
default_interval = 30 * 60 * 1000000000

abbrev pub supervise_poll_interval : ℕ
supervise_poll_interval = 20 * 1000000000

positive : Option ℕ → ℕ
positive none = default_interval
positive (some ms) = if ltb 0 ms then ms else default_interval

-- `parseWatchArgs` on what follows the command. `parse_duration` is `time.ParseDuration` in
-- nanoseconds, `none` for an error or a negative duration.
unfoldable pub parse_watch_args : (Bytes → Option ℕ) → Bytes → List Bytes → Bytes × ℕ
unfolding positive
parse_watch_args parse_duration default_dir [] = (default_dir, default_interval)
parse_watch_args parse_duration default_dir (dir ∷ []) =
    (if is_empty dir then default_dir else dir, default_interval)
parse_watch_args parse_duration default_dir (dir ∷ minutes ∷ _) =
    (if is_empty dir then default_dir else dir, positive (parse_duration (minutes ++ ascii "m")))

-- What the outside does in one pass of a loop: what the poll finds, what the cycle meets if one is
-- run, and how many nanoseconds the poll and the cycle take.
pub record Pass : Type 0 where
  pub poll : Poll
  pub outside : Outside
  pub age : Bytes → Option ℕ
  pub polled : ℕ
  pub took : ℕ

-- The variables of a loop, the clock in nanoseconds, and the cycles so far by their start and end,
-- the last one first. The clock moves in polls, cycles and pauses.
pub record Loop (N : Type 0) : Type 0 where
  pub session : Session N
  pub disk : Disk
  pub now : ℕ
  pub supervisor : Supervisor
  pub last_cycle : Option ℕ
  pub cycles : List (ℕ × ℕ)

-- `lastCycle.IsZero() || time.Since(lastCycle) >= interval`
unfoldable pub is_due : ℕ → Option ℕ → ℕ → Bool
is_due interval none now = true
is_due interval (some last) now = leb interval (now - last)

module _ {N : Type 0} where
  -- Behind a cycle; `none` says that its listing ran out of fuel.
  unfoldable pub after_cycle :
      Supervisor → Pass → Loop N → Option (Status × (Session N × Disk)) → Option (Loop N)
  after_cycle s p y none = none
  after_cycle s p y (some (status, (σ, d))) = some (record {
    session = σ;
    disk = d;
    now = y.now + p.took;
    supervisor = s;
    last_cycle = some (y.now + p.took);
    cycles = (y.now, y.now + p.took) ∷ y.cycles;
  })

  unfoldable pub passed : ℕ → Option (Loop N) → Option (Loop N)
  passed pause none = none
  passed pause (some y) = some (record y { now = y.now + pause })

module _ {N : Type 0} (get : Bytes → N → Result Bytes × N) (open_session : N → Option Error × N)
    (close_session : N → N) (hash_content : Bytes → Bytes) (fuel interval : ℕ) where
  -- A pass of `watchLoop`.
  unfoldable pub watch_pass : Pass → Loop N → Option (Loop N)
  watch_pass p y = passed interval (
      after_cycle y.supervisor p y (
        run_cycle get open_session close_session hash_content fuel p.age p.outside y.session
          y.disk))

  -- `watchLoop` behind its preparations: the passes, the first one first.
  unfoldable pub watch : List Pass → Loop N → Option (Loop N)
  unfolding watch_pass
  watch [] y = some y
  watch (p ∷ ps) y = elim (watch_pass p y) [ none ↦ none | some z ↦ watch ps z ]

  -- A pass of `superviseLoop` behind the poll.
  unfoldable pub polled_pass : Pass → Loop N → Option (Loop N)
  polled_pass p y =
      let s = next_supervise_state p.poll.desktop p.poll.vscode y.supervisor in
      let cycled = after_cycle s p y (
        run_cycle get open_session close_session hash_content fuel p.age p.outside y.session
          y.disk) in
      passed supervise_poll_interval (
        if s.active && is_due interval y.last_cycle y.now
        then cycled
        else some (record y { supervisor = s }))

  -- A pass of `superviseLoop`.
  unfoldable pub supervise_pass : Pass → Loop N → Option (Loop N)
  unfolding polled_pass
  supervise_pass p y = polled_pass p (record y { now = y.now + p.polled })

  -- The passes, the first one first.
  unfoldable pub supervise : List Pass → Loop N → Option (Loop N)
  supervise [] y = some y
  supervise (p ∷ ps) y = elim (supervise_pass p y) [ none ↦ none | some z ↦ supervise ps z ]
