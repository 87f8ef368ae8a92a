-- ===== src/Daemon/Cadence/Prompt.antt =====
-- How soon the supervisor runs its cycles.
use schroedinger_sync.Base.{
  ℕ, ◌+◌, ◌≤◌, ◌<◌, ◌≡◌, refl, arith, Bool, true, false, ◌&&◌, Option, none, some, List, [], ◌∷◌,
  leb, leb→le, all, Bytes, Bool-cases, inl, inr,
}
use schroedinger_sync.Result.{Error, Result}
use schroedinger_sync.Fetch.{Session}
use schroedinger_sync.Disk.{Disk}
use schroedinger_sync.Daemon.Decisions.{Supervisor, next_supervise_state}
use schroedinger_sync.Daemon.Decisions.Supervise.{up}
use schroedinger_sync.Daemon.Cycle.{Status}
use schroedinger_sync.Daemon.Cadence.{
  Pass, Loop, is_due, after_cycle, passed, polled_pass, supervise_pass, supervise,
  supervise_poll_interval,
}
use schroedinger_sync.Daemon.Cadence.Pace.{
  IsChain, IsRecorded, Holds, IsPaced, supervise_pass-IsPaced, is_due_early, supervise-Holds,
  Holds_some,
}

-- How long ago the last cycle ended: less than `limit` before `now`. If there was none, the clock
-- stands where the loop started.
abbrev pub IsCurrent : ℕ → ℕ → ℕ → List (ℕ × ℕ) → Type 0
IsCurrent limit start now [] = now ≡ start
IsCurrent limit start now ((s, e) ∷ _) = now < e + limit

-- The first cycle is run in the first pass.
abbrev IsBegun : ℕ → ℕ → List (ℕ × ℕ) → Type 0
IsBegun start now [] = now ≡ start
IsBegun start now (_ ∷ _) = Unit

IsCurrent-IsBegun :
    (limit start now : ℕ) (last : Option ℕ) (cycles : List (ℕ × ℕ))
    → IsRecorded (λ e n. n < e + limit) now last cycles
    → IsBegun start now cycles
    → IsCurrent limit start now cycles
IsCurrent-IsBegun limit start now last [] h b = b
IsCurrent-IsBegun limit start now none ((s, e) ∷ cs) h b = absurd h
IsCurrent-IsBegun limit start now (some last) ((s, e) ∷ cs) (same, h) b = h

-- A pass that runs no cycle while the supervisor is active is not the first one.
is_due-IsBegun :
    (P : ℕ → ℕ → Type 0) (start interval now before later : ℕ) (active : Bool) (last : Option ℕ)
    (cycles : List (ℕ × ℕ))
    → active ≡ true
    → active && is_due interval last now ≡ false
    → IsRecorded P before last cycles
    → IsBegun start later cycles
unfolding is_due
is_due-IsBegun P start interval now before later active none [] a early h = absurd (ground arith)
is_due-IsBegun P start interval now before later active (some last) [] a early h = absurd h
is_due-IsBegun P start interval now before later active last (c ∷ cs) a early h = tt

active-up :
    (p : Pass) (s : Supervisor)
    → up p.poll ≡ true
    → (next_supervise_state p.poll.desktop p.poll.vscode s).active ≡ true
unfolding next_supervise_state
active-up p s h = ground arith

module _ {N : Type 0} (get : Bytes → N → Result Bytes × N) (open_session : N → Option Error × N)
    (close_session : N → N) (hash_content : Bytes → Bytes) (fuel interval : ℕ) where
  cycled-IsBegun :
      (start : ℕ) (s : Supervisor) (p : Pass) (y : Loop N)
      (o : Option (Status × (Session N × Disk)))
      → Holds
          (λ z. IsBegun start z.now z.cycles)
          (passed supervise_poll_interval (after_cycle s p y o))
  unfolding passed after_cycle
  cycled-IsBegun start s p y none = tt
  cycled-IsBegun start s p y (some (status, (σ, d))) = tt

  supervise_pass-IsBegun :
      (P : ℕ → ℕ → Type 0) (start : ℕ) (p : Pass) (y : Loop N)
      → up p.poll ≡ true
      → IsRecorded P y.now y.last_cycle y.cycles
      → Holds
          (λ z. IsBegun start z.now z.cycles)
          (supervise_pass get open_session close_session hash_content fuel interval p y)
  unfolding supervise_pass polled_pass
  supervise_pass-IsBegun P start p y found h =
      elim (Bool-cases (
        (next_supervise_state p.poll.desktop p.poll.vscode y.supervisor).active
        && is_due interval y.last_cycle (y.now + p.polled))) [
          | inl due ↦ rw due (cycled-IsBegun start _ p _ _)
          | inr early ↦ rw early (
              unfold passed in
              is_due-IsBegun P start interval (y.now + p.polled) y.now _ _ y.last_cycle y.cycles
                (active-up p y.supervisor found) early h)
        ]

  both :
      (I J : Loop N → Type 0) (o : Option (Loop N))
      → Holds I o
      → Holds J o
      → Holds (λ z. I z × J z) o
  both I J none i j = tt
  both I J (some z) i j = (i, j)

  -- A pass with a quick poll that finds a process.
  step :
      (slow : ℕ)
      → 0 < interval
      → (p : Pass) (y : Loop N) → up p.poll && leb p.polled slow ≡ true
      → IsPaced
          (λ e s. s < e + interval + supervise_poll_interval + slow)
          (λ e now. now < e + (interval + supervise_poll_interval))
          y
      → Holds
          (IsPaced
            (λ e s. s < e + interval + supervise_poll_interval + slow)
            (λ e now. now < e + (interval + supervise_poll_interval)))
          (supervise_pass get open_session close_session hash_content fuel interval p y)
  step slow positive p y found i =
      let Q : ℕ → ℕ → Type 0 = λ e now. now < e + interval + supervise_poll_interval + slow in
      let P : ℕ → ℕ → Type 0 = λ e now. now < e + (interval + supervise_poll_interval) in
      let quick : p.polled ≤ slow = leb→le p.polled slow (ground arith) in
      supervise_pass-IsPaced Q P Q get open_session close_session hash_content fuel interval
        (λ e now l d. l) (λ e. omega arith) p y i (λ e l. omega arith)
        (λ early e same l.
          let soon : y.now + p.polled < e + interval =
            is_due_early interval p y (y.now + p.polled) e (ground arith) early same in
          omega arith)

  -- With an interval above zero, over passes from the start of the loop whose polls take `slow` at
  -- most and all find a process, and as long as no listing runs out of fuel: the first pass runs a
  -- cycle, and from then on the last cycle has ended less than the interval and the pause before any
  -- time at which the loop comes to rest; the next cycle starts less than the interval, the pause and
  -- a poll after the end of the last one.
  pub supervise-prompt :
      (slow : ℕ)
      → 0 < interval
      → (ps : List Pass) (y z : Loop N) → y.cycles ≡ []
      → y.last_cycle ≡ none
      → all (λ p. up p.poll && leb p.polled slow) ps ≡ true
      → supervise get open_session close_session hash_content fuel interval ps y ≡ some z
      → IsChain (λ e s. s < e + interval + supervise_poll_interval + slow) z.cycles
        × IsCurrent (interval + supervise_poll_interval) y.now z.now z.cycles
  supervise-prompt slow positive ps y z fresh never busy h =
      let Q : ℕ → ℕ → Type 0 = λ e now. now < e + interval + supervise_poll_interval + slow in
      let P : ℕ → ℕ → Type 0 = λ e now. now < e + (interval + supervise_poll_interval) in
      let I : Loop N → Type 0 = λ x. IsPaced Q P x × IsBegun y.now x.now x.cycles in
      let (paced, begun) : I z =
        Holds_some get open_session close_session hash_content fuel interval I _ z h (
          supervise-Holds get open_session close_session hash_content fuel interval I
            (λ p. up p.poll && leb p.polled slow)
            (λ p x found (i, b).
              both (IsPaced Q P) (λ u. IsBegun y.now u.now u.cycles) _
                (step slow positive p x found i)
                (supervise_pass-IsBegun P y.now p x (ground arith) i.1))
            ps y busy (rw (fresh, never) ((tt, tt), refl))) in
      (
        paced.0,
        IsCurrent-IsBegun (interval + supervise_poll_interval) y.now z.now z.last_cycle z.cycles
            paced.1 begun,
      )
