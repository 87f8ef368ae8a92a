-- ===== src/Daemon/Cadence/Whole.antt =====
-- The state file over the whole life of a daemon.
use schroedinger_sync.Base.{
  ℕ, ◌+◌, ◌≡◌, refl, Bool, true, false, Option, none, some, List, [], ◌∷◌, if◌then◌else◌, Bytes,
  inl,
}
use schroedinger_sync.Result.{Error, Result}
use schroedinger_sync.Fetch.{Session}
use schroedinger_sync.Disk.{Disk}
use schroedinger_sync.Daemon.Decisions.{Supervisor, next_supervise_state}
use schroedinger_sync.Daemon.Cycle.{Status, run_cycle}
use schroedinger_sync.Daemon.Cycle.Whole.{IsWhole, IsWhole-trans, run_cycle-IsWhole}
use schroedinger_sync.Daemon.Cadence.{
  Pass, Loop, after_cycle, passed, watch_pass, watch, polled_pass, supervise_pass, supervise,
  supervise_poll_interval,
}

module _ {N : Type 0} (get : Bytes → N → Result Bytes × N) (open_session : N → Option Error × N)
    (close_session : N → N) (hash_content : Bytes → Bytes) (fuel interval : ℕ) where
  -- What holds of the loop behind a part of a pass that ends.
  abbrev Ends : Disk → Option (Loop N) → Type 0
  Ends d none = Unit
  Ends d (some z) = IsWhole d z.disk

  Ends-some :
      (d : Disk) (z : Loop N) (o : Option (Loop N)) → o ≡ some z → Ends d o → IsWhole d z.disk
  Ends-some d z o e h = rw e at h

  passed-Ends : (d : Disk) (pause : ℕ) (o : Option (Loop N)) → Ends d o → Ends d (passed pause o)
  unfolding passed
  passed-Ends d pause none h = tt
  passed-Ends d pause (some y) h = h

  after_cycle-Ends :
      (s : Supervisor) (p : Pass) (y : Loop N)
      → Ends y.disk (
          after_cycle s p y (
            run_cycle get open_session close_session hash_content fuel p.age p.outside y.session
              y.disk))
  unfolding after_cycle
  after_cycle-Ends s p y =
      cases
        (run_cycle get open_session close_session hash_content fuel p.age p.outside y.session
          y.disk)
        (λ status τ e h.
          run_cycle-IsWhole get open_session close_session hash_content fuel p.age p.outside
            y.session τ y.disk e status h)
    where
      cases :
          (r : Option (Status × (Session N × Disk)))
          → ((status : Status) (τ : Session N) (e : Disk)
              → r ≡ some (status, (τ, e))
              → IsWhole y.disk e)
          → Ends y.disk (after_cycle s p y r)
      cases none h = tt
      cases (some (status, (τ, e))) h = h status τ e refl

  watch_pass-Ends :
      (p : Pass) (y : Loop N)
      → Ends y.disk (watch_pass get open_session close_session hash_content fuel interval p y)
  unfolding watch_pass
  watch_pass-Ends p y = passed-Ends y.disk interval _ (after_cycle-Ends y.supervisor p y)

  supervise_pass-Ends :
      (p : Pass) (y : Loop N)
      → Ends y.disk (supervise_pass get open_session close_session hash_content fuel interval p y)
  unfolding supervise_pass polled_pass
  supervise_pass-Ends p y =
      passed-Ends y.disk supervise_poll_interval _ (choice _ _ _ (after_cycle-Ends s p z))
    where
      z : Loop N
      z = record y { now = y.now + p.polled }

      s : Supervisor
      s = next_supervise_state p.poll.desktop p.poll.vscode y.supervisor

      choice :
          (b : Bool) (o : Option (Loop N)) (u : Supervisor)
          → Ends y.disk o
          → Ends y.disk (if b then o else some (record z { supervisor = u }))
      choice true o u h = h
      choice false o u h = inl refl

  -- A loop of such passes.
  rounds :
      (d : Disk) (o : Option (Loop N)) (rest : Loop N → Option (Loop N))
      → Ends d o
      → ((z : Loop N) → Ends z.disk (rest z))
      → Ends d (elim o [ none ↦ none | some z ↦ rest z ])
  rounds d none rest h later = tt
  rounds d (some z) rest h later = behind (rest z) (later z)
    where
      behind : (q : Option (Loop N)) → Ends z.disk q → Ends d q
      behind none k = tt
      behind (some x) k = IsWhole-trans d z.disk x.disk h k

  watch-Ends :
      (ps : List Pass) (y : Loop N)
      → Ends y.disk (watch get open_session close_session hash_content fuel interval ps y)
  unfolding watch
  watch-Ends [] y = inl refl
  watch-Ends (p ∷ ps) y = rounds y.disk _ _ (watch_pass-Ends p y) (λ z. watch-Ends ps z)

  supervise-Ends :
      (ps : List Pass) (y : Loop N)
      → Ends y.disk (supervise get open_session close_session hash_content fuel interval ps y)
  unfolding supervise
  supervise-Ends [] y = inl refl
  supervise-Ends (p ∷ ps) y = rounds y.disk _ _ (supervise_pass-Ends p y) (λ z. supervise-Ends ps z)

  -- However many passes `watch` makes, the state file behind them is the one of the start, or the
  -- whole text of a state, whatever the server and the disk answer.
  pub watch-IsWhole :
      (ps : List Pass) (y z : Loop N)
      → watch get open_session close_session hash_content fuel interval ps y ≡ some z
      → IsWhole y.disk z.disk
  watch-IsWhole ps y z e = Ends-some y.disk z _ e (watch-Ends ps y)

  -- However many passes the supervisor makes, the state file behind them is the one of the start, or
  -- the whole text of a state, whatever the polls find and whatever the server and the disk answer.
  pub supervise-IsWhole :
      (ps : List Pass) (y z : Loop N)
      → supervise get open_session close_session hash_content fuel interval ps y ≡ some z
      → IsWhole y.disk z.disk
  supervise-IsWhole ps y z e = Ends-some y.disk z _ e (supervise-Ends ps y)
