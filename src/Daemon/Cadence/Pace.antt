-- ===== src/Daemon/Cadence/Pace.antt =====
-- How far the cycles of the supervisor lie apart.
use mathlib.Core.Path.{subst}
use schroedinger_sync.Base.{
  ℕ, ◌+◌, ◌-◌, ◌≤◌, ◌<◌, ◌≡◌, refl, arith, Bool, true, false, ◌&&◌, Option, none, some, List, [],
  ◌∷◌, leb→le, ap, all, Bytes, Bool-cases, inl, inr,
}
use schroedinger_sync.Result.{Error, Result}
use schroedinger_sync.Fetch.{Session}
use schroedinger_sync.Disk.{Disk}
use schroedinger_sync.Daemon.Decisions.{Supervisor, next_supervise_state}
use schroedinger_sync.Daemon.Decisions.Supervise.{up}
use schroedinger_sync.Daemon.Cycle.{Status}
use schroedinger_sync.Daemon.Cadence.{
  Pass, Loop, is_due, after_cycle, passed, polled_pass, supervise_pass, supervise,
  supervise_poll_interval,
}

-- The cycles, the last one first, each in the relation `R` to the next: the end of the one, and the
-- start of the other.
abbrev pub IsChain : (ℕ → ℕ → Type 0) → List (ℕ × ℕ) → Type 0
IsChain R [] = Unit
IsChain R ((s, e) ∷ []) = Unit
IsChain R ((s, e) ∷ (s', e') ∷ earlier) = R e' s × IsChain R ((s', e') ∷ earlier)

-- `lastCycle` is the end of the last cycle; `P` says how the clock stands to it.
abbrev pub IsRecorded : (ℕ → ℕ → Type 0) → ℕ → Option ℕ → List (ℕ × ℕ) → Type 0
IsRecorded P now none [] = Unit
IsRecorded P now none (c ∷ _) = ⊥
IsRecorded P now (some last) [] = ⊥
IsRecorded P now (some last) ((s, e) ∷ _) = (last ≡ e) × P e now

-- The loop, if it goes on.
abbrev pub Holds : {N : Type 0} → (Loop N → Type 0) → Option (Loop N) → Type 0
Holds P none = Unit
Holds P (some y) = P y

IsRecorded-map :
    (S T : ℕ → ℕ → Type 0) (now later : ℕ) (last : Option ℕ) (cycles : List (ℕ × ℕ))
    → ((e : ℕ) → last ≡ some e → S e now → T e later)
    → IsRecorded S now last cycles
    → IsRecorded T later last cycles
IsRecorded-map S T now later none [] f h = tt
IsRecorded-map S T now later none (x ∷ xs) f h = h
IsRecorded-map S T now later (some last) [] f h = h
IsRecorded-map S T now later (some last) ((s, e) ∷ xs) f (same, h) = (same, f e (ap some same) h)

abbrev pub IsPaced : (R P : ℕ → ℕ → Type 0) {N : Type 0} → Loop N → Type 0
IsPaced R P y = IsChain R y.cycles × IsRecorded P y.now y.last_cycle y.cycles

-- `P` holds of the clock before a poll, and `Q` behind it.
module _ (R P Q : ℕ → ℕ → Type 0) where
  IsChain-cons :
      (interval now took : ℕ) (last : Option ℕ) (cycles : List (ℕ × ℕ))
      → ((e : ℕ) → Q e now → interval ≤ now - e → R e now)
      → IsChain R cycles
      → IsRecorded Q now last cycles
      → is_due interval last now ≡ true
      → IsChain R ((now, now + took) ∷ cycles)
  unfolding is_due
  IsChain-cons interval now took none [] f c h d = tt
  IsChain-cons interval now took none (x ∷ xs) f c h d = absurd h
  IsChain-cons interval now took (some last) [] f c h d = absurd h
  IsChain-cons interval now took (some last) ((s, e) ∷ xs) f c (same, h) d =
      (f e h (leb→le interval (now - e) (rw same at d)), c)

  module _ {N : Type 0} (get : Bytes → N → Result Bytes × N) (open_session : N → Option Error × N)
      (close_session : N → N) (hash_content : Bytes → Bytes) (fuel interval : ℕ)
      (started : (e now : ℕ) → Q e now → interval ≤ now - e → R e now)
      (slept : (e : ℕ) → P e (e + supervise_poll_interval)) where
    cycled-IsPaced :
        (s : Supervisor) (p : Pass) (y : Loop N) (o : Option (Status × (Session N × Disk)))
        → IsPaced R Q y
        → is_due interval y.last_cycle y.now ≡ true
        → Holds (IsPaced R P) (passed supervise_poll_interval (after_cycle s p y o))
    unfolding passed after_cycle
    cycled-IsPaced s p y none h d = tt
    cycled-IsPaced s p y (some (status, (σ, d'))) (c, h) d = (
      IsChain-cons interval y.now p.took y.last_cycle y.cycles (λ e. started e y.now) c h d,
      (refl, slept (y.now + p.took)),
    )

    polled_pass-IsPaced :
        (p : Pass) (y : Loop N)
        → IsPaced R Q y
        → ((next_supervise_state p.poll.desktop p.poll.vscode y.supervisor).active
                && is_due interval y.last_cycle y.now
              ≡ false
            → (e : ℕ) → y.last_cycle ≡ some e
            → Q e y.now
            → P e (y.now + supervise_poll_interval))
        → Holds
            (IsPaced R P)
            (polled_pass get open_session close_session hash_content fuel interval p y)
    unfolding polled_pass passed
    polled_pass-IsPaced p y (c, h) idle =
        elim (Bool-cases (
          (next_supervise_state p.poll.desktop p.poll.vscode y.supervisor).active
          && is_due interval y.last_cycle y.now)) [
            | inl due ↦ rw due (cycled-IsPaced _ p y _ (c, h) (ground arith))
            | inr early ↦
                rw early (c, IsRecorded-map Q P y.now _ y.last_cycle y.cycles (idle early) h)
          ]

    -- A pass whose poll takes the clock from `P` to `Q`.
    pub supervise_pass-IsPaced :
        (p : Pass) (y : Loop N)
        → IsPaced R P y
        → ((e : ℕ) → P e y.now → Q e (y.now + p.polled))
        → ((next_supervise_state p.poll.desktop p.poll.vscode y.supervisor).active
                && is_due interval y.last_cycle (y.now + p.polled)
              ≡ false
            → (e : ℕ) → y.last_cycle ≡ some e
            → Q e (y.now + p.polled)
            → P e (y.now + p.polled + supervise_poll_interval))
        → Holds
            (IsPaced R P)
            (supervise_pass get open_session close_session hash_content fuel interval p y)
    unfolding supervise_pass
    supervise_pass-IsPaced p y (c, h) polling idle =
        polled_pass-IsPaced p (record y { now = y.now + p.polled })
          (
            c,
            IsRecorded-map P Q y.now (y.now + p.polled) y.last_cycle y.cycles (λ e _. polling e) h,
          )
          idle

-- A pass with a process that runs no cycle comes too early for one.
pub is_due_early :
    {N : Type 0} (interval : ℕ) (p : Pass) (y : Loop N) (now e : ℕ)
    → up p.poll ≡ true
    → (next_supervise_state p.poll.desktop p.poll.vscode y.supervisor).active
        && is_due interval y.last_cycle now
      ≡ false
    → y.last_cycle ≡ some e
    → now < e + interval
unfolding next_supervise_state is_due
is_due_early interval p y now e found early same = ground arith

module _ {N : Type 0} (get : Bytes → N → Result Bytes × N) (open_session : N → Option Error × N)
    (close_session : N → N) (hash_content : Bytes → Bytes) (fuel interval : ℕ) where
  -- What every pass keeps, the passes keep.
  pub supervise-Holds :
      (I : Loop N → Type 0) (Q : Pass → Bool)
      → ((p : Pass) (y : Loop N)
          → Q p ≡ true
          → I y
          → Holds I (supervise_pass get open_session close_session hash_content fuel interval p y))
      → (ps : List Pass) (y : Loop N) → all Q ps ≡ true
      → I y
      → Holds I (supervise get open_session close_session hash_content fuel interval ps y)
  unfolding supervise
  supervise-Holds I Q keep [] y h i = i
  supervise-Holds I Q keep (p ∷ ps) y h i =
      next (supervise_pass get open_session close_session hash_content fuel interval p y)
        (keep p y (ground arith) i) (supervise-Holds I Q keep ps)
    where
      next :
          (o : Option (Loop N))
          → Holds I o
          → ((z : Loop N)
              → all Q ps ≡ true
              → I z
              → Holds I (supervise get open_session close_session hash_content fuel interval ps z))
          → Holds I (elim o as (λ _. Option (Loop N)) [
            | none ↦ none
            | some z ↦ supervise get open_session close_session hash_content fuel interval ps z
          ])
      next none i rest = tt
      next (some z) i rest = rest z (ground arith) i

  pub Holds_some :
      (I : Loop N → Type 0) (o : Option (Loop N)) (z : Loop N) → o ≡ some z → Holds I o → I z
  Holds_some I o z e h = subst (Holds I) e h

  all-true : (ps : List Pass) → all (λ _. true) ps ≡ true
  all-true [] = refl
  all-true (p ∷ ps) = all-true ps

  -- Over passes from the start of the loop, as long as no listing runs out of fuel, and whatever the
  -- polls find: between the end of a cycle and the start of the next one lies the interval at least.
  pub supervise-spaced :
      (ps : List Pass) (y z : Loop N)
      → y.cycles ≡ []
      → y.last_cycle ≡ none
      → supervise get open_session close_session hash_content fuel interval ps y ≡ some z
      → IsChain (λ e s. e + interval ≤ s) z.cycles
  supervise-spaced ps y z fresh never h =
      let R : ℕ → ℕ → Type 0 = λ e s. e + interval ≤ s in
      let P : ℕ → ℕ → Type 0 = λ e now. e ≤ now in
      (Holds_some (IsPaced R P) _ z h (
        supervise-Holds (IsPaced R P) (λ _. true)
          (λ p y _ i.
            supervise_pass-IsPaced R P P get open_session close_session hash_content fuel interval
              (λ e now l d. omega arith) (λ e. omega arith) p y i (λ e l. omega arith)
              (λ _ e _ l. omega arith))
          ps y (all-true ps) (rw (fresh, never) (tt, tt)))).0
