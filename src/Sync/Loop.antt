-- ===== src/Sync/Loop.antt =====
-- daemon.go: what a pass of `syncConversations` does to its counters, to the state and to the disk.
use schroedinger_sync.Base.{
  ℕ, ◌+◌, ◌≤◌, ◌≡◌, refl, sym, ◌∙◌, ap, inl, inr, arith, Bool, true, Option, none, some, List, [],
  ◌∷◌, if◌then◌else◌, length, is_empty, Bytes, ◌=?◌, =?_iff, Bool-cases,
}
use schroedinger_sync.Base.Map.{lookup, lookup-insert}
use schroedinger_sync.Result.{Error, is_deadline, Result, ok, err}
use schroedinger_sync.Api.{ConvSummary}
use schroedinger_sync.Names.{conv_filename}
use schroedinger_sync.Markdown.{conv_to_markdown}
use schroedinger_sync.Disk.{Disk}
use schroedinger_sync.Integrity.{write_markdown}
use schroedinger_sync.Daemon.Decisions.{
  ConvActionKind, action_fetch, action_skip, action_seed, conv_action,
}
use schroedinger_sync.Sync.{
  Sync, entry, remember, failed, count_progress, Step, next, abort, written, fetched, fetch_one,
  act, decide, sync_one, sync_conversations,
}

-- The work that the counters account for.
abbrev pub tally : {N : Type 0} → Sync N → ℕ
tally y = y.new_n + y.changed_n + y.seed_n + y.err_n

-- What the loop works with behind a step, however the step ends.
abbrev pub after : {N : Type 0} → Step N → Sync N
after (next z) = z
after (abort e z) = z

-- What the state holds of a conversation behind a pass in which nothing failed.
abbrev pub recorded : List ConvSummary → Bytes → Option Bytes → Option Bytes
recorded [] k old = old
recorded (c ∷ cs) k old = recorded cs k (if c.uuid =? k then some c.updated_at else old)

module _ {N : Type 0} where
  -- One step's work, its errors, and what it remembers if none was counted; only a deadline breaks
  -- the loop off, and then nothing is counted.
  abbrev pub Counted : ConvSummary → Sync N → Step N → Type 0
  Counted c y (next z) =
      (tally z ≤ tally y + 1)
      × (y.err_n ≤ z.err_n)
      × ((k : Bytes)
          → z.err_n ≡ y.err_n
          → lookup k z.state.conversations
            ≡ (if c.uuid =? k then some c.updated_at else lookup k y.state.conversations))
  Counted c y (abort e z) = (is_deadline e ≡ true) × (tally z ≡ tally y) × (z.err_n ≡ y.err_n)

  tally-count_progress :
      (c : ConvSummary) (known : Option Bytes) (y : Sync N)
      → (tally (count_progress c known y) ≤ tally y + 1)
        × ((count_progress c known y).err_n ≡ y.err_n)
  unfolding count_progress
  tally-count_progress c none y = (omega arith, refl)
  tally-count_progress c (some known) y = ground arith

  settled :
      (c : ConvSummary) (y : Sync N) (k : Bytes)
      → entry c y ≡ some c.updated_at
      → lookup k y.state.conversations
        ≡ (if c.uuid =? k then some c.updated_at else lookup k y.state.conversations)
  unfolding entry
  settled c y k known = elim (Bool-cases (c.uuid =? k)) [
    | inl same ↦
        rw same (ap (λ j. lookup j y.state.conversations) (sym ((=?_iff c.uuid k).0 same)) ∙ known)
    | inr other ↦ rw other refl
  ]

  pub count_progress-others :
      (c : ConvSummary) (known : Option Bytes) (y : Sync N)
      → ((count_progress c known y).state ≡ y.state) × ((count_progress c known y).disk ≡ y.disk)
  unfolding count_progress
  count_progress-others c none y = (refl, refl)
  count_progress-others c (some known) y = ground arith

conv_action-known :
    (c : ConvSummary) (known : Option Bytes) (file_ok : Bool) (file_updated : Bytes)
    → conv_action c known file_ok file_updated ≡ action_skip
    → known ≡ some c.updated_at
unfolding conv_action
conv_action-known c none file_ok file_updated h = absurd (ground arith)
conv_action-known c (some known) file_ok file_updated h = ground (arith, =?_iff known c.updated_at)

conv_action-unknown :
    (c : ConvSummary) (known : Option Bytes) (file_ok : Bool) (file_updated : Bytes)
    → conv_action c known file_ok file_updated ≡ action_seed
    → known ≡ none
unfolding conv_action
conv_action-unknown c none file_ok file_updated h = refl
conv_action-unknown c (some known) file_ok file_updated h = absurd (ground arith)

module _ {N : Type 0} (get : Bytes → N → Result Bytes × N) (hash_content : Bytes → Bytes)
    (org : Bytes) (delay : ℕ) where
  written-Counted :
      (c : ConvSummary) (w : Option Bool × Disk) (y : Sync N)
      → Counted c y (next (written get hash_content org delay c w y))
  unfolding written failed remember
  written-Counted c (none, d) y = (omega arith, omega arith, λ k h. absurd (omega arith))
  written-Counted c (some m, d) y =
      let t = tally-count_progress c (entry c y) (record y { disk = d }) in
      let s = count_progress-others c (entry c y) (record y { disk = d }) in
      (
        omega (arith, t.0),
        omega (arith, t.1),
        λ k h.
            lookup-insert c.uuid k c.updated_at _
            ∙ ap (λ st. if c.uuid =? k then some c.updated_at else lookup k st.conversations) s.0,
      )

  fetched-Counted :
      (c : ConvSummary) (r : Result Bytes) (y : Sync N)
      → Counted c y (fetched get hash_content org delay c r y)
  unfolding fetched failed
  fetched-Counted c (err e) y = elim (Bool-cases (is_deadline e)) [
    | inl h ↦ rw h (h, refl, refl)
    | inr h ↦ rw h (omega arith, omega arith, λ k g. absurd (omega arith))
  ]
  fetched-Counted c (ok body) y = elim (Bool-cases (is_empty (conv_to_markdown body))) [
    | inl h ↦ rw h (omega arith, omega arith, λ k g. absurd (omega arith))
    | inr h ↦ rw h (
        written-Counted c
          (write_markdown hash_content (conv_filename c) (conv_to_markdown body) y.disk) y)
  ]

  act-Counted :
      (a : ConvActionKind) (c : ConvSummary) (y : Sync N)
      → decide c y ≡ a
      → Counted c y (act get hash_content org delay a c y)
  unfolding act fetch_one remember
  act-Counted action_skip c y h =
      (omega arith, omega arith, λ k g. settled c y k (conv_action-known c (entry c y) _ _ h))
  act-Counted action_seed c y h =
      (omega arith, omega arith, λ k g. lookup-insert c.uuid k c.updated_at _)
  act-Counted action_fetch c y h = fetched-Counted c _ _

  pub sync_one-Counted :
      (c : ConvSummary) (y : Sync N) → Counted c y (sync_one get hash_content org delay c y)
  unfolding sync_one
  sync_one-Counted c y = act-Counted (decide c y) c y refl

  -- What holds of a whole pass.
  abbrev Passed : List ConvSummary → Sync N → Option Error × Sync N → Type 0
  Passed cs y (e, z) =
      (tally z ≤ tally y + length cs)
      × (y.err_n ≤ z.err_n)
      × ((k : Bytes)
          → e ≡ none
          → z.err_n ≡ y.err_n
          → lookup k z.state.conversations ≡ recorded cs k (lookup k y.state.conversations))

  pass :
      (cs : List ConvSummary) (y : Sync N)
      → Passed cs y (sync_conversations get hash_content org delay cs y)
  unfolding sync_conversations
  pass [] y = (omega arith, omega arith, λ k e h. refl)
  pass (c ∷ cs) y =
      from_step (λ z. pass cs z) (sync_one get hash_content org delay c y) (sync_one-Counted c y)
    where
      from_step :
          ((z : Sync N) → Passed cs z (sync_conversations get hash_content org delay cs z))
          → (s : Step N) → Counted c y s
          → Passed (c ∷ cs) y (elim s [
            | next z ↦ sync_conversations get hash_content org delay cs z
            | abort e z ↦ (some e, z)
          ])
      from_step later (next z) (work, errors, memory) =
          let (work', errors', memory') = later z in
          (
            omega arith,
            omega arith,
            λ k e h. memory' k e (omega arith) ∙ ap (recorded cs k) (memory k (omega arith)),
          )
      from_step later (abort e z) (broken, same, calm) =
          (omega arith, omega arith, λ k g h. absurd (ground arith))

  pub sync_conversations-err_n :
      (cs : List ConvSummary) (y : Sync N)
      → y.err_n ≤ (sync_conversations get hash_content org delay cs y).1.err_n
  sync_conversations-err_n cs y = (pass cs y).1

  -- A pass accounts for no more than its list: the counters of new, changed, seeded and failed
  -- conversations grow together by at most its length.
  pub sync_conversations-tally :
      (cs : List ConvSummary) (y : Sync N)
      → tally (sync_conversations get hash_content org delay cs y).1 ≤ tally y + length cs
  sync_conversations-tally cs y = (pass cs y).0

  -- A pass that is not broken off and counts no error leaves each conversation's entry of the state
  -- at the `updated_at` that the list gives last, and every entry outside the list as it was.
  pub sync_conversations-recorded :
      (cs : List ConvSummary) (y : Sync N)
      → (sync_conversations get hash_content org delay cs y).0 ≡ none
      → (sync_conversations get hash_content org delay cs y).1.err_n ≡ y.err_n
      → (k : Bytes)
      → lookup k (sync_conversations get hash_content org delay cs y).1.state.conversations
        ≡ recorded cs k (lookup k y.state.conversations)
  sync_conversations-recorded cs y e h k = (pass cs y).2 k e h
