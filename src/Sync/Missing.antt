-- ===== src/Sync/Missing.antt =====
-- daemon.go: the conversations that a pass of `syncConversations` does not record.
use schroedinger_sync.Base.{
  ℕ, ◌+◌, ◌≤◌, ◌≡◌, refl, ◌∙◌, ap, inl, inr, arith, Bool, false, ◌||◌, Option, none, some, List, [],
  ◌∷◌, if◌then◌else◌, is_empty, Bytes, ◌=?◌, =?_refl, Bool-cases,
}
use schroedinger_sync.Base.Map.{Map, lookup, lookup-insert_ne}
use schroedinger_sync.Result.{Error, is_deadline, Result, ok, err}
use schroedinger_sync.Api.{ConvSummary}
use schroedinger_sync.Names.{conv_filename}
use schroedinger_sync.Markdown.{conv_to_markdown}
use schroedinger_sync.Disk.{Disk}
use schroedinger_sync.Integrity.{write_markdown}
use schroedinger_sync.Daemon.Decisions.{ConvActionKind, action_fetch, action_skip, action_seed}
use schroedinger_sync.Sync.{
  Sync, entry, remember, failed, Step, next, abort, written, fetched, fetch_one, act, decide,
  sync_one, sync_conversations,
}
use schroedinger_sync.Sync.Loop.{after, Counted, sync_one-Counted, count_progress-others}

abbrev pub holds : Option Bytes → Bytes → Bool
holds none updated_at = false
holds (some known) updated_at = known =? updated_at

-- Does the state hold the listed version of the conversation?
abbrev pub is_recorded : Map Bytes → ConvSummary → Bool
is_recorded m c = holds (lookup c.uuid m) c.updated_at

-- How many of the listed conversations the state does not hold in the listed version.
abbrev pub missing : Map Bytes → List ConvSummary → ℕ
missing m [] = 0
missing m (c ∷ cs) = (if is_recorded m c then 0 else 1) + missing m cs

abbrev pub lists : List ConvSummary → Bytes → Bool
lists [] k = false
lists (c ∷ cs) k = c.uuid =? k || lists cs k

-- Every identifier stands once.
abbrev pub IsUnique : List ConvSummary → Type 0
IsUnique [] = Unit
IsUnique (c ∷ cs) = (lists cs c.uuid ≡ false) × IsUnique cs

module _ {N : Type 0} (get : Bytes → N → Result Bytes × N) (hash_content : Bytes → Bytes)
    (org : Bytes) (delay : ℕ) (k : Bytes) where
  -- The entry of `k` is left alone.
  abbrev Spares : Sync N → Sync N → Type 0
  Spares y z = lookup k z.state.conversations ≡ lookup k y.state.conversations

  written-Spares :
      (c : ConvSummary) (w : Option Bool × Disk) (y : Sync N)
      → (c.uuid =? k) ≡ false
      → Spares y (written get hash_content org delay c w y)
  unfolding written failed remember
  written-Spares c (none, d) y h = refl
  written-Spares c (some m, d) y h =
      let s = count_progress-others c (entry c y) (record y { disk = d }) in
      lookup-insert_ne c.uuid k c.updated_at _ h ∙ ap (λ st. lookup k st.conversations) s.0

  fetched-Spares :
      (c : ConvSummary) (r : Result Bytes) (y : Sync N)
      → (c.uuid =? k) ≡ false
      → Spares y (after (fetched get hash_content org delay c r y))
  unfolding fetched failed
  fetched-Spares c (err e) y h = elim (Bool-cases (is_deadline e)) [
    | inl d ↦ rw d refl
    | inr d ↦ rw d refl
  ]
  fetched-Spares c (ok body) y h = elim (Bool-cases (is_empty (conv_to_markdown body))) [
    | inl e ↦ rw e refl
    | inr e ↦ rw e (
        written-Spares c
          (write_markdown hash_content (conv_filename c) (conv_to_markdown body) y.disk) y h)
  ]

  act-Spares :
      (a : ConvActionKind) (c : ConvSummary) (y : Sync N)
      → (c.uuid =? k) ≡ false
      → Spares y (after (act get hash_content org delay a c y))
  unfolding act fetch_one remember
  act-Spares action_skip c y h = refl
  act-Spares action_seed c y h = lookup-insert_ne c.uuid k c.updated_at _ h
  act-Spares action_fetch c y h = fetched-Spares c _ _ h

  sync_one-Spares :
      (c : ConvSummary) (y : Sync N)
      → (c.uuid =? k) ≡ false
      → Spares y (after (sync_one get hash_content org delay c y))
  unfolding sync_one
  sync_one-Spares c y h = act-Spares (decide c y) c y h

  -- A pass leaves alone what it does not list.
  sync_conversations-Spares :
      (cs : List ConvSummary) (y : Sync N)
      → lists cs k ≡ false
      → Spares y (sync_conversations get hash_content org delay cs y).1
  unfolding sync_conversations
  sync_conversations-Spares [] y h = refl
  sync_conversations-Spares (c ∷ cs) y h =
      from_step (λ z. sync_conversations-Spares cs z (ground arith))
        (sync_one get hash_content org delay c y) (sync_one-Spares c y (ground arith))
    where
      from_step :
          ((z : Sync N) → Spares z (sync_conversations get hash_content org delay cs z).1)
          → (s : Step N) → Spares y (after s)
          → Spares y
              (elim s as (λ _. Option Error × Sync N) [
                | next z ↦ sync_conversations get hash_content org delay cs z
                | abort e z ↦ (some e, z)
              ]).1
      from_step later (next z) first = later z ∙ first
      from_step later (abort e z) first = first

is_recorded-same :
    (m m' : Map Bytes) (c : ConvSummary)
    → lookup c.uuid m' ≡ lookup c.uuid m
    → is_recorded m' c ≡ is_recorded m c
is_recorded-same m m' c h = ap (λ o. holds o c.updated_at) h

module _ {N : Type 0} (get : Bytes → N → Result Bytes × N) (hash_content : Bytes → Bytes)
    (org : Bytes) (delay : ℕ) where
  -- A conversation that a step does not record is counted as an error.
  abbrev Charged : ConvSummary → Sync N → Step N → Type 0
  Charged c y (next z) = (if is_recorded z.state.conversations c then 0 else 1) + y.err_n ≤ z.err_n
  Charged c y (abort e z) = Unit

  step-Charged : (c : ConvSummary) (y : Sync N) (s : Step N) → Counted c y s → Charged c y s
  step-Charged c y (abort e z) h = tt
  step-Charged c y (next z) (work, errors, memory) =
      elim (Bool-cases (is_recorded z.state.conversations c)) [
        | inl known ↦ rw known (omega arith)
        | inr unknown ↦ rw unknown (strict (λ same. uncharged unknown (memory c.uuid same)))
      ]
    where
      strict : (z.err_n ≡ y.err_n → ⊥) → 1 + y.err_n ≤ z.err_n
      strict ne = ground (arith, ne)

      uncharged :
          is_recorded z.state.conversations c ≡ false
          → lookup c.uuid z.state.conversations
            ≡ (if c.uuid =? c.uuid then some c.updated_at else lookup c.uuid y.state.conversations)
          → ⊥
      uncharged unknown held =
          let known : lookup c.uuid z.state.conversations ≡ some c.updated_at =
            rw (=?_refl c.uuid) at held in
          let yes_held = ap (λ o. holds o c.updated_at) known ∙ =?_refl c.updated_at in
          cc (yes_held, unknown)

  -- A pass over distinct conversations that is not broken off counts an error for every conversation
  -- whose listed version the state does not hold behind it: none is lost without being counted.
  pub sync_conversations-missing :
      (cs : List ConvSummary) (y : Sync N)
      → IsUnique cs
      → (sync_conversations get hash_content org delay cs y).0 ≡ none
      → missing (sync_conversations get hash_content org delay cs y).1.state.conversations cs
          + y.err_n
        ≤ (sync_conversations get hash_content org delay cs y).1.err_n
  unfolding sync_conversations
  sync_conversations-missing [] y u h = omega arith
  sync_conversations-missing (c ∷ cs) y (alone, u) h =
      from_step (λ z. sync_conversations-missing cs z u)
        (λ z. sync_conversations-Spares get hash_content org delay c.uuid cs z alone)
        (sync_one get hash_content org delay c y)
        (step-Charged c y _ (sync_one-Counted get hash_content org delay c y)) h
    where
      pass : Sync N → Option Error × Sync N
      pass z = sync_conversations get hash_content org delay cs z

      from_step :
          ((z : Sync N)
            → (pass z).0 ≡ none
            → missing (pass z).1.state.conversations cs + z.err_n ≤ (pass z).1.err_n)
          → ((z : Sync N)
              → lookup c.uuid (pass z).1.state.conversations ≡ lookup c.uuid z.state.conversations)
          → (s : Step N) → Charged c y s
          → (elim s as (λ _. Option Error × Sync N) [ next z ↦ pass z | abort e z ↦ (some e, z) ]).0
            ≡ none
          → missing
                (elim s as (λ _. Option Error × Sync N) [
                  | next z ↦ pass z
                  | abort e z ↦ (some e, z)
                ]).1.state.conversations
                (c ∷ cs)
              + y.err_n
            ≤ (elim s as (λ _. Option Error × Sync N) [
              | next z ↦ pass z
              | abort e z ↦ (some e, z)
            ]).1.err_n
      from_step later kept (next z) charged e =
          let same =
            is_recorded-same z.state.conversations (pass z).1.state.conversations c (kept z) in
          rw same (omega (arith, later z e, charged))
      from_step later kept (abort f z) charged e = absurd (cc e)
