-- ===== src/Sync/Settled.antt =====
-- daemon.go: two passes of `syncConversations` over the same list.
use schroedinger_sync.Base.{
  ℕ, ◌≡◌, refl, ◌∙◌, ap, arith, Bool, true, false, not, Option, none, some, List, [], ◌∷◌,
  if◌then◌else◌, all, Bytes, ◌=?◌, =?_refl,
}
use schroedinger_sync.Base.Map.{lookup}
use schroedinger_sync.Result.{Error, Result}
use schroedinger_sync.Api.{ConvSummary}
use schroedinger_sync.Names.{conv_filename}
use schroedinger_sync.Disk.{Disk}
use schroedinger_sync.Disk.Atomic.{at}
use schroedinger_sync.Sync.{Sync, entry, Step, next, abort, sync_one, sync_conversations}
use schroedinger_sync.Sync.Loop.{
  after, recorded, Counted, sync_one-Counted, sync_conversations-recorded, sync_conversations-err_n,
}
use schroedinger_sync.Sync.Effects.{spared, sync_conversations-keeps_file}
use schroedinger_sync.Sync.Exports.{up_to_date, conv_filename-IsExport, sync_conversations-idle}
use schroedinger_sync.Sync.Fresh.{
  is_fresh, fresh_file, IsDated, sync_one-fresh, sync_one-locked, sync_conversations-locked,
}

-- The state holds the server's timestamps of the conversations.
abbrev AreRecorded : {N : Type 0} → Sync N → List ConvSummary → Type 0
AreRecorded z [] = Unit
AreRecorded z (c ∷ cs) = (entry c z ≡ some c.updated_at) × AreRecorded z cs

recorded-absent :
    (cs : List ConvSummary) (k : Bytes) (o : Option Bytes)
    → all (λ d. not (d.uuid =? k)) cs ≡ true
    → recorded cs k o ≡ o
recorded-absent [] k o h = refl
recorded-absent (c ∷ cs) k o h =
    let other : (c.uuid =? k) ≡ false = ground arith in
    rw other (recorded-absent cs k o (ground arith))

up_to_date-all :
    {N : Type 0} (z : Sync N) (cs : List ConvSummary)
    → z.disk.locked ≡ []
    → AreRecorded z cs
    → all (λ c. is_fresh c (at (conv_filename c) z.disk)) cs ≡ true
    → all (up_to_date z) cs ≡ true
up_to_date-all z [] open_all r f = refl
up_to_date-all z (c ∷ cs) open_all (r, rs) f =
    let fresh : is_fresh c (at (conv_filename c) z.disk) ≡ true = ground arith in
    let others : all (λ c. is_fresh c (at (conv_filename c) z.disk)) cs ≡ true = ground arith in
    rw (r, =?_refl c.updated_at, fresh_file c z.disk open_all ∙ fresh)
      (up_to_date-all z cs open_all rs others)

module _ {N : Type 0} (get : Bytes → N → Result Bytes × N) (hash_content : Bytes → Bytes)
    (org : Bytes) (delay : ℕ) where
  -- The listed conversations: no two share a file or an identifier, and the server's answers about
  -- them are dated as the list says.
  abbrev pub AreApart : List ConvSummary → Type 0
  AreApart [] = Unit
  AreApart (c ∷ cs) =
      (spared (conv_filename c) cs ≡ true)
      × (all (λ d. not (d.uuid =? c.uuid)) cs ≡ true)
      × IsDated get hash_content org delay c
      × AreApart cs

  abbrev fresh_in : Disk → ConvSummary → Bool
  fresh_in d c = is_fresh c (at (conv_filename c) d)

  sync_conversations-fresh :
      (cs : List ConvSummary) (y : Sync N)
      → AreApart cs
      → y.disk.locked ≡ []
      → (sync_conversations get hash_content org delay cs y).0 ≡ none
      → (sync_conversations get hash_content org delay cs y).1.err_n ≡ y.err_n
      → all (fresh_in (sync_conversations get hash_content org delay cs y).1.disk) cs ≡ true
  unfolding sync_conversations
  sync_conversations-fresh [] y apart open_all done calm = refl
  sync_conversations-fresh (c ∷ cs) y (alone, single, dated, apart) open_all done calm =
      stepped (sync_one get hash_content org delay c y) refl
        (sync_one-Counted get hash_content org delay c y)
        (sync_one-locked get hash_content org delay c y) (sync_conversations-fresh cs) done calm
    where
      whole : Step N → Option Error × Sync N
      whole s = elim s [
        | next z ↦ sync_conversations get hash_content org delay cs z
        | abort e z ↦ (some e, z)
      ]

      stepped :
          (s : Step N)
          → sync_one get hash_content org delay c y ≡ s
          → Counted c y s
          → (after s).disk.locked ≡ y.disk.locked
          → ((z : Sync N)
              → AreApart cs
              → z.disk.locked ≡ []
              → (sync_conversations get hash_content org delay cs z).0 ≡ none
              → (sync_conversations get hash_content org delay cs z).1.err_n ≡ z.err_n
              → all (fresh_in (sync_conversations get hash_content org delay cs z).1.disk) cs
                ≡ true)
          → (whole s).0 ≡ none
          → (whole s).1.err_n ≡ y.err_n
          → all (fresh_in (whole s).1.disk) (c ∷ cs) ≡ true
      stepped (abort e z) same counted locks later done calm = absurd (cc done)
      stepped (next z) same (work, errors, memory) locks later done calm =
          let more = sync_conversations-err_n get hash_content org delay cs z in
          let here : z.err_n ≡ y.err_n = omega arith in
          let first : is_fresh c (at (conv_filename c) z.disk) ≡ true =
            sync_one-fresh get hash_content org delay c y z dated open_all same here in
          let stays =
            sync_conversations-keeps_file get hash_content org delay (conv_filename c)
              (conv_filename-IsExport c) cs z alone in
          let rest = later z apart (locks ∙ open_all) done (omega arith) in
          rw (ap (is_fresh c) stays ∙ first) rest

  AreApart-AreRecorded :
      (cs : List ConvSummary) (z : Sync N) (old : Bytes → Option Bytes)
      → AreApart cs
      → ((k : Bytes) → lookup k z.state.conversations ≡ recorded cs k (old k))
      → AreRecorded z cs
  unfolding entry
  AreApart-AreRecorded [] z old apart memory = tt
  AreApart-AreRecorded (c ∷ cs) z old (alone, single, dated, apart) memory = (
    memory c.uuid ∙ rw (=?_refl c.uuid) (recorded-absent cs c.uuid (some c.updated_at) single),
    AreApart-AreRecorded cs z (λ k. if c.uuid =? k then some c.updated_at else old k) apart memory,
  )

  -- Where no two listed conversations share a file name or an identifier, every export can be read,
  -- and the bodies that the server sends about them become files that are large enough and carry the
  -- timestamp of the list: a pass that is not broken off and counts no error makes a second pass over
  -- the same list do nothing.
  pub sync_conversations-settled :
      (cs : List ConvSummary) (y : Sync N)
      → AreApart cs
      → y.disk.locked ≡ []
      → (sync_conversations get hash_content org delay cs y).0 ≡ none
      → (sync_conversations get hash_content org delay cs y).1.err_n ≡ y.err_n
      → sync_conversations get hash_content org delay cs
          (sync_conversations get hash_content org delay cs y).1
        ≡ (none, (sync_conversations get hash_content org delay cs y).1)
  sync_conversations-settled cs y apart open_all done calm =
      let z = (sync_conversations get hash_content org delay cs y).1 in
      sync_conversations-idle get hash_content org delay cs z (
        up_to_date-all z cs (sync_conversations-locked get hash_content org delay cs y ∙ open_all)
          (AreApart-AreRecorded cs z (λ k. lookup k y.state.conversations) apart
            (sync_conversations-recorded get hash_content org delay cs y done calm))
          (sync_conversations-fresh cs y apart open_all done calm))
