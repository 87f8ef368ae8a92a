-- ===== src/Harvest/Accounting.antt =====
-- cdp.go: the counters of the loop of `cdpHarvest`.
use schroedinger_sync.Base.{
  ℕ, ◌+◌, ◌≡◌, arith, Bool, true, false, Option, none, some, List, [], ◌∷◌, length, is_empty, Bytes,
  inl, inr, Bool-cases,
}
use schroedinger_sync.Result.{is_deadline, Result, ok, err}
use schroedinger_sync.Api.{ConvSummary}
use schroedinger_sync.Names.{conv_filename}
use schroedinger_sync.Markdown.{conv_to_markdown}
use schroedinger_sync.Fetch.{fetch_conv_body}
use schroedinger_sync.Disk.{Disk}
use schroedinger_sync.Integrity.{write_markdown}
use schroedinger_sync.Sync.{file_is_current}
use schroedinger_sync.Harvest.{
  Harvest, Progress, go_on, fatal, erred, stored, received, harvest_one, harvest_all,
}

abbrev pub counted : {N : Type 0} → Harvest N → ℕ
counted y = y.new_n + y.skip_n + y.err_n

module _ {N : Type 0} where
  abbrev One : Harvest N → Progress N → Type 0
  One y (go_on z) = counted z ≡ counted y + 1
  One y (fatal z) = Unit

  stored-One : (w : Option Bool × Disk) (y : Harvest N) → One y (go_on (stored w y))
  unfolding stored erred
  stored-One (none, d) y = omega arith
  stored-One (some m, d) y = omega arith

module _ {N : Type 0} (get : Bytes → N → Result Bytes × N) (hash_content : Bytes → Bytes)
    (org : Bytes) where
  received-One :
      (c : ConvSummary) (r : Result Bytes) (y : Harvest N)
      → One y (received get hash_content org c r y)
  unfolding received erred
  received-One c (err e) y = elim (Bool-cases (is_deadline e)) [
    | inl h ↦ rw (h, received) tt
    | inr h ↦ rw (h, received) (omega arith)
  ]
  received-One c (ok body) y = elim (Bool-cases (is_empty (conv_to_markdown body))) [
    | inl h ↦ rw (h, received) (omega arith)
    | inr h ↦
        rw (h, received)
          (stored-One (write_markdown hash_content (conv_filename c) (conv_to_markdown body) y.disk)
            y)
  ]

  harvest_one-One : (c : ConvSummary) (y : Harvest N) → One y (harvest_one get hash_content org c y)
  unfolding harvest_one
  harvest_one-One c y = elim (Bool-cases (file_is_current c y.disk)) [
    | inl h ↦ rw (h, harvest_one) (omega arith)
    | inr h ↦ rw (h, harvest_one) (received-One c (fetch_conv_body get org c.uuid y.session).0 _)
  ]

  -- A harvest that no deadline ended has counted every listed conversation exactly once: as new, as
  -- skipped or as an error.
  pub harvest_all-counted :
      (cs : List ConvSummary) (y : Harvest N)
      → (harvest_all get hash_content org cs y).0 ≡ true
      → counted (harvest_all get hash_content org cs y).1 ≡ counted y + length cs
  unfolding harvest_all
  harvest_all-counted [] y h = omega arith
  harvest_all-counted (c ∷ cs) y h =
      from_one (λ z. harvest_all-counted cs z) (harvest_one get hash_content org c y)
        (harvest_one-One c y) h
    where
      from_one :
          ((z : Harvest N)
            → (harvest_all get hash_content org cs z).0 ≡ true
            → counted (harvest_all get hash_content org cs z).1 ≡ counted z + length cs)
          → (p : Progress N) → One y p
          → (elim p as (λ _. Bool × Harvest N) [
            | go_on z ↦ harvest_all get hash_content org cs z
            | fatal z ↦ (false, z)
          ]).0
            ≡ true
          → counted
              (elim p as (λ _. Bool × Harvest N) [
                | go_on z ↦ harvest_all get hash_content org cs z
                | fatal z ↦ (false, z)
              ]).1
            ≡ counted y + length (c ∷ cs)
      from_one later (go_on z) one g = omega (arith, later z g)
      from_one later (fatal z) one g = absurd (cc g)
