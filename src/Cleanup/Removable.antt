-- ===== src/Cleanup/Removable.antt =====
-- daemon.go: what `cleanupTemp` may remove.
use schroedinger_sync.Base.{ℕ, ◌≡◌, ◌≤◌, Bool, true, false, ◌⊎◌, some, List, [], ◌∷◌, Bytes}
use schroedinger_sync.Text.Decimal.{Signed, atoi}
use schroedinger_sync.Cleanup.{Profile, Leftover, Residue}
use schroedinger_sync.Cleanup.Spared.{node_at}

-- One of the elements is in `P`.
abbrev pub Among {ℓ} : {A : Type ℓ} → (A → Type 0) → List A → Type 0
Among P [] = ⊥
Among P (a ∷ rest) = P a ⊎ Among P rest

-- The profile at `k` is a directory named after a process that is gone.
abbrev pub IsAbandoned : (ℕ → Bool) → Bytes → Profile → Type 0
IsAbandoned alive k p =
    (p.path ≡ k)
    × (p.is_dir ≡ true)
    × ((n : Signed) × (atoi p.name ≡ some n) × (alive n.magnitude ≡ false))

-- The leftover at `k` is five minutes old or older.
abbrev pub IsOutdated : Bytes → Leftover → Type 0
IsOutdated k l = (l.path ≡ k) × ((seconds : ℕ) × (l.age ≡ some seconds) × (300 ≤ seconds))

module _ (k : Bytes) (alive : ℕ → Bool) where
  -- What stands at `k` is as it was, or `P` accounts for the change.
  abbrev Accounts : Type 0 → Residue → Residue → Type 0
  Accounts P s t = (node_at k t ≡ node_at k s) ⊎ P
