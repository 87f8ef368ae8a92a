-- ===== src/Cleanup/Spared.antt =====
-- daemon.go: `cleanupTemp` and the paths that it does not touch.
use schroedinger_sync.Base.{
  ℕ, ◌≡◌, refl, ◌∙◌, arith, Bool, true, false, not, ◌&&◌, Option, none, some, List, [], ◌∷◌, all,
  Bytes, ◌=?◌, =?_iff, inl, inr, Bool-cases, ap,
}
use schroedinger_sync.Base.Map.{lookup, lookup-erase}
use schroedinger_sync.Cleanup.{
  Node, plain, reparse_point, Profile, Leftover, Residue, sweep_node, sweep, abandoned, outdated,
  sweep_profiles, sweep_leftovers, cleanup_temp,
}

-- What stands at a path.
abbrev pub node_at : Bytes → Residue → Option Node
node_at k s = lookup k s.nodes

sweep_node-other :
    (k path : Bytes) (n : Option Node) (s : Residue)
    → (path =? k) ≡ false
    → node_at k (sweep_node path n s) ≡ node_at k s
unfolding sweep_node
sweep_node-other k path none s h = refl
sweep_node-other k path (some reparse_point) s h = refl
sweep_node-other k path (some plain) s h = ground (arith, lookup-erase path k s.nodes)

pub sweep-other :
    (k path : Bytes) (s : Residue) → (path =? k) ≡ false → node_at k (sweep path s) ≡ node_at k s
unfolding sweep
sweep-other k path s h = sweep_node-other k path _ s h

sweep-reparse_point :
    (k path : Bytes) (s : Residue)
    → node_at k s ≡ some reparse_point
    → node_at k (sweep path s) ≡ some reparse_point
unfolding sweep sweep_node
sweep-reparse_point k path s h = elim (Bool-cases (path =? k)) [
  | inl here ↦
      let e : lookup path s.nodes ≡ some reparse_point =
        ap (λ j. lookup j s.nodes) ((=?_iff path k).0 here) ∙ h in
      rw (e, sweep_node) h
  | inr there ↦ sweep-other k path s there ∙ h
]

module _ (k : Bytes) (alive : ℕ → Bool) where
  profiles-spared :
      (ps : List Profile) (s : Residue)
      → all (λ p. not (abandoned alive p && p.path =? k)) ps ≡ true
      → node_at k (sweep_profiles alive ps s) ≡ node_at k s
  unfolding sweep_profiles
  profiles-spared [] s h = refl
  profiles-spared (p ∷ ps) s h =
      profiles-spared ps _ (ground arith) ∙ ground (arith, sweep-other k p.path s)

  leftovers-spared :
      (ls : List Leftover) (s : Residue)
      → all (λ l. not (outdated l && l.path =? k)) ls ≡ true
      → node_at k (sweep_leftovers ls s) ≡ node_at k s
  unfolding sweep_leftovers
  leftovers-spared [] s h = refl
  leftovers-spared (l ∷ ls) s h =
      leftovers-spared ls _ (ground arith) ∙ ground (arith, sweep-other k l.path s)

  -- The sweep removes nothing but the profiles of processes that are gone and the leftovers that are
  -- old enough: what stands at any other path, the profile of a live process included, stays.
  pub cleanup_temp-spared :
      (unreadable : Bool) (ps : List Profile) (ls : List Leftover) (s : Residue)
      → all (λ p. not (abandoned alive p && p.path =? k)) ps ≡ true
      → all (λ l. not (outdated l && l.path =? k)) ls ≡ true
      → node_at k (cleanup_temp unreadable alive ps ls s) ≡ node_at k s
  unfolding cleanup_temp
  cleanup_temp-spared unreadable ps ls s hp hl =
      leftovers-spared ls _ hl ∙ profiles-spared ps _ hp ∙ ground arith

  profiles-reparse_point :
      (ps : List Profile) (s : Residue)
      → node_at k s ≡ some reparse_point
      → node_at k (sweep_profiles alive ps s) ≡ some reparse_point
  unfolding sweep_profiles
  profiles-reparse_point [] s h = h
  profiles-reparse_point (p ∷ ps) s h =
      profiles-reparse_point ps _ (ground (arith, sweep-reparse_point k p.path s))

  leftovers-reparse_point :
      (ls : List Leftover) (s : Residue)
      → node_at k s ≡ some reparse_point
      → node_at k (sweep_leftovers ls s) ≡ some reparse_point
  unfolding sweep_leftovers
  leftovers-reparse_point [] s h = h
  leftovers-reparse_point (l ∷ ls) s h =
      leftovers-reparse_point ls _ (ground (arith, sweep-reparse_point k l.path s))

  -- A reparse point is never removed, whatever its name and its age.
  pub cleanup_temp-reparse_point :
      (unreadable : Bool) (ps : List Profile) (ls : List Leftover) (s : Residue)
      → node_at k s ≡ some reparse_point
      → node_at k (cleanup_temp unreadable alive ps ls s) ≡ some reparse_point
  unfolding cleanup_temp
  cleanup_temp-reparse_point unreadable ps ls s h =
      leftovers-reparse_point ls _ (profiles-reparse_point ps _ (ground arith))
