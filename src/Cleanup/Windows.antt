-- ===== src/Cleanup/Windows.antt =====
-- daemon.go: `processAlive`; cdp.go: `isReparsePoint`. The answers of Windows are parameters.
use schroedinger_sync.Base.{
  ℕ, ◌/◌, ◌%◌, ◌^◌, ◌<◌, ◌≡◌, refl, arith, Bool, true, false, not, ◌&&◌, ◌||◌, Option, none, some,
  List, [], ◌∷◌, all, ◌==◌, Bytes, ◌=?◌, =?_iff,
}
use schroedinger_sync.Text.Decimal.{show, atoi-show}
use schroedinger_sync.Cleanup.{
  Profile, Leftover, Residue, pid_of, abandoned, outdated, cleanup_temp,
}
use schroedinger_sync.Cleanup.Spared.{node_at, cleanup_temp-spared}

-- `processAlive`: `exit_code` is `GetExitCodeProcess` on the handle that `OpenProcess` gives.
module _ {H : Type 0} (open_process : ℕ → Option H) (exit_code : H → Option ℕ) where
  -- A code of 259 is `STILL_ACTIVE`.
  still_active : Option ℕ → Bool
  still_active none = false
  still_active (some code) = code == 259

  queried : Option H → Bool
  queried none = false
  queried (some h) = still_active (exit_code h)

  unfoldable pub process_alive : ℕ → Bool
  unfolding queried still_active
  process_alive pid = queried (open_process pid)

-- `isReparsePoint`, on the attributes of the path: `FILE_ATTRIBUTE_REPARSE_POINT` is 0x400.
unfoldable pub is_reparse_point : Option ℕ → Bool
is_reparse_point none = false
is_reparse_point (some attrs) = not ((attrs / 0x400) % 2 == 0)

module _ (alive : ℕ → Bool) (pid : ℕ) (living : alive pid ≡ true) (word : pid < 2 ^ 32) where
  -- The profile that a running process has named after itself is not abandoned.
  abandoned-living : (p : Profile) → p.name ≡ show pid → abandoned alive p ≡ false
  unfolding abandoned pid_of
  abandoned-living p named = rw (named, atoi-show pid) (ground arith)

  own_only :
      (k : Bytes) (ps : List Profile)
      → all (λ p. not (p.path =? k) || p.name =? show pid) ps ≡ true
      → all (λ p. not (abandoned alive p && p.path =? k)) ps ≡ true
  own_only k [] h = refl
  own_only k (p ∷ ps) h =
      ground (arith, =?_iff p.name (show pid), abandoned-living p, own_only k ps)

  old_only :
      (k : Bytes) (ls : List Leftover)
      → all (λ l. not (l.path =? k)) ls ≡ true
      → all (λ l. not (outdated l && l.path =? k)) ls ≡ true
  old_only k [] h = refl
  old_only k (l ∷ ls) h = ground (arith, old_only k ls)

  -- Another instance's cleanup leaves the profile of a running process alone, which stands under the
  -- decimal name of its identifier: whatever is at its path stays.
  pub cleanup_temp-living :
      (k : Bytes) (unreadable : Bool) (ps : List Profile) (ls : List Leftover) (s : Residue)
      → all (λ p. not (p.path =? k) || p.name =? show pid) ps ≡ true
      → all (λ l. not (l.path =? k)) ls ≡ true
      → node_at k (cleanup_temp unreadable alive ps ls s) ≡ node_at k s
  cleanup_temp-living k unreadable ps ls s own other =
      cleanup_temp-spared k alive unreadable ps ls s (own_only k ps own) (old_only k ls other)
