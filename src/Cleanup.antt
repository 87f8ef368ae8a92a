-- ===== src/Cleanup.antt =====
-- daemon.go: `cleanupTemp`, the sweep of what crashed runs left behind. The process list and the ages
-- of the temporary directories are given; Cleanup.Windows asks for a process and for a path.
pub mod Spared
pub mod Removable
pub mod Windows
use schroedinger_sync.Base.{
  ℕ, ◌+◌, ◌^◌, Bool, true, false, not, ◌&&◌, ◌||◌, Option, none, some, List, [], ◌∷◌, if◌then◌else◌,
  ltb, leb, Bytes,
}
use schroedinger_sync.Base.Map.{Map, lookup, erase}
use schroedinger_sync.Text.Decimal.{Signed, atoi}

-- What stands at a path, as `isReparsePoint` tells it.
pub data Node : Type 0 where
  plain reparse_point : Node

-- An entry of the chrome-profile directory, and a match of `schroedinger_*`; the age is in seconds,
-- `none` if `Stat` fails.
pub record Profile : Type 0 where
  pub path : Bytes
  pub name : Bytes
  pub is_dir : Bool

pub record Leftover : Type 0 where
  pub path : Bytes
  pub age : Option ℕ

-- What is on disk, whether the removals to come succeed, and the two counters.
pub record Residue : Type 0 where
  pub nodes : Map Node
  pub outcomes : List Bool
  pub removed : ℕ
  pub err_n : ℕ

abbrev removal : List Bool → Bool
removal [] = true
removal (o ∷ _) = o

abbrev further : List Bool → List Bool
further [] = []
further (_ ∷ os) = os

-- `sweep` around `removeResidueTree`
sweep_node : Bytes → Option Node → Residue → Residue
sweep_node path none s = s
sweep_node path (some reparse_point) s = record s { err_n = s.err_n + 1 }
sweep_node path (some plain) s =
    if removal s.outcomes
    then record s {
      nodes = erase path s.nodes;
      outcomes = further s.outcomes;
      removed = s.removed + 1;
    }
    else record s { outcomes = further s.outcomes; err_n = s.err_n + 1 }

unfoldable pub sweep : Bytes → Residue → Residue
unfolding sweep_node
sweep path s = sweep_node path (lookup path s.nodes) s

-- The process identifier that a directory's name stands for, if it is one.
pid_of : Option Signed → Option ℕ
pid_of none = none
pid_of (some n) =
    if n.negative && ltb 0 n.magnitude || ltb (2 ^ 32) (n.magnitude + 1)
    then none
    else some n.magnitude

-- A profile whose process is gone.
unfoldable pub abandoned : (ℕ → Bool) → Profile → Bool
unfolding pid_of
abandoned alive p =
    p.is_dir && elim (pid_of (atoi p.name)) [ none ↦ false | some pid ↦ not (alive pid) ]

-- `residueMinAge` in seconds
abbrev pub residue_min_age : ℕ
residue_min_age = 300

unfoldable pub outdated : Leftover → Bool
outdated l = elim l.age [ none ↦ false | some seconds ↦ not (ltb seconds residue_min_age) ]

unfoldable pub sweep_profiles : (ℕ → Bool) → List Profile → Residue → Residue
sweep_profiles alive [] s = s
sweep_profiles alive (p ∷ ps) s =
    sweep_profiles alive ps (if abandoned alive p then sweep p.path s else s)

unfoldable pub sweep_leftovers : List Leftover → Residue → Residue
sweep_leftovers [] s = s
sweep_leftovers (l ∷ ls) s = sweep_leftovers ls (if outdated l then sweep l.path s else s)

-- `cleanupTemp`; the first argument says that the profile directory could not be read.
unfoldable pub cleanup_temp : Bool → (ℕ → Bool) → List Profile → List Leftover → Residue → Residue
cleanup_temp unreadable alive ps ls s =
    let started = if unreadable then record s { err_n = s.err_n + 1 } else s in
    sweep_leftovers ls (sweep_profiles alive ps started)
