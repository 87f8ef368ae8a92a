-- ===== src/Disk.antt =====
-- The output directory as the program sees it through `os`. A file goes by its name inside the
-- directory. What the system answers is part of the state: the outcomes of the operations to come,
-- and the random strings to come. Every operation that changes the disk takes one outcome.
pub mod Atomic
pub mod Locks
use schroedinger_sync.Base.{
  ℕ, Bool, true, false, not, Option, none, some, List, [], ◌∷◌, ◌++◌, if◌then◌else◌, any, take,
  Bytes, ascii, ◌=?◌,
}
use schroedinger_sync.Base.Map.{Map, lookup, insert, erase}

-- An operation succeeds, is refused, or breaks off behind so many bytes.
pub data Outcome : Type 0 where
  done refused : Outcome
  torn : ℕ → Outcome

pub record Disk : Type 0 where
  pub files : Map Bytes
  -- files that exist and cannot be opened for reading
  pub locked : List Bytes
  pub outcomes : List Outcome
  pub randoms : List Bytes

-- The next outcome; a system that was not told otherwise does as it is asked.
abbrev outcome : List Outcome → Outcome
outcome [] = done
outcome (o ∷ _) = o

abbrev later : List Outcome → List Outcome
later [] = []
later (_ ∷ os) = os

abbrev pub spend : Disk → Disk
spend d = record d { outcomes = later d.outcomes }

abbrev pub put : Bytes → Bytes → Disk → Disk
put name content d = record d { files = insert name content d.files }

-- `os.ReadFile`
unfoldable pub read_file : Bytes → Disk → Option Bytes
read_file name d = if any (λ l. l =? name) d.locked then none else lookup name d.files

-- `os.Stat`, as far as the size: the content itself.
unfoldable pub stat : Bytes → Disk → Option Bytes
stat name d = lookup name d.files

-- `os.WriteFile`, and `Write` on a file opened for writing: it may break off in the middle.
write_by : Outcome → Bytes → Bytes → Disk → Bool × Disk
write_by done name content d = (true, put name content d)
write_by refused name content d = (false, d)
write_by (torn n) name content d = (false, put name (take n content) d)

unfoldable pub write_file : Bytes → Bytes → Disk → Bool × Disk
unfolding write_by
write_file name content d = write_by (outcome d.outcomes) name content (spend d)

-- The first random string that makes a new name, and the strings behind it.
pick : Map Bytes → Bytes → Bytes → List Bytes → Option (Bytes × List Bytes)
pick files prefix suffix [] = none
pick files prefix suffix (r ∷ rs) =
    let next = pick files prefix suffix rs in
    elim (lookup (prefix ++ (r ++ suffix)) files) [
      | none ↦ some (prefix ++ (r ++ suffix), rs)
      | some _ ↦ next
    ]

create_at : Option (Bytes × List Bytes) → Disk → Option Bytes × Disk
create_at none d = (none, d)
create_at (some (name, rs)) d = (some name, record (put name [] d) { randoms = rs })

create_by : Outcome → Bytes → Bytes → Disk → Option Bytes × Disk
create_by done prefix suffix d = create_at (pick d.files prefix suffix d.randoms) d
create_by _ prefix suffix d = (none, d)

-- `os.CreateTemp`: a new empty file.
unfoldable pub create_temp : Bytes → Bytes → Disk → Option Bytes × Disk
unfolding pick create_at create_by
create_temp prefix suffix d = create_by (outcome d.outcomes) prefix suffix (spend d)

abbrev succeeds : Outcome → Bool
succeeds done = true
succeeds _ = false

-- `Close`: it changes nothing, and may report an error.
unfoldable pub close_file : Disk → Bool × Disk
close_file d = (succeeds (outcome d.outcomes), spend d)

moved : Option Bytes → Bytes → Bytes → Disk → Bool × Disk
moved none old new d = (false, d)
moved (some content) old new d = (true, record d { files = insert new content (erase old d.files) })

-- `os.Rename` on one volume: it replaces the target whole, or does nothing.
rename_by : Outcome → Bytes → Bytes → Disk → Bool × Disk
rename_by done old new d = moved (lookup old d.files) old new d
rename_by _ old new d = (false, d)

unfoldable pub rename : Bytes → Bytes → Disk → Bool × Disk
unfolding moved rename_by
rename old new d = rename_by (outcome d.outcomes) old new (spend d)

-- `os.Remove`, its error ignored.
unfoldable pub remove : Bytes → Disk → Disk
remove name d =
    if succeeds (outcome d.outcomes)
    then record (spend d) { files = erase name d.files }
    else spend d

-- `os.Remove` with its error: a file that is not there cannot be removed.
remove_at : Bool → Option Bytes → Bytes → Disk → Bool × Disk
remove_at true (some content) name d = (true, record d { files = erase name d.files })
remove_at _ _ name d = (false, d)

unfoldable pub remove_reported : Bytes → Disk → Bool × Disk
unfolding remove_at
remove_reported name d =
    remove_at (succeeds (outcome d.outcomes)) (lookup name d.files) name (spend d)

-- `os.MkdirAll` on the directory itself.
unfoldable pub mkdir_all : Disk → Bool × Disk
mkdir_all d = (succeeds (outcome d.outcomes), spend d)

-- The body of `saveState` and `saveManifest` behind the marshalling: a temporary file, renamed
-- over the target.
save_renamed : Bytes → Bytes → Disk → Bool × Disk
save_renamed tmp target d =
    let (renamed, e) = rename tmp target d in if renamed then (true, e) else (false, remove tmp e)

save_closed : Bytes → Bytes → Disk → Bool × Disk
save_closed tmp target d =
    let (closed, e) = close_file d in
    if closed then save_renamed tmp target e else (false, remove tmp e)

save_written : Bytes → Bytes → Bytes → Disk → Bool × Disk
save_written tmp target content d =
    let (written, e) = write_file tmp content d in
    if written then save_closed tmp target e else (false, remove tmp (close_file e).1)

save_created : Option Bytes → Bytes → Bytes → Disk → Bool × Disk
save_created none target content d = (false, d)
save_created (some tmp) target content d = save_written tmp target content d

unfoldable pub save_atomically : Bytes → Bytes → Bytes → Disk → Bool × Disk
unfolding save_created save_written save_closed save_renamed
save_atomically prefix target content d =
    let (tmp, e) = create_temp prefix (ascii ".tmp") d in save_created tmp target content e
