-- ===== src/Disk/Locks.antt =====
-- No operation of the program changes which files can be read.
use schroedinger_sync.Base.{
  ◌≡◌, refl, ◌∙◌, arith, Bool, true, false, Option, none, some, List, Bytes, if◌then◌else◌, ascii,
}
use schroedinger_sync.Disk.{
  Disk, Outcome, done, refused, torn, create_at, create_by, write_by, rename_by, moved, write_file,
  create_temp, close_file, rename, remove, save_renamed, save_closed, save_written, save_created,
  save_atomically,
}

write_by-locked :
    (o : Outcome) (name content : Bytes) (d : Disk)
    → (write_by o name content d).1.locked ≡ d.locked
unfolding write_by
write_by-locked done name content d = refl
write_by-locked refused name content d = refl
write_by-locked (torn n) name content d = refl

pub write_file-locked :
    (name content : Bytes) (d : Disk) → (write_file name content d).1.locked ≡ d.locked
unfolding write_file
write_file-locked name content d = write_by-locked _ name content _

create_at-locked :
    (o : Option (Bytes × List Bytes)) (d : Disk) → (create_at o d).1.locked ≡ d.locked
unfolding create_at
create_at-locked none d = refl
create_at-locked (some (name, rs)) d = refl

create_by-locked :
    (o : Outcome) (prefix suffix : Bytes) (d : Disk)
    → (create_by o prefix suffix d).1.locked ≡ d.locked
unfolding create_by
create_by-locked done prefix suffix d = create_at-locked _ d
create_by-locked refused prefix suffix d = refl
create_by-locked (torn n) prefix suffix d = refl

moved-locked :
    (o : Option Bytes) (old new : Bytes) (d : Disk) → (moved o old new d).1.locked ≡ d.locked
unfolding moved
moved-locked none old new d = refl
moved-locked (some content) old new d = refl

rename_by-locked :
    (o : Outcome) (old new : Bytes) (d : Disk) → (rename_by o old new d).1.locked ≡ d.locked
unfolding rename_by
rename_by-locked done old new d = moved-locked _ old new d
rename_by-locked refused old new d = refl
rename_by-locked (torn n) old new d = refl

remove-locked : (name : Bytes) (d : Disk) → (remove name d).locked ≡ d.locked
unfolding remove
remove-locked name d = ground arith

if-locked :
    (b : Bool) (p q : Bool × Disk) (l : List Bytes)
    → p.1.locked ≡ l
    → q.1.locked ≡ l
    → (if b then p else q).1.locked ≡ l
if-locked true p q l h g = h
if-locked false p q l h g = g

save_renamed-locked :
    (tmp target : Bytes) (d : Disk) → (save_renamed tmp target d).1.locked ≡ d.locked
unfolding save_renamed rename
save_renamed-locked tmp target d =
    let renamed = rename_by-locked _ tmp target _ in
    if-locked _ _ _ d.locked renamed (remove-locked tmp _ ∙ renamed)

save_closed-locked :
    (tmp target : Bytes) (d : Disk) → (save_closed tmp target d).1.locked ≡ d.locked
unfolding save_closed close_file
save_closed-locked tmp target d =
    if-locked _ _ _ d.locked (save_renamed-locked tmp target _) (remove-locked tmp _)

save_written-locked :
    (tmp target content : Bytes) (d : Disk)
    → (save_written tmp target content d).1.locked ≡ d.locked
unfolding save_written close_file
save_written-locked tmp target content d =
    let wrote = write_file-locked tmp content d in
    if-locked _ _ _ d.locked (save_closed-locked tmp target _ ∙ wrote) (remove-locked tmp _ ∙ wrote)

save_created-locked :
    (tmp : Option Bytes) (target content : Bytes) (d : Disk)
    → (save_created tmp target content d).1.locked ≡ d.locked
unfolding save_created
save_created-locked none target content d = refl
save_created-locked (some tmp) target content d = save_written-locked tmp target content d

pub save_atomically-locked :
    (prefix target content : Bytes) (d : Disk)
    → (save_atomically prefix target content d).1.locked ≡ d.locked
unfolding save_atomically create_temp
save_atomically-locked prefix target content d =
    save_created-locked _ target content _ ∙ create_by-locked _ prefix (ascii ".tmp") _
