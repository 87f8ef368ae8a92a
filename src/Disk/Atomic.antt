-- ===== src/Disk/Atomic.antt =====
-- The files behind the operations of Disk, the save by rename above all.
use mathlib.Core.Option.{some-injective}
use schroedinger_sync.Base.{
  ℕ, ◌⊎◌, length, take-of_le, Bool, true, false, ◌&&◌, Option, none, some, List, [], ◌∷◌, ◌++◌, ◌≡◌,
  inl, inr, refl, arith, if◌then◌else◌, take, Bytes, ascii, ◌=?◌, =?_iff, Option-cases, Bool-cases,
  ap, sym, ◌∙◌,
}
use schroedinger_sync.Base.Map.{
  Map, lookup, erase, lookup-insert_ne, lookup-insert_self, lookup-erase,
}
use schroedinger_sync.Text.Search.{has_prefix}
use schroedinger_sync.Disk.{
  Outcome, pick, create_at, create_by, done, refused, torn, spend, write_by, rename_by, moved, Disk,
  write_file, create_temp, close_file, rename, remove, save_renamed, save_closed, save_written,
  save_created, save_atomically, remove_at, remove_reported,
}

-- The content of a file.
abbrev pub at : Bytes → Disk → Option Bytes
at k d = lookup k d.files

module _ (k : Bytes) where
  at-write_by :
      (o : Outcome) (name content : Bytes) (d : Disk)
      → (name =? k) ≡ false
      → at k (write_by o name content d).1 ≡ at k d
  unfolding write_by
  at-write_by done name content d h = lookup-insert_ne name k content d.files h
  at-write_by refused name content d h = refl
  at-write_by (torn n) name content d h = lookup-insert_ne name k (take n content) d.files h

  -- A write leaves the other files alone, also where it breaks off.
  pub at-write_file :
      (name content : Bytes) (d : Disk)
      → (name =? k) ≡ false
      → at k (write_file name content d).1 ≡ at k d
  unfolding write_file
  at-write_file name content d h = at-write_by _ name content (spend d) h

  at-rename_by :
      (o : Outcome) (old new : Bytes) (d : Disk)
      → (old =? k) ≡ false
      → (new =? k) ≡ false
      → at k (rename_by o old new d).1 ≡ at k d
  unfolding rename_by moved
  at-rename_by done old new d h n = elim (Option-cases (lookup old d.files)) [
    | inl e ↦ rw (e, moved)
    | inr (content, e) ↦
        rw (e, moved)
          (lookup-insert_ne new k content (erase old d.files) n
            ∙ ground (arith, lookup-erase old k d.files))
  ]
  at-rename_by refused old new d h n = refl
  at-rename_by (torn _) old new d h n = refl

  at-rename :
      (old new : Bytes) (d : Disk)
      → (old =? k) ≡ false
      → (new =? k) ≡ false
      → at k (rename old new d).1 ≡ at k d
  unfolding rename
  at-rename old new d h n = at-rename_by _ old new (spend d) h n

  at-remove : (name : Bytes) (d : Disk) → (name =? k) ≡ false → at k (remove name d) ≡ at k d
  unfolding remove
  at-remove name d h = ground (arith, lookup-erase name k d.files)

write_by-done :
    (o : Outcome) (name content : Bytes) (d : Disk)
    → (write_by o name content d).0 ≡ true
    → at name (write_by o name content d).1 ≡ some content
unfolding write_by
write_by-done done name content d h = lookup-insert_self name content d.files
write_by-done refused name content d h = cc
write_by-done (torn n) name content d h = cc

-- A complete write is what the file then holds.
pub write_file-done :
    (name content : Bytes) (d : Disk)
    → (write_file name content d).0 ≡ true
    → at name (write_file name content d).1 ≡ some content
unfolding write_file
write_file-done name content d h = write_by-done _ name content (spend d) h

write_by_self :
    (o : Outcome) (name content : Bytes) (d : Disk)
    → (at name (write_by o name content d).1 ≡ at name d)
      ⊎ ((n : ℕ) × (at name (write_by o name content d).1 ≡ some (take n content)))
unfolding write_by
write_by_self done name content d = inr (
  length content,
  lookup-insert_self name content d.files
      ∙ ap some (sym (take-of_le (length content) content (omega arith))),
)
write_by_self refused name content d = inl refl
write_by_self (torn n) name content d = inr (n, lookup-insert_self name (take n content) d.files)

-- A write leaves the file as it was, or a head of the content.
pub at-write_file_self :
    (name content : Bytes) (d : Disk)
    → (at name (write_file name content d).1 ≡ at name d)
      ⊎ ((n : ℕ) × (at name (write_file name content d).1 ≡ some (take n content)))
unfolding write_file
at-write_file_self name content d = write_by_self _ name content (spend d)

at-remove_at :
    (k : Bytes) (b : Bool) (o : Option Bytes) (name : Bytes) (d : Disk)
    → at k (remove_at b o name d).1
      ≡ (if (remove_at b o name d).0 && name =? k then none else at k d)
unfolding remove_at
at-remove_at k true (some content) name d = lookup-erase name k d.files
at-remove_at k true none name d = refl
at-remove_at k false (some content) name d = refl
at-remove_at k false none name d = refl

-- A removal takes the file and nothing else, or, if it fails, nothing.
pub at-remove_reported :
    (k name : Bytes) (d : Disk)
    → at k (remove_reported name d).1
      ≡ (if (remove_reported name d).0 && name =? k then none else at k d)
unfolding remove_reported
at-remove_reported k name d = at-remove_at k _ (lookup name d.files) name (spend d)

rename_by-done :
    (o : Outcome) (old new content : Bytes) (d : Disk)
    → at old d ≡ some content
    → (rename_by o old new d).0 ≡ true
    → at new (rename_by o old new d).1 ≡ some content
unfolding rename_by moved
rename_by-done done old new content d e h =
    rw (e, moved) (lookup-insert_self new content (erase old d.files))
rename_by-done refused old new content d e h = cc
rename_by-done (torn _) old new content d e h = cc

rename_by-failed :
    (k : Bytes) (o : Outcome) (old new : Bytes) (d : Disk)
    → (rename_by o old new d).0 ≡ false
    → at k (rename_by o old new d).1 ≡ at k d
unfolding rename_by moved
rename_by-failed k done old new d h = ground arith
rename_by-failed k refused old new d h = refl
rename_by-failed k (torn _) old new d h = refl

module _ (k tmp target content : Bytes) (mine : (tmp =? k) ≡ false) where
  -- What a save makes of a file that is not its temporary one, from a state in which that file
  -- holds `old`.
  abbrev Saved : Option Bytes → Bool × Disk → Type 0
  Saved old (saved, e) = at k e ≡ (if saved && target =? k then some content else old)

  failed : (e : Disk) → Saved (at k e) (false, remove tmp e)
  failed e = at-remove k tmp e mine

  save_renamed-Saved :
      (d : Disk) → at tmp d ≡ some content → Saved (at k d) (save_renamed tmp target d)
  unfolding save_renamed rename
  save_renamed-Saved d held = elim (Bool-cases (rename tmp target d).0) [
    | inl yes' ↦ elim (Bool-cases (target =? k)) [
      | inl same ↦
          rw (yes', save_renamed, same)
            (ap (λ t. at t (rename tmp target d).1) (sym ((=?_iff target k).0 same))
              ∙ rename_by-done _ tmp target content (spend d) held yes')
      | inr other ↦ rw (yes', save_renamed, other) (at-rename k tmp target d mine other)
    ]
    | inr no' ↦
        rw (no', save_renamed)
          (failed (rename tmp target d).1 ∙ rename_by-failed k _ tmp target (spend d) no')
  ]

  save_closed-Saved :
      (d : Disk) → at tmp d ≡ some content → Saved (at k d) (save_closed tmp target d)
  unfolding save_closed close_file
  save_closed-Saved d held = elim (Bool-cases (close_file d).0) [
    | inl yes' ↦ rw (yes', save_closed) (save_renamed-Saved (spend d) held)
    | inr no' ↦ rw (no', save_closed) (failed (spend d))
  ]

  save_written-Saved : (d : Disk) → Saved (at k d) (save_written tmp target content d)
  unfolding save_written close_file
  save_written-Saved d = elim (Bool-cases (write_file tmp content d).0) [
    | inl yes' ↦
        rw (yes', save_written, ← at-write_file k tmp content d mine)
          (save_closed-Saved _ (write_file-done tmp content d yes'))
    | inr no' ↦
        rw (no', save_written)
          (failed (spend (write_file tmp content d).1) ∙ at-write_file k tmp content d mine)
  ]

has_prefix_self : (p s : Bytes) → has_prefix (p ++ s) p ≡ true
unfolding has_prefix
has_prefix_self [] s = refl
has_prefix_self (c ∷ p) s = ground (arith, has_prefix_self p s)

-- The name of a temporary file differs from every name without its prefix.
temp-ne : (prefix rest k : Bytes) → has_prefix k prefix ≡ false → ((prefix ++ rest) =? k) ≡ false
temp-ne prefix rest k h = ground (arith, =?_iff (prefix ++ rest) k, has_prefix_self prefix rest)

-- What `create_temp` makes: nothing, or a file of that prefix; other files stay.
abbrev Created : Bytes → Bytes → Disk → Option Bytes × Disk → Type 0
Created k prefix d (none, e) = at k e ≡ at k d
Created k prefix d (some tmp, e) = ((rest : Bytes) × (tmp ≡ prefix ++ rest)) × (at k e ≡ at k d)

pick-shape :
    (files : Map Bytes) (prefix suffix : Bytes) (rs : List Bytes) {tmp : Bytes} {more : List Bytes}
    → pick files prefix suffix rs ≡ some (tmp, more)
    → (rest : Bytes) × (tmp ≡ prefix ++ rest)
unfolding pick
pick-shape files prefix suffix [] h = cc
pick-shape files prefix suffix (r ∷ rs) {tmp} {more} h =
    elim (Option-cases (lookup (prefix ++ (r ++ suffix)) files)) [
      | inl free ↦
          let e : some (prefix ++ (r ++ suffix), rs) ≡ some (tmp, more) = rw (free, pick) at h in
          (r ++ suffix, sym (ap (λ p. p.0) (some-injective _ (tmp, more) e)))
      | inr (_, taken) ↦
          let e : pick files prefix suffix rs ≡ some (tmp, more) = rw (taken, pick) at h in
          pick-shape files prefix suffix rs e
    ]

module _ (k prefix suffix : Bytes) (away : has_prefix k prefix ≡ false) where
  create_at-Created :
      (p : Option (Bytes × List Bytes)) (d : Disk)
      → pick d.files prefix suffix d.randoms ≡ p
      → Created k prefix d (create_at p d)
  unfolding create_at
  create_at-Created none d h = refl
  create_at-Created (some (tmp, rs)) d h =
      let (rest, e) = pick-shape d.files prefix suffix d.randoms h in
      ((rest, e), lookup-insert_ne tmp k [] d.files (rw e (temp-ne prefix rest k away)))

  create_by-Created : (o : Outcome) (d : Disk) → Created k prefix d (create_by o prefix suffix d)
  unfolding create_by
  create_by-Created done d = create_at-Created _ d refl
  create_by-Created refused d = refl
  create_by-Created (torn _) d = refl

-- A save leaves every file outside its temporary names as it was, but for the target, which holds
-- the new content if the save reports success, and its old content if not.
pub at-save_atomically :
    (k prefix target content : Bytes) (d : Disk)
    → has_prefix k prefix ≡ false
    → at k (save_atomically prefix target content d).1 ≡ (
        if (save_atomically prefix target content d).0 && target =? k then some content else at k d)
unfolding save_atomically create_temp
at-save_atomically k prefix target content d away =
    from_created (create_temp prefix (ascii ".tmp") d)
      (create_by-Created k prefix (ascii ".tmp") away _ (spend d))
  where
    from_created :
        (c : Option Bytes × Disk)
        → Created k prefix d c
        → at k (save_created c.0 target content c.1).1 ≡ (
            if (save_created c.0 target content c.1).0 && target =? k then some content else at k d)
    from_created (none, e) same = same
    from_created (some tmp, e) ((rest, shape), same) =
        rw (← same)
          (save_written-Saved k tmp target content (rw shape (temp-ne prefix rest k away)) e)

-- A system that does as it is asked, and draws a new name, makes the save succeed.
pub save_atomically-succeeds :
    (prefix target content r : Bytes) (rs : List Bytes) (d : Disk)
    → d.outcomes ≡ []
    → d.randoms ≡ r ∷ rs
    → lookup (prefix ++ (r ++ ascii ".tmp")) d.files ≡ none
    → (save_atomically prefix target content d).0 ≡ true
unfolding save_atomically create_temp write_file write_by close_file rename rename_by moved
save_atomically-succeeds prefix target content r rs d calm drawn free =
    rw (calm, drawn, create_by, pick, free, create_at)
      (rw (lookup-insert_self (prefix ++ (r ++ ascii ".tmp")) content _) refl)
