-- ===== src/Surfaces/Remembered.antt =====
-- surfaces.go: what a harvest of the memory without an error leaves on disk.
use mathlib.Core.Path.{subst}
use schroedinger_sync.Base.{
  ◌≡◌, refl, sym, Bool, true, false, Option, none, some, if◌then◌else◌, is_empty, ascii, ◌++◌,
  Bytes, ◌=?◌, =?_iff, Bool-cases, ◌⊎◌, inl, inr,
}
use schroedinger_sync.Result.{other, Result, ok, err}
use schroedinger_sync.Text.Runes.{trunc, trim_space}
use schroedinger_sync.Api.Decode.{memory_blob}
use schroedinger_sync.Disk.{Disk}
use schroedinger_sync.Disk.Atomic.{at}
use schroedinger_sync.Integrity.{write_markdown}
use schroedinger_sync.Integrity.Laws.{IsExport, write_markdown-written, write_markdown-others}
use schroedinger_sync.Surfaces.{memory_file_name, memory_markdown, memory_of}

-- What file `k` holds when the memory has been written over `old`; a blank memory is not.
abbrev pub remembered : Bytes → Bytes → Bytes → Bytes → Option Bytes → Option Bytes
remembered org now blob k old =
    if is_empty (trim_space blob)
    then old
    else if memory_file_name =? k
    then some (memory_markdown org now blob)
    else old

abbrev pub is_ok : Result Bool → Bool
is_ok (ok _) = true
is_ok (err _) = false

-- The memory that an answer holds.
abbrev pub blob_of : Result Bytes → Option Bytes
blob_of (err e) = none
blob_of (ok body) = memory_blob body

module _ (hash_content : Bytes → Bytes) (k : Bytes) (x : IsExport k) (org now : Bytes) where
  -- A harvest that reports no error has read a memory, and written it unless it is blank.
  abbrev pub Remembers : Option Bytes → Disk → Result Bool × Disk → Type 0
  Remembers answer d (err e, f) = Unit
  Remembers answer d (ok wrote, f) =
      (blob : Bytes) × (answer ≡ some blob) × (at k f ≡ remembered org now blob k (at k d))

  memory_written :
      (blob : Bytes) (d : Disk) (w : Option Bool × Disk)
      → (is_empty (trim_space blob) ≡ false)
      → (IsExport memory_file_name
          → (m : Bool) → w.0 ≡ some m
          → at memory_file_name w.1 ≡ some (memory_markdown org now blob))
      → ((memory_file_name =? k) ≡ false → at k w.1 ≡ at k d)
      → Remembers
          (some blob)
          d
          (elim w.0 [ none ↦ err (other (ascii "write")) | some manifest_ok ↦ ok true ], w.1)
  memory_written blob d (none, e) full done kept = tt
  memory_written blob d (some m, e) full done kept =
      (blob, refl, rw full (file (Bool-cases (memory_file_name =? k))))
    where
      file :
          ((memory_file_name =? k) ≡ true) ⊎ ((memory_file_name =? k) ≡ false)
          → at k e ≡ (if memory_file_name =? k then some (memory_markdown org now blob) else at k d)
      file (inl hit) =
          let same = (=?_iff memory_file_name k).0 hit in
          rw hit (
            subst (λ n. at n e ≡ some (memory_markdown org now blob)) same
              (done (subst IsExport (sym same) x) m refl))
      file (inr miss) = rw miss (kept miss)

  pub memory_of-Remembers :
      {N : Type 0} (get : Bytes → N → Result Bytes × N) (r : Result Bytes) (d : Disk)
      → Remembers (blob_of r) d (memory_of get hash_content org now r d)
  unfolding memory_of
  memory_of-Remembers get (err e) d = tt
  memory_of-Remembers get (ok body) d = cases (memory_blob body)
    where
      written : Bytes → Option Bool × Disk
      written blob = write_markdown hash_content memory_file_name (memory_markdown org now blob) d

      cases :
          (blob : Option Bytes)
          → Remembers blob d (elim blob as (λ _. Result Bool × Disk) [
            | none ↦ (err (other (ascii "parse memory: " ++ trunc body 200)), d)
            | some blob ↦ if is_empty (trim_space blob) then (ok false, d) else (
              elim (written blob).0 [
                | none ↦ err (other (ascii "write"))
                | some manifest_ok ↦ ok true
              ],
              (written blob).1,
            )
          ])
      cases none = tt
      cases (some blob) = elim (Bool-cases (is_empty (trim_space blob))) [
        | inl blank ↦ rw blank (blob, refl, rw blank refl)
        | inr full ↦ rw full (
            memory_written blob d (written blob) full
              (write_markdown-written hash_content memory_file_name (memory_markdown org now blob)
                d)
              (write_markdown-others hash_content memory_file_name (memory_markdown org now blob) d
                k x))
      ]
