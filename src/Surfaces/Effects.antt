-- ===== src/Surfaces/Effects.antt =====
-- surfaces.go: the harvest of documents and memory leaves the program's own files alone.
use schroedinger_sync.Base.{
  ◌≡◌, refl, ◌∙◌, ap, Bool, true, false, Option, none, some, List, [], ◌∷◌, is_empty, if◌then◌else◌,
  ◌++◌, ascii, Bytes, ◌=?◌, Bool-cases, inl, inr,
}
use schroedinger_sync.Result.{other, Result, ok, err}
use schroedinger_sync.Text.Runes.{trunc, trim_space}
use schroedinger_sync.Api.{ProjectSummary, ProjectDoc}
use schroedinger_sync.Api.Decode.{projects, docs, memory_blob}
use schroedinger_sync.Names.{doc_filename}
use schroedinger_sync.Names.Visible.{doc_filename-visible}
use schroedinger_sync.Fetch.{Session, sleep}
use schroedinger_sync.Disk.{Disk}
use schroedinger_sync.Disk.Atomic.{at}
use schroedinger_sync.Integrity.{write_markdown}
use schroedinger_sync.Integrity.Laws.{IsExport, write_markdown-others}
use schroedinger_sync.Surfaces.{
  Surfaces, memory_file_name, doc_markdown, memory_markdown, surface_failed, doc_written,
  harvest_docs, docs_of, harvest_each, projects_of, harvest_projects, memory_of, harvest_memory,
}

module _ {N : Type 0} (get : Bytes → N → Result Bytes × N) (hash_content : Bytes → Bytes)
    (k : Bytes) (x : IsExport (b'.' ∷ k)) where
  -- A hidden file is as it was.
  abbrev Keeps : Surfaces N → Surfaces N → Type 0
  Keeps y z = at (b'.' ∷ k) z.disk ≡ at (b'.' ∷ k) y.disk

  doc_written-disk : (w : Option Bool × Disk) (y : Surfaces N) → (doc_written w y).disk ≡ w.1
  unfolding doc_written
  doc_written-disk (none, d) y = refl
  doc_written-disk (some m, d) y = refl

  harvest_docs-Keeps :
      (p : ProjectSummary) (ds : List ProjectDoc) (y : Surfaces N)
      → Keeps y (harvest_docs get hash_content p ds y)
  unfolding harvest_docs
  harvest_docs-Keeps p [] y = refl
  harvest_docs-Keeps p (d ∷ ds) y =
      let w = write_markdown hash_content (doc_filename p d) (doc_markdown p d) y.disk in
      let z = doc_written w y in
      harvest_docs-Keeps p ds (record z { session = sleep 150 z.session })
      ∙ ap (at (b'.' ∷ k)) (doc_written-disk w y)
      ∙ write_markdown-others hash_content (doc_filename p d) (doc_markdown p d) y.disk (b'.' ∷ k) x
          (doc_filename-visible p d k)

  docs_of-Keeps :
      (p : ProjectSummary) (r : Result Bytes) (y : Surfaces N)
      → Keeps y (docs_of get hash_content p r y)
  unfolding docs_of surface_failed
  docs_of-Keeps p (err e) y = refl
  docs_of-Keeps p (ok body) y = cases (docs body)
    where
      cases :
          (ds : Option (List ProjectDoc))
          → Keeps y
              (elim ds [ none ↦ surface_failed y | some ds ↦ harvest_docs get hash_content p ds y ])
      cases none = refl
      cases (some ds) = harvest_docs-Keeps p ds y

  harvest_each-Keeps :
      (org : Bytes) (ps : List ProjectSummary) (y : Surfaces N)
      → Keeps y (harvest_each get hash_content org ps y)
  unfolding harvest_each
  harvest_each-Keeps org [] y = refl
  harvest_each-Keeps org (p ∷ ps) y = harvest_each-Keeps org ps _ ∙ docs_of-Keeps p _ _

  projects_of-Keeps :
      (org : Bytes) (r : Result Bytes) (y : Surfaces N)
      → Keeps y (projects_of get hash_content org r y)
  unfolding projects_of surface_failed
  projects_of-Keeps org (err e) y = refl
  projects_of-Keeps org (ok body) y = cases (projects body)
    where
      cases :
          (ps : Option (List ProjectSummary))
          → Keeps y (elim ps [
            | none ↦ surface_failed y
            | some ps ↦ harvest_each get hash_content org ps y
          ])
      cases none = refl
      cases (some ps) = harvest_each-Keeps org ps y

  pub harvest_projects-keeps_file :
      (org : Bytes) (σ : Session N) (d : Disk)
      → at (b'.' ∷ k) (harvest_projects get hash_content org σ d).disk ≡ at (b'.' ∷ k) d
  unfolding harvest_projects
  harvest_projects-keeps_file org σ d = projects_of-Keeps org _ _

  memory_of-keeps_file :
      (org now : Bytes) (r : Result Bytes) (d : Disk)
      → at (b'.' ∷ k) (memory_of get hash_content org now r d).1 ≡ at (b'.' ∷ k) d
  unfolding memory_of
  memory_of-keeps_file org now (err e) d = refl
  memory_of-keeps_file org now (ok body) d = cases (memory_blob body)
    where
      written : Bytes → Option Bool × Disk
      written blob = write_markdown hash_content memory_file_name (memory_markdown org now blob) d

      cases :
          (blob : Option Bytes)
          → at
              (b'.' ∷ k)
              (elim blob as (λ _. Result Bool × Disk) [
                | none ↦ (err (other (ascii "parse memory: " ++ trunc body 200)), d)
                | some blob ↦ if is_empty (trim_space blob) then (ok false, d) else (
                  elim (written blob).0 [
                    | none ↦ err (other (ascii "write"))
                    | some manifest_ok ↦ ok true
                  ],
                  (written blob).1,
                )
              ]).1
            ≡ at (b'.' ∷ k) d
      cases none = refl
      cases (some blob) = elim (Bool-cases (is_empty (trim_space blob))) [
        | inl nothing ↦ rw nothing refl
        | inr content ↦ rw content (
            write_markdown-others hash_content memory_file_name (memory_markdown org now blob) d
              (b'.' ∷ k) x (unfold ◌=?◌ in refl))
      ]

  pub harvest_memory-keeps_file :
      (org now : Bytes) (σ : Session N) (d : Disk)
      → at (b'.' ∷ k) (harvest_memory get hash_content org now σ d).1.1 ≡ at (b'.' ∷ k) d
  unfolding harvest_memory
  harvest_memory-keeps_file org now σ d = memory_of-keeps_file org now _ d
