-- ===== src/Surfaces.antt =====
-- surfaces.go: the project documents and the memory of the account.
pub mod Effects
pub mod Listing
pub mod Written
pub mod Remembered
use schroedinger_sync.Base.{
  ℕ, ◌+◌, Bool, true, false, Option, none, some, List, [], ◌∷◌, ◌++◌, if◌then◌else◌, is_empty,
  Bytes, ascii,
}
use schroedinger_sync.Text.Runes.{trunc, trim_space}
use schroedinger_sync.Result.{other, Result, ok, err}
use schroedinger_sync.Api.{ProjectSummary, ProjectDoc}
use schroedinger_sync.Api.Decode.{projects, docs, memory_blob}
use schroedinger_sync.Names.{doc_filename}
use schroedinger_sync.Fetch.{Session, sleep, get_with_retry}
use schroedinger_sync.Disk.{Disk}
use schroedinger_sync.Integrity.{write_markdown}

-- What `harvestProjects` works on, with the counters that it returns.
pub record Surfaces (N : Type 0) : Type 0 where
  pub session : Session N
  pub disk : Disk
  pub doc_n : ℕ
  pub err_n : ℕ

abbrev pub memory_file_name : Bytes
memory_file_name = ascii "claude-ai-memory.md"

-- The markdown of a project document.
unfoldable pub doc_markdown : ProjectSummary → ProjectDoc → Bytes
doc_markdown p d =
    ascii "# "
    ++ (d.file_name
        ++ (ascii "\n\n- Project: "
            ++ (p.name
                ++ (ascii " ("
                    ++ (p.uuid
                        ++ (ascii ")\n- Doc UUID: "
                            ++ (d.uuid
                                ++ (ascii "\n- Created: "
                                    ++ (trunc d.created_at 19
                                        ++ (ascii "\n\n---\n\n"
                                            ++ (d.content ++ ascii "\n")))))))))))

-- The markdown of the memory, harvested at the time `now`.
unfoldable pub memory_markdown : Bytes → Bytes → Bytes → Bytes
memory_markdown org now blob =
    ascii "# claude.ai Memory (org "
    ++ (org
        ++ (ascii ")\n\n- Harvested: " ++ (now ++ (ascii "\n\n---\n\n" ++ (blob ++ ascii "\n")))))

abbrev projects_path : Bytes → Bytes
projects_path org = ascii "/api/organizations/" ++ (org ++ ascii "/projects")

module _ {N : Type 0} where
  surface_failed : Surfaces N → Surfaces N
  surface_failed y = record y { err_n = y.err_n + 1 }

  -- Behind `writeMarkdown`: a manifest that could not be saved fails nothing.
  doc_written : Option Bool × Disk → Surfaces N → Surfaces N
  doc_written (none, d) y = record y { disk = d; err_n = y.err_n + 1 }
  doc_written (some manifest_ok, d) y = record y { disk = d; doc_n = y.doc_n + 1 }

module _ {N : Type 0} (get : Bytes → N → Result Bytes × N) (hash_content : Bytes → Bytes) where
  -- The inner loop of `harvestProjects`.
  unfoldable pub harvest_docs : ProjectSummary → List ProjectDoc → Surfaces N → Surfaces N
  unfolding doc_written
  harvest_docs p [] y = y
  harvest_docs p (d ∷ ds) y =
      let z =
        doc_written (write_markdown hash_content (doc_filename p d) (doc_markdown p d) y.disk) y in
      harvest_docs p ds (record z { session = sleep 150 z.session })

  docs_of : ProjectSummary → Result Bytes → Surfaces N → Surfaces N
  docs_of p (err e) y = surface_failed y
  docs_of p (ok body) y = elim (docs body) [
    | none ↦ surface_failed y
    | some ds ↦ harvest_docs p ds y
  ]

  -- The outer loop.
  unfoldable pub harvest_each : Bytes → List ProjectSummary → Surfaces N → Surfaces N
  unfolding docs_of surface_failed
  harvest_each org [] y = y
  harvest_each org (p ∷ ps) y =
      let path = projects_path org ++ (ascii "/" ++ (p.uuid ++ ascii "/docs")) in
      let (r, σ) = get_with_retry get path 5 y.session in
      harvest_each org ps (docs_of p r (record y { session = σ }))

  projects_of : Bytes → Result Bytes → Surfaces N → Surfaces N
  projects_of org (err e) y = surface_failed y
  projects_of org (ok body) y = elim (projects body) [
    | none ↦ surface_failed y
    | some ps ↦ harvest_each org ps y
  ]

  -- `harvestProjects`
  unfoldable pub harvest_projects : Bytes → Session N → Disk → Surfaces N
  unfolding projects_of surface_failed
  harvest_projects org σ d =
      let (r, τ) = get_with_retry get (projects_path org) 5 σ in
      projects_of org r (record { session = τ; disk = d; doc_n = 0; err_n = 0 })

  -- `harvestMemory` behind the request: whether a file was written, or the error.
  unfoldable pub memory_of : Bytes → Bytes → Result Bytes → Disk → Result Bool × Disk
  memory_of org now (err e) d = (err e, d)
  memory_of org now (ok body) d = elim (memory_blob body) [
    | none ↦ (err (other (ascii "parse memory: " ++ trunc body 200)), d)
    | some blob ↦
        let (w, e) =
          write_markdown hash_content memory_file_name (memory_markdown org now blob) d in
        if is_empty (trim_space blob)
        then (ok false, d)
        else (elim w [ none ↦ err (other (ascii "write")) | some manifest_ok ↦ ok true ], e)
  ]

  -- `harvestMemory`
  unfoldable pub harvest_memory :
      Bytes → Bytes → Session N → Disk → Result Bool × (Session N × Disk)
  harvest_memory org now σ d =
      let (r, τ) =
        get_with_retry get (ascii "/api/organizations/" ++ (org ++ ascii "/memory")) 5 σ in
      let (wrote, e) = memory_of org now r d in (wrote, (τ, e))
