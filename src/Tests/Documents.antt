-- ===== src/Tests/Documents.antt =====
-- A project with a document, harvested.
use schroedinger_sync.Base.{ℕ, ◌+◌, ◌≡◌, refl, none, some, if◌then◌else◌, Bytes, ascii, ◌=?◌}
use schroedinger_sync.Text.Search.{has_prefix, has_suffix, contains, trim_suffix, lower}
use schroedinger_sync.Text.Runes.{trunc, trim_space}
use schroedinger_sync.Result.{Result, ok}
use schroedinger_sync.Json.Decode.{unmarshal, slice}
use schroedinger_sync.Api.Decode.{organizations, projects, docs, memory_blob}
use schroedinger_sync.Names.{doc_filename, doc_base, path_safe, sanitize, collapse, is_bad}
use schroedinger_sync.Fetch.{
  resolve_org, first_org, get_with_retry, get_with_retry_delay, attempt, judge, is_rate_limited,
  looks_like_challenge,
}
use schroedinger_sync.Disk.{Disk, write_file, save_atomically, create_temp, close_file, rename}
use schroedinger_sync.Integrity.{save_manifest, write_markdown}
use schroedinger_sync.Base.Map.{lookup, insert, erase}
use schroedinger_sync.Surfaces.{
  harvest_docs, harvest_each, harvest_projects, harvest_memory, memory_of, doc_markdown,
}
use schroedinger_sync.Surfaces.Listing.{final, documents}
use schroedinger_sync.Daemon.Cycle.{refresh_surfaces}
use schroedinger_sync.Daemon.Cycle.Refreshed.{IsRefreshed, refresh_surfaces-IsRefreshed}
use schroedinger_sync.Tests.Server.{no_hash, session, empty_disk}

-- A server with one project, one document of it, and a memory.
abbrev library : Bytes → ℕ → Result Bytes × ℕ
library path n = (
  ok (
      if contains path (ascii "/docs")
      then ascii "[{\"uuid\":\"q\",\"file_name\":\"N\",\"content\":\"text\"}]"
      else if contains path (ascii "/projects")
      then ascii "[{\"uuid\":\"p\",\"name\":\"P\"}]"
      else if contains path (ascii "/memory")
      then ascii "{\"memory\":\"kept\"}"
      else ascii "[{\"uuid\":\"o\"}]"),
  n + 1,
)

abbrev refreshed : Disk
refreshed =
    (refresh_surfaces library (λ n. (none, n)) (λ n. n) no_hash (ascii "now") session
      empty_disk).1.1

refresh_surfaces-IsRefreshed_example :
    IsRefreshed library
      (λ n. (none, n))
      (λ n. n)
      no_hash
      (ascii "project_p_q_N.md")
      (ascii "now")
      (resolve_org library session)
      empty_disk
      refreshed
unfolding refresh_surfaces resolve_org harvest_projects harvest_each harvest_docs memory_of
    harvest_memory get_with_retry get_with_retry_delay attempt judge is_rate_limited
    looks_like_challenge contains has_prefix trim_space projects docs memory_blob unmarshal slice
    ◌=?◌ write_markdown write_file first_org organizations save_manifest save_atomically create_temp
    close_file rename lookup insert erase doc_filename doc_base path_safe trunc sanitize collapse
    trim_suffix has_suffix is_bad
refresh_surfaces-IsRefreshed_example =
    refresh_surfaces-IsRefreshed library (λ n. (none, n)) (λ n. n) no_hash
      (ascii "project_p_q_N.md") (refl, refl) (ascii "now") session empty_disk refl

-- The server lists one document, and this is its file.
one_document :
    elim (documents library (ascii "o") session) [
      | none ↦ none
      | some qs ↦ final qs (ascii "project_p_q_N.md") none
    ]
    ≡ some (ascii "# N\n\n- Project: P (p)\n- Doc UUID: q\n- Created: \n\n---\n\ntext\n")
unfolding get_with_retry get_with_retry_delay attempt judge is_rate_limited looks_like_challenge
    contains has_prefix trim_space projects docs unmarshal slice ◌=?◌ doc_filename doc_base
    path_safe sanitize collapse is_bad trim_suffix has_suffix lower doc_markdown trunc
one_document = refl
