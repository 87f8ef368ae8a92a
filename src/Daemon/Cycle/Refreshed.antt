-- ===== src/Daemon/Cycle/Refreshed.antt =====
-- daemon.go: what a `refreshSurfaces` that is recorded as complete leaves on disk.
use schroedinger_sync.Base.{
  ◌≡◌, refl, ◌∙◌, ap, arith, Bool, true, false, ◌&&◌, Option, none, some, List, leb, Bytes, ascii,
  ◌++◌,
}
use schroedinger_sync.Result.{Error, Result, ok, err}
use schroedinger_sync.Api.{ProjectSummary, ProjectDoc}
use schroedinger_sync.Fetch.{Session, get_with_retry, resolve_org}
use schroedinger_sync.Disk.{Disk}
use schroedinger_sync.Disk.Atomic.{at}
use schroedinger_sync.Integrity.Laws.{IsExport}
use schroedinger_sync.Surfaces.{harvest_projects, harvest_memory, memory_of}
use schroedinger_sync.Surfaces.Listing.{final, documents}
use schroedinger_sync.Surfaces.Written.{harvest_projects-final}
use schroedinger_sync.Surfaces.Remembered.{
  remembered, is_ok, blob_of, Remembers, memory_of-Remembers,
}
use schroedinger_sync.Daemon.Cycle.{surfaces_of, refresh_surfaces}

module _ {N : Type 0} (get : Bytes → N → Result Bytes × N) (open_session : N → Option Error × N)
    (close_session : N → N) (hash_content : Bytes → Bytes) where
  -- The memory that the server sends behind the project documents.
  abbrev pub memory_sent : Bytes → Session N → Disk → Option Bytes
  memory_sent org σ d =
      blob_of
        (get_with_retry get (ascii "/api/organizations/" ++ (org ++ ascii "/memory")) 5
          (harvest_projects get hash_content org σ d).session).0

  -- The disk `e` is `d` with the documents and the memory of the organization written over it, as far
  -- as file `k` goes.
  abbrev pub IsRefreshed : Bytes → Bytes → Result Bytes × Session N → Disk → Disk → Type 0
  IsRefreshed k now resolved d e =
      (org : Bytes) × (resolved.0 ≡ ok org)
      × (blob : Bytes) × (memory_sent org resolved.1 d ≡ some blob)
      × (qs : List (ProjectSummary × ProjectDoc)) × (documents get org resolved.1 ≡ some qs)
      × (at k e ≡ remembered org now blob k (final qs k (at k d)))

  found_blob :
      (k : Bytes) (x : IsExport k) (org now : Bytes) (answer : Option Bytes) (d : Disk)
      (w : Result Bool × Disk)
      → Remembers hash_content k x org now answer d w
      → is_ok w.0 ≡ true
      → (blob : Bytes) × (answer ≡ some blob) × (at k w.1 ≡ remembered org now blob k (at k d))
  found_blob k x org now answer d (ok wrote, f) h e = h
  found_blob k x org now answer d (err f, g) h e = absurd (cc e)

  surfaces_of-IsRefreshed :
      (k : Bytes) (x : IsExport k) (now : Bytes) (r : Result Bytes) (τ : Session N) (d : Disk)
      → (surfaces_of get open_session close_session hash_content now (r, τ) d).0 ≡ true
      → IsRefreshed k now
          (r, τ)
          d
          (surfaces_of get open_session close_session hash_content now (r, τ) d).1.1
  unfolding surfaces_of harvest_memory
  surfaces_of-IsRefreshed k x now (err e) τ d h = absurd (cc h)
  surfaces_of-IsRefreshed k x now (ok org) τ d h =
      let p = harvest_projects get hash_content org τ d in
      let answer =
        get_with_retry get (ascii "/api/organizations/" ++ (org ++ ascii "/memory")) 5 p.session in
      let w = memory_of get hash_content org now answer.0 p.disk in
      let both : (leb p.err_n 0 && is_ok w.0) ≡ true = h in
      let clean : p.err_n ≡ 0 = ground arith in
      let (qs, answered, count, file) = harvest_projects-final get hash_content k x org τ d clean in
      let (blob, sent, written) =
        found_blob k x org now (blob_of answer.0) p.disk w
          (memory_of-Remembers hash_content k x org now get answer.0 p.disk) (ground arith) in
      (org, refl, blob, sent, qs, answered, written ∙ ap (remembered org now blob k) file)

  -- A refresh that is reported as complete has resolved the organization, and has been answered the
  -- list of projects, every project's list of documents, and the memory; every file but the
  -- manifest's own is on disk as if those documents had been written one after the other, and behind
  -- them the memory, unless that is blank.
  pub refresh_surfaces-IsRefreshed :
      (k : Bytes)
      → IsExport k
      → (now : Bytes) (σ : Session N) (d : Disk)
      → (refresh_surfaces get open_session close_session hash_content now σ d).0 ≡ true
      → IsRefreshed k now
          (resolve_org get (record σ { net = (open_session σ.net).1 }))
          d
          (refresh_surfaces get open_session close_session hash_content now σ d).1.1
  unfolding refresh_surfaces
  refresh_surfaces-IsRefreshed k x now σ d = started (open_session σ.net).0
    where
      opened : Session N
      opened = record σ { net = (open_session σ.net).1 }

      done : Bool × (Session N × Disk)
      done = surfaces_of get open_session close_session hash_content now (resolve_org get opened) d

      result : Option Error → Bool × (Session N × Disk)
      result (some e) = (false, (opened, d))
      result none = (done.0, (record (done.1.0) { net = close_session done.1.0.net }, done.1.1))

      started :
          (failure : Option Error)
          → (result failure).0 ≡ true
          → IsRefreshed k now (resolve_org get opened) d (result failure).1.1
      started (some e) h = absurd (cc h)
      started none h =
          surfaces_of-IsRefreshed k x now (resolve_org get opened).0 (resolve_org get opened).1 d h
