-- ===== src/Surfaces/Written.antt =====
-- surfaces.go: what a harvest of the project documents without an error leaves on disk.
use mathlib.Core.Path.{subst}
use schroedinger_sync.Base.{
  ◌+◌, ◌≤◌, ◌≡◌, refl, sym, ◌∙◌, ap, arith, Bool, true, false, Option, none, some, List, [], ◌∷◌,
  if◌then◌else◌, ◌++◌, map, length, length-append, ascii, Bytes, ◌=?◌, =?_iff, Bool-cases, ◌⊎◌, inl,
  inr,
}
use schroedinger_sync.Result.{Result, ok, err}
use schroedinger_sync.Api.{ProjectSummary, ProjectDoc}
use schroedinger_sync.Api.Decode.{projects, docs}
use schroedinger_sync.Names.{doc_filename}
use schroedinger_sync.Fetch.{Session, sleep, get_with_retry}
use schroedinger_sync.Disk.{Disk}
use schroedinger_sync.Disk.Atomic.{at}
use schroedinger_sync.Integrity.{write_markdown}
use schroedinger_sync.Integrity.Laws.{IsExport, write_markdown-written, write_markdown-others}
use schroedinger_sync.Surfaces.{
  Surfaces, doc_markdown, surface_failed, doc_written, projects_path, harvest_docs, docs_of,
  harvest_each, projects_of, harvest_projects,
}
use schroedinger_sync.Surfaces.Listing.{
  final, paused, listed, joined, documents_of, documents, final-append,
}

module _ {N : Type 0} (get : Bytes → N → Result Bytes × N) (hash_content : Bytes → Bytes)
    (k : Bytes) (x : IsExport k) where
  -- Between `y` and `z` errors have been counted, or the documents have been counted and written.
  abbrev Harvests : List (ProjectSummary × ProjectDoc) → Surfaces N → Surfaces N → Type 0
  Harvests qs y z =
      (y.err_n ≤ z.err_n)
      × (z.err_n ≡ y.err_n
          → (z.doc_n ≡ length qs + y.doc_n) × (at k z.disk ≡ final qs k (at k y.disk)))

  Harvests-trans :
      (qs rs : List (ProjectSummary × ProjectDoc)) (y z w : Surfaces N)
      → Harvests qs y z
      → Harvests rs z w
      → Harvests (qs ++ rs) y w
  Harvests-trans qs rs y z w (grows, first) (grows', later) = (omega arith, both)
    where
      both :
          w.err_n ≡ y.err_n
          → (w.doc_n ≡ length (qs ++ rs) + y.doc_n)
            × (at k w.disk ≡ final (qs ++ rs) k (at k y.disk))
      both e =
          let (count, file) = first (omega arith) in
          let (count', file') = later (omega arith) in
          (
            omega (arith, length-append qs rs),
            file' ∙ ap (final rs k) file ∙ sym (final-append qs rs k (at k y.disk)),
          )

  doc_written-Harvests :
      (p : ProjectSummary) (d : ProjectDoc) (y : Surfaces N)
      → Harvests
          ((p, d) ∷ [])
          y
          (doc_written (write_markdown hash_content (doc_filename p d) (doc_markdown p d) y.disk) y)
  unfolding doc_written
  doc_written-Harvests p d y =
      cases (write_markdown hash_content (doc_filename p d) (doc_markdown p d) y.disk)
        (write_markdown-written hash_content (doc_filename p d) (doc_markdown p d) y.disk)
        (write_markdown-others hash_content (doc_filename p d) (doc_markdown p d) y.disk k x)
    where
      fname : Bytes
      fname = doc_filename p d

      content : Bytes
      content = doc_markdown p d

      cases :
          (w : Option Bool × Disk)
          → (IsExport fname → (m : Bool) → w.0 ≡ some m → at fname w.1 ≡ some content)
          → ((fname =? k) ≡ false → at k w.1 ≡ at k y.disk)
          → Harvests ((p, d) ∷ []) y (doc_written w y)
      cases (none, e) done kept = (omega arith, λ same. absurd (omega arith))
      cases (some m, e) done kept =
          (omega arith, λ _. (omega arith, file (Bool-cases (fname =? k))))
        where
          file :
              ((fname =? k) ≡ true) ⊎ ((fname =? k) ≡ false)
              → at k e ≡ (if fname =? k then some content else at k y.disk)
          file (inl hit) =
              let same = (=?_iff fname k).0 hit in
              rw hit (
                subst (λ n. at n e ≡ some content) same (done (subst IsExport (sym same) x) m refl))
          file (inr miss) = rw miss (kept miss)

  harvest_docs-Harvests :
      (p : ProjectSummary) (ds : List ProjectDoc) (y : Surfaces N)
      → Harvests (map (λ d. (p, d)) ds) y (harvest_docs get hash_content p ds y)
  unfolding harvest_docs
  harvest_docs-Harvests p [] y = (omega arith, λ _. (omega arith, refl))
  harvest_docs-Harvests p (d ∷ ds) y =
      let z =
        doc_written (write_markdown hash_content (doc_filename p d) (doc_markdown p d) y.disk) y in
      Harvests-trans ((p, d) ∷ []) (map (λ d. (p, d)) ds) y z
        (harvest_docs get hash_content p ds (record z { session = sleep 150 z.session }))
        (doc_written-Harvests p d y)
        (harvest_docs-Harvests p ds (record z { session = sleep 150 z.session }))

  doc_written-session :
      (w : Option Bool × Disk) (y : Surfaces N) → (doc_written w y).session ≡ y.session
  unfolding doc_written
  doc_written-session (none, e) y = refl
  doc_written-session (some m, e) y = refl

  harvest_docs-paused :
      (p : ProjectSummary) (ds : List ProjectDoc) (y : Surfaces N)
      → (harvest_docs get hash_content p ds y).session ≡ paused (length ds) y.session
  unfolding harvest_docs
  harvest_docs-paused p [] y = refl
  harvest_docs-paused p (d ∷ ds) y =
      harvest_docs-paused p ds _
      ∙ ap (λ σ. paused (length ds) (sleep 150 σ)) (doc_written-session _ y)

  -- Behind the answer about one project: an error was counted, or its documents were written.
  abbrev Answered : ProjectSummary → Option (List ProjectDoc) → Surfaces N → Surfaces N → Type 0
  Answered p none y z = z.err_n ≡ 1 + y.err_n
  Answered p (some ds) y z =
      Harvests (map (λ d. (p, d)) ds) y z × (z.session ≡ paused (length ds) y.session)

  docs_of-Answered :
      (p : ProjectSummary) (r : Result Bytes) (y : Surfaces N)
      → Answered p (listed r) y (docs_of get hash_content p r y)
  unfolding docs_of surface_failed
  docs_of-Answered p (err e) y = omega arith
  docs_of-Answered p (ok body) y = cases (docs body)
    where
      cases :
          (o : Option (List ProjectDoc))
          → Answered p o y
              (elim o [ none ↦ surface_failed y | some ds ↦ harvest_docs get hash_content p ds y ])
      cases none = omega arith
      cases (some ds) = (harvest_docs-Harvests p ds y, harvest_docs-paused p ds y)

  -- Between `y` and `z` errors have been counted, or the lists were all answered, and their documents
  -- counted and written.
  abbrev Completes : Option (List (ProjectSummary × ProjectDoc)) → Surfaces N → Surfaces N → Type 0
  Completes o y z =
      (y.err_n ≤ z.err_n)
      × (z.err_n ≡ y.err_n
          → (qs : List (ProjectSummary × ProjectDoc)) × (o ≡ some qs)
            × (z.doc_n ≡ length qs + y.doc_n)
            × (at k z.disk ≡ final qs k (at k y.disk)))

  Completes-joined :
      (p : ProjectSummary) (ds : List ProjectDoc) (o : Option (List (ProjectSummary × ProjectDoc)))
      (y z w : Surfaces N)
      → Harvests (map (λ d. (p, d)) ds) y z
      → Completes o z w
      → Completes (joined p ds o) y w
  Completes-joined p ds o y z w first (grows, later) = (omega (arith, first.0), both)
    where
      both :
          w.err_n ≡ y.err_n
          → (qs : List (ProjectSummary × ProjectDoc)) × (joined p ds o ≡ some qs)
            × (w.doc_n ≡ length qs + y.doc_n)
            × (at k w.disk ≡ final qs k (at k y.disk))
      both e =
          let (rs, answered, count, file) = later (omega (arith, first.0)) in
          let (grown, whole) =
            Harvests-trans (map (λ d. (p, d)) ds) rs y z w first (grows, λ _. (count, file)) in
          let (counted, written) = whole e in
          (map (λ d. (p, d)) ds ++ rs, ap (joined p ds) answered, counted, written)

  harvest_each-Completes :
      (org : Bytes) (ps : List ProjectSummary) (y : Surfaces N)
      → Completes (documents_of get org ps y.session) y (harvest_each get hash_content org ps y)
  unfolding harvest_each
  harvest_each-Completes org [] y = (omega arith, λ _. ([], refl, omega arith, refl))
  harvest_each-Completes org (p ∷ ps) y =
      from_answer (listed asked.0) (docs_of-Answered p asked.0 (record y { session = asked.1 }))
        (harvest_each-Completes org ps z)
    where
      asked : Result Bytes × Session N
      asked =
          get_with_retry get (projects_path org ++ (ascii "/" ++ (p.uuid ++ ascii "/docs"))) 5
            y.session

      z : Surfaces N
      z = docs_of get hash_content p asked.0 (record y { session = asked.1 })

      w : Surfaces N
      w = harvest_each get hash_content org ps z

      from_answer :
          (o : Option (List ProjectDoc))
          → Answered p o (record y { session = asked.1 }) z
          → Completes (documents_of get org ps z.session) z w
          → Completes
              (elim o [
                | none ↦ none
                | some ds ↦ joined p ds (documents_of get org ps (paused (length ds) asked.1))
              ])
              y
              w
      from_answer none failed (grows, later) = (omega arith, λ same. absurd (omega arith))
      from_answer (some ds) (found, session) later =
          Completes-joined p ds (documents_of get org ps (paused (length ds) asked.1)) y z w found
            (subst (λ σ. Completes (documents_of get org ps σ) z w) session later)

  -- A harvest that counts no error has been answered every list of documents, has counted every
  -- document, and every file but the manifest's own is on disk as if those documents had been written
  -- one after the other.
  pub harvest_projects-final :
      (org : Bytes) (σ : Session N) (d : Disk)
      → (harvest_projects get hash_content org σ d).err_n ≡ 0
      → (qs : List (ProjectSummary × ProjectDoc)) × (documents get org σ ≡ some qs)
        × ((harvest_projects get hash_content org σ d).doc_n ≡ length qs)
        × (at k (harvest_projects get hash_content org σ d).disk ≡ final qs k (at k d))
  unfolding harvest_projects projects_of surface_failed
  harvest_projects-final org σ d h = from_list asked.1 asked.0 h
    where
      asked : Result Bytes × Session N
      asked = get_with_retry get (projects_path org) 5 σ

      start : Session N → Surfaces N
      start τ = record { session = τ; disk = d; doc_n = 0; err_n = 0 }

      listing :
          Session N → Option (List ProjectSummary) → Option (List (ProjectSummary × ProjectDoc))
      listing τ none = none
      listing τ (some ps) = documents_of get org ps τ

      harvested : Session N → Option (List ProjectSummary) → Surfaces N
      harvested τ none = surface_failed (start τ)
      harvested τ (some ps) = harvest_each get hash_content org ps (start τ)

      Complete : Option (List (ProjectSummary × ProjectDoc)) → Surfaces N → Type 0
      Complete o z =
          (qs : List (ProjectSummary × ProjectDoc)) × (o ≡ some qs)
          × (z.doc_n ≡ length qs)
          × (at k z.disk ≡ final qs k (at k d))

      complete :
          (τ : Session N) (o : Option (List ProjectSummary))
          → (harvested τ o).err_n ≡ 0
          → Complete (listing τ o) (harvested τ o)
      complete τ none e = absurd (omega arith)
      complete τ (some ps) e =
          let (grows, found) = harvest_each-Completes org ps (start τ) in
          let (qs, answered, count, file) = found e in (qs, answered, count ∙ omega arith, file)

      seen : Session N → Result Bytes → Option (List (ProjectSummary × ProjectDoc))
      seen τ (err e) = none
      seen τ (ok body) = listing τ (projects body)

      from_list :
          (τ : Session N) (r : Result Bytes)
          → (projects_of get hash_content org r (start τ)).err_n ≡ 0
          → Complete (seen τ r) (projects_of get hash_content org r (start τ))
      from_list τ (err e) failed = absurd (omega arith)
      from_list τ (ok body) e = complete τ (projects body) e
