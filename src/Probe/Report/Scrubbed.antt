-- ===== src/Probe/Report/Scrubbed.antt =====
-- probe.go: the lines of the report and the registered secrets.
use schroedinger_sync.Base.{
  ℕ, ◌≡◌, refl, ap, true, false, inl, Option, none, some, List, [], ◌∷◌, Bytes,
}
use mathlib.Core.List.{append-nil}
use schroedinger_sync.Result.{Error, Result}
use schroedinger_sync.Text.Search.{has_prefix, contains}
use schroedinger_sync.Text.Search.Replace.{lacks}
use schroedinger_sync.Security.Redaction.{IsOpaque, registered, redact-lacks}
use schroedinger_sync.Security.Lines.{Clean, Clean-append, contains-Clean}
use schroedinger_sync.Fetch.{Session}
use schroedinger_sync.Fetch.InPage.{RawAnswer}
use schroedinger_sync.Probe.{Counts, tally_pages, no_counts}
use schroedinger_sync.Probe.Report.{
  Report, Folder, count_lines, w, w_all, probe_schema, probe_docs, probe_first_docs, probe_projects,
  probe_memory, probe_started, probe_report,
}

module _ {N : Type 0} (secrets : List Bytes) (c : ℕ) (v : Bytes) where
  abbrev IsScrubbed : Report N → Type 0
  IsScrubbed r = Clean secrets c v r.out

  module _ (o : IsOpaque (c ∷ v)) (nl : lacks (c ∷ v) b'\n' ≡ true)
      (known : registered secrets (c ∷ v) ≡ true) where
    lacks_of : (r : Report N) → IsScrubbed r → contains r.out (c ∷ v) ≡ false
    lacks_of r h =
        rw append-nil at
          (contains-Clean secrets c v r.out [] nl (unfold contains has_prefix in refl) h)

    w-IsScrubbed : (text : Bytes) (r : Report N) → IsScrubbed r → IsScrubbed (w secrets text r)
    unfolding w
    w-IsScrubbed text r h =
        Clean-append secrets c v r.out _ nl (redact-lacks secrets text (c ∷ v) o known) h

    w_all-IsScrubbed :
        (texts : List Bytes) (r : Report N) → IsScrubbed r → IsScrubbed (w_all secrets texts r)
    unfolding w_all
    w_all-IsScrubbed [] r h = h
    w_all-IsScrubbed (text ∷ texts) r h = w_all-IsScrubbed texts _ (w-IsScrubbed text r h)

    module _ (describe : Error → Bytes) (get : Bytes → N → Result Bytes × N)
        (raw_get : Bytes → N → Result RawAnswer × N) where
      probe_docs-IsScrubbed :
          (path : Bytes) (subs : List Bytes) (r : Report N)
          → IsScrubbed r
          → IsScrubbed (probe_docs secrets describe get raw_get path subs r)
      unfolding probe_docs
      probe_docs-IsScrubbed path [] r h = h
      probe_docs-IsScrubbed path (sub ∷ subs) r h =
          probe_docs-IsScrubbed path subs _ (w-IsScrubbed _ _ h)

      probe_first_docs-IsScrubbed :
          (org : Bytes) (projs : List Folder) (r : Report N)
          → IsScrubbed r
          → IsScrubbed (probe_first_docs secrets describe get raw_get org projs r)
      unfolding probe_first_docs
      probe_first_docs-IsScrubbed org [] r h = h
      probe_first_docs-IsScrubbed org (p ∷ ps) r h = probe_docs-IsScrubbed _ _ r h

      probe_projects-IsScrubbed :
          (org : Bytes) (r : Report N)
          → IsScrubbed r
          → IsScrubbed (probe_projects secrets describe get raw_get org r)
      unfolding probe_projects
      probe_projects-IsScrubbed org r h =
          probe_first_docs-IsScrubbed org _ _ (w_all-IsScrubbed _ _ (w-IsScrubbed _ r h))

      probe_memory-IsScrubbed :
          (org : Bytes) (r : Report N)
          → IsScrubbed r
          → IsScrubbed (probe_memory secrets describe get raw_get org r)
      unfolding probe_memory
      probe_memory-IsScrubbed org r h = w_all-IsScrubbed _ _ (w-IsScrubbed _ r h)

      probe_schema-IsScrubbed :
          (org : Bytes) (r : Report N)
          → IsScrubbed r
          → IsScrubbed (probe_schema secrets describe get raw_get org r)
      unfolding probe_schema
      probe_schema-IsScrubbed org r h = w_all-IsScrubbed _ _ h

      probe_started-IsScrubbed :
          (org now : Bytes) (σ : Session N)
          → IsScrubbed (probe_started secrets describe get raw_get org now σ)
      unfolding probe_started
      probe_started-IsScrubbed org now σ = w_all-IsScrubbed _ _ (inl refl)

      out_of : Report N → Option (Report N) → Bytes
      out_of r none = r.out
      out_of r (some q) = q.out

      pub probe_report-lacks :
          (fuel : ℕ) (now org : Bytes) (σ : Session N) (r : Report N)
          → probe_report secrets describe get raw_get fuel now org σ ≡ some r
          → contains r.out (c ∷ v) ≡ false
      unfolding probe_report out_of
      probe_report-lacks fuel now org σ r e =
          let start = probe_started secrets describe get raw_get org now σ in
          let q = probe_schema secrets describe get raw_get org start in
          counted (tally_pages get fuel org 0 no_counts q.session) q
            (probe_schema-IsScrubbed org start (probe_started-IsScrubbed org now σ)) e
        where
          counted :
              (t : Option (Counts × Session N)) (q : Report N)
              → IsScrubbed q
              → elim t as (λ _. Option (Report N)) [
                | none ↦ none
                | some (u, τ) ↦ some (
                    probe_memory secrets describe get raw_get org (
                      probe_projects secrets describe get raw_get org
                        (w_all secrets (count_lines describe u) (record q { session = τ }))))
              ]
                ≡ some r
              → contains r.out (c ∷ v) ≡ false
          counted none q h e = absurd (cc e)
          counted (some (u, τ)) q h e =
              let counts = w_all secrets (count_lines describe u) (record q { session = τ }) in
              let whole =
                probe_memory secrets describe get raw_get org
                  (probe_projects secrets describe get raw_get org counts) in
              let clean : IsScrubbed whole = probe_memory-IsScrubbed org _ (
                probe_projects-IsScrubbed org counts
                  (w_all-IsScrubbed (count_lines describe u) (record q { session = τ }) h)) in
              rw (ap (out_of r) e) at (lacks_of whole clean)
