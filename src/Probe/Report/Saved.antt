-- ===== src/Probe/Report/Saved.antt =====
-- What the probe leaves on disk.
use mathlib.Core.Path.{subst}
use schroedinger_sync.Base.{
  ℕ, take, ◌≡◌, refl, ◌∙◌, ap, Bool, true, false, ◌⊎◌, inl, inr, Option, none, some, List, ◌∷◌,
  Bytes, Bool-cases,
}
use schroedinger_sync.Result.{Error, Result}
use schroedinger_sync.Text.Search.{contains}
use schroedinger_sync.Text.Search.Replace.{lacks}
use schroedinger_sync.Text.Search.Heads.{contains-take}
use schroedinger_sync.Security.Redaction.{IsOpaque, registered}
use schroedinger_sync.Fetch.InPage.{RawAnswer}
use schroedinger_sync.Disk.{Disk, mkdir_all, write_file}
use schroedinger_sync.Disk.Atomic.{at, at-write_file_self}
use schroedinger_sync.Process.{Process, Ending, happens, teardown}
use schroedinger_sync.Process.Kept.{
  left, fatal-disk, exit_on_session_failure-disk, open_claude_session-Keeps,
}
use schroedinger_sync.Commands.Opened.{opened, with_org_cases}
use schroedinger_sync.Probe.Report.{Report, report_name, save_report, probed, probe_with, cdp_probe}
use schroedinger_sync.Probe.Report.Scrubbed.{probe_report-lacks}

module _ (secret : Bytes) where
  -- The report's file is the one of `old`, or it is without the secret.
  abbrev pub IsSpared : Disk → Disk → Type 0
  IsSpared old d =
      (at report_name d ≡ at report_name old)
      ⊎ ((text : Bytes) × (at report_name d ≡ some text) × (contains text secret ≡ false))

module _ (c : ℕ) (v : Bytes) where
  written-IsSpared :
      (out : Bytes) (d e : Disk)
      → contains out (c ∷ v) ≡ false
      → (at report_name e ≡ at report_name d) ⊎ ((n : ℕ) × (at report_name e ≡ some (take n out)))
      → IsSpared (c ∷ v) d e
  written-IsSpared out d e h (inl same) = inl same
  written-IsSpared out d e h (inr (n, s)) = inr (take n out, s, contains-take n out c v h)

  save_report-IsSpared :
      (out : Bytes) (d : Disk)
      → contains out (c ∷ v) ≡ false
      → IsSpared (c ∷ v) d (save_report out d).1
  unfolding save_report mkdir_all
  save_report-IsSpared out d h = elim (Bool-cases (mkdir_all d).0) [
    | inl made ↦
        rw (made, save_report)
          (written-IsSpared out d (write_file report_name out (mkdir_all d).1).1 h
            (at-write_file_self report_name out (mkdir_all d).1))
    | inr refused ↦ rw (refused, save_report) (inl refl)
  ]

  -- How a command that ends leaves the report.
  module _ {N : Type 0} (old : Disk) where
    abbrev Spares : Option (Ending N) → Type 0
    Spares none = Unit
    Spares (some x) = IsSpared (c ∷ v) old (left x).disk

    Spares-some :
        (x : Ending N) (o : Option (Ending N))
        → o ≡ some x
        → Spares o
        → IsSpared (c ∷ v) old (left x).disk
    Spares-some x o e h = rw e at h

  module _ {N : Type 0} (describe : Error → Bytes) (get : Bytes → N → Result Bytes × N)
      (raw_get : Bytes → N → Result RawAnswer × N) (close : N → N) (o : IsOpaque (c ∷ v))
      (nl : lacks (c ∷ v) b'\n' ≡ true) where
    probed-Spares :
        (r : Option (Report N)) (p : Process N) (d : Disk)
        → p.disk ≡ d
        → ((q : Report N) → r ≡ some q → contains q.out (c ∷ v) ≡ false)
        → Spares d (probed describe get raw_get close r p)
    unfolding probed teardown happens
    probed-Spares none p d same h = tt
    probed-Spares (some r) p d same h =
        subst (λ e. IsSpared (c ∷ v) e (save_report r.out p.disk).1) same
          (save_report-IsSpared r.out p.disk (h r refl))

    -- A secret that is registered when the session has been opened, the session key itself above all,
    -- is not in the report that the probe leaves, however the writing of it goes: the file is the one
    -- that was there before, or holds no such secret. The secret is a text without a newline that the
    -- placeholder cannot bring back.
    pub cdp_probe-IsSpared :
        (read_key : List Bytes → Result Bytes × List Bytes) (reparse_point : Bool)
        (navigate : Bytes → N → Option Error × N) (fuel : ℕ) (now : Bytes) (p : Process N)
        (x : Ending N)
        → registered (read_key p.secrets).1 (c ∷ v) ≡ true
        → cdp_probe describe get raw_get close read_key reparse_point navigate fuel now p ≡ some x
        → IsSpared (c ∷ v) p.disk (left x).disk
    unfolding cdp_probe probe_with
    cdp_probe-IsSpared read_key reparse_point navigate fuel now p x known e =
        let q = opened get read_key reparse_point navigate close p in
        let (disk, secrets) = open_claude_session-Keeps read_key reparse_point navigate close p in
        let kept : registered q.secrets (c ∷ v) ≡ true = rw secrets known in
        Spares-some p.disk x _ e (
          with_org_cases get read_key reparse_point navigate close p (Spares p.disk)
            (probe_with describe get raw_get close fuel now)
            (λ f. inl (ap (at report_name) (exit_on_session_failure-disk close f q ∙ disk)))
            (λ σ. inl (ap (at report_name) (fatal-disk close _ (record q { session = σ }) ∙ disk)))
            (λ org σ.
              probed-Spares _ (record q { session = σ }) p.disk disk
                (probe_report-lacks q.secrets c v o nl kept describe get raw_get fuel now org σ)))
