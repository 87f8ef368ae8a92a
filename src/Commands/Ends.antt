-- ===== src/Commands/Ends.antt =====
-- How the one-shot commands of main.go end: the exit, the flush of the redactor, and Chrome.
use schroedinger_sync.Base.{
  ℕ, ◌≡◌, refl, ap, Bool, true, false, Option, none, some, List, if◌then◌else◌, Bytes, ascii,
  Bool-cases, inl, inr,
}
use schroedinger_sync.Result.{Error, Result, ok, err}
use schroedinger_sync.Api.{ConvSummary}
use schroedinger_sync.Api.Decode.{summaries}
use schroedinger_sync.Fetch.{Session, list_all_conversations}
use schroedinger_sync.Disk.{mkdir_all}
use schroedinger_sync.Harvest.{Harvest}
use schroedinger_sync.Process.{Process, Ending, returns, main_returned, fatal, teardown}
use schroedinger_sync.Process.Endings.{
  IsOver, IsQuiet, IsLive, IsEnd, status, teardown-IsEnd, fatal-IsEnd,
  exit_on_session_failure-IsEnd, main_returned-IsOver, open_claude_session-IsLive,
}
use schroedinger_sync.Commands.{
  with_org, smoke_listed, smoke_with, cdp_smoke, harvest_reported, listed_harvest, harvest_with,
  cdp_harvest,
}
use schroedinger_sync.Probe.Report.{Report, probed, probe_with, cdp_probe}
use schroedinger_sync.Fetch.InPage.{RawAnswer}
use schroedinger_sync.Commands.Opened.{with_org_cases}
use schroedinger_sync.Commands.Dispatch.{
  Command, run_harvest, run_probe, run_watch, run_supervise, run_tray, run_install_task,
  run_uninstall_task, run_cleanup_temp, run_smoke, unknown, command_of, run, main,
}

-- The commands that end by themselves on a session: the harvest, the smoke test, the probe, and the
-- unknown one.
abbrev pub is_one_shot : Command → Bool
is_one_shot run_harvest = true
is_one_shot run_smoke = true
is_one_shot run_probe = true
is_one_shot unknown = true
is_one_shot _ = false

module _ {N : Type 0} (get : Bytes → N → Result Bytes × N)
    (read_key : List Bytes → Result Bytes × List Bytes) (reparse_point : Bool)
    (navigate : Bytes → N → Option Error × N) (close : N → N) where
  -- The ending of a command; `B` is what no ending says.
  abbrev Ends : Type 0 → Option (Ending N) → Type 0
  Ends B none = B
  Ends B (some x) = IsEnd x

  Ends-some : (o : Option (Ending N)) → Ends ⊥ o → (x : Ending N) × (o ≡ some x) × IsEnd x
  Ends-some (some x) h = (x, refl, h)
  Ends-some none h = absurd h

  with_org-Ends :
      (B : Type 0) (body : Bytes → Process N → Option (Ending N))
      → ((org : Bytes) (q : Process N) → IsLive q → Ends B (body org q))
      → (p : Process N) → IsQuiet p
      → Ends B (with_org get read_key reparse_point navigate close body p)
  with_org-Ends B body h p quiet =
      let live = open_claude_session-IsLive read_key reparse_point navigate close p quiet in
      with_org_cases get read_key reparse_point navigate close p (Ends B) body
        (λ e. exit_on_session_failure-IsEnd close e _ live) (λ σ. fatal-IsEnd close _ _ live)
        (λ org σ. h org _ live)

  smoke_listed-IsEnd :
      (r : Result Bytes) (p : Process N) → IsLive p → IsEnd (smoke_listed get close r p)
  unfolding smoke_listed
  smoke_listed-IsEnd (err e) p h = fatal-IsEnd close _ p h
  smoke_listed-IsEnd (ok body) p h = cases (summaries body)
    where
      cases :
          (convs : Option (List ConvSummary))
          → IsEnd (elim convs [
            | none ↦ fatal close (ascii "FAIL @parse:") p
            | some convs ↦ returns (teardown close p)
          ])
      cases none = fatal-IsEnd close _ p h
      cases (some convs) = teardown-IsEnd close p h

  smoke_with-Ends : (org : Bytes) (p : Process N) → IsLive p → Ends ⊥ (smoke_with get close org p)
  unfolding smoke_with
  smoke_with-Ends org p h = smoke_listed-IsEnd _ _ h

  module _ (hash_content : Bytes → Bytes) where
    harvest_reported-IsEnd :
        (org now : Bytes) (r : Bool × Harvest N) (p : Process N)
        → IsLive p
        → IsEnd (harvest_reported get close hash_content org now r p)
    unfolding harvest_reported
    harvest_reported-IsEnd org now (false, y) p h = fatal-IsEnd close _ _ h
    harvest_reported-IsEnd org now (true, y) p h = choice _ _ _ h
      where
        choice :
            (failed : Bool) (message : Bytes) (q : Process N)
            → IsLive q
            → IsEnd (if failed then fatal close message q else returns (teardown close q))
        choice true message q h = fatal-IsEnd close message q h
        choice false message q h = teardown-IsEnd close q h

    listed_harvest-IsEnd :
        (org now : Bytes) (r : Result (List ConvSummary)) (p : Process N)
        → IsLive p
        → IsEnd (listed_harvest get close hash_content org now r p)
    unfolding listed_harvest
    listed_harvest-IsEnd org now (err e) p h = fatal-IsEnd close _ p h
    listed_harvest-IsEnd org now (ok all) p h = elim (Bool-cases (mkdir_all p.disk).0) [
      | inl made ↦ rw made (harvest_reported-IsEnd org now _ _ h)
      | inr refused ↦ rw refused (fatal-IsEnd close _ _ h)
    ]

    harvest_with-Ends :
        (fuel : ℕ) (now org : Bytes) (p : Process N)
        → IsLive p
        → Ends Unit (harvest_with get close hash_content fuel now org p)
    unfolding harvest_with
    harvest_with-Ends fuel now org p h = cases (list_all_conversations get fuel org p.session)
      where
        cases :
            (listed : Option (Result (List ConvSummary) × Session N))
            → Ends Unit (elim listed [
              | none ↦ none
              | some (r, σ) ↦
                  some (listed_harvest get close hash_content org now r (record p { session = σ }))
            ])
        cases none = tt
        cases (some (r, σ)) = listed_harvest-IsEnd org now r _ h

  module _ (describe : Error → Bytes) (raw_get : Bytes → N → Result RawAnswer × N) where
    probed-Ends :
        (r : Option (Report N)) (p : Process N)
        → IsLive p
        → Ends Unit (probed describe get raw_get close r p)
    unfolding probed
    probed-Ends none p h = tt
    probed-Ends (some r) p h = teardown-IsEnd close _ h

    probe_with-Ends :
        (fuel : ℕ) (now org : Bytes) (p : Process N)
        → IsLive p
        → Ends Unit (probe_with describe get raw_get close fuel now org p)
    unfolding probe_with
    probe_with-Ends fuel now org p h = probed-Ends _ p h

  -- The process of a smoke test exits once, behind the flush of the redactor, with no Chrome left.
  pub cdp_smoke-IsOver :
      (p : Process N)
      → IsQuiet p
      → (x : Ending N) × (cdp_smoke get read_key reparse_point navigate close p ≡ some x)
        × IsOver (status x) (main_returned close x).events
  unfolding cdp_smoke
  cdp_smoke-IsOver p h =
      let (x, e, end) = Ends-some _ (with_org-Ends ⊥ (smoke_with get close) smoke_with-Ends p h) in
      (x, e, main_returned-IsOver close x end)

  module _ (hash_content : Bytes → Bytes) (fuel : ℕ) (now : Bytes) (describe : Error → Bytes)
      (raw_get : Bytes → N → Result RawAnswer × N)
      (others : Command → Process N → Option (Ending N)) where
    weaken : (o : Option (Ending N)) → Ends ⊥ o → Ends Unit o
    weaken (some x) h = h
    weaken none h = tt

    run-Ends :
        (c : Command) (p : Process N)
        → is_one_shot c ≡ true
        → IsQuiet p
        → Ends Unit (
            run get read_key reparse_point navigate close hash_content fuel now describe raw_get
              others c p)
    unfolding run cdp_harvest cdp_smoke cdp_probe
    run-Ends run_harvest p one h =
        with_org-Ends Unit (harvest_with get close hash_content fuel now)
          (harvest_with-Ends hash_content fuel now) p h
    run-Ends run_smoke p one h =
        weaken _ (with_org-Ends ⊥ (smoke_with get close) smoke_with-Ends p h)
    run-Ends unknown p one (a, h, c) = fatal-IsEnd close _ p (h, rw a c)
    run-Ends run_probe p one h =
        with_org-Ends Unit (probe_with describe get raw_get close fuel now)
          (probe_with-Ends describe raw_get fuel now) p h
    run-Ends run_watch p one h = absurd (cc one)
    run-Ends run_supervise p one h = absurd (cc one)
    run-Ends run_tray p one h = absurd (cc one)
    run-Ends run_install_task p one h = absurd (cc one)
    run-Ends run_uninstall_task p one h = absurd (cc one)
    run-Ends run_cleanup_temp p one h = absurd (cc one)

    -- A process that starts without a session, that was asked for a harvest, for the smoke test, for
    -- the probe or for an unknown command, and that ends, has exited exactly once, behind the flush of
    -- the redactor, and leaves no Chrome. The daemons and the tray are not meant.
    pub main-IsOver :
        (args : List Bytes) (p q : Process N)
        → is_one_shot (command_of args) ≡ true
        → IsQuiet p
        → main get read_key reparse_point navigate close hash_content fuel now describe raw_get
            others args p
          ≡ some q
        → (code : ℕ) × IsOver code q.events
    unfolding main
    main-IsOver args p q one h e =
        ended
          (run get read_key reparse_point navigate close hash_content fuel now describe raw_get
            others (command_of args) p)
          (run-Ends (command_of args) p one h) e
      where
        ended :
            (o : Option (Ending N))
            → Ends Unit o
            → elim o as (λ _. Option (Process N)) [
              | none ↦ none
              | some x ↦ some (main_returned close x)
            ]
              ≡ some q
            → (code : ℕ) × IsOver code q.events
        ended none g e = absurd (cc e)
        ended (some x) g e =
            let same : main_returned close x ≡ q = ap (λ o. elim o [ none ↦ q | some z ↦ z ]) e in
            (status x, rw same at (main_returned-IsOver close x g))
