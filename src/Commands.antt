-- ===== src/Commands.antt =====
-- The commands that open a session and end by themselves: `cdpHarvest` and `cdpSmoke` (cdp.go). What
-- is only printed on the way is left out.
pub mod Opened
pub mod Dispatch
pub mod Ends
pub mod Status
use schroedinger_sync.Base.{
  ℕ, ◌+◌, Bool, true, false, not, ◌||◌, Option, none, some, List, [], ◌∷◌, ◌++◌, if◌then◌else◌, ltb,
  is_empty, Bytes, ascii, ◌=?◌,
}
use schroedinger_sync.Result.{Error, Result, ok, err}
use schroedinger_sync.Api.{ConvSummary}
use schroedinger_sync.Api.Decode.{summaries}
use schroedinger_sync.Fetch.{Session, get_with_retry, resolve_org, list_all_conversations}
use schroedinger_sync.Disk.{Disk, mkdir_all}
use schroedinger_sync.Surfaces.{harvest_projects, harvest_memory}
use schroedinger_sync.Harvest.{Harvest, harvest_all}
use schroedinger_sync.Process.{
  Process, Ending, returns, exits, teardown, fatal, exit_on_session_failure, open_claude_session,
  main_returned,
}

-- The counters at the start of `cdpHarvest`'s loop.
abbrev pub fresh_harvest : {N : Type 0} → Session N → Disk → Harvest N
fresh_harvest σ d = record {
  session = σ;
  disk = d;
  new_n = 0;
  skip_n = 0;
  err_n = 0;
  manifest_err_n = 0;
}

module _ {N : Type 0} (get : Bytes → N → Result Bytes × N) (close : N → N) where
  -- `cdpSmoke` behind `resolveOrg`.
  unfoldable pub smoke_listed : Result Bytes → Process N → Ending N
  smoke_listed (err e) p = fatal close (ascii "FAIL @list:") p
  smoke_listed (ok body) p = elim (summaries body) [
    | none ↦ fatal close (ascii "FAIL @parse:") p
    | some convs ↦ returns (teardown close p)
  ]

  smoke_with : Bytes → Process N → Option (Ending N)
  smoke_with org p =
      let (r, σ) =
        get_with_retry get
          (ascii "/api/organizations/" ++ (org ++ ascii "/chat_conversations?limit=3&offset=0")) 5
          p.session in
      some (smoke_listed r (record p { session = σ }))

  module _ (hash_content : Bytes → Bytes) where
    -- The surfaces, and the report at the end; `now` is the time that the memory's file names.
    unfoldable pub harvest_reported : Bytes → Bytes → Bool × Harvest N → Process N → Ending N
    harvest_reported org now (finished, y) p =
        let s = harvest_projects get hash_content org y.session y.disk in
        let (memory, (σ, d)) = harvest_memory get hash_content org now s.session s.disk in
        let q = record p { session = σ; disk = d } in
        let failed =
          ltb 0 y.err_n || (ltb 0 s.err_n || elim memory [ err _ ↦ true | ok _ ↦ false ]) in
        if not finished
        then fatal close (ascii "session deadline exceeded mid-harvest")
            (record p { session = y.session; disk = y.disk })
        else if failed
        then fatal close (ascii "harvest completed WITH ERRORS") q
        else returns (teardown close q)

    -- Behind `listAllConversations`.
    unfoldable pub listed_harvest : Bytes → Bytes → Result (List ConvSummary) → Process N → Ending N
    listed_harvest org now (err e) p =
        fatal close (ascii "FAIL @list (harvest INCOMPLETE — not all conversations were listed):") p
    listed_harvest org now (ok all) p =
        let (made, d) = mkdir_all p.disk in
        let q = record p { disk = d } in
        if not made
        then fatal close (ascii "FAIL @mkdir:") q
        else harvest_reported org now
            (harvest_all get hash_content org all (fresh_harvest q.session d)) q

    harvest_with : ℕ → Bytes → Bytes → Process N → Option (Ending N)
    harvest_with fuel now org p = elim (list_all_conversations get fuel org p.session) [
      | none ↦ none
      | some (r, σ) ↦ some (listed_harvest org now r (record p { session = σ }))
    ]

module _ {N : Type 0} (get : Bytes → N → Result Bytes × N)
    (read_key : List Bytes → Result Bytes × List Bytes) (reparse_point : Bool)
    (navigate : Bytes → N → Option Error × N) (close : N → N) where
  -- The frame of the one-shot commands: the session is opened, and the organization resolved; what
  -- follows runs under the deferred `teardown`.
  unfoldable pub with_org : (Bytes → Process N → Option (Ending N)) → Process N → Option (Ending N)
  with_org body p =
      let (failure, q) = open_claude_session read_key reparse_point navigate close p in
      let (org, σ) = resolve_org get q.session in
      let r = record q { session = σ } in
      elim failure [
        | some e ↦ some (exit_on_session_failure close e q)
        | none ↦ elim org [ err e ↦ some (fatal close (ascii "FAIL @org:") r) | ok o ↦ body o r ]
      ]

  -- `cdpSmoke`
  unfoldable pub cdp_smoke : Process N → Option (Ending N)
  unfolding with_org smoke_with smoke_listed
  cdp_smoke p = with_org (smoke_with get close) p

  -- `cdpHarvest`; `none` if the listing runs out of fuel.
  unfoldable pub cdp_harvest : (Bytes → Bytes) → ℕ → Bytes → Process N → Option (Ending N)
  unfolding with_org harvest_with listed_harvest harvest_reported
  cdp_harvest hash_content fuel now p = with_org (harvest_with get close hash_content fuel now) p
