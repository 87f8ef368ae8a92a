-- ===== src/Probe/Report.antt =====
-- probe.go: `cdpProbe` behind the opening of the session, and its report probe-report.txt.
pub mod Scrubbed
pub mod Saved
use schroedinger_sync.Base.{
  ℕ, Bool, true, false, Option, none, some, List, [], ◌∷◌, ◌++◌, map, if◌then◌else◌, length, Bytes,
  ascii,
}
use schroedinger_sync.Base.Map.{Map, insert}
use schroedinger_sync.Text.Decimal.{show}
use schroedinger_sync.Text.Runes.{trunc}
use schroedinger_sync.Text.Search.{replace_all}
use schroedinger_sync.Text.Format.{pad_right, cut, plain_quote, show_list, show_map}
use schroedinger_sync.Result.{Error, Result, ok, err}
use schroedinger_sync.Json.{Value, null, object, Members, end, member}
use schroedinger_sync.Json.Read.{parse}
use schroedinger_sync.Json.Decode.{Decoded, well, ill, text_into, struct, slice, unmarshal, names}
use schroedinger_sync.Json.Write.{sorted}
use schroedinger_sync.Fetch.{Session, sleep, get_with_retry}
use schroedinger_sync.Fetch.InPage.{RawAnswer}
use schroedinger_sync.Security.{redact}
use schroedinger_sync.Disk.{Disk, mkdir_all, write_file}
use schroedinger_sync.Process.{Process, Ending, returns, teardown}
use schroedinger_sync.Commands.{with_org}
use schroedinger_sync.Probe.{Counts, tally_pages, no_counts}

-- What the probe has written: the report's text, and what went to stdout, write by write.
pub record Report (N : Type 0) : Type 0 where
  pub session : Session N
  pub out : Bytes
  pub printed : List Bytes

-- The em dash.
abbrev pub dash : Bytes
dash = 0xE2 ∷ 0x80 ∷ 0x94 ∷ []

raw_members : Members → Map Bytes → Map Bytes
raw_members end m = m
raw_members (member k raw v ms) m = raw_members ms (insert k raw m)

-- A `map[string]json.RawMessage`.
raw_map : Value → Decoded (Map Bytes)
unfolding raw_members
raw_map (object ms) = well (raw_members ms [])
raw_map null = well []
raw_map _ = ill []

-- The keys of the first summary in order, if the body is a list of objects that is not empty.
keys_of : Option (List (Map Bytes)) → Option (List Bytes)
keys_of none = none
keys_of (some []) = none
keys_of (some (m ∷ _)) = some (map (λ (e : Bytes × Bytes). e.0) (sorted m))

unfoldable pub summary_keys : Bytes → Option (List Bytes)
unfolding keys_of raw_map unmarshal slice
summary_keys body = keys_of (unmarshal (slice raw_map) body)

-- A project of the list.
pub record Folder : Type 0 where
  pub uuid : Bytes
  pub name : Bytes

folder_field : Bytes → Bytes → Value → Folder → Decoded Folder
unfolding names text_into
folder_field k raw v p =
    if names (ascii "uuid") k
    then text_into (λ t. record p { uuid = t }) p v
    else if names (ascii "name") k
    then text_into (λ t. record p { name = t }) p v
    else well p

-- What `Unmarshal` leaves in `projs`, and whether it returns no error: an ill-typed field leaves the
-- projects that could be read.
folders_of : Option Value → Decoded (List Folder)
unfolding folder_field
folders_of none = ill []
folders_of (some v) = slice (struct (record { uuid = []; name = [] }) folder_field) v

unfoldable pub folders : Bytes → Decoded (List Folder)
unfolding folders_of slice struct
folders body = folders_of (parse body)

abbrev one_line : Bytes → Bytes
one_line body = replace_all body (ascii "\n") (ascii " ")

-- The value of `first` and `projBody` behind an error is empty.
abbrev body_of : Result Bytes → Bytes
body_of (ok body) = body
body_of (err e) = []

shown : Map ℕ → Map Bytes
shown m = sorted (map (λ (e : Bytes × ℕ). (e.0, show e.1)) m)

-- The answer of `rawGet`, its error ignored.
abbrev answered : Result RawAnswer → RawAnswer
answered (ok a) = a
answered (err e) = record { status = 0; head = [] }

module _ (describe : Error → Bytes) where
  -- The lines of the first page.
  unfoldable pub schema_line : Result Bytes → Bytes
  schema_line (err e) = ascii "\n## chat_conversations first page: FETCH ERR: " ++ describe e
  schema_line (ok first) =
      ascii "\n## chat_conversations first page (raw, limit=3)\n" ++ trunc first 6000

  keys_lines : Option (List Bytes) → List Bytes
  keys_lines none = []
  keys_lines (some keys) = (ascii "\n## summary object keys: " ++ show_list keys) ∷ []

  -- The line of a count that was broken off.
  fault_lines : Option (ℕ × Error) → List Bytes
  fault_lines none = []
  fault_lines (some (offset, e)) =
      (ascii "count paginate error at offset " ++ (show offset ++ (ascii ": " ++ describe e))) ∷ []

  unfoldable pub count_lines : Counts → List Bytes
  unfolding fault_lines shown
  count_lines t =
      fault_lines t.fault
      ++ ((ascii "\n## total chat_conversations: " ++ show t.total)
          ∷ (ascii "models: " ++ show_map (shown t.models))
          ∷ (ascii "platforms (SURFACE DISCRIMINATOR "
              ++ (dash
                  ++ (ascii " cowork/code/design show here if in-store): "
                      ++ show_map (shown t.platforms))))
          ∷ (ascii "conversations tagged to a project: " ++ show t.with_project)
          ∷ [])

  folder_line : Folder → Bytes
  folder_line p = ascii "    - " ++ (pad_right 55 (cut 55 p.name) ++ (ascii " | " ++ p.uuid))

  -- The line of a list that could not be had, or not be read whole.
  listing_lines : Result Bytes → List Bytes
  listing_lines (err e) = (ascii "  projects FETCH ERR: " ++ describe e) ∷ []
  listing_lines (ok body) =
      if (folders body).fine then [] else (ascii "  projects parse ERR: " ++ trunc body 200) ∷ []

  unfoldable pub project_lines : Result Bytes → List Bytes
  unfolding listing_lines folder_line
  project_lines r =
      let projs = (folders (body_of r)).value in
      listing_lines r
      ++ ((ascii "  " ++ (show (length projs) ++ ascii " projects:")) ∷ map folder_line projs)

unfoldable pub sub_line : Bytes → RawAnswer → Bytes
sub_line sub a =
    ascii "  docs-probe sub="
    ++ (pad_right 11 (plain_quote sub)
        ++ (ascii " HTTP " ++ (show a.status ++ (ascii " | " ++ trunc (one_line a.head) 220))))

unfoldable pub memory_lines : RawAnswer → List Bytes
memory_lines a =
    (ascii "  /memory HTTP "
      ++ (show a.status ++ (ascii ", body length=" ++ (show (length a.head) ++ ascii " chars"))))
    ∷ (ascii "  head: " ++ trunc (one_line a.head) 400)
    ∷ []

module _ {N : Type 0} (secrets : List Bytes) where
  -- `w`: a line is scrubbed, printed, and added to the report.
  unfoldable pub w : Bytes → Report N → Report N
  w text r =
      let line = redact secrets text in
      record r {
        out = r.out ++ (line ++ ascii "\n");
        printed = r.printed ++ ((line ++ ascii "\n") ∷ []);
      }

  unfoldable pub w_all : List Bytes → Report N → Report N
  w_all [] r = r
  w_all (text ∷ texts) r = w_all texts (w text r)

module _ {N : Type 0} (secrets : List Bytes) (describe : Error → Bytes)
    (get : Bytes → N → Result Bytes × N) (raw_get : Bytes → N → Result RawAnswer × N) where
  abbrev asked : Result RawAnswer × N → Session N → RawAnswer × Session N
  asked (a, n) σ = (answered a, record σ { net = n })

  -- The first page, raw, and its keys.
  unfoldable pub probe_schema : Bytes → Report N → Report N
  unfolding keys_lines
  probe_schema org r =
      let (first, σ) =
        get_with_retry get
          (ascii "/api/organizations/" ++ (org ++ ascii "/chat_conversations?limit=3&offset=0")) 5
          r.session in
      w_all secrets
        (schema_line describe first ∷ keys_lines describe (summary_keys (body_of first)))
        (record r { session = σ })

  -- The loop over the variants of a project's documents.
  unfoldable pub probe_docs : Bytes → List Bytes → Report N → Report N
  probe_docs path [] r = r
  probe_docs path (sub ∷ subs) r =
      let (a, σ) = asked (raw_get (path ++ sub) r.session.net) r.session in
      probe_docs path subs (
        let q = w secrets (sub_line sub a) (record r { session = σ }) in
        record q { session = sleep 300 q.session })

  probe_first_docs : Bytes → List Folder → Report N → Report N
  probe_first_docs org [] r = r
  probe_first_docs org (p ∷ _) r =
      probe_docs (ascii "/api/organizations/" ++ (org ++ (ascii "/projects/" ++ p.uuid)))
        (ascii "/docs" ∷ ascii "/documents" ∷ [] ∷ []) r

  -- The projects, and the documents of the first one.
  unfoldable pub probe_projects : Bytes → Report N → Report N
  unfolding probe_first_docs
  probe_projects org r =
      let q =
        w secrets
          (ascii "\n## projects (own resource "
            ++ (dash ++ ascii " the project folders + their knowledge/docs)"))
          r in
      let (listed, σ) =
        get_with_retry get (ascii "/api/organizations/" ++ (org ++ ascii "/projects")) 3
          q.session in
      probe_first_docs org (folders (body_of listed)).value
        (w_all secrets (project_lines describe listed) (record q { session = σ }))

  unfoldable pub probe_memory : Bytes → Report N → Report N
  probe_memory org r =
      let q = w secrets (ascii "\n## memory endpoint") r in
      let (a, σ) =
        asked (raw_get (ascii "/api/organizations/" ++ (org ++ ascii "/memory")) q.session.net)
          q.session in
      w_all secrets (memory_lines a) (record q { session = σ })

  -- The head of the report.
  unfoldable pub probe_started : Bytes → Bytes → Session N → Report N
  probe_started org now σ =
      w_all secrets
        ((ascii "# Schroedinger surface probe " ++ (dash ++ (ascii " " ++ now)))
          ∷ (ascii "org_id: " ++ org)
          ∷ [])
        (record { session = σ; out = []; printed = [] })

  -- The report; `none` says that the count over the pages ran out of fuel.
  unfoldable pub probe_report : ℕ → Bytes → Bytes → Session N → Option (Report N)
  unfolding probe_started probe_schema probe_projects probe_memory
  probe_report fuel now org σ =
      let r = probe_schema org (probe_started org now σ) in
      elim (tally_pages get fuel org 0 no_counts r.session) [
        | none ↦ none
        | some (t, τ) ↦ some (
            probe_memory org (
              probe_projects org
                (w_all secrets (count_lines describe t) (record r { session = τ }))))
      ]

abbrev pub report_name : Bytes
report_name = ascii "probe-report.txt"

-- `MkdirAll` and `WriteFile`: an error is printed, and ends nothing.
unfoldable pub save_report : Bytes → Disk → Bool × Disk
save_report out d =
    let (made, e) = mkdir_all d in if made then write_file report_name out e else (false, e)

module _ {N : Type 0} (describe : Error → Bytes) (get : Bytes → N → Result Bytes × N)
    (raw_get : Bytes → N → Result RawAnswer × N) (close : N → N) where
  -- Behind `resolveOrg`; `teardown` is deferred.
  unfoldable pub probed : Option (Report N) → Process N → Option (Ending N)
  probed none p = none
  probed (some r) p =
      let (saved, d) = save_report r.out p.disk in
      some (returns (teardown close (record p { session = r.session; disk = d })))

  unfoldable pub probe_with : ℕ → Bytes → Bytes → Process N → Option (Ending N)
  unfolding probed
  probe_with fuel now org p =
      probed (probe_report p.secrets describe get raw_get fuel now org p.session) p

  -- `cdpProbe`
  unfoldable pub cdp_probe :
      (List Bytes → Result Bytes × List Bytes)
      → Bool
      → (Bytes → N → Option Error × N)
      → ℕ
      → Bytes
      → Process N
      → Option (Ending N)
  unfolding with_org probe_with
  cdp_probe read_key reparse_point navigate fuel now p =
      with_org get read_key reparse_point navigate close (probe_with fuel now) p
