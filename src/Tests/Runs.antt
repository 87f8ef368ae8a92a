-- ===== src/Tests/Runs.antt =====
-- Whole runs of the program.
use schroedinger_sync.Base.{
  ◌=?◌, ℕ, ◌+◌, ◌≡◌, refl, true, false, Option, none, some, List, [], ◌∷◌, ◌==◌, if◌then◌else◌,
  Bytes, ascii, arith,
}
use schroedinger_sync.Base.Map.{lookup, insert, erase}
use schroedinger_sync.Text.Search.{contains}
use schroedinger_sync.Result.{Error, Result, ok}
use schroedinger_sync.Fetch.{
  sleep, resolve_org, get_with_retry, get_with_retry_delay, judge, attempt, is_rate_limited,
  looks_like_challenge, first_org, list_all_conversations, list_pages, fetch_conv_body,
  fetch_conv_body_delay, try_variants,
}
use schroedinger_sync.Text.Runes.{trim_space, trunc}
use schroedinger_sync.Text.Decimal.{show}
use schroedinger_sync.Api.Decode.{organizations, summaries, conversation, projects, memory_blob}
use schroedinger_sync.Disk.{
  read_file, save_atomically, create_temp, close_file, rename, Disk, mkdir_all, write_file,
}
use schroedinger_sync.Harvest.{harvest_all, harvest_one, received, stored}
use schroedinger_sync.Sync.{file_is_current, file_ok}
use schroedinger_sync.Markdown.{is_no_conversation, render, conv_header, conv_to_markdown}
use schroedinger_sync.Integrity.{save_manifest, write_markdown}
use schroedinger_sync.Names.{conv_filename, path_safe}
use schroedinger_sync.Surfaces.{harvest_each, harvest_projects, harvest_memory, memory_of}
use schroedinger_sync.Cookie.{read_session_key}
use schroedinger_sync.Cookie.Copy.{Temp, read_session_key_copied}
use schroedinger_sync.Cookie.Copy.Removed.{read_session_key_copied-IsRemoved}
use schroedinger_sync.Process.{
  happens, sweep_profile_dir, Process, Ending, returns, open_claude_session,
}
use schroedinger_sync.Process.Endings.{IsOver}
use schroedinger_sync.Commands.{cdp_smoke, cdp_harvest}
use schroedinger_sync.Commands.Dispatch.{Command, command_of, main}
use schroedinger_sync.Fetch.InPage.{RawAnswer}
use schroedinger_sync.Commands.Ends.{main-IsOver}
use schroedinger_sync.Commands.Status.{IsWhole, cdp_harvest-IsWhole}
use schroedinger_sync.State.{
  SyncState, state_file_name, state_text, fresh_state, save_state, load_state,
}
use schroedinger_sync.Sync.{
  Sync, sync_conversations, sync_one, act, fetch_one, fetched, written, count_progress, remember,
  entry,
}
use schroedinger_sync.Daemon.Decisions.{conv_action}
use schroedinger_sync.Daemon.Cycle.{
  harvest_listed, Outside, no_activity, sync_due, fresh_sync, cycle_status, harvest_once, run_cycle,
}
use schroedinger_sync.Daemon.Cycle.Settled.{settled_state}
use schroedinger_sync.Daemon.Cycle.Repeated.{run_cycle-settled}
use schroedinger_sync.Json.Read.{parse}
use schroedinger_sync.Tests.Server.{no_hash, session, empty_disk}

-- An account with one organization, one conversation, no projects and no memory, which answers in
-- this order.
abbrev account : Bytes → ℕ → Result Bytes × ℕ
account path n =
    if n == 1
    then (ok (ascii "[{\"uuid\":\"o\"}]"), 2)
    else if n == 2
    then (ok (ascii "[{\"uuid\":\"u\",\"name\":\"A\"}]"), 3)
    else if n == 3
    then (ok (ascii "{\"name\":\"A\",\"updated_at\":\"t\"}"), 4)
    else if n == 4
    then (ok (ascii "[]"), 5)
    else (ok (ascii "{}"), 6)

abbrev known_key : List Bytes → Result Bytes × List Bytes
known_key secrets = (ok (ascii "sk-ant-1"), secrets)

abbrev no_desktop : List Bytes → Result Bytes × List Bytes
no_desktop secrets =
    read_session_key (λ b. some b) (λ b. some b) (λ k n ct. some ct) false none none secrets

abbrev arriving : Bytes → ℕ → Option Error × ℕ
arriving key n = (none, n + 1)

abbrev named : Error → Bytes
named e = ascii "error"

abbrev unanswered : Bytes → ℕ → Result RawAnswer × ℕ
unanswered path n = (ok (record { status = 404; head = [] }), n + 1)

abbrev leaving : ℕ → ℕ
leaving n = n + 1

abbrev fresh : Process ℕ
fresh = record { session = session; disk = empty_disk; secrets = []; active = false; events = [] }

abbrev returning : Command → Process ℕ → Option (Ending ℕ)
returning c p = none

-- The process behind a run that ends.
abbrev after : Option (Process ℕ) → Process ℕ
after none = fresh
after (some q) = q

abbrev exported : Option (Ending ℕ)
exported = cdp_harvest account known_key false arriving leaving no_hash 2 (ascii "now") fresh

abbrev ending : Option (Ending ℕ) → Ending ℕ
ending none = returns fresh
ending (some x) = x

main-IsOver_example :
    (code : ℕ) × IsOver code
      (after (
        main account no_desktop false arriving leaving no_hash 2
          (ascii "now")
          named
          unanswered
          returning
          []
          fresh)).events
unfolding main command_of cdp_smoke open_claude_session read_session_key
main-IsOver_example =
    main-IsOver account no_desktop false arriving leaving no_hash 2 (ascii "now") named unanswered
      returning [] fresh
      (after (
        main account no_desktop false arriving leaving no_hash 2 (ascii "now") named unanswered
          returning [] fresh))
      refl (refl, refl, refl) refl

cdp_harvest-IsWhole_example :
    IsWhole account no_hash 2
      (ascii "now")
      (open_claude_session known_key false arriving leaving fresh).1
unfolding cdp_harvest open_claude_session resolve_org get_with_retry get_with_retry_delay judge
    attempt contains is_rate_limited looks_like_challenge trim_space first_org organizations
    list_all_conversations list_pages show summaries mkdir_all harvest_all harvest_one received
    stored file_is_current file_ok fetch_conv_body fetch_conv_body_delay try_variants
    conv_to_markdown conversation write_markdown write_file harvest_projects projects harvest_memory
    memory_of memory_blob happens sweep_profile_dir lookup is_no_conversation render conv_header
    sleep harvest_each
cdp_harvest-IsWhole_example =
    cdp_harvest-IsWhole account known_key false arriving leaving no_hash 2 (ascii "now") fresh
      (ending exported) refl refl

abbrev clean_temp : Temp
clean_temp = record {
  folder = none;
  connected = false;
  writes = true ∷ false ∷ [];
  removable = true;
}

-- The copy is made, and read, and one of its files beside the database could not be written.
read_session_key_copied-IsRemoved_example :
    ((read_session_key_copied
        (λ b. some b)
        (λ b. some b)
        (λ k n ct. some ct)
        (λ name. some (ascii "db"))
        (λ copy. some (ascii "sk-ant-1"))
        true
        true
        true
        (some (ascii "{\"os_crypt\":{\"encrypted_key\":\"DPAPIk\"}}"))
        []
        clean_temp).1.folder
      ≡ none)
    × ((read_session_key_copied
          (λ b. some b)
          (λ b. some b)
          (λ k n ct. some ct)
          (λ name. some (ascii "db"))
          (λ copy. some (ascii "sk-ant-1"))
          true
          true
          true
          (some (ascii "{\"os_crypt\":{\"encrypted_key\":\"DPAPIk\"}}"))
          []
          clean_temp).1.connected
        ≡ false)
read_session_key_copied-IsRemoved_example =
    read_session_key_copied-IsRemoved (λ b. some b) (λ b. some b) (λ k n ct. some ct)
      (λ name. some (ascii "db")) (λ copy. some (ascii "sk-ant-1")) true true true
      (some (ascii "{\"os_crypt\":{\"encrypted_key\":\"DPAPIk\"}}")) [] clean_temp (refl, refl) refl

abbrev outside : Outside
outside = record {
  desktop_running = false;
  cookie_mod = ascii "c";
  sync_time = ascii "s";
  memory_time = ascii "m";
  surfaces_time = ascii "r";
}

abbrev opening : ℕ → Option Error × ℕ
opening n = (none, n + 1)

-- The surfaces have been refreshed, the conversations never.
abbrev refreshed_state : SyncState
refreshed_state = record fresh_state { last_surfaces = ascii "r" }

abbrev refreshed_disk : Disk
refreshed_disk = record empty_disk {
  files = (state_file_name, ascii "{\"last_surfaces\":\"r\"}") ∷ [];
}

abbrev pass : Sync ℕ
pass =
    elim (harvest_once account opening leaving no_hash 2 refreshed_state session refreshed_disk) [
      | none ↦ fresh_sync session refreshed_disk refreshed_state
      | some (e, y) ↦ y
    ]

abbrev put_down : Disk
put_down = (save_state (settled_state outside pass) pass.disk).1

abbrev minutes : Bytes → Option ℕ
minutes time = some 60

run_cycle-settled_example :
    (run_cycle account opening leaving no_hash 2 minutes outside session refreshed_disk
      ≡ some ((cycle_status outside (none, pass)).0, (pass.session, put_down)))
    × (run_cycle account opening leaving no_hash 2 minutes outside pass.session put_down
        ≡ some (no_activity, (pass.session, put_down)))
unfolding harvest_once sync_due ◌=?◌ load_state read_file lookup mkdir_all resolve_org
    get_with_retry get_with_retry_delay judge attempt is_rate_limited contains looks_like_challenge
    trim_space first_org organizations list_all_conversations list_pages show summaries
    sync_conversations sync_one act fetch_one fetched written count_progress remember entry
    conv_action file_ok fetch_conv_body fetch_conv_body_delay try_variants conv_to_markdown
    conversation write_markdown write_file is_no_conversation render conv_header fresh_sync
    save_state save_atomically create_temp close_file rename insert state_text sleep harvest_listed
    save_manifest conv_filename path_safe trunc erase parse
run_cycle-settled_example =
    run_cycle-settled account opening leaving no_hash 2 minutes minutes outside outside pass session
      refreshed_disk refl refl (refl, (60, refl, omega arith)) (refl, (60, refl, omega arith)) refl
      refl refl
      (record {
        distinct = (refl, tt);
        conversations = (refl, refl, tt);
        last_sync = refl;
        last_cookie_mod = refl;
        last_surfaces = refl;
      })
      refl refl refl refl
