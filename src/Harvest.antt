-- ===== src/Harvest.antt =====
-- cdp.go: the conversations of the one-shot harvest, the loop of `cdpHarvest`.
pub mod Accounting
use schroedinger_sync.Base.{
  ℕ, ◌+◌, Bool, true, false, not, Option, none, some, List, [], ◌∷◌, if◌then◌else◌, is_empty, Bytes,
}
use schroedinger_sync.Result.{Error, is_deadline, Result, ok, err}
use schroedinger_sync.Api.{ConvSummary}
use schroedinger_sync.Names.{conv_filename}
use schroedinger_sync.Markdown.{conv_to_markdown}
use schroedinger_sync.Fetch.{Session, sleep, fetch_conv_body}
use schroedinger_sync.Disk.{Disk}
use schroedinger_sync.Integrity.{write_markdown}
use schroedinger_sync.Sync.{file_is_current}

pub record Harvest (N : Type 0) : Type 0 where
  pub session : Session N
  pub disk : Disk
  pub new_n : ℕ
  pub skip_n : ℕ
  pub err_n : ℕ
  pub manifest_err_n : ℕ

-- One conversation is dealt with, or the session's deadline ends the program.
pub data Progress (N : Type 0) : Type 0 where
  go_on fatal : Harvest N → Progress N

module _ {N : Type 0} where
  unfoldable pub erred : Harvest N → Harvest N
  erred y = record y { err_n = y.err_n + 1 }

  -- Behind `writeMarkdown`.
  unfoldable pub stored : Option Bool × Disk → Harvest N → Harvest N
  stored (none, d) y = erred (record y { disk = d })
  stored (some manifest_ok, d) y = record y {
    disk = d;
    session = sleep 1200 y.session;
    new_n = y.new_n + 1;
    manifest_err_n = if not manifest_ok then y.manifest_err_n + 1 else y.manifest_err_n;
  }

module _ {N : Type 0} (get : Bytes → N → Result Bytes × N) (hash_content : Bytes → Bytes)
    (org : Bytes) where
  -- Behind `fetchConvBody`.
  unfoldable pub received : ConvSummary → Result Bytes → Harvest N → Progress N
  received c (err e) y = if is_deadline e then fatal y else go_on (erred y)
  received c (ok body) y =
      let md = conv_to_markdown body in
      if is_empty md
      then go_on (erred y)
      else go_on (stored (write_markdown hash_content (conv_filename c) md y.disk) y)

  unfoldable pub harvest_one : ConvSummary → Harvest N → Progress N
  harvest_one c y =
      let (r, σ) = fetch_conv_body get org c.uuid y.session in
      let fetched = received c r (record y { session = σ }) in
      if file_is_current c y.disk then go_on (record y { skip_n = y.skip_n + 1 }) else fetched

  -- The loop: is the list done, or did a deadline end it?
  unfoldable pub harvest_all : List ConvSummary → Harvest N → Bool × Harvest N
  harvest_all [] y = (true, y)
  harvest_all (c ∷ cs) y = elim (harvest_one c y) [
    | go_on z ↦ harvest_all cs z
    | fatal z ↦ (false, z)
  ]
