-- ===== src/Daemon/Decisions.antt =====
-- The pure decisions of the daemon: `convAction`, `cookieWatermark` and `nextSuperviseState`.
pub mod Watermark
pub mod Supervise
use schroedinger_sync.Base.{
  ℕ, ◌+◌, Bool, true, false, not, ◌&&◌, ◌||◌, Option, none, some, ◌==◌, if◌then◌else◌, leb, Bytes,
  ◌=?◌,
}
use schroedinger_sync.Text.Runes.{trunc}
use schroedinger_sync.Api.{ConvSummary}

-- `convActionKind`
pub data ConvActionKind : Type 0 where
  action_fetch action_skip action_seed : ConvActionKind

-- `convAction`; `known` and `seen` come as one optional entry of the state.
unfoldable pub conv_action : ConvSummary → Option Bytes → Bool → Bytes → ConvActionKind
conv_action c (some known) file_ok file_updated =
    if known =? c.updated_at && (file_ok && file_updated =? trunc c.updated_at 19)
    then action_skip
    else action_fetch
conv_action c none file_ok file_updated =
    if file_ok && file_updated =? trunc c.updated_at 19 then action_seed else action_fetch

-- `maxRetryCycles`
abbrev pub max_retry_cycles : ℕ
max_retry_cycles = 3

-- `cookieWatermark`: the watermark to persist, and the stall counter.
unfoldable pub cookie_watermark : Bytes → Bytes → Bool → ℕ → ℕ → Bytes × ℕ
cookie_watermark cur prev made_progress err_n retries =
    if err_n == 0
    then (cur, 0)
    else if made_progress
    then (prev, 0)
    else if leb max_retry_cycles (retries + 1)
    then (cur, 0)
    else (prev, retries + 1)

-- `superviseGraceOffPolls`
abbrev pub supervise_grace_off_polls : ℕ
supervise_grace_off_polls = 3

-- The variables `active` and `missCount` of `superviseLoop`.
pub record Supervisor : Type 0 where
  pub active : Bool
  pub miss_count : ℕ

-- `nextSuperviseState`
unfoldable pub next_supervise_state : Bool → Bool → Supervisor → Supervisor
next_supervise_state desktop_up vscode_up s =
    if desktop_up || vscode_up
    then record { active = true; miss_count = 0 }
    else if not s.active
    then record { active = false; miss_count = 0 }
    else if leb supervise_grace_off_polls (s.miss_count + 1)
    then record { active = false; miss_count = 0 }
    else record { active = true; miss_count = s.miss_count + 1 }
