-- ===== src/Daemon/Decisions/Supervise.antt =====
-- The hysteresis of the supervisor over a row of polls.
use schroedinger_sync.Base.{
  ℕ, suc, Bool, true, false, ◌||◌, List, [], ◌∷◌, ◌≡◌, refl, sym, ◌∙◌, arith, if◌then◌else◌, ltb,
  any, take,
}
use schroedinger_sync.Daemon.Decisions.{Supervisor, next_supervise_state, supervise_grace_off_polls}

-- What a poll found: Claude Desktop, VS Code.
pub record Poll : Type 0 where
  pub desktop : Bool
  pub vscode : Bool

abbrev pub up : Poll → Bool
up p = p.desktop || p.vscode

abbrev pub idle : Supervisor
idle = record { active = false; miss_count = 0 }

-- The supervisor after the polls, the last one first.
unfoldable pub supervised : List Poll → Supervisor
supervised [] = idle
supervised (p ∷ earlier) = next_supervise_state p.desktop p.vscode (supervised earlier)

-- How many polls since the last one that found something; `none` if none did.
misses : List Poll → ℕ
misses [] = 3
misses (p ∷ earlier) = if up p then 0 else suc (misses earlier)

-- The counter of an active supervisor is the number of misses, and it is active below the grace.
supervised_inv :
    (polls : List Poll)
    → ((supervised polls).active ≡ ltb (misses polls) 3)
      × ((supervised polls).active ≡ true → (supervised polls).miss_count ≡ misses polls)
unfolding supervised misses next_supervise_state
supervised_inv [] = (refl, λ h. cc)
supervised_inv (p ∷ earlier) =
    let (a, m) = supervised_inv earlier in (ground arith, λ h. ground arith)

misses_lem : (polls : List Poll) → any up (take 3 polls) ≡ ltb (misses polls) 3
unfolding misses
misses_lem [] = refl
misses_lem (p ∷ []) = ground arith
misses_lem (p ∷ q ∷ []) = ground arith
misses_lem (p ∷ q ∷ r ∷ rest) = ground arith

-- The supervisor is active exactly if one of the last three polls found a process.
pub supervised-active :
    (polls : List Poll) → (supervised polls).active ≡ any up (take supervise_grace_off_polls polls)
supervised-active polls = (supervised_inv polls).0 ∙ sym (misses_lem polls)
