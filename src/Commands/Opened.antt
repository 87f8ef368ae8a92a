-- ===== src/Commands/Opened.antt =====
-- What holds of a command whichever way its session opens.
use schroedinger_sync.Base.{Bool, Option, none, some, List, Bytes, ascii}
use schroedinger_sync.Result.{Error, Result, ok, err}
use schroedinger_sync.Fetch.{Session, resolve_org}
use schroedinger_sync.Process.{Process, Ending, fatal, exit_on_session_failure, open_claude_session}
use schroedinger_sync.Commands.{with_org}

module _ {N : Type 0} (get : Bytes → N → Result Bytes × N)
    (read_key : List Bytes → Result Bytes × List Bytes) (reparse_point : Bool)
    (navigate : Bytes → N → Option Error × N) (close : N → N) (p : Process N) where
  -- The process behind `openClaudeSession`.
  abbrev pub opened : Process N
  opened = (open_claude_session read_key reparse_point navigate close p).1

  -- A statement on how the command ends holds if it does on every way through its frame.
  pub with_org_cases :
      (P : Option (Ending N) → Type 0) (body : Bytes → Process N → Option (Ending N))
      → ((e : Error) → P (some (exit_on_session_failure close e opened)))
      → ((σ : Session N)
          → P (some (fatal close (ascii "FAIL @org:") (record opened { session = σ }))))
      → ((org : Bytes) (σ : Session N) → P (body org (record opened { session = σ })))
      → P (with_org get read_key reparse_point navigate close body p)
  unfolding with_org
  with_org_cases P body failed nowhere run =
      attempted (open_claude_session read_key reparse_point navigate close p).0
    where
      resolved :
          (org : Result Bytes) (σ : Session N)
          → P (elim org [
            | err e ↦ some (fatal close (ascii "FAIL @org:") (record opened { session = σ }))
            | ok o ↦ body o (record opened { session = σ })
          ])
      resolved (err e) σ = nowhere σ
      resolved (ok o) σ = run o σ

      attempted :
          (failure : Option Error)
          → P (elim failure [
            | some e ↦ some (exit_on_session_failure close e opened)
            | none ↦ elim (resolve_org get opened.session).0 [
              | err e ↦ some (
                  fatal close
                    (ascii "FAIL @org:")
                    (record opened { session = (resolve_org get opened.session).1 }))
              | ok o ↦ body o (record opened { session = (resolve_org get opened.session).1 })
            ]
          ])
      attempted (some e) = failed e
      attempted none =
          resolved (resolve_org get opened.session).0 (resolve_org get opened.session).1
