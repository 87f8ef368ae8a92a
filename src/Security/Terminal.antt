-- ===== src/Security/Terminal.antt =====
-- security.go: what the terminal shows, told line by line.
use mathlib.Core.List.{append_assoc, append-nil}
use schroedinger_sync.Base.{
  true, false, List, [], ◌∷◌, ◌++◌, ◌≡◌, refl, sym, ◌∙◌, ap, arith, ◌==◌, map, Bytes, all,
}
use schroedinger_sync.Text.Runes.{concat}
use schroedinger_sync.Text.Search.{replace_from, replace_all}
use schroedinger_sync.Text.Search.Replace.{lacks}
use schroedinger_sync.Security.{redact, Pipe, receive, receive_all, close_pipe, redacted_stdout}
use schroedinger_sync.Security.Lines.{receive_all-append, receive_writes-concat}

-- The line with its newline.
abbrev pub ended : Bytes → Bytes
ended l = l ++ b'\n' ∷ []

redact-nil : (secrets : List Bytes) → redact secrets [] ≡ []
unfolding redact replace_all replace_from
redact-nil [] = refl
redact-nil ([] ∷ secrets) = redact-nil secrets
redact-nil ((c ∷ s) ∷ secrets) = redact-nil secrets

module _ (secrets : List Bytes) where
  receive_all-lacks :
      (line out l : Bytes)
      → lacks l b'\n' ≡ true
      → receive_all secrets (record { line = line; written = out }) l
        ≡ record { line = line ++ l; written = out }
  unfolding receive_all receive
  receive_all-lacks line out [] h = simp append-nil
  receive_all-lacks line out (b ∷ l) h =
      let other : (b == b'\n') ≡ false = ground arith in
      rw other (
        receive_all-lacks (line ++ b ∷ []) out l (ground arith)
        ∙ ap (λ v. record { line = v; written = out }) (append_assoc line (b ∷ []) l))

  receive_all-ended :
      (out l : Bytes)
      → lacks l b'\n' ≡ true
      → receive_all secrets (record { line = []; written = out }) (ended l)
        ≡ record { line = []; written = out ++ redact secrets (ended l) }
  receive_all-ended out l h =
      receive_all-append secrets (record { line = []; written = out }) l (b'\n' ∷ [])
      ∙ ap (λ p. receive_all secrets p (b'\n' ∷ [])) (receive_all-lacks [] out l h)
      ∙ unfold receive_all receive in refl

  receive_all-lines :
      (out : Bytes) (ls : List Bytes)
      → all (λ l. lacks l b'\n') ls ≡ true
      → receive_all secrets (record { line = []; written = out }) (concat (map ended ls))
        ≡ record { line = []; written = out ++ concat (map (λ l. redact secrets (ended l)) ls) }
  unfolding receive_all
  receive_all-lines out [] h = ap (λ v. record { line = []; written = v }) (sym (append-nil out))
  receive_all-lines out (l ∷ ls) h =
      receive_all-append secrets (record { line = []; written = out }) (ended l)
        (concat (map ended ls))
      ∙ ap (λ p. receive_all secrets p (concat (map ended ls)))
          (receive_all-ended out l (ground arith))
      ∙ receive_all-lines (out ++ redact secrets (ended l)) ls (ground arith)
      ∙ ap (λ v. record { line = []; written = v }) (append_assoc out (redact secrets (ended l)) _)

  close_pipe-redact :
      (line out : Bytes)
      → close_pipe secrets (record { line = line; written = out }) ≡ out ++ redact secrets line
  unfolding close_pipe
  close_pipe-redact [] out = rw (redact-nil secrets) (simp append-nil)
  close_pipe-redact (c ∷ line) out = refl

  -- However a text is cut into writes, the terminal shows its lines in their order, each of them
  -- redacted as a whole, and what stands behind the last newline redacted too.
  pub redacted_stdout-lines :
      (ls : List Bytes) (rest : Bytes) (writes : List Bytes)
      → all (λ l. lacks l b'\n') ls ≡ true
      → lacks rest b'\n' ≡ true
      → concat writes ≡ concat (map ended ls) ++ rest
      → redacted_stdout secrets writes
        ≡ concat (map (λ l. redact secrets (ended l)) ls) ++ redact secrets rest
  unfolding redacted_stdout
  redacted_stdout-lines ls rest writes hl hr e =
      let out = concat (map (λ l. redact secrets (ended l)) ls) in
      let start : Pipe = record { line = []; written = [] } in
      ap (close_pipe secrets) (
        receive_writes-concat secrets start writes
        ∙ ap (receive_all secrets start) e
        ∙ receive_all-append secrets start (concat (map ended ls)) rest
        ∙ ap (λ p. receive_all secrets p rest) (receive_all-lines [] ls hl)
        ∙ receive_all-lacks [] out rest hr)
      ∙ close_pipe-redact rest out
