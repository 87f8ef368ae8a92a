-- ===== src/Security/Lines.antt =====
-- security.go: the stdout redactor over writes, and what it keeps out of whole lines.
use schroedinger_sync.Base.{
  ℕ, true, false, List, [], ◌∷◌, ◌++◌, ◌≡◌, refl, sym, ◌∙◌, arith, ◌==◌, is_empty, Bytes, all, ◌⊎◌,
  inl, inr, Bool-cases, ==_iff,
}
use mathlib.Core.List.{append_assoc, append-nil}
use schroedinger_sync.Text.Runes.{concat}
use schroedinger_sync.Text.Search.Replace.{lacks, contains-lacks}
use schroedinger_sync.Text.Search.Ends.{replace_from-append}
use schroedinger_sync.Text.Search.{has_prefix, contains, replace_all}
use schroedinger_sync.Security.{
  placeholder, redact, Pipe, receive, receive_all, receive_writes, close_pipe, redacted_stdout,
}
use schroedinger_sync.Security.Redaction.{IsOpaque, registered, redact-lacks}

module _ (secrets : List Bytes) where
  pub receive_all-append :
      (p : Pipe) (v w : Bytes)
      → receive_all secrets p (v ++ w) ≡ receive_all secrets (receive_all secrets p v) w
  unfolding receive_all
  receive_all-append p [] w = refl
  receive_all-append p (b ∷ v) w = receive_all-append (receive secrets p b) v w

  pub receive_writes-concat :
      (p : Pipe) (writes : List Bytes)
      → receive_writes secrets p writes ≡ receive_all secrets p (concat writes)
  unfolding receive_writes
  receive_writes-concat p [] = unfold receive_all in refl
  receive_writes-concat p (w ∷ ws) =
      receive_writes-concat (receive_all secrets p w) ws ∙ sym (receive_all-append p w (concat ws))

-- A line keeps its newline.
pub redact-newline :
    (secrets : List Bytes) (s : Bytes)
    → all (λ sec. lacks sec b'\n') secrets ≡ true
    → redact secrets (s ++ b'\n' ∷ []) ≡ redact secrets s ++ b'\n' ∷ []
unfolding redact replace_all
redact-newline [] s l = refl
redact-newline ([] ∷ secrets) s l = redact-newline secrets s (ground arith)
redact-newline ((c ∷ sec) ∷ secrets) s l =
    rw (replace_from-append 0 s c sec placeholder b'\n' (omega arith) (ground arith))
      (redact-newline secrets _ (ground arith))

module _ (secrets : List Bytes) (c : ℕ) (w : Bytes) where
  -- What has been written is without the secret, and stops at the end of a line.
  abbrev pub Clean : Bytes → Type 0
  Clean out = (out ≡ []) ⊎ ((t : Bytes) × (out ≡ t ++ b'\n' ∷ []) × (contains t (c ∷ w) ≡ false))

  -- Two texts without the secret, with a newline between them.
  contains-line :
      (t rest : Bytes)
      → lacks (c ∷ w) b'\n' ≡ true
      → contains t (c ∷ w) ≡ false
      → contains rest (c ∷ w) ≡ false
      → contains (t ++ b'\n' ∷ rest) (c ∷ w) ≡ false
  contains-line t rest nl ht hr = ground (arith, contains-lacks t rest c w b'\n' nl)

  pub Clean-append :
      (out line : Bytes)
      → lacks (c ∷ w) b'\n' ≡ true
      → contains line (c ∷ w) ≡ false
      → Clean out
      → Clean (out ++ (line ++ b'\n' ∷ []))
  Clean-append out line nl h (inl e) = rw e (inr (line, refl, h))
  Clean-append out line nl h (inr (t, e, ht)) = rw e (
      inr (
        t ++ b'\n' ∷ line,
        append_assoc t (b'\n' ∷ []) (line ++ b'\n' ∷ [])
            ∙ sym (append_assoc t (b'\n' ∷ line) (b'\n' ∷ [])),
        contains-line t line nl ht h,
      ))

  pub contains-Clean :
      (out line : Bytes)
      → lacks (c ∷ w) b'\n' ≡ true
      → contains line (c ∷ w) ≡ false
      → Clean out
      → contains (out ++ line) (c ∷ w) ≡ false
  contains-Clean out line nl h (inl e) = rw e h
  contains-Clean out line nl h (inr (t, e, ht)) =
      rw (e, append_assoc) (contains-line t line nl ht h)

  module _ (o : IsOpaque (c ∷ w)) (nl : lacks (c ∷ w) b'\n' ≡ true)
      (registry : registered secrets (c ∷ w) ≡ true)
      (ls : all (λ sec. lacks sec b'\n') secrets ≡ true) where
    Clean-receive : (p : Pipe) (b : ℕ) → Clean p.written → Clean (receive secrets p b).written
    unfolding receive
    Clean-receive p b cl = elim (Bool-cases (b == b'\n')) [
      | inl end ↦
          rw (end, (==_iff b b'\n').0 end, redact-newline secrets p.line ls)
            (Clean-append p.written _ nl (redact-lacks secrets p.line (c ∷ w) o registry) cl)
      | inr more ↦ rw more cl
    ]

    Clean-receive_all :
        (p : Pipe) (bs : Bytes) → Clean p.written → Clean (receive_all secrets p bs).written
    unfolding receive_all
    Clean-receive_all p [] cl = cl
    Clean-receive_all p (b ∷ bs) cl =
        Clean-receive_all (receive secrets p b) bs (Clean-receive p b cl)

    Clean-close_pipe :
        (p : Pipe) → Clean p.written → contains (close_pipe secrets p) (c ∷ w) ≡ false
    unfolding close_pipe
    Clean-close_pipe p cl = elim (Bool-cases (is_empty p.line)) [
      | inl done ↦ rw done (
          rw append-nil at (contains-Clean p.written [] nl (unfold contains has_prefix in refl) cl))
      | inr rest ↦
          rw rest
            (contains-Clean p.written _ nl (redact-lacks secrets p.line (c ∷ w) o registry) cl)
    ]

    -- A secret that is registered before the first write does not reach the terminal, also where it
    -- was written in pieces. The registered secrets are without newlines, and the secret is not empty
    -- and one that the placeholder cannot bring back.
    pub redacted_stdout-lacks :
        (writes : List Bytes) → contains (redacted_stdout secrets writes) (c ∷ w) ≡ false
    unfolding redacted_stdout
    redacted_stdout-lacks writes =
        rw (receive_writes-concat secrets _ writes)
          (Clean-close_pipe _ (Clean-receive_all _ (concat writes) (inl refl)))
