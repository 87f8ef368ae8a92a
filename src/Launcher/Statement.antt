-- ===== src/Launcher/Statement.antt =====
-- What VBScript reads in the launcher.
use mathlib.Core.List.{append_assoc}
use mathlib.Core.Option.{some-injective}
use schroedinger_sync.Base.{
  ℕ, true, Option, none, some, [], ◌∷◌, ◌++◌, ◌≡◌, ◌∙◌, refl, ap, sym, arith, ◌==◌, ◌||◌, Bool,
  false, any, if◌then◌else◌, is_empty, Bytes, ascii, ==_iff, inl, inr, Bool-cases,
}
use schroedinger_sync.Text.Search.{replace_all, replace_from, has_prefix}
use schroedinger_sync.Text.Search.Replace.{lacks}
use schroedinger_sync.Launcher.{
  args_part, comment_line, run_head, vbs_launcher_content, launcher_of, out_dir_has_line_break,
}

-- A byte that ends a line of VBScript.
abbrev pub ends_line : ℕ → Bool
ends_line c = c == 13 || c == 10

-- A string literal of VBScript behind its opening quote, by VBScript's rule: a doubled quote stands
-- for one, a single quote ends the literal, and the end of the line leaves it without an end. The
-- value, and the text behind the literal.
abbrev put_front : ℕ → Option (Bytes × Bytes) → Option (Bytes × Bytes)
put_front c none = none
put_front c (some (value, rest)) = some (c ∷ value, rest)

unfoldable pub vbs_literal : Bytes → Option (Bytes × Bytes)
vbs_literal [] = none
vbs_literal (c ∷ []) = if c == b'"' then some ([], []) else none
vbs_literal (c ∷ d ∷ s) =
    let single = vbs_literal (d ∷ s) in
    let doubled = vbs_literal s in
    if c == b'"'
    then (if d == b'"' then put_front b'"' doubled else some ([], d ∷ s))
    else if ends_line c
    then none
    else put_front c single

abbrev put_all : Bytes → Option (Bytes × Bytes) → Option (Bytes × Bytes)
put_all [] r = r
put_all (c ∷ s) r = put_front c (put_all s r)

put_all-some : (s value rest : Bytes) → put_all s (some (value, rest)) ≡ some (s ++ value, rest)
put_all-some [] value rest = refl
put_all-some (c ∷ s) value rest = rw (put_all-some s value rest)

-- A text without quotes, on one line, stands for itself.
vbs_literal-plain :
    (s t : Bytes) (c : ℕ)
    → lacks s b'"' ≡ true
    → any ends_line s ≡ false
    → vbs_literal (s ++ c ∷ t) ≡ put_all s (vbs_literal (c ∷ t))
unfolding vbs_literal
vbs_literal-plain [] t c h n = refl
vbs_literal-plain (x ∷ []) t c h n = ground arith
vbs_literal-plain (x ∷ y ∷ s) t c h n =
    let later : vbs_literal (y ∷ (s ++ c ∷ t)) ≡ put_all (y ∷ s) (vbs_literal (c ∷ t)) =
      vbs_literal-plain (y ∷ s) t c (ground arith) (ground arith) in
    ground arith

vbs_literal_step :
    (x : ℕ) (u t : Bytes) (c : ℕ)
    → (x == b'"') ≡ false
    → ends_line x ≡ false
    → vbs_literal (x ∷ (u ++ c ∷ t)) ≡ put_front x (vbs_literal (u ++ c ∷ t))
unfolding vbs_literal
vbs_literal_step x [] t c h n = rw (h, n) refl
vbs_literal_step x (y ∷ u) t c h n = rw (h, n) refl

-- A text on one line with its quotes doubled stands for itself.
vbs_literal-doubled :
    (s t : Bytes) (c : ℕ)
    → any ends_line s ≡ false
    → vbs_literal (replace_from 0 s (ascii "\"") (ascii "\"\"") ++ c ∷ t)
      ≡ put_all s (vbs_literal (c ∷ t))
unfolding vbs_literal replace_from has_prefix
vbs_literal-doubled [] t c n = refl
vbs_literal-doubled (x ∷ s) t c n = elim (Bool-cases (x == b'"')) [
  | inl quote ↦
      let later = vbs_literal-doubled s t c (ground arith) in
      rw (quote, (==_iff x b'"').0 quote) (ap (put_front b'"') later)
  | inr other ↦
      let later = vbs_literal-doubled s t c (ground arith) in
      rw other (
        vbs_literal_step x (replace_from 0 s (ascii "\"") (ascii "\"\"")) t c other (ground arith)
        ∙ ap (put_front x) later)
]

-- The command line that the launcher is to run: the quoted program, `supervise`, and the quoted
-- directory unless it is empty.
abbrev pub command_line : Bytes → Bytes → Bytes
command_line exe out_dir =
    ascii "\""
    ++ (exe
        ++ (ascii "\" supervise"
            ++ (if is_empty out_dir then [] else ascii " \"" ++ (out_dir ++ ascii "\""))))

-- What follows the literal: window style 0, no waiting.
abbrev pub run_tail : Bytes
run_tail = ascii ", 0, False\r\n"

args_literal :
    (out_dir : Bytes)
    → any ends_line out_dir ≡ false
    → vbs_literal (args_part (ascii "supervise") out_dir ++ ascii "\", 0, False\r\n")
      ≡ some (
        ascii " supervise"
            ++ (if is_empty out_dir then [] else ascii " \"" ++ (out_dir ++ ascii "\"")),
        run_tail,
      )
unfolding args_part vbs_literal replace_all
args_literal [] n = refl
args_literal (c ∷ s) n =
    let doubled = replace_from 0 (c ∷ s) (ascii "\"") (ascii "\"\"") in
    let inner : vbs_literal (doubled ++ ascii "\"\"\", 0, False\r\n")
        ≡ some ((c ∷ s) ++ ascii "\"", run_tail) =
      vbs_literal-doubled (c ∷ s) (ascii "\"\", 0, False\r\n") b'"' n
      ∙ put_all-some (c ∷ s) (ascii "\"") run_tail in
    ap (put_all (ascii " supervise \""))
      (ap vbs_literal (append_assoc doubled (ascii "\"\"") (ascii "\", 0, False\r\n")) ∙ inner)

-- The literal behind `Run "`.
abbrev run_literal : Bytes → Bytes → Bytes
run_literal exe out_dir =
    ascii "\"\""
    ++ (exe
        ++ (ascii "\"\"" ++ (args_part (ascii "supervise") out_dir ++ ascii "\", 0, False\r\n")))

run_literal-command_line :
    (exe out_dir : Bytes)
    → lacks exe b'"' ≡ true
    → any ends_line exe ≡ false
    → any ends_line out_dir ≡ false
    → vbs_literal (run_literal exe out_dir) ≡ some (command_line exe out_dir, run_tail)
unfolding vbs_literal
run_literal-command_line exe out_dir h n m =
    let args = if is_empty out_dir then [] else ascii " \"" ++ (out_dir ++ ascii "\"") in
    let rest = args_part (ascii "supervise") out_dir ++ ascii "\", 0, False\r\n" in
    ap (put_front b'"') (
      vbs_literal-plain exe (b'"' ∷ rest) b'"' h n
      ∙ ap (λ r. put_all exe (put_front b'"' r)) (args_literal out_dir m)
      ∙ put_all-some exe (ascii "\" supervise" ++ args) run_tail)

-- Whatever directory is accepted, the launcher is the comment and one statement that runs exactly
-- the quoted program with `supervise` and the directory, quotes in it and all: the literal that
-- VBScript reads, on one line, is that command line, and nothing but the fixed tail follows it. The
-- program's path holds no quote and no line break.
pub launcher_of-command_line :
    (exe out_dir content : Bytes)
    → lacks exe b'"' ≡ true
    → any ends_line exe ≡ false
    → launcher_of exe out_dir ≡ some content
    → (literal : Bytes) × (content ≡ comment_line ++ (run_head ++ b'"' ∷ literal))
      × (vbs_literal literal ≡ some (command_line exe out_dir, run_tail))
unfolding launcher_of vbs_launcher_content out_dir_has_line_break
launcher_of-command_line exe out_dir content h n e =
    elim (Bool-cases (out_dir_has_line_break out_dir)) [
      | inl breaks ↦ absurd (ground arith)
      | inr whole ↦ (
        run_literal exe out_dir,
        sym (some-injective _ content (rw (whole, launcher_of) at e)),
        run_literal-command_line exe out_dir h n whole,
      )
    ]
