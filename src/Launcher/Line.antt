-- ===== src/Launcher/Line.antt =====
-- daemon.go: the lines of the launcher.
use mathlib.Core.List.{append_assoc}
use mathlib.Core.Option.{some-injective}
use schroedinger_sync.Base.{
  ℕ, true, false, some, [], ◌∷◌, ◌++◌, ◌≡◌, ◌∙◌, refl, sym, arith, ◌==◌, Bytes, ascii, inl, inr,
  Bool-cases,
}
use schroedinger_sync.Text.Search.{replace_all, replace_from, has_prefix}
use schroedinger_sync.Text.Search.Replace.{lacks, lacks-append}
use schroedinger_sync.Launcher.{
  args_part, comment_line, run_head, vbs_launcher_content, launcher_of, out_dir_has_line_break,
}

lacks-doubled :
    (s : Bytes) (b : ℕ)
    → (b'"' == b) ≡ false
    → lacks s b ≡ true
    → lacks (replace_from 0 s (ascii "\"") (ascii "\"\"")) b ≡ true
unfolding replace_from has_prefix
lacks-doubled [] b q h = refl
lacks-doubled (c ∷ s) b q h = ground (arith, lacks-doubled s b q)

accepted-lacks :
    (s : Bytes) → out_dir_has_line_break s ≡ false → (lacks s b'\r' ≡ true) × (lacks s b'\n' ≡ true)
unfolding out_dir_has_line_break
accepted-lacks [] h = (refl, refl)
accepted-lacks (c ∷ s) h = ground (arith, accepted-lacks s)

lacks-both : (s t : Bytes) (b : ℕ) → lacks s b ≡ true → lacks t b ≡ true → lacks (s ++ t) b ≡ true
lacks-both s t b h k = ground (arith, lacks-append s t b)

-- The statement without its line end.
abbrev pub run_line : Bytes → Bytes → Bytes
run_line exe out_dir =
    run_head
    ++ (ascii "\"\"\""
        ++ (exe
            ++ (ascii "\"\"" ++ (args_part (ascii "supervise") out_dir ++ ascii "\", 0, False"))))

-- The fixed pieces of the statement hold no such byte.
abbrev Fixed : ℕ → Type 0
Fixed b =
    ((b'"' == b) ≡ false)
    × (lacks run_head b ≡ true)
    × (lacks (ascii "\"\"\"") b ≡ true)
    × (lacks (ascii "\"\"") b ≡ true)
    × (lacks (ascii " supervise") b ≡ true)
    × (lacks (ascii " supervise \"\"") b ≡ true)
    × (lacks (ascii "\", 0, False") b ≡ true)

module _ (b : ℕ) (fixed : Fixed b) where
  lacks-args_part :
      (out_dir : Bytes)
      → lacks out_dir b ≡ true
      → lacks (args_part (ascii "supervise") out_dir) b ≡ true
  unfolding args_part
  lacks-args_part [] h = let (_, _, _, _, sub, _, _) = fixed in sub
  lacks-args_part (c ∷ s) h =
      let (q, _, _, close, _, sub, _) = fixed in
      let doubled = replace_all (c ∷ s) (ascii "\"") (ascii "\"\"") in
      lacks-both (ascii " supervise \"\"") (doubled ++ ascii "\"\"") b sub (
        lacks-both doubled (ascii "\"\"") b (unfold replace_all in lacks-doubled (c ∷ s) b q h)
          close)

  lacks-run_line :
      (exe out_dir : Bytes)
      → lacks exe b ≡ true
      → lacks out_dir b ≡ true
      → lacks (run_line exe out_dir) b ≡ true
  lacks-run_line exe out_dir h o =
      let (_, head, open', close, _, _, tail) = fixed in
      let args = args_part (ascii "supervise") out_dir ++ ascii "\", 0, False" in
      let behind = exe ++ (ascii "\"\"" ++ args) in
      lacks-both run_head (ascii "\"\"\"" ++ behind) b head (
        lacks-both (ascii "\"\"\"") behind b open' (
          lacks-both exe (ascii "\"\"" ++ args) b h (
            lacks-both (ascii "\"\"") args b close (
              lacks-both (args_part (ascii "supervise") out_dir) (ascii "\", 0, False") b
                (lacks-args_part out_dir o) tail))))

-- Whatever directory is accepted, the launcher's second line holds its whole statement: behind the
-- comment stands one line that is broken nowhere, if the program's path holds no line break.
pub launcher_of-one_line :
    (exe out_dir content : Bytes)
    → lacks exe b'\r' ≡ true
    → lacks exe b'\n' ≡ true
    → launcher_of exe out_dir ≡ some content
    → (line : Bytes) × (content ≡ comment_line ++ (line ++ ascii "\r\n"))
      × (lacks line b'\r' ≡ true)
      × (lacks line b'\n' ≡ true)
unfolding launcher_of vbs_launcher_content
launcher_of-one_line exe out_dir content r n e =
    elim (Bool-cases (out_dir_has_line_break out_dir)) [
      | inl breaks ↦ absurd (ground arith)
      | inr whole ↦
          let (cr, lf) = accepted-lacks out_dir whole in
          let shape = some-injective _ content (rw (whole, launcher_of) at e) in
          (
            run_line exe out_dir,
            sym shape ∙ simp append_assoc,
            lacks-run_line b'\r' (refl, refl, refl, refl, refl, refl, refl) exe out_dir r cr,
            lacks-run_line b'\n' (refl, refl, refl, refl, refl, refl, refl) exe out_dir n lf,
          )
    ]
