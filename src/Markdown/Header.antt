-- ===== src/Markdown/Header.antt =====
-- The freshness header, written by `convToMarkdown` and read back by `fileConvUpdatedAt`.
use mathlib.Core.List.{append_assoc}
use schroedinger_sync.Base.{
  ℕ, zero, suc, ◌+◌, ◌-◌, ◌≡◌, ◌≤◌, ◌∙◌, refl, ap, arith, true, false, none, some, List, [], ◌∷◌,
  ◌++◌, is_empty, map, take, length, length-append, Bytes, ascii,
}
use schroedinger_sync.Text.Search.{has_prefix, replace_from, replace_all}
use schroedinger_sync.Text.Search.Replace.{lacks, lacks-replace}
use schroedinger_sync.Text.Runes.{trunc, trim_space, concat}
use schroedinger_sync.Api.{FullConv}
use schroedinger_sync.Markdown.{
  trimmed_match, conv_title, message_section, one_line, conv_header, render, split_lines,
  updated_mark, find_updated, file_conv_updated_at, header_window,
}

split_lines-line :
    (l rest : Bytes) → lacks l b'\n' ≡ true → split_lines (l ++ b'\n' ∷ rest) ≡ l ∷ split_lines rest
unfolding split_lines
split_lines-line [] rest h = refl
split_lines-line (c ∷ l) rest h = ground (arith, split_lines-line l rest)

split_lines_one : (l : Bytes) → lacks l b'\n' ≡ true → split_lines l ≡ l ∷ []
unfolding split_lines
split_lines_one [] h = refl
split_lines_one (c ∷ l) h = ground (arith, split_lines_one l)

take-append_right :
    (n : ℕ) (s t : Bytes) → length s ≤ n → take n (s ++ t) ≡ s ++ take (n - length s) t
take-append_right zero [] t h = refl
take-append_right zero (x ∷ s) t h = absurd (omega arith)
take-append_right (suc n) [] t h = let e : suc n - 0 ≡ suc n = omega arith in rw e
take-append_right (suc n) (x ∷ s) t h =
    let e : suc n - suc (length s) ≡ n - length s = omega arith in
    rw e (ap (◌∷◌ x) (take-append_right n s t (omega arith)))

lacks-conv_title : (name : Bytes) → lacks (conv_title name) b'\n' ≡ true
unfolding conv_title one_line replace_all
lacks-conv_title name =
    ground (arith, lacks-replace (replace_from 0 name (ascii "\r") (ascii " ")) b'\n' b' ' refl)

-- The head of the file up to the end of the line that the daemon looks for.
abbrev pub head_block : Bytes → Bytes → Bytes → Bytes
head_block title created updated =
    ascii "# "
    ++ (title
        ++ (ascii "\n\n- Created: "
            ++ (created ++ (ascii "\n- Updated: " ++ (updated ++ ascii "\n")))))

render-head_block :
    (c : FullConv)
    → (tail : Bytes) × (render c
        ≡ head_block (conv_title c.name) (trunc c.created_at 19) (trunc c.updated_at 19) ++ tail)
unfolding render conv_header
render-head_block c = (
  ascii "- Model: "
      ++ (c.model ++ (ascii "\n\n---\n\n" ++ concat (map message_section c.chat_messages))),
  simp append_assoc,
)

-- Of the four first lines of a file only the fourth is the one looked for.
find_updated-lines :
    (title created updated : Bytes) (later : List Bytes)
    → is_empty updated ≡ false
    → find_updated (
        (ascii "# " ++ title)
        ∷ []
        ∷ (ascii "- Created: " ++ created)
        ∷ (updated_mark ++ updated)
        ∷ later)
      ≡ some updated
unfolding find_updated has_prefix
find_updated-lines title created [] later e = cc
find_updated-lines title created (x ∷ updated) later e = ground arith

module _ (title created updated : Bytes) where
  head_block-lines :
      (tail : Bytes)
      → head_block title created updated ++ tail
        ≡ (ascii "# " ++ title)
          ++ b'\n'
            ∷ ([]
                ++ b'\n'
                  ∷ ((ascii "- Created: " ++ created)
                      ++ b'\n' ∷ ((updated_mark ++ updated) ++ b'\n' ∷ tail)))
  head_block-lines tail = simp append_assoc

  length-head_block :
      length (head_block title created updated)
      ≡ length title + length created + length updated + 28
  length-head_block = omega (
    arith,
    length-append title (
        ascii "\n\n- Created: " ++ (created ++ (ascii "\n- Updated: " ++ (updated ++ ascii "\n")))),
    length-append created (ascii "\n- Updated: " ++ (updated ++ ascii "\n")),
    length-append updated (ascii "\n"),
  )

  find_updated-head_block :
      (tail : Bytes)
      → lacks title b'\n' ≡ true
      → lacks created b'\n' ≡ true
      → lacks updated b'\n' ≡ true
      → is_empty updated ≡ false
      → find_updated (split_lines (head_block title created updated ++ tail)) ≡ some updated
  find_updated-head_block tail t c u e =
      rw
        (
          head_block-lines,
          split_lines-line (ascii "# " ++ title) _ t,
          split_lines-line [] _ refl,
          split_lines-line (ascii "- Created: " ++ created) _ c,
          split_lines-line (updated_mark ++ updated) _ u,
        )
        (find_updated-lines title created updated (split_lines tail) e)

  -- A window that holds the head shows what was written there.
  find_updated-window :
      (n : ℕ) (tail : Bytes)
      → lacks title b'\n' ≡ true
      → lacks created b'\n' ≡ true
      → lacks updated b'\n' ≡ true
      → is_empty updated ≡ false
      → length title + length created + length updated + 28 ≤ n
      → find_updated (split_lines (take n (head_block title created updated ++ tail)))
        ≡ some updated
  find_updated-window n tail t c u e fits =
      let head = head_block title created updated in
      let whole : length head ≤ n = omega (arith, length-head_block) in
      ap (λ s. find_updated (split_lines s)) (take-append_right n head tail whole)
      ∙ find_updated-head_block (take (n - length head) tail) t c u e

-- The daemon reads back the timestamp that the conversion wrote: the first 19 runes of the
-- conversation's `updated_at`, if the dates hold no line break, that timestamp is not empty and
-- not surrounded by spaces, and the head of the file up to it fits the window of 512 bytes.
pub file_conv_updated_at-render :
    (c : FullConv)
    → lacks (trunc c.created_at 19) b'\n' ≡ true
    → lacks (trunc c.updated_at 19) b'\n' ≡ true
    → is_empty (trunc c.updated_at 19) ≡ false
    → trim_space (trunc c.updated_at 19) ≡ trunc c.updated_at 19
    → length (conv_title c.name)
        + length (trunc c.created_at 19)
        + length (trunc c.updated_at 19)
        + 28
      ≤ header_window
    → file_conv_updated_at (some (render c)) ≡ trunc c.updated_at 19
unfolding file_conv_updated_at
file_conv_updated_at-render c hc hu e trimmed fits =
    let (tail, shape) = render-head_block c in
    ap (λ s. file_conv_updated_at (some s)) shape
    ∙ ap trimmed_match (
        find_updated-window (conv_title c.name) _ _ header_window tail (lacks-conv_title c.name) hc
          hu e fits)
    ∙ trimmed

take-append_left : (n : ℕ) (s t : Bytes) → n ≤ length s → take n (s ++ t) ≡ take n s
take-append_left zero s t h = refl
take-append_left (suc n) [] t h = absurd (omega arith)
take-append_left (suc n) (x ∷ s) t h = ap (◌∷◌ x) (take-append_left n s t (omega arith))

lacks-take : (n : ℕ) (s : Bytes) (b : ℕ) → lacks s b ≡ true → lacks (take n s) b ≡ true
lacks-take zero s b h = refl
lacks-take (suc n) [] b h = refl
lacks-take (suc n) (x ∷ s) b h = ground (arith, lacks-take n s b)

-- A window that ends inside the first line shows no timestamp.
find_updated-first_line :
    (n : ℕ) (title rest : Bytes)
    → lacks title b'\n' ≡ true
    → n ≤ length title
    → find_updated (split_lines (b'#' ∷ b' ' ∷ take n (title ++ rest))) ≡ none
unfolding find_updated has_prefix
find_updated-first_line n title rest l h =
    let cut = lacks-take n title b'\n' l in
    rw (take-append_left n title rest h, split_lines_one (b'#' ∷ b' ' ∷ take n title) cut)

-- A title that fills the window hides the timestamp: the file reads as one without a header.
pub file_conv_updated_at-long_title :
    (c : FullConv)
    → header_window ≤ length (conv_title c.name) + 2
    → file_conv_updated_at (some (render c)) ≡ []
unfolding file_conv_updated_at
file_conv_updated_at-long_title c long =
    let (tail, shape) = render-head_block c in
    let title = conv_title c.name in
    ap (λ s. file_conv_updated_at (some s)) shape
    ∙ ap (λ s. trimmed_match (find_updated (split_lines (b'#' ∷ b' ' ∷ take 510 s))))
        (append_assoc title _ tail)
    ∙ ap trimmed_match (find_updated-first_line 510 title _ (lacks-conv_title c.name) (omega arith))
