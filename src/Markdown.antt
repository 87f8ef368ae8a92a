-- ===== src/Markdown.antt =====
-- cdp.go: the conversion of a conversation to Markdown. daemon.go: the header read back.
pub mod Header
pub mod Whole
use schroedinger_sync.Base.{
  ℕ, zero, suc, Bool, true, false, not, ◌&&◌, ◌||◌, Option, none, some, List, [], ◌∷◌, ◌++◌, ◌==◌,
  if◌then◌else◌, is_empty, map, keep, take, drop, length, ltb, Bytes, ascii, ◌=?◌,
}
use schroedinger_sync.Text.Search.{has_prefix, replace_all, join}
use schroedinger_sync.Text.Runes.{trunc, trim_space, concat}
use schroedinger_sync.Json.{Value}
use schroedinger_sync.Json.Decode.{Decoded, text_into, slice, unmarshal}
use schroedinger_sync.Api.{ContentBlock, Message, FullConv}
use schroedinger_sync.Api.Decode.{decode_single, conversation}

-- `var s string; json.Unmarshal(r, &s)`
unfoldable pub decode_string : Value → Decoded Bytes
unfolding text_into
decode_string = text_into (λ t. t) []

-- `rawText`, behind its test for an empty message
raw_value : Bytes → Bytes
raw_value r = elim (unmarshal decode_string r) [
  | some s ↦ s
  | none ↦ elim (unmarshal (slice (decode_single (ascii "text"))) r) [
    | some texts ↦ join (keep (λ t. not (is_empty t)) texts) (ascii " ")
    | none ↦ r
  ]
]

unfoldable pub raw_text : Bytes → Bytes
unfolding raw_value
raw_text r = if is_empty r then [] else raw_value r

fence : Bytes → Bytes → Bytes
fence label body = ascii "\n```" ++ (label ++ (ascii "\n" ++ (body ++ ascii "\n```\n")))

-- What a block of an unknown type holds.
unknown_body : ContentBlock → Bytes
unknown_body b = let body = raw_text b.content in if is_empty body then b.text else body

-- The part of a message that a block gives (`extractText`).
unfoldable pub block_part : ContentBlock → Bytes
unfolding fence unknown_body
block_part b =
    if b.kind =? ascii "text"
    then b.text
    else if b.kind =? ascii "tool_use"
    then fence (ascii "tool: " ++ b.name) b.input
    else if b.kind =? ascii "tool_result"
    then fence (ascii "result") (raw_text b.content)
    else fence b.kind (unknown_body b)

-- `extractText`
unfoldable pub extract_text : Message → Bytes
extract_text m = if is_empty m.content then m.text else join (map block_part m.content) (ascii "\n")

-- The title on one line.
unfoldable pub one_line : Bytes → Bytes
one_line name = replace_all (replace_all name (ascii "\r") (ascii " ")) (ascii "\n") (ascii " ")

unfoldable pub conv_title : Bytes → Bytes
conv_title name =
    let title = one_line name in if is_empty (trim_space title) then ascii "Untitled" else title

-- The head of the file, up to its rule.
unfoldable pub conv_header : FullConv → Bytes
conv_header c =
    ascii "# "
    ++ (conv_title c.name
        ++ (ascii "\n\n- Created: "
            ++ (trunc c.created_at 19
                ++ (ascii "\n- Updated: "
                    ++ (trunc c.updated_at 19
                        ++ (ascii "\n- Model: " ++ (c.model ++ ascii "\n\n---\n\n")))))))

unfoldable pub message_section : Message → Bytes
message_section m =
    let label = if m.sender =? ascii "human" then ascii "Human" else ascii "Claude" in
    let txt = extract_text m in
    ascii "## "
    ++ (label
        ++ (ascii " ["
            ++ (trunc m.created_at 19
                ++ (ascii "]\n\n" ++ (if is_empty txt then [] else txt ++ ascii "\n\n")))))

unfoldable pub render : FullConv → Bytes
render c = conv_header c ++ concat (map message_section c.chat_messages)

-- None of a conversation's server-set fields: an API error body.
unfoldable pub is_no_conversation : FullConv → Bool
is_no_conversation c = is_empty c.created_at && (is_empty c.updated_at && is_empty c.chat_messages)

-- `convToMarkdown`; the empty text says that nothing is to be written.
unfoldable pub conv_to_markdown : Bytes → Bytes
conv_to_markdown raw = elim (conversation raw) [
  | none ↦ if has_prefix (trim_space raw) (ascii "{") then raw else []
  | some c ↦ if is_no_conversation c then [] else render c
]

-- `strings.Split(s, "\n")`
first_line : ℕ → List Bytes → List Bytes
first_line c [] = (c ∷ []) ∷ []
first_line c (l ∷ ls) = (c ∷ l) ∷ ls

unfoldable pub split_lines : Bytes → List Bytes
unfolding first_line
split_lines [] = [] ∷ []
split_lines (c ∷ s) =
    let rest = split_lines s in if c == b'\n' then [] ∷ rest else first_line c rest

abbrev pub updated_mark : Bytes
updated_mark = ascii "- Updated: "

-- `reUpdatedHeader` at a line: the mark, and at least one more byte.
unfoldable pub updated_line : Bytes → Option Bytes
updated_line l =
    if has_prefix l updated_mark && ltb (length updated_mark) (length l)
    then some (drop (length updated_mark) l)
    else none

-- Its leftmost match.
unfoldable pub find_updated : List Bytes → Option Bytes
unfolding updated_line
find_updated [] = none
find_updated (l ∷ ls) =
    let later = find_updated ls in elim (updated_line l) [ some t ↦ some t | none ↦ later ]

-- The prefix that `fileConvUpdatedAt` reads.
abbrev pub header_window : ℕ
header_window = 512

unfoldable pub trimmed_match : Option Bytes → Bytes
trimmed_match none = []
trimmed_match (some t) = trim_space t

-- `fileConvUpdatedAt`, on the file's content; `none` if it cannot be read.
unfoldable pub file_conv_updated_at : Option Bytes → Bytes
unfolding trimmed_match
file_conv_updated_at none = []
file_conv_updated_at (some content) =
    trimmed_match (find_updated (split_lines (take header_window content)))
