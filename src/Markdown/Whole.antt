-- ===== src/Markdown/Whole.antt =====
-- cdp.go: what of a conversation `convToMarkdown` keeps.
use schroedinger_sync.Base.{◌≡◌, List, [], ◌∷◌, ◌++◌, if◌then◌else◌, is_empty, Bytes, ascii, ◌=?◌}
use schroedinger_sync.Text.Runes.{trunc}
use schroedinger_sync.Api.{ContentBlock, Message, FullConv}
use schroedinger_sync.Markdown.{raw_text, conv_title}

-- The texts stand in `s` one behind the other, without overlap.
abbrev pub InOrder : List Bytes → Bytes → Type 0
InOrder [] s = Unit
InOrder (t ∷ ts) s =
    (before : Bytes) × (after : Bytes) × (s ≡ before ++ (t ++ after)) × InOrder ts after

abbrev pub each {ℓ} : {A : Type ℓ} → (A → List Bytes) → List A → List Bytes
each f [] = []
each f (x ∷ xs) = f x ++ each f xs

-- What a block carries: its text, the name and the input of a tool, the result of one, and of any
-- other block its type with its content, or with its text if it has no content.
abbrev pub carried : ContentBlock → List Bytes
carried b =
    if b.kind =? ascii "text"
    then b.text ∷ []
    else if b.kind =? ascii "tool_use"
    then b.name ∷ b.input ∷ []
    else if b.kind =? ascii "tool_result"
    then raw_text b.content ∷ []
    else b.kind ∷ (if is_empty (raw_text b.content) then b.text else raw_text b.content) ∷ []

-- What a message says: its sender, its time, and its blocks, or its text if it has no blocks.
abbrev pub told : Message → List Bytes
told m =
    (if m.sender =? ascii "human" then ascii "## Human [" else ascii "## Claude [")
    ∷ trunc m.created_at 19
    ∷ (if is_empty m.content then m.text ∷ [] else each carried m.content)

-- The dates of the head are cut to the seconds.
abbrev pub facts : FullConv → List Bytes
facts c = conv_title c.name ∷ trunc c.created_at 19 ∷ trunc c.updated_at 19 ∷ c.model ∷ []

-- Labelled values, one behind the other.
abbrev filled : List (Bytes × Bytes) → Bytes → Bytes
filled [] tail = tail
filled ((label, value) ∷ ps) tail = label ++ (value ++ filled ps tail)
