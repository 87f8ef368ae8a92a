-- ===== src/Names.antt =====
-- cdp.go and surfaces.go: how the names of the exported files are made.
pub mod Safe
pub mod Visible
use schroedinger_sync.Base.{
  ℕ, Bool, true, false, not, ◌&&◌, ◌||◌, List, [], ◌∷◌, ◌++◌, ◌==◌, if◌then◌else◌, leb, keep,
  is_empty, any, Bytes, ascii,
}
use schroedinger_sync.Text.Search.{has_suffix, lower, trim_suffix}
use schroedinger_sync.Text.Runes.{trunc, trim_space, within}
use schroedinger_sync.Api.{ConvSummary, ProjectSummary, ProjectDoc}

-- `reBadChars`: characters that no Windows file name holds.
unfoldable pub is_bad : ℕ → Bool
is_bad c = leb c 0x1f || any (λ b. b == c) (ascii "<>:\"/\\|?*")

-- `\s` of `reSpaces`
unfoldable pub is_blank : ℕ → Bool
is_blank c = c == b' ' || (c == b'\t' || (c == b'\n' || (c == 0x0c || c == b'\r')))

-- `reSpaces.ReplaceAllString(s, "_")`; the flag says that the byte before was blank.
unfoldable pub collapse : Bool → Bytes → Bytes
unfolding is_blank
collapse inside [] = []
collapse inside (c ∷ s) =
    (if is_blank c then (if inside then [] else ascii "_") else c ∷ []) ++ collapse (is_blank c) s

-- `pathSafe`: `reNotPathSafe` leaves `[0-9A-Za-z-]`.
unfoldable pub is_path_safe : ℕ → Bool
is_path_safe c = within b'0' b'9' c || (within b'A' b'Z' c || (within b'a' b'z' c || c == b'-'))

unfoldable pub path_safe : Bytes → Bytes
unfolding is_path_safe
path_safe s = keep is_path_safe s

-- `sanitize`
unfoldable pub sanitize : Bytes → Bytes
sanitize name =
    let cleaned = keep (λ c. not (is_bad c)) name in
    let joined = collapse false (trim_space cleaned) in
    let short = trunc joined 80 in if is_empty short then ascii "Untitled" else short

-- `convFilename`, as a name inside `outDir`.
unfoldable pub conv_filename : ConvSummary → Bytes
conv_filename c =
    path_safe (trunc c.created_at 10)
    ++ (ascii "_"
        ++ (path_safe (trunc c.uuid 8) ++ (ascii "_" ++ (sanitize c.name ++ ascii ".md"))))

-- The file of a project document (`harvestProjects`), as a name inside `outDir`, before and
-- after the test of its suffix.
unfoldable pub doc_base : ProjectSummary → ProjectDoc → Bytes
doc_base p d =
    ascii "project_"
    ++ (path_safe (trunc p.uuid 8)
        ++ (ascii "_"
            ++ (path_safe (trunc d.uuid 8)
                ++ (ascii "_" ++ sanitize (trim_suffix d.file_name (ascii ".md"))))))

unfoldable pub doc_filename : ProjectSummary → ProjectDoc → Bytes
doc_filename p d =
    let base = doc_base p d in
    if not (has_suffix (lower base) (ascii ".md")) then base ++ ascii ".md" else base
