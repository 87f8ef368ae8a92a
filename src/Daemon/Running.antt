-- ===== src/Daemon/Running.antt =====
-- daemon.go: `processPathContains`, `isDesktopRunning` and `isVSCodeRunning`. The commands that they
-- run, and `unicode.ToLower` outside ASCII, are parameters.
use schroedinger_sync.Base.{
  Bool, true, false, Option, none, some, List, [], ◌∷◌, ◌++◌, ◌≡◌, refl, arith, all, Bytes, ascii,
}
use schroedinger_sync.Text.Runes.Bounds.{is_ascii}
use schroedinger_sync.Text.Search.{has_prefix, contains, lower}
use schroedinger_sync.Text.Lowered.{
  to_lower, contains-append, contains-of_has_prefix, contains-to_lower,
}

-- `claudeDesktopPathHint`
abbrev pub claude_desktop_path_hint : Bytes
claude_desktop_path_hint = ascii "WindowsApps\\Claude_"

-- The query of `processPathContains` for the paths of an image's processes.
unfoldable pub path_query : Bytes → List Bytes
path_query image_name =
    ascii "powershell"
    ∷ ascii "-NoProfile"
    ∷ ascii "-NonInteractive"
    ∷ ascii "-Command"
    ∷ (ascii "(Get-CimInstance Win32_Process -Filter \"Name='"
        ++ (image_name ++ ascii "'\" -ErrorAction SilentlyContinue).ExecutablePath"))
    ∷ []

abbrev pub task_query : List Bytes
task_query =
    ascii "tasklist"
    ∷ ascii "/FI"
    ∷ ascii "IMAGENAME eq Code.exe"
    ∷ ascii "/FO"
    ∷ ascii "CSV"
    ∷ ascii "/NH"
    ∷ []

-- `output` is what a command prints, or `none` if it fails.
module _ (lower_rune : Bytes → Bytes) (output : List Bytes → Option Bytes) where
  unfoldable pub answer_contains : Option Bytes → Bytes → Bool
  answer_contains none word = false
  answer_contains (some out) word = contains (to_lower lower_rune out) word

  unfoldable pub process_path_contains : Bytes → Bytes → Bool
  unfolding answer_contains
  process_path_contains image_name path_substring =
      answer_contains (output (path_query image_name)) (to_lower lower_rune path_substring)

  unfoldable pub is_desktop_running : Bool
  unfolding process_path_contains
  is_desktop_running = process_path_contains (ascii "claude.exe") claude_desktop_path_hint

  unfoldable pub is_vscode_running : Bool
  unfolding answer_contains
  is_vscode_running = answer_contains (output task_query) (ascii "code.exe")

lower-append : (s t : Bytes) → lower (s ++ t) ≡ lower s ++ lower t
unfolding lower
lower-append [] t = refl
lower-append (c ∷ s) t = ground (arith, lower-append s t)

has_prefix_self : (w t : Bytes) → has_prefix (w ++ t) w ≡ true
unfolding has_prefix
has_prefix_self [] t = refl
has_prefix_self (c ∷ w) t = ground (arith, has_prefix_self w t)

-- A word that is spelled somewhere in a text, whatever the case of its letters.
contains-spelled :
    (before spelled after w : Bytes)
    → lower spelled ≡ w
    → contains (lower (before ++ (spelled ++ after))) w ≡ true
contains-spelled before spelled after w e =
    rw (lower-append before (spelled ++ after), lower-append spelled after, e)
      (contains-append (lower before) (w ++ lower after) w
        (contains-of_has_prefix (w ++ lower after) w (has_prefix_self w (lower after))))

module _ (lower_rune : Bytes → Bytes) (output : List Bytes → Option Bytes) where
  -- A path of Claude Desktop in the answer, between whatever other paths and in whatever case, is not
  -- overlooked, also where the rest of the answer is not in ASCII or no valid UTF-8.
  pub is_desktop_running-spelled :
      (before spelled after : Bytes)
      → output (path_query (ascii "claude.exe")) ≡ some (before ++ (spelled ++ after))
      → lower spelled ≡ ascii "windowsapps\\claude_"
      → is_desktop_running lower_rune output ≡ true
  unfolding is_desktop_running lower to_lower
  is_desktop_running-spelled before spelled after e h = rw e (
      contains-to_lower lower_rune _ b'w' (ascii "indowsapps\\claude_") refl
        (contains-spelled before spelled after _ h))

  -- Without such a path in an answer in ASCII, Claude Desktop is not reported.
  pub is_desktop_running-absent :
      (out : Bytes)
      → output (path_query (ascii "claude.exe")) ≡ some out
      → all is_ascii out ≡ true
      → contains (lower out) (ascii "windowsapps\\claude_") ≡ false
      → is_desktop_running lower_rune output ≡ false
  unfolding is_desktop_running lower to_lower
  is_desktop_running-absent out e plain h = rw (e, plain) h
