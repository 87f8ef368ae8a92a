-- ===== src/Launcher.antt =====
-- daemon.go: the autostart launcher, a VBScript file of two lines.
pub mod Statement
pub mod Line
pub mod Task
pub mod Installed
use schroedinger_sync.Base.{
  ℕ, Bool, ◌||◌, Option, none, some, [], ◌++◌, ◌==◌, if◌then◌else◌, any, is_empty, Bytes, ascii,
}
use schroedinger_sync.Text.Search.{replace_all}

-- `outDirHasLineBreak`
unfoldable pub out_dir_has_line_break : Bytes → Bool
out_dir_has_line_break out_dir = any (λ c. c == b'\r' || c == b'\n') out_dir

-- The arguments behind the program, as they stand inside the literal.
unfoldable pub args_part : Bytes → Bytes → Bytes
args_part subcommand out_dir =
    if is_empty out_dir
    then ascii " " ++ subcommand
    else ascii " "
      ++ (subcommand
          ++ (ascii " \"\"" ++ (replace_all out_dir (ascii "\"") (ascii "\"\"") ++ ascii "\"\"")))

abbrev pub comment_line : Bytes
comment_line =
    ascii "' GSOC Schroedinger live-sync daemon - autostart at logon (hidden console)\r\n"

abbrev pub run_head : Bytes
run_head = ascii "CreateObject(\"WScript.Shell\").Run "

-- `vbsLauncherContent`
unfoldable pub vbs_launcher_content : Bytes → Bytes → Bytes → Bytes
vbs_launcher_content exe subcommand out_dir =
    comment_line
    ++ (run_head
        ++ (ascii "\"\"\""
            ++ (exe
                ++ (ascii "\"\"" ++ (args_part subcommand out_dir ++ ascii "\", 0, False\r\n")))))

-- What `installTask` writes: `none` if it refuses the directory.
unfoldable pub launcher_of : Bytes → Bytes → Option Bytes
launcher_of exe out_dir =
    if out_dir_has_line_break out_dir
    then none
    else some (vbs_launcher_content exe (ascii "supervise") out_dir)
