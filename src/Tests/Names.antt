-- ===== src/Tests/Names.antt =====
-- Headers and the launcher, run.
use schroedinger_sync.Base.{ℕ, ◌≡◌, refl, arith, some, [], ◌∷◌, ◌++◌, Bytes, ascii, zero, suc}
use schroedinger_sync.Text.Search.{replace_all}
use schroedinger_sync.Text.Runes.{trunc, trim_space}
use schroedinger_sync.Api.{FullConv}
use schroedinger_sync.Markdown.{render, file_conv_updated_at, conv_title, one_line}
use schroedinger_sync.Markdown.Header.{file_conv_updated_at-render, file_conv_updated_at-long_title}
use schroedinger_sync.Launcher.{
  comment_line, run_head, launcher_of, vbs_launcher_content, out_dir_has_line_break,
}
use schroedinger_sync.Launcher.Statement.{
  vbs_literal, command_line, run_tail, launcher_of-command_line,
}

abbrev exported : FullConv
exported = record {
  name = ascii "A";
  created_at = ascii "2026-01-01T00:00:00Z";
  updated_at = ascii "2026-01-02T00:00:00Z";
  model = ascii "m";
  chat_messages = [];
}

file_conv_updated_at-render_example :
    file_conv_updated_at (some (render exported)) ≡ trunc exported.updated_at 19
unfolding trunc trim_space conv_title one_line replace_all
file_conv_updated_at-render_example =
    file_conv_updated_at-render exported refl refl refl refl (omega arith)

abbrev times : ℕ → ℕ → Bytes
times zero c = []
times (suc n) c = c ∷ times n c

abbrev long_titled : FullConv
long_titled = record exported { name = times 510 b'x' }

file_conv_updated_at-long_title_example : file_conv_updated_at (some (render long_titled)) ≡ []
unfolding conv_title one_line replace_all trim_space
file_conv_updated_at-long_title_example = file_conv_updated_at-long_title long_titled (omega arith)

-- A directory that tries to end the statement.
abbrev exe : Bytes
exe = ascii "C:\\s.exe"

abbrev sly : Bytes
sly = ascii "x\", 0 : Evil \""

launcher_of-command_line_example :
    (literal : Bytes) × (vbs_launcher_content exe (ascii "supervise") sly
      ≡ comment_line ++ (run_head ++ b'"' ∷ literal))
    × (vbs_literal literal ≡ some (command_line exe sly, run_tail))
unfolding launcher_of out_dir_has_line_break
launcher_of-command_line_example =
    launcher_of-command_line exe sly (vbs_launcher_content exe (ascii "supervise") sly) refl refl
      refl
