-- ===== src/Tests/Secrets.antt =====
-- Redaction, run.
use schroedinger_sync.Base.{◌≡◌, refl, false, [], ◌∷◌, ◌++◌, map, List, Bytes, ascii, ◌=?◌}
use schroedinger_sync.Text.Search.{contains, has_prefix}
use schroedinger_sync.Text.Runes.{concat}
use schroedinger_sync.Security.{redact, redacted_stdout}
use schroedinger_sync.Security.Terminal.{ended, redacted_stdout-lines}
use schroedinger_sync.Security.Lines.{redacted_stdout-lacks}

abbrev key : Bytes
key = ascii "sk-ant-1"

abbrev secrets : List Bytes
secrets = key ∷ []

redacted_stdout-lines_example :
    redacted_stdout secrets (ascii "sk-" ∷ ascii "ant-1\nk" ∷ [])
    ≡ concat (map (λ l. redact secrets (ended l)) (key ∷ [])) ++ redact secrets (ascii "k")
redacted_stdout-lines_example =
    redacted_stdout-lines secrets (key ∷ []) (ascii "k") (ascii "sk-" ∷ ascii "ant-1\nk" ∷ []) refl
      refl refl

redacted_stdout-lacks_example :
    contains (redacted_stdout secrets (ascii "sk-" ∷ ascii "ant-1\n" ∷ [])) key ≡ false
unfolding contains has_prefix ◌=?◌
redacted_stdout-lacks_example =
    redacted_stdout-lacks secrets b's' (ascii "k-ant-1") (refl, refl, refl, refl) refl refl refl
      (ascii "sk-" ∷ ascii "ant-1\n" ∷ [])
