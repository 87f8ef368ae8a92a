-- ===== src/Fetch/InPage/Script.antt =====
-- What stands in the scripts.
use mathlib.Core.List.{append_assoc}
use schroedinger_sync.Base.{◌≡◌, refl, true, some, ◌++◌, all, take, drop, Bytes, ascii}
use schroedinger_sync.Text.Runes.Bounds.{is_ascii}
use schroedinger_sync.Json.Read.{read_string}
use schroedinger_sync.Json.Write.{js_string_literal}
use schroedinger_sync.Json.Written.Strings.{js_string_literal-ascii, read_string-body_of}
use schroedinger_sync.Fetch.InPage.{get_script, raw_get_script}

-- The text starts with the call of `fetch` on a string literal that stands for `path`, and `rest`
-- follows its closing quote.
abbrev pub Fetches : Bytes → Bytes → Bytes → Type 0
Fetches script path rest =
    (take 7 script ≡ ascii "fetch(\"") × (read_string (drop 7 script) ≡ some (path, rest))

script-Fetches :
    (path rest : Bytes)
    → all is_ascii path ≡ true
    → Fetches (ascii "fetch(" ++ (js_string_literal path ++ rest)) path rest
script-Fetches path rest h =
    rw (js_string_literal-ascii path h, append_assoc) (refl, read_string-body_of path rest h)

-- The scripts of `get` and of `rawGet` call `fetch` on the path itself, whatever quotes, backslashes
-- and control characters an ASCII path holds: the first literal ends where the fixed text goes on.
pub scripts-Fetches :
    (path : Bytes)
    → all is_ascii path ≡ true
    → Fetches (get_script path) path (ascii ",{credentials:'include'}).then(r=>r.text())")
      × Fetches (raw_get_script path) path (
          ascii
            ",{credentials:'include'}).then(async r=>JSON.stringify({s:r.status,b:(await r.text()).slice(0,6000)}))")
unfolding get_script raw_get_script
scripts-Fetches path h = (script-Fetches path _ h, script-Fetches path _ h)
