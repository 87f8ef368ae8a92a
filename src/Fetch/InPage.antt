-- ===== src/Fetch/InPage.antt =====
-- cdp.go: the functions `get` and `rawGet` that `openClaudeSession` returns. Both have Chrome
-- evaluate a script in the page; `evaluate` is `chromedp.Evaluate` on the script.
pub mod Script
use schroedinger_sync.Base.{
  ℕ, Bool, true, false, Option, none, some, [], ◌++◌, if◌then◌else◌, Bytes, ascii,
}
use schroedinger_sync.Text.Decimal.{Signed, atoi}
use schroedinger_sync.Result.{Result, ok, err}
use schroedinger_sync.Json.{Value, null, number}
use schroedinger_sync.Json.Decode.{Decoded, well, ill, text_into, struct, unmarshal, names}
use schroedinger_sync.Json.Write.{js_string_literal}

-- The script of `get`.
unfoldable pub get_script : Bytes → Bytes
get_script path =
    ascii "fetch("
    ++ (js_string_literal path ++ ascii ",{credentials:'include'}).then(r=>r.text())")

-- The script of `rawGet`.
unfoldable pub raw_get_script : Bytes → Bytes
raw_get_script path =
    ascii "fetch("
    ++ (js_string_literal path
        ++ ascii
            ",{credentials:'include'}).then(async r=>JSON.stringify({s:r.status,b:(await r.text()).slice(0,6000)}))")

-- What `rawGet` returns without an error: the status, and the head of the body.
pub record RawAnswer : Type 0 where
  pub status : ℕ
  pub head : Bytes

-- A status below zero, which no server sends, is read as an ill-typed one.
status_of : Option Signed → RawAnswer → Decoded RawAnswer
status_of none a = ill a
status_of (some n) a = if n.negative then ill a else well (record a { status = n.magnitude })

status_into : Value → RawAnswer → Decoded RawAnswer
status_into (number n) a = status_of (atoi n) a
status_into null a = well a
status_into _ a = ill a

raw_field : Bytes → Bytes → Value → RawAnswer → Decoded RawAnswer
unfolding names text_into status_into status_of
raw_field k raw v a =
    if names (ascii "s") k
    then status_into v a
    else if names (ascii "b") k
    then text_into (λ t. record a { head = t }) a v
    else well a

unfoldable pub raw_answer : Bytes → Option RawAnswer
unfolding unmarshal struct raw_field
raw_answer = unmarshal (struct (record { status = 0; head = [] }) raw_field)

-- An answer that is no such object is passed on whole, with the status zero.
unfoldable pub raw_result : Result Bytes → Result RawAnswer
raw_result (err e) = err e
raw_result (ok out) = elim (raw_answer out) [
  | none ↦ ok (record { status = 0; head = out })
  | some a ↦ ok a
]

module _ {N : Type 0} (evaluate : Bytes → N → Result Bytes × N) where
  unfoldable pub get_in_page : Bytes → N → Result Bytes × N
  get_in_page path n = evaluate (get_script path) n

  unfoldable pub raw_get : Bytes → N → Result RawAnswer × N
  raw_get path n = let (r, m) = evaluate (raw_get_script path) n in (raw_result r, m)
