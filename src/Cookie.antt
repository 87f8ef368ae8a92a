-- ===== src/Cookie.antt =====
-- main.go: from the encrypted cookie to the session key. AES-GCM, DPAPI and base64 are parameters,
-- and so are the files and the row of the cookie database.
pub mod Key
pub mod Copy
pub mod Stored
use schroedinger_sync.Base.{
  ℕ, ◌-◌, Bool, true, false, not, ◌&&◌, ◌||◌, Option, none, some, [], ◌∷◌, if◌then◌else◌, ltb, leb,
  ◌==◌, all, is_empty, length, take, drop, List, Bytes, ascii, ◌=?◌,
}
use schroedinger_sync.Text.Search.{from_first}
use schroedinger_sync.Text.Runes.{trim_space}
use schroedinger_sync.Result.{Error, desktop_not_found, other, Result, ok, err}
use schroedinger_sync.Json.{Value}
use schroedinger_sync.Json.Decode.{Decoded, well, struct, unmarshal, names}
use schroedinger_sync.Api.Decode.{decode_single}
use schroedinger_sync.Security.{register_secret}

-- `strings.TrimRight(s, "\x00")`
unfoldable pub trim_zeros : Bytes → Bytes
trim_zeros [] = []
trim_zeros (c ∷ s) = let rest = trim_zeros s in if c == 0 && is_empty rest then [] else c ∷ rest

key_start : Option Bytes → Bytes → Bytes
key_start none s = s
key_start (some from) s = from

-- `cleanValue`
unfoldable pub clean_value : Bytes → Bytes
unfolding key_start
clean_value s = trim_space (trim_zeros (key_start (from_first s (ascii "sk-ant-")) s))

-- `headerSafe`
unfoldable pub header_safe : Bytes → Bool
header_safe s = not (is_empty s) && all (λ c. leb 0x20 c && leb c 0x7e) s

-- The `os_crypt.encrypted_key` of `Local State`.
local_state_field : Bytes → Bytes → Value → Bytes → Decoded Bytes
unfolding names decode_single
local_state_field k raw v old =
    if names (ascii "os_crypt") k then decode_single (ascii "encrypted_key") v else well old

unfoldable pub encrypted_key : Bytes → Option Bytes
unfolding local_state_field struct unmarshal
encrypted_key b = unmarshal (struct [] local_state_field) b

module _ (dpapi : Bytes → Option Bytes) (base64 : Bytes → Option Bytes)
    (gcm_open : Bytes → Bytes → Bytes → Option Bytes) where
  unwrapped : Option Bytes → Option Bytes
  unwrapped none = none
  unwrapped (some enc) =
      if ltb (length enc) 5 || not (take 5 enc =? ascii "DPAPI") then none else dpapi (drop 5 enc)

  decoded_key : Option Bytes → Option Bytes
  decoded_key none = none
  decoded_key (some text) = unwrapped (base64 text)

  -- `loadMasterKey`, on the content of `Local State`; an error is `none`.
  unfoldable pub load_master_key : Option Bytes → Option Bytes
  unfolding unwrapped decoded_key
  load_master_key none = none
  load_master_key (some b) = decoded_key (encrypted_key b)

  opened : Bool → Option Bytes → Option Bytes
  opened is_v20 none = none
  opened is_v20 (some pt) = some (if is_v20 && leb 32 (length pt) then drop 32 pt else pt)

  -- `decryptValue`
  unfoldable pub decrypt_value : Bytes → Bytes → Option Bytes
  unfolding opened
  decrypt_value enc key =
      let is_v20 = take 3 enc =? ascii "v20" in
      if ltb 15 (length enc) && (take 3 enc =? ascii "v10" || is_v20)
      then opened is_v20 (gcm_open key (take 12 (drop 3 enc)) (drop 15 enc))
      else dpapi enc

  -- The end of `readSessionKey`: the value is tested, registered and returned.
  unfoldable pub checked_key : Option Bytes → List Bytes → Result Bytes × List Bytes
  checked_key none secrets = (err (other (ascii "decrypt sessionKey")), secrets)
  checked_key (some pt) secrets =
      let val = clean_value pt in
      if not (header_safe val)
      then (err (other (ascii "decrypted sessionKey failed sanity check")), secrets)
      else (ok val, register_secret val secrets)

  -- The part that reads the row of the cookie: `none` if the database cannot be opened or has no
  -- such row. The errors' texts are shortened.
  unfoldable pub with_key : Option Bytes → Option Bytes → List Bytes → Result Bytes × List Bytes
  with_key none row secrets = (err (other (ascii "master key")), secrets)
  with_key (some key) none secrets = (err (other (ascii "no sessionKey cookie found")), secrets)
  with_key (some key) (some enc) secrets = checked_key (decrypt_value enc key) secrets

  -- `readSessionKey`: `local_state` is the content of that file, if it exists and can be read.
  unfoldable pub read_session_key :
      Bool → Option Bytes → Option Bytes → List Bytes → Result Bytes × List Bytes
  unfolding with_key
  read_session_key installed local_state row secrets =
      if not installed
      then (err desktop_not_found, secrets)
      else with_key (load_master_key local_state) row secrets
