-- ===== src/Tests/Keys.antt =====
-- The session key and the one-shot harvest, run.
use schroedinger_sync.Base.{
  ℕ, ◌≡◌, refl, true, false, ◌||◌, ◌&&◌, is_empty, all, some, [], ◌∷◌, ◌++◌, arith, leb, length,
  Bytes, ascii, Option,
}
use schroedinger_sync.Text.Search.{from_first, contains, has_prefix}
use schroedinger_sync.Text.Runes.{trim_space}
use schroedinger_sync.Json.Decode.{struct, unmarshal}
use schroedinger_sync.Security.Redaction.{registered}
use schroedinger_sync.Harvest.{Harvest}
use schroedinger_sync.Cookie.{
  header_safe, read_session_key, load_master_key, encrypted_key, decrypt_value, checked_key,
  clean_value, trim_zeros,
}
use schroedinger_sync.Cookie.Key.{read_session_key_guarded}
use schroedinger_sync.Cookie.Stored.{versioned, read_session_key-stored}
use schroedinger_sync.Security.{register_secret}
use schroedinger_sync.Result.{ok}
use schroedinger_sync.Tests.Server.{session, empty_disk}

-- Stand-ins: nothing is encrypted.
abbrev same : Bytes → Option Bytes
same b = some b

abbrev opening : Bytes → Bytes → Bytes → Option Bytes
opening key nonce ct = some ct

abbrev local_state : Bytes
local_state = ascii "{\"os_crypt\":{\"encrypted_key\":\"DPAPIk\"}}"

read_session_key_guarded_example :
    (is_empty (ascii "sk-ant-1") ≡ false)
    × (all (λ c. leb 0x20 c && leb c 0x7e) (ascii "sk-ant-1") ≡ true)
    × (registered
          (read_session_key same same opening true
            (some local_state)
            (some (ascii "sk-ant-1"))
            []).1
          (ascii "sk-ant-1")
        ≡ (registered [] (ascii "sk-ant-1") || leb 8 (length (ascii "sk-ant-1"))))
unfolding read_session_key load_master_key encrypted_key decrypt_value checked_key clean_value
    trim_zeros header_safe from_first trim_space struct unmarshal
read_session_key_guarded_example =
    read_session_key_guarded same same opening (ascii "sk-ant-1") true (some local_state)
      (some (ascii "sk-ant-1")) [] refl

abbrev domain_hash : Bytes
domain_hash = ascii "0123456789abcdef0123456789abcdef"

-- A key in the format v20, with a zero behind it.
abbrev sealed : Bytes
sealed = domain_hash ++ (ascii "sk-ant-k1" ++ 0 ∷ [])

read_session_key-stored_example :
    read_session_key same same opening true
      (some local_state)
      (some (versioned true (ascii "012345678901") sealed))
      []
    ≡ (ok (ascii "sk-ant-k1"), register_secret (ascii "sk-ant-k1") [])
unfolding encrypted_key struct unmarshal contains has_prefix
read_session_key-stored_example =
    read_session_key-stored same same opening local_state (ascii "DPAPIk") (ascii "k") (ascii "k")
      (ascii "012345678901") sealed domain_hash [] (ascii "k1") (0 ∷ []) true [] refl refl refl refl
      (omega arith) refl refl refl refl refl

abbrev beginning : Harvest ℕ
beginning = record {
  session = session;
  disk = empty_disk;
  new_n = 0;
  skip_n = 0;
  err_n = 0;
  manifest_err_n = 0;
}
