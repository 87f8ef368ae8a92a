-- ===== src/Cookie/Stored.antt =====
-- main.go: a session key that was stored in the browser's format is read back.
use mathlib.Core.List.{append_assoc}
use schroedinger_sync.Base.{
  ℕ, zero, suc, ◌≤◌, ◌≡◌, ◌==◌, refl, ◌∙◌, ap, arith, Bool, true, false, ◌&&◌, Option, some, List,
  [], ◌∷◌, ◌++◌, if◌then◌else◌, ltb, leb, all, is_empty, length, length-append, take, drop, Bytes,
  ascii, ◌=?◌,
}
use schroedinger_sync.Text.Search.{has_prefix, contains, from_first}
use schroedinger_sync.Text.Runes.{trim_space}
use schroedinger_sync.Text.Runes.Plain.{is_plain, trim_space-plain}
use schroedinger_sync.Result.{ok}
use schroedinger_sync.Security.{register_secret}
use schroedinger_sync.Cookie.{
  trim_zeros, key_start, clean_value, header_safe, encrypted_key, unwrapped, decoded_key,
  load_master_key, opened, decrypt_value, checked_key, with_key, read_session_key,
}

-- The start of every session key.
abbrev pub mark : Bytes
mark = ascii "sk-ant-"

has_prefix-append_le :
    (s t w : Bytes) → length w ≤ length s → has_prefix (s ++ t) w ≡ has_prefix s w
unfolding has_prefix
has_prefix-append_le s t [] h = refl
has_prefix-append_le [] t (c ∷ w) h = absurd (omega arith)
has_prefix-append_le (b ∷ s) t (c ∷ w) h =
    ap (λ p. b == c && p) (has_prefix-append_le s t w (omega arith))

-- What stands before the key is cut off, if the mark does not begin in it.
from_first-mark :
    (junk rest : Bytes)
    → contains (junk ++ ascii "sk-ant") mark ≡ false
    → from_first (junk ++ (mark ++ rest)) mark ≡ some (mark ++ rest)
unfolding from_first contains
from_first-mark [] rest h = unfold has_prefix in refl
from_first-mark (c ∷ junk) rest h =
    let s : Bytes = c ∷ junk ++ ascii "sk-ant" in
    let size : 7 ≤ length s = omega (arith, length-append junk (ascii "sk-ant")) in
    let split : (c ∷ junk) ++ (mark ++ rest) ≡ s ++ b'-' ∷ rest = simp append_assoc in
    let here : has_prefix ((c ∷ junk) ++ (mark ++ rest)) mark ≡ false =
      ap (λ v. has_prefix v mark) split
      ∙ has_prefix-append_le s (b'-' ∷ rest) mark size
      ∙ ground arith in
    rw here (from_first-mark junk rest (ground arith))

trim_zeros-plain :
    (s zeros : Bytes)
    → all is_plain s ≡ true
    → all (λ c. c == 0) zeros ≡ true
    → trim_zeros (s ++ zeros) ≡ s
unfolding trim_zeros
trim_zeros-plain [] [] h z = refl
trim_zeros-plain [] (c ∷ zeros) h z = ground (arith, trim_zeros-plain [] zeros)
trim_zeros-plain (c ∷ s) zeros h z = rw (trim_zeros-plain s zeros (ground arith) z) (ground arith)

header_safe-plain : (s : Bytes) → all is_plain s ≡ true → is_empty s ≡ false → header_safe s ≡ true
unfolding header_safe
header_safe-plain s h e = rw e (printable s h)
  where
    printable : (t : Bytes) → all is_plain t ≡ true → all (λ c. leb 0x20 c && leb c 0x7e) t ≡ true
    printable [] h = refl
    printable (c ∷ t) h = ground (arith, printable t)

clean_value-padded :
    (junk rest zeros : Bytes)
    → contains (junk ++ ascii "sk-ant") mark ≡ false
    → all is_plain rest ≡ true
    → all (λ c. c == 0) zeros ≡ true
    → clean_value (junk ++ (mark ++ (rest ++ zeros))) ≡ mark ++ rest
unfolding clean_value key_start
clean_value-padded junk rest zeros away plain z = rw (from_first-mark junk (rest ++ zeros) away) (
    ap trim_space (trim_zeros-plain (mark ++ rest) zeros plain z)
    ∙ trim_space-plain (mark ++ rest) plain)

take-append : (s t : Bytes) (n : ℕ) → length s ≡ n → take n (s ++ t) ≡ s
take-append [] t zero h = refl
take-append [] t (suc n) h = absurd (omega arith)
take-append (c ∷ s) t zero h = absurd (omega arith)
take-append (c ∷ s) t (suc n) h = ap (◌∷◌ c) (take-append s t n (omega arith))

drop-append : (s t : Bytes) (n : ℕ) → length s ≡ n → drop n (s ++ t) ≡ t
drop-append [] t zero h = refl
drop-append [] t (suc n) h = absurd (omega arith)
drop-append (c ∷ s) t zero h = absurd (omega arith)
drop-append (c ∷ s) t (suc n) h = drop-append s t n (omega arith)

-- The browser's formats: a version, the nonce, and the sealed value, which v20 puts behind a hash
-- of the domain.
abbrev pub versioned : Bool → Bytes → Bytes → Bytes
versioned is_v20 nonce ct = (if is_v20 then ascii "v20" else ascii "v10") ++ (nonce ++ ct)

abbrev pub hashed : Bool → Bytes → Bytes → Bytes
hashed is_v20 domain_hash pt = if is_v20 then domain_hash ++ pt else pt

module _ (dpapi : Bytes → Option Bytes) (base64 : Bytes → Option Bytes)
    (gcm_open : Bytes → Bytes → Bytes → Option Bytes) where
  decrypt_value-versioned :
      (is_v20 : Bool) (nonce ct key domain_hash pt : Bytes)
      → length nonce ≡ 12
      → 1 ≤ length ct
      → length domain_hash ≡ 32
      → gcm_open key nonce ct ≡ some (hashed is_v20 domain_hash pt)
      → decrypt_value dpapi base64 gcm_open (versioned is_v20 nonce ct) key ≡ some pt
  unfolding decrypt_value opened ◌=?◌
  decrypt_value-versioned true nonce ct key domain_hash pt n c d e =
      let long : ltb 15 (length (ascii "v20" ++ (nonce ++ ct))) ≡ true =
        ground (arith, length-append nonce ct) in
      let hash : leb 32 (length (domain_hash ++ pt)) ≡ true =
        ground (arith, length-append domain_hash pt) in
      rw (long, take-append nonce ct 12 n, drop-append nonce ct 12 n, e, hash)
        (ap some (drop-append domain_hash pt 32 d))
  decrypt_value-versioned false nonce ct key domain_hash pt n c d e =
      let long : ltb 15 (length (ascii "v10" ++ (nonce ++ ct))) ≡ true =
        ground (arith, length-append nonce ct) in
      rw (long, take-append nonce ct 12 n, drop-append nonce ct 12 n, e) refl

  load_master_key-stored :
      (state wrapped blob key : Bytes)
      → encrypted_key state ≡ some wrapped
      → base64 wrapped ≡ some (ascii "DPAPI" ++ blob)
      → dpapi blob ≡ some key
      → load_master_key dpapi base64 gcm_open (some state) ≡ some key
  unfolding load_master_key decoded_key unwrapped ◌=?◌
  load_master_key-stored state wrapped blob key s b d =
      let long : ltb (length (ascii "DPAPI" ++ blob)) 5 ≡ false =
        ground (arith, length-append (ascii "DPAPI") blob) in
      rw (s, b, long) d

  checked_key-padded :
      (junk rest zeros : Bytes) (secrets : List Bytes)
      → contains (junk ++ ascii "sk-ant") mark ≡ false
      → all is_plain rest ≡ true
      → all (λ c. c == 0) zeros ≡ true
      → checked_key dpapi base64 gcm_open (some (junk ++ (mark ++ (rest ++ zeros)))) secrets
        ≡ (ok (mark ++ rest), register_secret (mark ++ rest) secrets)
  unfolding checked_key
  checked_key-padded junk rest zeros secrets away plain z =
      rw
        (
          clean_value-padded junk rest zeros away plain z,
          header_safe-plain (mark ++ rest) plain refl,
        )
        refl

  -- A session key that begins with `sk-ant-` and is plain ASCII is read back as it was stored, and
  -- registered with the redactor: in the format v10 or v20, with zeros behind it, and with anything
  -- before it in which the mark does not begin. Local State holds the wrapped key of the cipher, and
  -- the cipher opens what it sealed.
  pub read_session_key-stored :
      (state wrapped blob key nonce ct domain_hash junk rest zeros : Bytes) (is_v20 : Bool)
      (secrets : List Bytes)
      → encrypted_key state ≡ some wrapped
      → base64 wrapped ≡ some (ascii "DPAPI" ++ blob)
      → dpapi blob ≡ some key
      → length nonce ≡ 12
      → 1 ≤ length ct
      → length domain_hash ≡ 32
      → gcm_open key nonce ct ≡ some (hashed is_v20 domain_hash (junk ++ (mark ++ (rest ++ zeros))))
      → contains (junk ++ ascii "sk-ant") mark ≡ false
      → all is_plain rest ≡ true
      → all (λ c. c == 0) zeros ≡ true
      → read_session_key dpapi base64 gcm_open true
          (some state)
          (some (versioned is_v20 nonce ct))
          secrets
        ≡ (ok (mark ++ rest), register_secret (mark ++ rest) secrets)
  unfolding read_session_key with_key
  read_session_key-stored state wrapped blob key nonce ct domain_hash junk rest zeros is_v20 secrets
        s b d n c h e away plain z =
      rw
        (
          load_master_key-stored state wrapped blob key s b d,
          decrypt_value-versioned is_v20 nonce ct key domain_hash _ n c h e,
        )
        (checked_key-padded junk rest zeros secrets away plain z)
