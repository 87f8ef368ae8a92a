-- ===== src/Cookie/Key.antt =====
-- The session key that is handed out.
use schroedinger_sync.Base.{
  ◌≡◌, arith, Bool, true, false, ◌||◌, ◌&&◌, is_empty, all, Option, none, some, List, leb, length,
  Bytes, inl, inr, Bool-cases, =?_refl, ap, ascii,
}
use schroedinger_sync.Result.{Result, ok, err, other}
use schroedinger_sync.Security.Redaction.{registered, register_secret-registered}
use schroedinger_sync.Cookie.{
  clean_value, header_safe, checked_key, with_key, read_session_key, load_master_key,
}

module _ (dpapi : Bytes → Option Bytes) (base64 : Bytes → Option Bytes)
    (gcm_open : Bytes → Bytes → Bytes → Option Bytes) (val : Bytes) where
  -- A key is fit for a header, and the redactor knows it if it has eight bytes or more.
  abbrev Guarded : List Bytes → Result Bytes × List Bytes → Type 0
  Guarded secrets p =
      (header_safe val ≡ true)
      × (registered p.1 val ≡ (registered secrets val || leb 8 (length val)))

  checked_key-Guarded :
      (pt : Option Bytes) (secrets : List Bytes)
      → (checked_key dpapi base64 gcm_open pt secrets).0 ≡ ok val
      → Guarded secrets (checked_key dpapi base64 gcm_open pt secrets)
  unfolding checked_key
  checked_key-Guarded none secrets h = absurd (cc h)
  checked_key-Guarded (some pt) secrets h = elim (Bool-cases (header_safe (clean_value pt))) [
    | inl safe ↦
        let handed : ok (clean_value pt) ≡ ok val = rw (safe, checked_key) at h in
        let same : clean_value pt ≡ val = ap (λ r. elim r [ ok a ↦ a | err _ ↦ val ]) handed in
        rw (safe, checked_key, same)
          (rw same at safe, ground (arith, register_secret-registered val val secrets, =?_refl val))
    | inr unsafe ↦
        let failed : err (other (ascii "decrypted sessionKey failed sanity check")) ≡ ok val =
          rw (unsafe, checked_key) at h in
        absurd (cc failed)
  ]

  with_key-Guarded :
      (key row : Option Bytes) (secrets : List Bytes)
      → (with_key dpapi base64 gcm_open key row secrets).0 ≡ ok val
      → Guarded secrets (with_key dpapi base64 gcm_open key row secrets)
  unfolding with_key
  with_key-Guarded none row secrets h = absurd (cc h)
  with_key-Guarded (some key) none secrets h = absurd (cc h)
  with_key-Guarded (some key) (some enc) secrets h = checked_key-Guarded _ secrets h

  -- A session key that is handed out is not empty, every byte of it lies between 0x20 and 0x7e, and
  -- the redactor knows it from then on if it has eight bytes or more.
  pub read_session_key_guarded :
      (installed : Bool) (local_state row : Option Bytes) (secrets : List Bytes)
      → (read_session_key dpapi base64 gcm_open installed local_state row secrets).0 ≡ ok val
      → (is_empty val ≡ false)
        × (all (λ c. leb 0x20 c && leb c 0x7e) val ≡ true)
        × (registered
              (read_session_key dpapi base64 gcm_open installed local_state row secrets).1
              val
            ≡ (registered secrets val || leb 8 (length val)))
  unfolding read_session_key header_safe
  read_session_key_guarded false local_state row secrets h = absurd (cc h)
  read_session_key_guarded true local_state row secrets h =
      let (safe, known) =
        with_key-Guarded (load_master_key dpapi base64 gcm_open local_state) row secrets h in
      (ground arith, ground arith, known)
