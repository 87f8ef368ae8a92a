-- ===== src/Cookie/Copy/Removed.antt =====
-- main.go: what `readSessionKey` leaves of the copy of the cookie database.
use schroedinger_sync.Base.{
  ◌≡◌, refl, Bool, true, false, not, Option, none, some, List, [], ◌∷◌, if◌then◌else◌, Bytes, ascii,
}
use schroedinger_sync.Base.Map.{Map}
use schroedinger_sync.Result.{Result, err, other}
use schroedinger_sync.Cookie.{load_master_key, with_key}
use schroedinger_sync.Cookie.Copy.{
  Temp, mkdir_temp, cleanup, write_temp, copy_beside, main_copied, copy_cookie_db, open_cookie_db,
  close_db, key_from_copy, read_session_key_copied, write_by,
}

-- The directory can be removed, and no connection is open.
abbrev pub IsFree : Temp → Type 0
IsFree t = (t.removable ≡ true) × (t.connected ≡ false)

write_by-IsFree :
    (os : List Bool) (name content : Bytes) (t : Temp)
    → IsFree t
    → IsFree (write_by os name content t).1
unfolding write_by
write_by-IsFree [] name content t h = h
write_by-IsFree (true ∷ os) name content t h = h
write_by-IsFree (false ∷ os) name content t h = h

copy_beside-IsFree :
    (name : Bytes) (content : Option Bytes) (t : Temp)
    → IsFree t
    → IsFree (copy_beside name content t)
unfolding copy_beside write_temp
copy_beside-IsFree name none t h = h
copy_beside-IsFree name (some content) t h = write_by-IsFree t.writes name content t h

-- Where it says no, the directory is gone.
abbrev IsUndone : Bool × Temp → Type 0
IsUndone (true, t) = IsFree t
IsUndone (false, t) = (t.folder ≡ none) × (t.connected ≡ false)

abbrev IsOpened : Bool × Temp → Type 0
IsOpened (true, t) = t.removable ≡ true
IsOpened (false, t) = (t.folder ≡ none) × (t.connected ≡ false)

cleanup-IsUndone : (t : Temp) → IsFree t → IsUndone (false, cleanup t)
unfolding cleanup
cleanup-IsUndone t (r, c) = rw (r, c) (refl, refl)

module _ (shared : Bytes → Option Bytes) where
  main_copied-IsUndone :
      (main : Option Bytes) (t : Temp) → IsFree t → IsUndone (main_copied shared main t)
  unfolding main_copied write_temp
  main_copied-IsUndone none t h = cleanup-IsUndone t h
  main_copied-IsUndone (some main) t h =
      chosen _ _ (write_by-IsFree t.writes (ascii "Cookies") main t h)
    where
      chosen :
          (written : Bool) (u : Temp)
          → IsFree u
          → IsUndone (
              if not written then (false, cleanup u) else (
                true,
                copy_beside
                    (ascii "Cookies-shm")
                    (shared (ascii "Cookies-shm"))
                    (copy_beside (ascii "Cookies-wal") (shared (ascii "Cookies-wal")) u),
              ))
      chosen false u g = cleanup-IsUndone u g
      chosen true u g =
          copy_beside-IsFree _ (shared (ascii "Cookies-shm")) _
            (copy_beside-IsFree _ (shared (ascii "Cookies-wal")) u g)

  copy_cookie_db-IsUndone :
      (made : Bool) (t : Temp)
      → IsFree t
      → t.folder ≡ none
      → IsUndone (copy_cookie_db shared made t)
  unfolding copy_cookie_db mkdir_temp
  copy_cookie_db-IsUndone true t h f =
      main_copied-IsUndone (shared (ascii "Cookies")) (record t { folder = some [] }) h
  copy_cookie_db-IsUndone false t (r, c) f = (f, c)

  open_cookie_db-IsOpened :
      (made sql_opens : Bool) (t : Temp)
      → IsFree t
      → t.folder ≡ none
      → IsOpened (open_cookie_db shared made sql_opens t)
  unfolding open_cookie_db
  open_cookie_db-IsOpened made sql_opens t h f =
      chosen sql_opens (copy_cookie_db shared made t) (copy_cookie_db-IsUndone made t h f)
    where
      chosen :
          (sql_opens : Bool) (p : Bool × Temp)
          → IsUndone p
          → IsOpened (
              if not p.0
              then (false, p.1)
              else if not sql_opens
              then (false, cleanup p.1)
              else (true, record (p.1) { connected = true }))
      chosen sql_opens (false, u) g = g
      chosen false (true, u) g = cleanup-IsUndone u g
      chosen true (true, u) (r, c) = r

-- Neither the directory nor a connection is left.
abbrev pub IsRemoved : Temp → Type 0
IsRemoved t = (t.folder ≡ none) × (t.connected ≡ false)

close_db-IsRemoved : (u : Temp) → u.removable ≡ true → IsRemoved (close_db u)
unfolding close_db
close_db-IsRemoved u r = cleanup-IsUndone (record u { connected = false }) (r, refl)

module _ (dpapi : Bytes → Option Bytes) (base64 : Bytes → Option Bytes)
    (gcm_open : Bytes → Bytes → Bytes → Option Bytes) (shared : Bytes → Option Bytes)
    (query : Option (Map Bytes) → Option Bytes) (made sql_opens : Bool) where
  key_from_copy-IsRemoved :
      (key : Option Bytes) (secrets : List Bytes) (t : Temp)
      → IsFree t
      → t.folder ≡ none
      → IsRemoved (key_from_copy dpapi base64 gcm_open shared query made sql_opens key secrets t).1
  unfolding key_from_copy
  key_from_copy-IsRemoved none secrets t h f = (f, h.1)
  key_from_copy-IsRemoved (some key) secrets t h f =
      chosen (open_cookie_db shared made sql_opens t)
        (open_cookie_db-IsOpened shared made sql_opens t h f)
    where
      chosen :
          (p : Bool × Temp)
          → IsOpened p
          → IsRemoved
              (if◌then◌else◌ {A = (Result Bytes × List Bytes) × Temp}
                (not p.0)
                ((err (other (ascii "cookie database")), secrets), p.1)
                (
                  with_key dpapi base64 gcm_open (some key) (query p.1.folder) secrets,
                  close_db p.1,
                )).1
      chosen (false, u) g = g
      chosen (true, u) g = close_db-IsRemoved u g

  -- Where nothing but an open connection keeps the temporary directory from being removed, no way
  -- through `readSessionKey` leaves the copy of the cookies on the disk, or a connection to it: a
  -- connection is closed before the directory is removed.
  pub read_session_key_copied-IsRemoved :
      (installed : Bool) (local_state : Option Bytes) (secrets : List Bytes) (t : Temp)
      → IsFree t
      → t.folder ≡ none
      → IsRemoved
          (read_session_key_copied dpapi base64 gcm_open shared query made sql_opens installed
            local_state secrets t).1
  unfolding read_session_key_copied
  read_session_key_copied-IsRemoved true local_state secrets t h f =
      key_from_copy-IsRemoved (load_master_key dpapi base64 gcm_open local_state) secrets t h f
  read_session_key_copied-IsRemoved false local_state secrets t h f = (f, h.1)
