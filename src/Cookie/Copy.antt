-- ===== src/Cookie/Copy.antt =====
-- main.go: `copyCookieDB`, `openCookieDB`, and `readSessionKey` with the copy of the database. The
-- shared read of a locked file, SQLite and the temporary directory's own errors are parameters.
pub mod Removed
use schroedinger_sync.Base.{
  Bool, true, false, not, ◌&&◌, Option, none, some, List, [], ◌∷◌, ◌++◌, if◌then◌else◌, Bytes,
  ascii,
}
use schroedinger_sync.Base.Map.{Map, insert}
use schroedinger_sync.Result.{Result, ok, err, other, desktop_not_found}
use schroedinger_sync.Cookie.{load_master_key, with_key}

-- The directory `schroedinger_*`, if it is there, with its files; whether a connection to the copy is
-- open; and the outcomes of the writes to come, and of the removal of the directory.
pub record Temp : Type 0 where
  pub folder : Option (Map Bytes)
  pub connected : Bool
  pub writes : List Bool
  pub removable : Bool

abbrev cookies_name : Bytes
cookies_name = ascii "Cookies"

-- `os.MkdirTemp`; `false` is an error.
unfoldable pub mkdir_temp : Bool → Temp → Temp
mkdir_temp made t = if made then record t { folder = some [] } else t

-- The clean-up that `copyCookieDB` returns: `os.RemoveAll`, its error ignored. Windows does not
-- remove a file that is open, so the copy stays while a connection to it is open.
unfoldable pub cleanup : Temp → Temp
cleanup t = if t.removable && not t.connected then record t { folder = none } else t

added : Bytes → Bytes → Option (Map Bytes) → Option (Map Bytes)
added name content none = none
added name content (some files) = some (insert name content files)

-- `os.WriteFile` into the directory: refused, or whole.
write_by : List Bool → Bytes → Bytes → Temp → Bool × Temp
write_by [] name content t = (true, record t { folder = added name content t.folder })
write_by (true ∷ os) name content t =
    (true, record t { folder = added name content t.folder; writes = os })
write_by (false ∷ os) name content t = (false, record t { writes = os })

unfoldable pub write_temp : Bytes → Bytes → Temp → Bool × Temp
unfolding added write_by
write_temp name content t = write_by t.writes name content t

-- A file beside the database, which is copied if it can be read; errors are ignored.
unfoldable pub copy_beside : Bytes → Option Bytes → Temp → Temp
copy_beside name none t = t
copy_beside name (some content) t = (write_temp name content t).1

-- `shared` is `readSharedFile` on a name in the directory of the cookies.
module _ (shared : Bytes → Option Bytes) where
  -- Behind the shared read of `Cookies`.
  unfoldable pub main_copied : Option Bytes → Temp → Bool × Temp
  main_copied none t = (false, cleanup t)
  main_copied (some main) t =
      let (written, u) = write_temp cookies_name main t in
      let wal = ascii "Cookies-wal" in
      let shm = ascii "Cookies-shm" in
      if not written
      then (false, cleanup u)
      else (true, copy_beside shm (shared shm) (copy_beside wal (shared wal) u))

  -- `copyCookieDB`: was the database copied?
  unfoldable pub copy_cookie_db : Bool → Temp → Bool × Temp
  unfolding main_copied
  copy_cookie_db made t =
      let copied = main_copied (shared cookies_name) (mkdir_temp made t) in
      if made then copied else (false, t)

  -- `openCookieDB`; `sql_opens` says whether `sql.Open` does.
  unfoldable pub open_cookie_db : Bool → Bool → Temp → Bool × Temp
  open_cookie_db made sql_opens t =
      let (copied, u) = copy_cookie_db made t in
      if not copied
      then (false, u)
      else if not sql_opens
      then (false, cleanup u)
      else (true, record u { connected = true })

-- The function that `openCookieDB` returns.
unfoldable pub close_db : Temp → Temp
close_db t = cleanup (record t { connected = false })

module _ (dpapi : Bytes → Option Bytes) (base64 : Bytes → Option Bytes)
    (gcm_open : Bytes → Bytes → Bytes → Option Bytes) (shared : Bytes → Option Bytes)
    (query : Option (Map Bytes) → Option Bytes) (made sql_opens : Bool) where
  -- `readSessionKey` behind `loadMasterKey`; `query` selects the encrypted value from the copy.
  unfoldable pub key_from_copy :
      Option Bytes → List Bytes → Temp → (Result Bytes × List Bytes) × Temp
  key_from_copy none secrets t = (with_key dpapi base64 gcm_open none none secrets, t)
  key_from_copy (some key) secrets t =
      let (connected, u) = open_cookie_db shared made sql_opens t in
      if not connected
      then ((err (other (ascii "cookie database")), secrets), u)
      else (with_key dpapi base64 gcm_open (some key) (query u.folder) secrets, close_db u)

  -- `readSessionKey`, with the copy that it makes.
  unfoldable pub read_session_key_copied :
      Bool → Option Bytes → List Bytes → Temp → (Result Bytes × List Bytes) × Temp
  unfolding key_from_copy
  read_session_key_copied installed local_state secrets t =
      let read = key_from_copy (load_master_key dpapi base64 gcm_open local_state) secrets t in
      if not installed then ((err desktop_not_found, secrets), t) else read
