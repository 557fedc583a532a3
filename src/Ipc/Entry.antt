-- ===== src/Ipc/Entry.antt =====
-- The entries of `hydration.list` in mount/src/ipc.rs.
use unidrive_mount_linux.Base.Dict.{map_some}
use unidrive_mount_linux.Base.Int.{ℤ, clamp}
use unidrive_mount_linux.Base.Chain.{◌>>=◌}
use unidrive_mount_linux.Json.{Value, index, as_str, as_bool, as_u64, as_i64, unwrap_or}
use unidrive_mount_linux.Base.{ℕ, Bool, false, Option, some, or_else, list_eq, nat_eq, Str, str}

pub record ListEntry : Type 0 where
  pub path : Str
  pub size : ℕ
  pub mtime_ms : ℤ
  pub hydrated : Bool
  pub folder : Bool
  pub remote_modified_ms : Option ℤ
  pub pending_upload : Bool

-- The size of `parse_list_entry`: what is negative or no integer counts as 0.
unfoldable pub size_of : Value → ℕ
size_of v = unwrap_or (or_else (as_u64 v) (map_some clamp (as_i64 v))) 0

-- `parse_list_entry`: `none` is `IpcError::Malformed`, whose text is the entry.
unfoldable pub parse_list_entry : Value → Option ListEntry
parse_list_entry e = do
  path ← as_str (index e (str "path"))
  mtime_ms ← as_i64 (index e (str "mtime_ms"))
  hydrated ← as_bool (index e (str "hydrated"))
  folder ← as_bool (index e (str "folder"))
  some (record {
    path = path;
    size = size_of (index e (str "size"));
    mtime_ms = mtime_ms;
    hydrated = hydrated;
    folder = folder;
    remote_modified_ms = as_i64 (index e (str "remote_modified_ms"));
    pending_upload = unwrap_or (as_bool (index e (str "pending_upload"))) false;
  })
