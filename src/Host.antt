-- ===== src/Host.antt =====
-- What the filesystem of mount/src/fuse_fs.rs calls and does not implement: the daemon's verbs (as
-- `ReconnectingIpcClient` of mount/src/reconnect.rs offers them), the cache files, the clocks, the
-- user, and the checks of text that the standard library and a crate make. All of them act on a
-- world of which nothing is known.
use unidrive_mount_linux.Base.Exec.{Exec}
use unidrive_mount_linux.Ipc.{IpcError}
use unidrive_mount_linux.Ipc.Entry.{ListEntry}
use unidrive_mount_linux.Attr.{Owner}
use unidrive_mount_linux.Json.{Value}
use unidrive_mount_linux.Base.{ℕ, Bool, Option, List, list_eq, nat_eq, Str}

-- How a cache file is opened.
pub data OpenMode : Type 0 where
  read_only write_only read_write create_truncate : OpenMode

-- `CreateReply`
pub record CreateReply : Type 0 where
  pub cache_path : Str
  pub handle_id : Str

-- A verb of the daemon.
abbrev pub Verb : Type 0 → Type 0 → Type 0
Verb W A = Exec IpcError W A

pub record Host : Type 1 where
  pub World : Type 0
  pub File : Type 0
  pub list : Str → Verb World (List ListEntry)
  -- handle, path; the answer is the cache path
  pub open_read : Str → Str → Verb World Str
  -- handle, path, cache path
  pub open_write : Str → Str → Str → Verb World Str
  pub open_write_begin : Str → Option Str → Verb World Str
  pub close_handle : Str → Verb World (Unit {0})
  pub daemon_status : Verb World Value
  pub mkdir : Str → Verb World (Unit {0})
  pub unlink : Str → Verb World (Unit {0})
  pub rmdir : Str → Verb World (Unit {0})
  -- handle, path
  pub create : Str → Str → Verb World CreateReply
  pub rename : Str → Str → Verb World (Unit {0})
  -- cache files; `none` and `false` are I/O errors
  pub open_file : OpenMode → Str → World → Option File × World
  pub file_len : File → World → Option ℕ
  pub read_at : File → ℕ → ℕ → World → Option Str × World
  pub write_at : File → Str → ℕ → World → Option ℕ × World
  pub set_len : File → ℕ → World → Bool × World
  pub sync_data : File → World → Bool × World
  pub sync_all : File → World → Bool × World
  pub remove_file : Str → World → World
  pub remove_dir_all : Str → World → World
  -- milliseconds since 1970, `none` before; nanoseconds on the clock that never goes back
  pub epoch_ms : World → Option ℕ
  pub instant : World → ℕ
  pub owner : Owner
  pub nfc : Str → Str
  pub is_utf8 : Str → Bool
