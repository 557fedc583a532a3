-- ===== src/Tests/Setting.antt =====
-- The concrete map, daemon, files and filesystem of the tests.
use unidrive_mount_linux.PathMap
use unidrive_mount_linux.PathMap.Bijection
use unidrive_mount_linux.Base.{
  ◌≤◌, ◌≡◌, Bool, true, false, none, some, List, [], ◌∷◌, ◌++◌, arith, list_eq, nat_eq, length,
  if◌then◌else◌, Str, str,
}
use unidrive_mount_linux.Attr.{CachedAttr}
use unidrive_mount_linux.Fs.{Fs, OpenHandle, St}
use unidrive_mount_linux.Fs.Invariant.Listings.{IsBounded}
use unidrive_mount_linux.Host.{Host, Verb}
use unidrive_mount_linux.PathMap.{PathMap}
use unidrive_mount_linux.PathMap.History.{Call, calls, interns, calls-IsValid}
use unidrive_mount_linux.Quota.{new_cache, default_refresh_interval}
use unidrive_mount_linux.Base.Int.{pos}
use unidrive_mount_linux.Json.{null}
use unidrive_mount_linux.Base.Exec.{ok, err}
use unidrive_mount_linux.Ipc.{io, unexpected_eof}
use unidrive_mount_linux.Ipc.Entry.{ListEntry}

-- A map with `/a` as inode 2, `/a/b` as inode 3 and `/c` as inode 4.
abbrev pub some_calls : List Call
some_calls = interns (str "/a") ∷ interns (str "/a/b") ∷ interns (str "/c") ∷ []

abbrev pub some_paths : PathMap
some_paths = calls PathMap.new some_calls

pub some_paths-IsValid : Bijection.IsValid some_paths
some_paths-IsValid = calls-IsValid some_calls (tt, (tt, (tt, tt))) (omega arith)

-- A daemon that lists nothing and takes everything while it is up; the world is whether it is.
abbrev pub answer : {A : Type 0} → A → Verb Bool A
answer a up = (if up then ok a else err (io unexpected_eof), up)

abbrev pub some_host : Host
some_host = record {
  World = Bool;
  File = Str;
  list = λ p. answer [];
  open_read = λ id p. answer (str "/cache" ++ p);
  open_write = λ id p c. answer c;
  open_write_begin = λ p id. answer (str "/cache" ++ p);
  close_handle = λ id. answer tt;
  daemon_status = answer null;
  mkdir = λ p. answer tt;
  unlink = λ p. answer tt;
  rmdir = λ p. answer tt;
  create = λ id p. answer (record { cache_path = str "/cache" ++ p; handle_id = id });
  rename = λ p q. answer tt;
  open_file = λ mode p up. (some p, up);
  file_len = λ f up. some 0;
  read_at = λ f offset n up. (some [], up);
  write_at = λ f bytes offset up. (some (length bytes), up);
  set_len = λ f n up. (true, up);
  sync_data = λ f up. (true, up);
  sync_all = λ f up. (true, up);
  remove_file = λ p up. up;
  remove_dir_all = λ p up. up;
  epoch_ms = λ up. some 1000;
  instant = λ up. 0;
  owner = record { uid = 1000; gid = 1000 };
  nfc = λ s. s;
  is_utf8 = λ s. true;
}

lists_nothing :
    (up : Bool) (es : List ListEntry)
    → (answer {A = List ListEntry} [] up).0 ≡ ok es
    → length es ≤ 0
lists_nothing true es q = let e : es ≡ [] = cc in rw e (omega arith)
lists_nothing false es q = absurd (cc)

pub some_host-IsBounded : IsBounded some_host 0
some_host-IsBounded = record { listed = λ p up es e. lists_nothing up es e }

-- An open handle of `/a/b` with unsent writes.
abbrev pub some_handle : OpenHandle Str
some_handle = record {
  file = str "f";
  handle_id = str "wh-1";
  remote_path = str "/a/b";
  cache_path = str "/cache/a/b";
  dirty = true;
}

abbrev pub some_attr : CachedAttr
some_attr = record {
  size = 5;
  mtime_ms = pos 0;
  remote_mtime_ms = none;
  is_folder = false;
  is_hydrated = true;
  pending_upload = false;
}

abbrev pub some_fs : Fs Str
some_fs = record {
  paths = some_paths;
  attrs = (3, some_attr) ∷ (4, some_attr) ∷ [];
  open_handles = (1, some_handle) ∷ [];
  next_fh = 2;
  next_handle_id = 2;
  cache_root = some (str "/cache");
  quota = new_cache default_refresh_interval;
  quarantine_warned = [];
  raw_names = (str "/c", str "C") ∷ [];
}

-- The filesystem while the daemon is up, and while it is down.
abbrev pub running : St some_host
running = record { fs = some_fs; world = true }

abbrev pub cut_off : St some_host
cut_off = record { fs = some_fs; world = false }
