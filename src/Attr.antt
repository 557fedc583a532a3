-- ===== src/Attr.antt =====
-- The attribute cache's entries in mount/src/fuse_fs.rs, and the attributes that FUSE is given.
pub mod Time
use unidrive_mount_linux.Base.Int.{ℤ, pos, div_euclid, rem_euclid}
use unidrive_mount_linux.Ipc.Entry.{ListEntry}
use unidrive_mount_linux.Json.{unwrap_or}
use unidrive_mount_linux.Base.{
  ℕ, zero, suc, ◌+◌, ◌*◌, ◌/◌, ◌%◌, ◌^◌, refl, Bool, true, false, ◌&&◌, ◌||◌, not, Option, none,
  some, arith, list_eq, nat_eq, ltb, if◌then◌else◌, Str, str,
}

pub record CachedAttr : Type 0 where
  pub size : ℕ
  pub mtime_ms : ℤ
  pub remote_mtime_ms : Option ℤ
  pub is_folder : Bool
  pub is_hydrated : Bool
  pub pending_upload : Bool

-- `impl From<&ListEntry> for CachedAttr`
unfoldable pub from_entry : ListEntry → CachedAttr
from_entry e = record {
  size = e.size;
  mtime_ms = e.mtime_ms;
  remote_mtime_ms =
      if e.folder || (not e.hydrated && not e.pending_upload) then e.remote_modified_ms else none;
  is_folder = e.folder;
  is_hydrated = e.hydrated;
  pending_upload = e.pending_upload;
}

-- `state_comment`
unfoldable pub state_comment : CachedAttr → Option Str
state_comment a =
    if a.is_folder
    then none
    else if a.pending_upload
    then some (str "Waiting to upload")
    else if a.is_hydrated
    then some (str "Available offline")
    else some (str "Cloud only")

-- The attributes of the root in `get_or_fetch_attr`.
abbrev pub root_attr : CachedAttr
root_attr = record {
  size = 0;
  mtime_ms = pos 0;
  remote_mtime_ms = none;
  is_folder = true;
  is_hydrated = false;
  pending_upload = false;
}

pub data FileType : Type 0 where
  directory regular_file : FileType

pub record Timestamp : Type 0 where
  pub sec : ℤ
  pub nsec : ℕ

pub record FileAttr : Type 0 where
  pub ino : ℕ
  pub size : ℕ
  pub blocks : ℕ
  pub atime : Timestamp
  pub mtime : Timestamp
  pub ctime : Timestamp
  pub kind : FileType
  pub perm : ℕ
  pub nlink : ℕ
  pub uid : ℕ
  pub gid : ℕ
  pub rdev : ℕ
  pub blksize : ℕ

unfoldable pub kind_of : Bool → FileType
kind_of folder = if folder then directory else regular_file

-- `div_ceil`
unfoldable pub div_ceil : ℕ → ℕ → ℕ
div_ceil n d = if ltb 0 (n % d) then n / d + 1 else n / d

-- The time stamp of `file_attr_from_cached`; the `as u32` keeps the number, as `Time` proves.
unfoldable pub timestamp_of : CachedAttr → Timestamp
timestamp_of c =
    let ms = unwrap_or c.remote_mtime_ms c.mtime_ms in
    record { sec = div_euclid ms 1000; nsec = (rem_euclid ms 1000 * 1_000_000) % 2 ^ 32 }

-- The process's user and group, as `getuid` and `getgid` give them.
pub record Owner : Type 0 where
  pub uid : ℕ
  pub gid : ℕ

-- `file_attr_from_cached`
unfoldable pub file_attr_from_cached : Owner → ℕ → CachedAttr → FileAttr
unfolding timestamp_of kind_of div_ceil
file_attr_from_cached o ino c = record {
  ino = ino;
  size = c.size;
  blocks = div_ceil c.size 512;
  atime = timestamp_of c;
  mtime = timestamp_of c;
  ctime = timestamp_of c;
  kind = kind_of c.is_folder;
  perm = if c.is_folder then 0o755 else 0o644;
  nlink = if c.is_folder then 2 else 1;
  uid = o.uid;
  gid = o.gid;
  rdev = 0;
  blksize = 4096;
}
