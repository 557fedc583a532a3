-- ===== src/Fs/Setattr.antt =====
-- `setattr` of mount/src/fuse_fs.rs. Of what it is asked to set only the size is acted on.
pub mod Truncation
use unidrive_mount_linux.Base.Exec.{ok, err, pure, raise, ◌>>=◌, ◌>>◌, attempt}
use unidrive_mount_linux.Attr.{file_attr_from_cached}
use unidrive_mount_linux.Host.{Host, write_only}
use unidrive_mount_linux.Errno.{eio, ebadf, ipc_error_to_errno, namespace_err_to_errno}
use unidrive_mount_linux.Fs.{
  Act, ipc, os, resolve, modify_attr, now_ms, fresh_handle_number, handle_for, set_dirty,
}
use unidrive_mount_linux.Fs.Listing.{get_or_fetch_attr}
use unidrive_mount_linux.Fs.Reads.{ReplyAttr}
use unidrive_mount_linux.Fs.Files.{verb, close_handle}
use unidrive_mount_linux.Base.Decimal.{decimal}
use unidrive_mount_linux.Base.{
  ℕ, true, Option, none, some, ◌++◌, ◌==◌, list_eq, nat_eq, if◌then◌else◌, Str, str,
}

module _ (h : Host) where
  open h use {World, File}

  -- A truncation through an open handle: the cache file first, the dirty mark after it.
  unfoldable pub truncate_handle : ℕ → ℕ → Act h (Unit {0})
  unfolding handle_for os set_dirty
  truncate_handle fh n = do
    o ← handle_for h ebadf fh
    done ← os h (h.set_len o.file n)
    if done then set_dirty h fh true else raise eio

  -- The upload that commits a truncation with no handle, and the release of its entry, whether or
  -- not the upload went well.
  unfoldable pub commit : Str → Str → Str → Act h (Unit {0})
  unfolding ipc close_handle
  commit handle_id path cache_path = do
    upload ← attempt (ipc h (h.open_write handle_id path cache_path))
    closed ← close_handle h handle_id
    elim upload [ ok reply ↦ pure tt | err e ↦ raise (ipc_error_to_errno e) ]

  -- The truncation to 0 with no handle.
  unfoldable pub truncate_to_zero : Str → Act h (Unit {0})
  unfolding verb fresh_handle_number commit
  truncate_to_zero path = do
    cache_path ← verb h namespace_err_to_errno (h.open_write_begin path none)
    n ← fresh_handle_number h
    commit (str "trunc0-" ++ decimal n) path cache_path

  -- The failures of `truncate_to` after `open_read`: close the handle, answer EIO.
  unfoldable pub give_up : Str → Act h (Unit {0})
  unfolding close_handle
  give_up handle_id = do closed ← close_handle h handle_id; raise eio

  -- The truncation to a positive size with no handle.
  unfoldable pub truncate_to : Str → ℕ → Act h (Unit {0})
  unfolding verb fresh_handle_number os give_up commit
  truncate_to path size = do
    n ← fresh_handle_number h
    let handle_id = str "truncN-" ++ decimal n
    cache_path ← verb h ipc_error_to_errno (h.open_read handle_id path)
    opened ← os h (h.open_file write_only cache_path)
    elim opened [
      | none ↦ give_up handle_id
      | some file ↦ (do
        done ← os h (h.set_len file size)
        if done then commit handle_id path cache_path else give_up handle_id)
    ]

  -- The change of the cached attributes after a truncation.
  unfoldable pub note_truncated : ℕ → ℕ → Act h (Unit {0})
  unfolding now_ms modify_attr
  note_truncated inode size = do
    now ← now_ms h
    modify_attr h inode (λ a. record a {
      size = size;
      mtime_ms = now;
      is_hydrated = if size == 0 then a.is_hydrated else true;
      remote_mtime_ms = none;
    })

  unfoldable pub set_size : ℕ → Str → Option ℕ → ℕ → Act h (Unit {0})
  unfolding truncate_handle truncate_to_zero truncate_to note_truncated
  set_size inode path (some fh) size = do truncate_handle fh size; note_truncated inode size
  set_size inode path none size = do
    if size == 0 then truncate_to_zero path else truncate_to path size
    note_truncated inode size

  -- `setattr`, given the size to set, if any
  unfoldable pub setattr : ℕ → Option ℕ → Option ℕ → Act h ReplyAttr
  unfolding resolve set_size get_or_fetch_attr
  setattr inode fh size = do
    path ← resolve h inode
    elim size [ none ↦ pure tt | some n ↦ set_size inode path fh n ]
    a ← get_or_fetch_attr h inode
    pure (record { ttl = 1; attr = file_attr_from_cached h.owner inode a })
