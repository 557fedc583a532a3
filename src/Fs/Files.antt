-- ===== src/Fs/Files.antt =====
-- The handlers of mount/src/fuse_fs.rs on open files: open, read, write, fsync and release.
use unidrive_mount_linux.Base.Exec.{
  Result, ok, err, pure, raise, expect_some, mapped, attempt, ◌>>=◌, ◌>>◌,
}
use unidrive_mount_linux.Ipc.{IpcError}
use unidrive_mount_linux.PathMap.{u64_mod}
use unidrive_mount_linux.Host.{Host, read_only, read_write}
use unidrive_mount_linux.Errno.{
  Errno, eio, ebadf, eisdir, ipc_error_to_errno, namespace_err_to_errno,
}
use unidrive_mount_linux.Fs.{
  OpenHandle, Act, ipc, os, resolve, modify_attr, now_ms, fresh_handle_number, add_handle,
  handle_for, set_dirty, take_handle,
}
use unidrive_mount_linux.Fs.Listing.{cached_attr}
use unidrive_mount_linux.Fs.Reads.{ReplyOpen}
use unidrive_mount_linux.Base.Decimal.{decimal}
use unidrive_mount_linux.Base.{
  ℕ, ◌+◌, ◌/◌, ◌%◌, ◌^◌, max, Bool, true, false, ◌&&◌, ◌||◌, not, none, some, ◌++◌, ◌==◌, list_eq,
  nat_eq, is_empty, if◌then◌else◌, Str, str,
}

-- `O_ACCMODE` holds the lowest two bits, `O_WRONLY` is 1, `O_RDWR` is 2, and `O_TRUNC` is bit 9.
unfoldable pub is_writable : ℕ → Bool
is_writable flags = flags % 4 == 1 || flags % 4 == 2

unfoldable pub is_truncating : ℕ → Bool
unfolding is_writable
is_truncating flags = is_writable flags && flags / 512 % 2 == 1

-- `FOPEN_DIRECT_IO`
abbrev pub fopen_direct_io : ℕ
fopen_direct_io = 1

module _ (h : Host) where
  open h use {World, File}

  -- A verb whose error becomes an error number.
  unfoldable pub verb :
      {A : Type 0} → (IpcError → Errno) → (World → Result IpcError A × World) → Act h A
  unfolding ipc
  verb f v = mapped f (ipc h v)

  -- The request of `open` that prepares the cache file.
  unfoldable pub prepare_cache : Bool → Str → Str → Act h Str
  unfolding verb
  prepare_cache truncating handle_id path =
      if truncating
      then verb namespace_err_to_errno (h.open_write_begin path (some handle_id))
      else verb ipc_error_to_errno (h.open_read handle_id path)

  -- The first change of the cached attributes in `open`.
  unfoldable pub note_open : Bool → ℕ → Act h (Unit {0})
  unfolding modify_attr now_ms
  note_open true inode = do
    now ← now_ms h
    modify_attr h inode (λ a. record a { size = 0; mtime_ms = now; remote_mtime_ms = none })
  note_open false inode =
      modify_attr h inode (λ a. record a { is_hydrated = true; remote_mtime_ms = none })

  -- The second one: the size of the cache file. The answer says whether the cached size was stale.
  unfoldable pub note_size : ℕ → File → Act h Bool
  unfolding os cached_attr modify_attr
  note_size inode file = do
    len ← os h (λ w. (h.file_len file w, w))
    elim len [
      | none ↦ pure false
      | some n ↦ (do
        a ← cached_attr h inode
        elim a [
          | none ↦ pure false
          | some c ↦ (do modify_attr h inode (λ b. record b { size = n }); pure (not (c.size == n)))
        ])
    ]

  -- `open`
  unfoldable pub open_inode : ℕ → ℕ → Act h ReplyOpen
  unfolding resolve fresh_handle_number prepare_cache note_open note_size os add_handle
  open_inode inode flags = do
    path ← resolve h inode
    if is_empty path then raise eisdir else do
      n ← fresh_handle_number h
      let handle_id = (if is_writable flags then str "wh-" else str "rh-") ++ decimal n
      cache_path ← prepare_cache (is_truncating flags) handle_id path
      note_open (is_truncating flags) inode
      opened ← os h (h.open_file (if is_writable flags then read_write else read_only) cache_path)
      file ← expect_some eio opened
      stale ← (if is_truncating flags then pure false else note_size inode file)
      fh ← add_handle h (record {
        file = file;
        handle_id = handle_id;
        remote_path = path;
        cache_path = cache_path;
        dirty = is_truncating flags;
      })
      pure (record { fh = fh; flags = if stale then fopen_direct_io else 0 })

  -- `read`
  unfoldable pub read : ℕ → ℕ → ℕ → Act h Str
  unfolding handle_for os
  read fh offset n = do
    o ← handle_for h ebadf fh
    bytes ← os h (h.read_at o.file offset n)
    expect_some eio bytes

  -- `write`
  unfoldable pub write : ℕ → ℕ → ℕ → Str → Act h ℕ
  unfolding handle_for os set_dirty now_ms modify_attr
  write inode fh offset bytes = do
    o ← handle_for h ebadf fh
    written ← os h (h.write_at o.file bytes offset)
    n ← expect_some eio written
    set_dirty h fh true
    now ← now_ms h
    modify_attr h inode (λ a. record a {
      size = max a.size ((offset + n) % u64_mod);
      mtime_ms = now;
      remote_mtime_ms = none;
    })
    pure (n % 2 ^ 32)

  -- The upload of a handle's cache file.
  unfoldable pub upload : OpenHandle File → Act h (Result IpcError Str)
  unfolding ipc
  upload o = attempt (ipc h (h.open_write o.handle_id o.remote_path o.cache_path))

  -- The first half of `fsync`, under the lock of the table: sync the cache file and claim the dirty
  -- mark. The answer is the handle as it was.
  unfoldable pub fsync_claim : ℕ → Bool → Act h (OpenHandle File)
  unfolding handle_for os set_dirty
  fsync_claim fh datasync = do
    o ← handle_for h ebadf fh
    synced ← os h (if datasync then h.sync_data o.file else h.sync_all o.file)
    if not synced then raise eio else do set_dirty h fh false; pure o

  -- The second half: upload what was claimed as dirty, and mark it again if that fails. Other
  -- requests may run between the halves.
  unfoldable pub fsync_commit : ℕ → OpenHandle File → Act h (Unit {0})
  unfolding upload set_dirty
  fsync_commit fh o = if not o.dirty then pure tt else do
    result ← upload o
    elim result [
      | ok reply ↦ pure tt
      | err e ↦ (do set_dirty h fh true; raise (ipc_error_to_errno e))
    ]

  -- `fsync`
  unfoldable pub fsync : ℕ → Bool → Act h (Unit {0})
  unfolding fsync_claim fsync_commit
  fsync fh datasync = do o ← fsync_claim fh datasync; fsync_commit fh o

  unfoldable pub close_handle : Str → Act h (Result IpcError (Unit {0}))
  unfolding ipc
  close_handle handle_id = attempt (ipc h (h.close_handle handle_id))

  -- The end of a handle that was taken out of the table: upload what is dirty, then close it.
  unfoldable pub finish_handle : Bool → OpenHandle File → Act h (Unit {0})
  unfolding upload close_handle
  finish_handle dirty o = do
    uploaded ← (if dirty then (do r ← upload o; pure tt) else pure tt)
    closed ← close_handle o.handle_id
    pure tt

  -- `release`
  unfoldable pub release : ℕ → Act h (Unit {0})
  unfolding take_handle finish_handle
  release fh = do
    removed ← take_handle h fh
    elim removed [ none ↦ pure tt | some o ↦ finish_handle o.dirty o ]
