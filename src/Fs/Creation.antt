-- ===== src/Fs/Creation.antt =====
-- The handlers of mount/src/fuse_fs.rs that create files: create and mknod.
use unidrive_mount_linux.Base.Exec.{pure, raise, expect_some, ◌>>=◌, ◌>>◌}
use unidrive_mount_linux.Names.{child_path}
use unidrive_mount_linux.Attr.{CachedAttr, FileAttr, file_attr_from_cached}
use unidrive_mount_linux.Host.{Host, create_truncate}
use unidrive_mount_linux.Errno.{eperm, eio, namespace_err_to_errno}
use unidrive_mount_linux.Fs.{
  Act, os, resolve, to_str, intern, put_attr, now_ms, fresh_handle_number, add_handle, take_handle,
}
use unidrive_mount_linux.Fs.Listing.{record_raw_name, refuse_nfc_collision}
use unidrive_mount_linux.Fs.Reads.{ReplyEntry, reply_entry}
use unidrive_mount_linux.Base.Decimal.{decimal}
use unidrive_mount_linux.Base.{
  ℕ, ◌/◌, ◌%◌, Bool, true, false, ◌||◌, not, none, some, ◌++◌, ◌==◌, list_eq, nat_eq, if◌then◌else◌,
  Str, str,
}
use unidrive_mount_linux.Fs.Files.{finish_handle, verb}

-- `ReplyCreated`
pub record ReplyCreated : Type 0 where
  pub ttl : ℕ
  pub attr : FileAttr
  pub generation : ℕ
  pub fh : ℕ
  pub flags : ℕ

-- `S_IFMT` holds bits 12 to 15, and `S_IFREG` is 0o100000: 8 in them.
unfoldable pub is_regular_mode : ℕ → Bool
is_regular_mode mode = let typ = mode / 4096 % 16 in typ == 0 || typ == 8

module _ (h : Host) where
  open h use {World, File}

  -- The attributes of a file that was just created.
  unfoldable pub note_created : ℕ → Act h FileAttr
  unfolding now_ms put_attr
  note_created ino = do
    now ← now_ms h
    let cached : CachedAttr = record {
      size = 0;
      mtime_ms = now;
      remote_mtime_ms = none;
      is_folder = false;
      is_hydrated = true;
      pending_upload = true;
    }
    put_attr h ino cached
    pure (file_attr_from_cached h.owner ino cached)

  -- `create_internal`
  unfoldable pub create_internal : ℕ → Str → Act h (ℕ × FileAttr × ℕ)
  unfolding to_str resolve refuse_nfc_collision fresh_handle_number verb os intern record_raw_name
      note_created add_handle
  create_internal parent_inode os_name = do
    name ← to_str h os_name
    parent_path ← resolve h parent_inode
    let cp = child_path h.nfc parent_path name
    refuse_nfc_collision h parent_path cp name
    n ← fresh_handle_number h
    reply ← verb h namespace_err_to_errno (h.create (str "create-" ++ decimal n) cp)
    opened ← os h (h.open_file create_truncate reply.cache_path)
    file ← expect_some eio opened
    new_ino ← intern h cp
    record_raw_name h cp name
    attr ← note_created new_ino
    fh ← add_handle h (record {
      file = file;
      handle_id = reply.handle_id;
      remote_path = cp;
      cache_path = reply.cache_path;
      dirty = true;
    })
    pure (fh, attr, new_ino)

  -- `create`
  unfoldable pub create : ℕ → Str → Act h ReplyCreated
  unfolding create_internal
  create parent_inode os_name = do
    (fh, attr, new_ino) ← create_internal parent_inode os_name
    pure (record { ttl = 1; attr = attr; generation = 0; fh = fh; flags = 0 })

  -- `mknod`
  unfoldable pub mknod : ℕ → Str → ℕ → Act h ReplyEntry
  unfolding create_internal take_handle finish_handle
  mknod parent_inode os_name mode = if not (is_regular_mode mode) then raise eperm else do
    (fh, attr, new_ino) ← create_internal parent_inode os_name
    removed ← take_handle h fh
    elim removed [ none ↦ pure tt | some o ↦ finish_handle h true o ]
    pure (reply_entry attr)
