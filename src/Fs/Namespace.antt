-- ===== src/Fs/Namespace.antt =====
-- The handlers of mount/src/fuse_fs.rs that change the tree: mkdir, unlink, rmdir and rename.
use unidrive_mount_linux.Base.Exec.{pure, ◌>>=◌, ◌>>◌}
pub mod Moves
pub mod Removal
use unidrive_mount_linux.Base.Dict.{Dict, map_some}
use unidrive_mount_linux.PathMap
use unidrive_mount_linux.Names.{child_path}
use unidrive_mount_linux.Attr.{CachedAttr, FileAttr, file_attr_from_cached}
use unidrive_mount_linux.Host.{Host}
use unidrive_mount_linux.Errno.{namespace_err_to_errno}
use unidrive_mount_linux.Fs.{
  OpenHandle, Act, os, change, read_fs, resolve, to_str, intern, forget, put_attr, remove_attr,
  now_ms,
}
use unidrive_mount_linux.Fs.Listing.{
  record_raw_name, forget_raw_names, rename_raw_names, refuse_nfc_collision,
}
use unidrive_mount_linux.Fs.Reads.{ReplyEntry, reply_entry}
use unidrive_mount_linux.Fs.Files.{verb}
use unidrive_mount_linux.Base.{
  ℕ, true, false, Option, none, some, [], ◌∷◌, ◌++◌, ◌==◌, list_eq, nat_eq, is_empty, if◌then◌else◌,
  Str, strip_prefix, slash, Bool, ◌||◌,
}

-- `trim_start_matches('/')`
unfoldable pub trim_slashes : Str → Str
trim_slashes [] = []
trim_slashes (c ∷ s) = let rest = trim_slashes s in if c == slash then rest else c ∷ s

-- `str::strip_suffix(suffix)`: what stands before a suffix
unfoldable pub strip_suffix : Str → Str → Option Str
strip_suffix [] suffix = if is_empty suffix then some [] else none
strip_suffix (c ∷ s) suffix =
    let rest = map_some (λ t. c ∷ t) (strip_suffix s suffix) in
    if (c ∷ s) == suffix then some [] else rest

unfoldable pub ends_with_slash : Str → Bool
ends_with_slash [] = false
ends_with_slash (c ∷ []) = c == slash
ends_with_slash (c ∷ d ∷ s) = ends_with_slash (d ∷ s)

-- `PathBuf::join` of a relative path
unfoldable pub join : Str → Str → Str
unfolding ends_with_slash
join root rel = if is_empty root || ends_with_slash root then root ++ rel else root ++ (slash ∷ rel)

-- What follows the renamed path in the path of a handle, if the handle moves.
unfoldable pub rest_below : Str → Str → Option Str
rest_below remote_path old = elim (strip_prefix remote_path old) [
  | none ↦ none
  | some [] ↦ some []
  | some (c ∷ rest) ↦ if c == slash then some (c ∷ rest) else none
]

-- The cache path of a handle that moves.
unfoldable pub moved_cache_path : Str → Str → Str → Str
moved_cache_path cache_path remote_path new_remote =
    elim (strip_suffix cache_path (trim_slashes remote_path)) [
      | none ↦ cache_path
      | some base ↦ base ++ trim_slashes new_remote
    ]

-- `OpenHandle::follow_rename`
unfoldable pub follow_rename : {F : Type 0} → OpenHandle F → Str → Str → OpenHandle F
unfolding rest_below moved_cache_path
follow_rename o old new_path = elim (rest_below o.remote_path old) [
  | none ↦ o
  | some rest ↦ record o {
    remote_path = new_path ++ rest;
    cache_path = moved_cache_path o.cache_path o.remote_path (new_path ++ rest);
  }
]

-- The loop of `rename` over the open handles.
unfoldable pub follow_all : {F : Type 0} → Dict ℕ (OpenHandle F) → Str → Str → Dict ℕ (OpenHandle F)
follow_all [] old new_path = []
follow_all ((fh, o) ∷ d) old new_path =
    (fh, follow_rename o old new_path) ∷ follow_all d old new_path

module _ (h : Host) where
  open h use {World}

  -- The attributes of a folder that was just created.
  unfoldable pub note_folder : ℕ → Act h FileAttr
  unfolding now_ms put_attr
  note_folder ino = do
    now ← now_ms h
    let cached : CachedAttr = record {
      size = 0;
      mtime_ms = now;
      remote_mtime_ms = none;
      is_folder = true;
      is_hydrated = false;
      pending_upload = false;
    }
    put_attr h ino cached
    pure (file_attr_from_cached h.owner ino cached)

  -- `mkdir`
  unfoldable pub mkdir : ℕ → Str → Act h ReplyEntry
  unfolding to_str resolve refuse_nfc_collision verb intern record_raw_name note_folder
  mkdir parent_inode os_name = do
    name ← to_str h os_name
    parent_path ← resolve h parent_inode
    let cp = child_path h.nfc parent_path name
    refuse_nfc_collision h parent_path cp name
    done ← verb h namespace_err_to_errno (h.mkdir cp)
    new_ino ← intern h cp
    record_raw_name h cp name
    attr ← note_folder new_ino
    pure (reply_entry attr)

  -- What `unlink` and `rmdir` drop once the daemon has removed the entry.
  unfoldable pub drop_entry : Str → Act h (Unit {0})
  unfolding forget forget_raw_names remove_attr
  drop_entry cp = do
    ino ← forget h cp
    forget_raw_names h cp
    elim ino [ none ↦ pure tt | some inode ↦ remove_attr h inode ]

  -- The removal of the cache file or folder; its errors are only logged.
  unfoldable pub evict : (Str → World → World) → Str → Act h (Unit {0})
  unfolding read_fs os
  evict remove cp = do
    root ← read_fs h (λ fs. fs.cache_root)
    elim root [ none ↦ pure tt | some r ↦ os h (λ w. (tt, remove (join r (trim_slashes cp)) w)) ]

  -- `unlink`
  unfoldable pub unlink : ℕ → Str → Act h (Unit {0})
  unfolding to_str resolve verb drop_entry evict
  unlink parent_inode os_name = do
    name ← to_str h os_name
    parent_path ← resolve h parent_inode
    let cp = child_path h.nfc parent_path name
    done ← verb h namespace_err_to_errno (h.unlink cp)
    drop_entry cp
    evict h.remove_file cp

  -- `rmdir`
  unfoldable pub rmdir : ℕ → Str → Act h (Unit {0})
  unfolding to_str resolve verb drop_entry evict
  rmdir parent_inode os_name = do
    name ← to_str h os_name
    parent_path ← resolve h parent_inode
    let cp = child_path h.nfc parent_path name
    done ← verb h namespace_err_to_errno (h.rmdir cp)
    drop_entry cp
    evict h.remove_dir_all cp

  -- The changes of `rename` once the daemon has moved the entry.
  unfoldable pub move_entry : Str → Str → Str → Act h (Unit {0})
  unfolding change rename_raw_names record_raw_name
  move_entry old_path new_path new_name = do
    change h (λ fs. record fs { paths = PathMap.rename fs.paths old_path new_path })
    change h (λ fs. record fs { open_handles = follow_all fs.open_handles old_path new_path })
    rename_raw_names h old_path new_path
    record_raw_name h new_path new_name

  -- `rename`
  unfoldable pub rename : ℕ → Str → ℕ → Str → Act h (Unit {0})
  unfolding to_str resolve refuse_nfc_collision verb move_entry
  rename old_parent_inode os_old_name new_parent_inode os_new_name = do
    old_name ← to_str h os_old_name
    new_name ← to_str h os_new_name
    old_parent ← resolve h old_parent_inode
    new_parent ← resolve h new_parent_inode
    let old_path = child_path h.nfc old_parent old_name
    let new_path = child_path h.nfc new_parent new_name
    refuse_nfc_collision h new_parent new_path new_name
    done ← verb h namespace_err_to_errno (h.rename old_path new_path)
    move_entry old_path new_path new_name
