-- ===== src/Fs/Listing.antt =====
-- The parts of `UnidriveFs` in mount/src/fuse_fs.rs that list a directory, fetch attributes and keep
-- the raw names. What is only logged is left out, with the set that dedups it kept.
pub mod RawNames
use unidrive_mount_linux.Base.Exec.{pure, raise, expect_some, mapped, ◌>>=◌, ◌>>◌}
use unidrive_mount_linux.Base.Dict.{Dict, lookup, insert, erase, retain, map_some}
use unidrive_mount_linux.Ipc.Entry.{ListEntry}
use unidrive_mount_linux.PathMap
use unidrive_mount_linux.PathMap.{PathMap, root_inode}
use unidrive_mount_linux.Names.{parent_prefix, basename, is_representable_component, is_nfc_name}
use unidrive_mount_linux.Attr.{CachedAttr, from_entry, root_attr}
use unidrive_mount_linux.Host.{Host}
use unidrive_mount_linux.Errno.{enoent, eexist, ipc_error_to_errno}
use unidrive_mount_linux.Fs.{Act, Ipc, ipc, change, read_fs, resolve, intern, put_attr}
use unidrive_mount_linux.Base.{
  ℕ, ◌+◌, Bool, true, false, ◌&&◌, ◌||◌, not, Option, none, some, List, [], ◌∷◌, ◌++◌, ◌==◌,
  contains, list_eq, nat_eq, length, drop, if◌then◌else◌, is_some, Str, starts_with, slash,
}

-- The loop of `populate_from_list` that drops entries with names that cannot be shown: what is
-- kept, and the set of the paths warned about.
unfoldable pub screen : List ListEntry → List Str → List ListEntry × List Str
screen [] warned = ([], warned)
screen (e ∷ es) warned =
    let shown = is_representable_component (basename e.path) in
    let (kept, warned') =
      screen es (if shown || contains warned e.path then warned else e.path ∷ warned) in
    (if shown then e ∷ kept else kept, warned')

-- `raw_names.get(path)`, and the NFC basename without one: the name an entry is visible under.
unfoldable pub visible_in : Dict Str Str → Str → Str
visible_in raw cp = elim (lookup cp raw) [ some name ↦ name | none ↦ basename cp ]

-- The key of a raw name below `old` once `old` has become `new_path`.
unfoldable pub moved_key : Str → Str → Str → Str
moved_key old new_path k = new_path ++ (slash ∷ drop (length old + 1) k)

unfoldable pub move_keys : Str → Str → Dict Str Str → Dict Str Str
move_keys old new_path [] = []
move_keys old new_path ((k, v) ∷ d) = (moved_key old new_path k, v) ∷ move_keys old new_path d

-- `raw.extend(moved)`
unfoldable pub extend : Dict Str Str → Dict Str Str → Dict Str Str
extend raw [] = raw
extend raw ((k, v) ∷ d) = extend (insert k v raw) d

-- `k != cp && !k.starts_with("{cp}/")`
unfoldable pub is_elsewhere : Str → Str → Bool
is_elsewhere cp k = not (k == cp) && not (starts_with k (cp ++ (slash ∷ [])))

-- The map of `rename_raw_names`.
unfoldable pub renamed_raw_names : Str → Str → Dict Str Str → Dict Str Str
renamed_raw_names old new_path raw =
    extend (retain (is_elsewhere old) raw)
      (move_keys old new_path (retain (λ k. starts_with k (old ++ (slash ∷ []))) raw))

module _ (h : Host) where
  open h use {File}

  -- `visible_name`
  unfoldable pub visible_name : Str → Act h Str
  unfolding visible_in read_fs
  visible_name cp = read_fs h (λ fs. visible_in fs.raw_names cp)

  -- `record_raw_name`
  unfoldable pub record_raw_name : Str → Str → Act h (Unit {0})
  unfolding change
  record_raw_name cp name = change h (λ fs. record fs {
    raw_names =
        if is_nfc_name h.nfc name then erase cp fs.raw_names else insert cp name fs.raw_names;
  })

  -- `forget_raw_names`
  unfoldable pub forget_raw_names : Str → Act h (Unit {0})
  unfolding change
  forget_raw_names cp =
      change h (λ fs. record fs { raw_names = retain (is_elsewhere cp) fs.raw_names })

  -- `rename_raw_names`
  unfoldable pub rename_raw_names : Str → Str → Act h (Unit {0})
  unfolding change
  rename_raw_names old new_path =
      change h (λ fs. record fs { raw_names = renamed_raw_names old new_path fs.raw_names })

  -- The loop of `populate_from_list` that gives inodes to what is shown and caches its attributes.
  unfoldable pub record_entries : List ListEntry → Ipc h (List (ℕ × ListEntry))
  record_entries [] = pure []
  record_entries (e ∷ es) = do
    ino ← intern h e.path
    put_attr h ino (from_entry e)
    rest ← record_entries es
    pure ((ino, e) ∷ rest)

  -- `populate_from_list`
  unfoldable pub populate_from_list : Str → Ipc h (List (ℕ × ListEntry))
  unfolding ipc change read_fs screen
  populate_from_list prefix = do
    entries ← ipc h (h.list prefix)
    shown ← read_fs h (λ fs. screen entries fs.quarantine_warned)
    change h (λ fs. record fs { quarantine_warned = shown.1 })
    record_entries shown.0

  -- `populate_from_list(..).await.map_err(ipc_error_to_errno)?`
  unfoldable pub list_dir : Str → Act h (List (ℕ × ListEntry))
  unfolding mapped
  list_dir prefix = mapped ipc_error_to_errno (populate_from_list prefix)

  -- The cached attributes of an inode.
  unfoldable pub cached_attr : ℕ → Act h (Option CachedAttr)
  unfolding read_fs
  cached_attr ino = read_fs h (λ fs. lookup ino fs.attrs)

  -- `paths.inode_for(cp)`, and the cached attributes of that inode.
  unfoldable pub cached_entry : Str → Act h (Option (ℕ × CachedAttr))
  unfolding read_fs PathMap.inode_for
  cached_entry cp = read_fs h (λ fs. elim (PathMap.inode_for fs.paths cp) [
    | none ↦ none
    | some ino ↦ map_some (λ a. (ino, a)) (lookup ino fs.attrs)
  ])

  -- `iter().any(|(_, e)| e.path == cp)`
  unfoldable pub lists : Str → List (ℕ × ListEntry) → Bool
  lists cp [] = false
  lists cp ((ino, e) ∷ es) = e.path == cp || lists cp es

  -- The second half of `refuse_nfc_collision`: is there an entry at `cp`?
  unfoldable pub entry_exists : Str → Str → Act h Bool
  entry_exists parent_path cp = do
    cached ← cached_entry cp
    if is_some cached then pure true else (do listed ← list_dir parent_path; pure (lists cp listed))

  -- `refuse_nfc_collision`
  unfoldable pub refuse_nfc_collision : Str → Str → Str → Act h (Unit {0})
  unfolding visible_name entry_exists
  refuse_nfc_collision parent_path cp name = do
    visible ← visible_name cp
    if visible == name
        then pure tt
        else do exists ← entry_exists parent_path cp; if exists then raise eexist else pure tt

  -- `dotdot_inode`
  unfoldable pub dotdot_inode : ℕ → Str → Act h ℕ
  dotdot_inode dir_inode dir_path =
      if dir_inode == root_inode then pure root_inode else intern h (parent_prefix dir_path)

  -- The slow path of `get_or_fetch_attr`: list the parent, and look again.
  unfoldable pub fetch_attr : ℕ → Act h CachedAttr
  unfolding resolve list_dir cached_attr
  fetch_attr inode = do
    path ← resolve h inode
    listed ← list_dir (parent_prefix path)
    a ← cached_attr inode
    expect_some enoent a

  -- `get_or_fetch_attr`
  unfoldable pub get_or_fetch_attr : ℕ → Act h CachedAttr
  unfolding cached_attr
  get_or_fetch_attr inode =
      if inode == root_inode
      then pure root_attr
      else do a ← cached_attr inode; elim a [ some c ↦ pure c | none ↦ fetch_attr inode ]
