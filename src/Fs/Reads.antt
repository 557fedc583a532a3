-- ===== src/Fs/Reads.antt =====
-- The handlers of mount/src/fuse_fs.rs that answer from listings and cached attributes: lookup,
-- getattr, opendir, readdir and readdirplus.
pub mod Directory
use unidrive_mount_linux.Base.Exec.{pure, raise, expect_some, ◌>>=◌}
use unidrive_mount_linux.Base.Int.{ℤ}
use unidrive_mount_linux.Base.Int
use unidrive_mount_linux.Base.Dict.{Dict}
use unidrive_mount_linux.Ipc.Entry.{ListEntry}
use unidrive_mount_linux.Names.{child_path}
use unidrive_mount_linux.Attr.{
  CachedAttr, from_entry, FileType, directory, kind_of, FileAttr, file_attr_from_cached,
}
use unidrive_mount_linux.Host.{Host}
use unidrive_mount_linux.Errno.{enoent}
use unidrive_mount_linux.Fs.{Act, read_fs, resolve, to_str}
use unidrive_mount_linux.Fs.Listing.{
  visible_in, visible_name, list_dir, cached_entry, dotdot_inode, get_or_fetch_attr,
}
use unidrive_mount_linux.Base.{
  ℕ, ◌+◌, Option, none, some, List, [], ◌∷◌, ◌++◌, ◌==◌, list_eq, nat_eq, drop, if◌then◌else◌, Str,
  str,
}

-- `ReplyEntry`, its time to live in seconds
pub record ReplyEntry : Type 0 where
  pub ttl : ℕ
  pub attr : FileAttr
  pub generation : ℕ

-- `ReplyAttr`
pub record ReplyAttr : Type 0 where
  pub ttl : ℕ
  pub attr : FileAttr

-- `ReplyOpen`
pub record ReplyOpen : Type 0 where
  pub fh : ℕ
  pub flags : ℕ

pub record DirectoryEntry : Type 0 where
  pub inode : ℕ
  pub kind : FileType
  pub name : Str
  pub offset : ℕ

pub record DirectoryEntryPlus : Type 0 where
  pub entry : DirectoryEntry
  pub generation : ℕ
  pub attr : FileAttr
  pub entry_ttl : ℕ
  pub attr_ttl : ℕ

abbrev pub reply_entry : FileAttr → ReplyEntry
reply_entry a = record { ttl = 1; attr = a; generation = 0 }

-- The loop of `lookup` over the listing.
unfoldable pub find_listed : Str → List (ℕ × ListEntry) → Option (ℕ × CachedAttr)
find_listed cp [] = none
find_listed cp ((ino, e) ∷ es) =
    let rest = find_listed cp es in if e.path == cp then some (ino, from_entry e) else rest

-- The loops of `readdir` and `readdirplus` over the listing, from an offset on.
unfoldable pub dir_entries : Dict Str Str → ℕ → List (ℕ × ListEntry) → List DirectoryEntry
dir_entries raw n [] = []
dir_entries raw n ((ino, e) ∷ es) =
    record { inode = ino; kind = kind_of e.folder; name = visible_in raw e.path; offset = n }
    ∷ dir_entries raw (n + 1) es

-- `.` and `..`
unfoldable pub dot_entries : ℕ → ℕ → List DirectoryEntry
dot_entries parent dotdot =
    record { inode = parent; kind = directory; name = str "."; offset = 1 }
    ∷ record { inode = dotdot; kind = directory; name = str ".."; offset = 2 }
    ∷ []

unfoldable pub plus : FileAttr → DirectoryEntry → DirectoryEntryPlus
plus a d = record { entry = d; generation = 0; attr = a; entry_ttl = 1; attr_ttl = 1 }

unfoldable pub dir_entries_plus :
    (ℕ → CachedAttr → FileAttr) → Dict Str Str → ℕ → List (ℕ × ListEntry) → List DirectoryEntryPlus
unfolding plus
dir_entries_plus stat raw n [] = []
dir_entries_plus stat raw n ((ino, e) ∷ es) =
    plus (stat ino (from_entry e))
      (record { inode = ino; kind = kind_of e.folder; name = visible_in raw e.path; offset = n })
    ∷ dir_entries_plus stat raw (n + 1) es

module _ (h : Host) where
  stat : ℕ → CachedAttr → FileAttr
  stat = file_attr_from_cached h.owner

  -- `lookup` once the name is the visible one
  unfoldable pub lookup_path : Str → Str → Act h ReplyEntry
  unfolding cached_entry list_dir stat
  lookup_path parent_path cp = do
    cached ← cached_entry h cp
    elim cached [
      | some (ino, a) ↦ pure (reply_entry (stat ino a))
      | none ↦ (do
        listed ← list_dir h parent_path
        (ino, a) ← expect_some enoent (find_listed cp listed)
        pure (reply_entry (stat ino a)))
    ]

  -- `lookup`
  unfoldable pub lookup_child : ℕ → Str → Act h ReplyEntry
  unfolding lookup_path resolve to_str visible_name
  lookup_child parent os_name = do
    name ← to_str h os_name
    parent_path ← resolve h parent
    visible ← visible_name h (child_path h.nfc parent_path name)
    if visible == name
        then lookup_path parent_path (child_path h.nfc parent_path name)
        else raise enoent

  -- `getattr`
  unfoldable pub getattr : ℕ → Act h ReplyAttr
  unfolding get_or_fetch_attr stat
  getattr inode = do a ← get_or_fetch_attr h inode; pure (record { ttl = 1; attr = stat inode a })

  -- `opendir`
  unfoldable pub opendir : ℕ → Act h ReplyOpen
  opendir inode = pure (record { fh = 0; flags = 0 })

  -- `readdir`, its offset an `i64`
  unfoldable pub readdir : ℕ → ℤ → Act h (List DirectoryEntry)
  unfolding resolve list_dir dotdot_inode read_fs
  readdir parent offset = do
    parent_path ← resolve h parent
    listed ← list_dir h parent_path
    dotdot ← dotdot_inode h parent parent_path
    raw ← read_fs h (λ fs. fs.raw_names)
    pure (drop (Int.clamp offset) (dot_entries parent dotdot ++ dir_entries raw 3 listed))

  -- `readdirplus`, its offset a `u64`
  unfoldable pub readdirplus : ℕ → ℕ → Act h (List DirectoryEntryPlus)
  unfolding resolve list_dir dotdot_inode read_fs get_or_fetch_attr stat
  readdirplus parent offset = do
    parent_path ← resolve h parent
    listed ← list_dir h parent_path
    parent_attr ← get_or_fetch_attr h parent
    dotdot ← dotdot_inode h parent parent_path
    raw ← read_fs h (λ fs. fs.raw_names)
    pure (
        drop offset (
          plus (stat parent parent_attr)
            (record { inode = parent; kind = directory; name = str "."; offset = 1 })
          ∷ plus (stat dotdot parent_attr)
              (record { inode = dotdot; kind = directory; name = str ".."; offset = 2 })
          ∷ dir_entries_plus stat raw 3 listed))
