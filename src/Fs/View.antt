-- ===== src/Fs/View.antt =====
-- `ViewCache` of mount/src/fuse_fs.rs: what a change event drops from the cached attributes.
pub mod Invariant
pub mod Laws
use unidrive_mount_linux.Base.{
  ℕ, none, some, List, [], ◌∷◌, contains, list_eq, nat_eq, if◌then◌else◌, Str,
}
use unidrive_mount_linux.Subscribe.{Invalidation, paths, all}
use unidrive_mount_linux.PathMap
use unidrive_mount_linux.Fs.{Fs, OpenHandle}
use unidrive_mount_linux.Base.Dict.{Dict, retain, erase}
use unidrive_mount_linux.PathMap.{PathMap}
use unidrive_mount_linux.Attr.{CachedAttr}

-- The paths of the handles with unsent local writes.
unfoldable pub unsent : {F : Type 0} → Dict ℕ (OpenHandle F) → List Str
unsent [] = []
unsent ((fh, o) ∷ d) = let rest = unsent d in if o.dirty then o.remote_path ∷ rest else rest

-- `filter_map(|p| paths.inode_for(p))`
unfoldable pub inodes_of : PathMap → List Str → List ℕ
unfolding PathMap.inode_for
inodes_of m [] = []
inodes_of m (p ∷ ps) =
    let rest = inodes_of m ps in
    elim (PathMap.inode_for m p) [ none ↦ rest | some ino ↦ ino ∷ rest ]

-- The inodes whose attributes are kept.
unfoldable pub kept_inodes : {F : Type 0} → Fs F → List ℕ
unfolding inodes_of unsent
kept_inodes fs = inodes_of fs.paths (unsent fs.open_handles)

-- `for ino in inos { if !keep.contains(&ino) { attrs.remove(&ino); } }`
unfoldable pub drop_attrs : List ℕ → List ℕ → Dict ℕ CachedAttr → Dict ℕ CachedAttr
drop_attrs keep [] attrs = attrs
drop_attrs keep (ino ∷ inos) attrs =
    drop_attrs keep inos (if contains keep ino then attrs else erase ino attrs)

-- `ViewCache::apply`
unfoldable pub apply : {F : Type 0} → Invalidation → Fs F → Fs F
unfolding kept_inodes drop_attrs PathMap.inodes_at_or_below
apply all fs = record fs { attrs = retain (contains (kept_inodes fs)) fs.attrs }
apply (paths roots) fs = record fs {
  attrs = drop_attrs (kept_inodes fs) (PathMap.inodes_at_or_below fs.paths roots) fs.attrs;
}
