-- ===== src/Fs/Listing/RawNames.antt =====
-- The raw names of mount/src/fuse_fs.rs: which name an entry is visible under.
use unidrive_mount_linux.PathMap
use unidrive_mount_linux.Base.{
  ℕ, ◌≡◌, refl, ◌≢◌, inl, inr, true, false, some, arith, ◌==◌, contains, list_eq, nat_eq,
  Bool-cases, Str, slash,
}
use unidrive_mount_linux.Fs.Reads.{lookup_child}
use unidrive_mount_linux.Fs.Listing.{
  refuse_nfc_collision, visible_in, record_raw_name, visible_name, entry_exists, cached_entry,
}
use unidrive_mount_linux.Fs.{change, read_fs, St, to_str, resolve}
use unidrive_mount_linux.Names.{is_nfc_name, child_path}
use unidrive_mount_linux.Host.{Host}
use unidrive_mount_linux.Base.Exec.{pure, raise, ◌>>=◌, err, expect_some}
use unidrive_mount_linux.Base.Dict.{lookup-insert, lookup, lookup-erase}
use unidrive_mount_linux.Names.Laws.{parent_prefix-child_path}
use unidrive_mount_linux.Attr.{CachedAttr}
use unidrive_mount_linux.Errno.{eexist, enoent}

-- Once a name without `/` is recorded for the entry it denotes in a folder, the entry is visible
-- under exactly that name, composed or not.
pub visible_name-record_raw_name :
    {h : Host} (parent name : Str) (s : St h)
    → contains name slash ≡ false
    → visible_in
        (record_raw_name h (child_path h.nfc parent name) name s).1.fs.raw_names
        (child_path h.nfc parent name)
      ≡ name
unfolding visible_in record_raw_name change is_nfc_name
visible_name-record_raw_name {h} parent name s plain =
    let cp = child_path h.nfc parent name in
    elim (Bool-cases (h.nfc name == name)) [
      | inr n ↦ ground (arith, lookup-insert cp cp name s.fs.raw_names)
      | inl e ↦
          let same : h.nfc name ≡ name = ground arith in
          let shown = (parent_prefix-child_path h.nfc parent name (rw same plain)).1 in
          ground (arith, lookup-erase cp cp s.fs.raw_names, shown)
    ]

-- In a folder whose inode is known, `lookup` answers a name that is text, but not the one that its
-- entry is visible under, with ENOENT, and nothing changes.
pub lookup_child_other :
    {h : Host} (parent : ℕ) (path name : Str) (s : St h)
    → h.is_utf8 name ≡ true
    → PathMap.path_for s.fs.paths parent ≡ some path
    → visible_in s.fs.raw_names (child_path h.nfc path name) ≢ name
    → lookup_child h parent name s ≡ (err enoent, s)
unfolding lookup_child to_str resolve visible_name read_fs pure raise expect_some ◌>>=◌
lookup_child_other {h} parent path name s u p n =
    let other : (visible_in s.fs.raw_names (child_path h.nfc path name) == name) ≡ false =
      ground arith in
    rw (u, p, other) refl

-- The check that `create`, `mknod`, `mkdir` and `rename` make refuses with EEXIST a name that
-- denotes a cached entry visible under another name, and changes nothing.
pub refuse_nfc_collision_cached :
    {h : Host} (parent cp name : Str) (s : St h) (ino : ℕ) (a : CachedAttr)
    → visible_in s.fs.raw_names cp ≢ name
    → PathMap.inode_for s.fs.paths cp ≡ some ino
    → lookup ino s.fs.attrs ≡ some a
    → refuse_nfc_collision h parent cp name s ≡ (err eexist, s)
unfolding refuse_nfc_collision visible_name entry_exists cached_entry read_fs pure raise ◌>>=◌
refuse_nfc_collision_cached parent cp name s ino a n p k =
    let other : (visible_in s.fs.raw_names cp == name) ≡ false = ground arith in
    rw (other, p, k) refl
