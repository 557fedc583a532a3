-- ===== src/PathMap.antt =====
-- mount/src/path_map.rs: the two-way map of inodes and remote paths. The proofs are in the modules
-- below. The set of roots (a `HashSet`) is a list.
pub mod Ancestors
pub mod Below
pub mod Bijection
pub mod Rename
pub mod Members
pub mod History
use unidrive_mount_linux.Base.{
  ℕ, zero, suc, ◌+◌, ◌%◌, ◌^◌, Bool, true, false, ◌&&◌, ◌||◌, not, Option, none, some, List, [],
  ◌∷◌, ◌++◌, ◌==◌, nat_eq, list_eq, if◌then◌else◌, contains, length, drop, take, Str, slash, rfind,
  starts_with, is_empty,
}
use unidrive_mount_linux.Base.Dict.{Dict, lookup, insert, erase, erase_all, retain, keys}

-- `u64`
abbrev pub u64_mod : ℕ
u64_mod = 2 ^ 64

-- `ROOT_INODE`
abbrev pub root_inode : ℕ
root_inode = 1

pub record PathMap : Type 0 where
  pub next : ℕ
  pub path_to_inode : Dict Str ℕ
  pub inode_to_path : Dict ℕ Str

-- `PathMap::new`
unfoldable pub new : PathMap
unfolding insert
new = record {
  next = root_inode + 1;
  path_to_inode = insert [] root_inode [];
  inode_to_path = insert root_inode [] [];
}

-- `PathMap::path_for`
unfoldable pub path_for : PathMap → ℕ → Option Str
path_for m inode = lookup inode m.inode_to_path

-- `PathMap::inode_for`
unfoldable pub inode_for : PathMap → Str → Option ℕ
inode_for m path = lookup path m.path_to_inode

-- `PathMap::intern`. The counter wraps like the `u64` it is.
unfoldable pub intern : PathMap → Str → ℕ × PathMap
intern m path = elim (lookup path m.path_to_inode) [
  | some ino ↦ (ino, m)
  | none ↦ (
    m.next,
    record {
      next = (m.next + 1) % u64_mod;
      path_to_inode = insert path m.next m.path_to_inode;
      inode_to_path = insert m.next path m.inode_to_path;
    },
  )
]

-- `PathMap::forget`
unfoldable pub forget : PathMap → Str → Option ℕ × PathMap
forget m path = elim (lookup path m.path_to_inode) [
  | none ↦ (none, m)
  | some ino ↦ (
    some ino,
    record m {
      path_to_inode = erase path m.path_to_inode;
      inode_to_path = erase ino m.inode_to_path;
    },
  )
]

-- The test `path == old || path.starts_with("{old}/")` of `rename`.
unfoldable pub is_same_or_below : Str → Str → Bool
is_same_or_below old path = path == old || starts_with path (old ++ (slash ∷ []))

-- The entries that `rename` collects in `moving`.
unfoldable pub moving : Str → PathMap → Dict Str ℕ
moving old m = retain (is_same_or_below old) m.path_to_inode

-- The paths that `rename` collects in `stale`.
unfoldable pub stale : Str → Str → PathMap → List Str
stale old new_path m = keys (
    retain (λ path. not (is_same_or_below old path) && is_same_or_below new_path path)
      m.path_to_inode)

-- The loop of `rename` over `stale`.
unfoldable pub drop_stale : List Str → PathMap → PathMap
drop_stale [] m = m
drop_stale (path ∷ paths) m = drop_stale paths (elim (lookup path m.path_to_inode) [
  | some ino ↦ record m {
    path_to_inode = erase path m.path_to_inode;
    inode_to_path = erase ino m.inode_to_path;
  }
  | none ↦ m
])

-- `format!("{new_path}{}", &path[old_path.len()..])`
unfoldable pub moved : Str → Str → Str → Str
moved old new_path path = new_path ++ drop (length old) path

-- The loop of `rename` that inserts the moved entries.
unfoldable pub insert_moved : Str → Str → Dict Str ℕ → PathMap → PathMap
insert_moved old new_path [] m = m
insert_moved old new_path ((path, ino) ∷ rest) m = insert_moved old new_path rest (record m {
  path_to_inode = insert (moved old new_path path) ino m.path_to_inode;
  inode_to_path = insert ino (moved old new_path path) m.inode_to_path;
})

-- `PathMap::rename`
unfoldable pub rename : PathMap → Str → Str → PathMap
rename m old new_path =
    if is_empty (moving old m)
    then m
    else (let kept = drop_stale (stale old new_path m) m in
        insert_moved old new_path (moving old m)
          (record kept { path_to_inode = erase_all (keys (moving old m)) kept.path_to_inode }))

-- The loop of `is_at_or_below`; every round shortens the path, so its length is enough fuel.
unfoldable pub below_loop : ℕ → List Str → Str → Bool
below_loop zero roots p = false
below_loop (suc f) roots p = elim (contains roots p) [
  | true ↦ true
  | false ↦ elim (rfind slash p) [ some (suc i) ↦ below_loop f roots (take (suc i) p) | _ ↦ false ]
]

unfoldable pub is_at_or_below : Str → List Str → Bool
is_at_or_below path roots = below_loop (suc (length path)) roots path

-- The values of the entries whose key passes, in the map's order.
unfoldable pub select : (Str → Bool) → Dict Str ℕ → List ℕ
select p [] = []
select p ((path, ino) ∷ d) = let rest = select p d in if p path then ino ∷ rest else rest

-- `PathMap::inodes_at_or_below`
unfoldable pub inodes_at_or_below : PathMap → List Str → List ℕ
inodes_at_or_below m roots = select (λ path. is_at_or_below path roots) m.path_to_inode
