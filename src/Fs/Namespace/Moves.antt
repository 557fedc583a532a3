-- ===== src/Fs/Namespace/Moves.antt =====
-- `rename` of mount/src/fuse_fs.rs: what it moves.
use unidrive_mount_linux.PathMap
use unidrive_mount_linux.PathMap.{is_same_or_below, moved}
use unidrive_mount_linux.PathMap.Bijection.{IsBijective}
use unidrive_mount_linux.Fs.Listing.{
  refuse_nfc_collision, visible_in, rename_raw_names, record_raw_name, visible_name,
}
use unidrive_mount_linux.Fs.{ipc, St, OpenHandle, to_str, resolve, change, read_fs}
use unidrive_mount_linux.Base.{
  ℕ, ◌≡◌, refl, ◌⊎◌, inl, inr, true, some, [], ◌∷◌, arith, ◌==◌, list_eq, nat_eq, Str,
}
use unidrive_mount_linux.Fs.Namespace.{follow_all, move_entry, rename, follow_rename}
use unidrive_mount_linux.Host.{Host}
use unidrive_mount_linux.Base.Dict.{lookup, Dict, map_some}
use unidrive_mount_linux.Names.{child_path}
use unidrive_mount_linux.Base.Exec.{
  Result, expect_some, ◌>>◌, err, mapped, ok, pure, Result-cases, ◌>>=◌,
}
use unidrive_mount_linux.Ipc.{IpcError}
use unidrive_mount_linux.Fs.Files.{verb}
use unidrive_mount_linux.Errno.{namespace_err_to_errno}
use unidrive_mount_linux.PathMap.Rename.{path_for-rename}

lookup-follow_all_map :
    {F : Type 0} (d : Dict ℕ (OpenHandle F)) (old new_path : Str) (i : ℕ)
    → lookup i (follow_all d old new_path)
      ≡ map_some (λ o. follow_rename o old new_path) (lookup i d)
unfolding follow_all lookup
lookup-follow_all_map [] old new_path i = refl
lookup-follow_all_map ((j, o) ∷ d) old new_path i =
    ground (arith, lookup-follow_all_map d old new_path i)

module _ {h : Host} (parent : ℕ) (path name : Str) (new_parent : ℕ) (new_parent_path new_name : Str)
    (s : St h) (u : h.is_utf8 name ≡ true) (v : h.is_utf8 new_name ≡ true)
    (p : PathMap.path_for s.fs.paths parent ≡ some path)
    (q : PathMap.path_for s.fs.paths new_parent ≡ some new_parent_path)
    (free : visible_in s.fs.raw_names (child_path h.nfc new_parent_path new_name) ≡ new_name) where
  abbrev old_path : Str
  old_path = child_path h.nfc path name

  abbrev new_path : Str
  new_path = child_path h.nfc new_parent_path new_name

  abbrev told : Result IpcError (Unit {0}) × h.World
  told = h.rename old_path new_path s.world

  visible : (visible_in s.fs.raw_names new_path == new_name) ≡ true
  visible = ground arith

  rename_refused :
      {e : IpcError}
      → told.0 ≡ err e
      → rename h parent name new_parent new_name s
        ≡ (err (namespace_err_to_errno e), record s { world = told.1 })
  unfolding rename to_str resolve read_fs expect_some verb mapped ipc pure refuse_nfc_collision
      visible_name ◌>>=◌ ◌>>◌
  rename_refused r = rw (u, v, p, q, visible, r) refl

  rename_done :
      told.0 ≡ ok tt
      → rename h parent name new_parent new_name s
        ≡ move_entry h old_path new_path new_name (record s { world = told.1 })
  unfolding rename to_str resolve read_fs expect_some verb mapped ipc pure refuse_nfc_collision
      visible_name ◌>>=◌ ◌>>◌
  rename_done r = rw (u, v, p, q, visible, r) refl

  -- Where the path map is bijective, the names are text, the folders' inodes are known and the new
  -- name is the one its entry would be visible under, a rename fails exactly where the daemon
  -- refuses it, with that error's number and nothing changed. Otherwise it succeeds, every inode at
  -- or below the old path leads to its place below the new one, and every open handle has followed.
  pub rename-outcome :
      IsBijective s.fs.paths
      → ((e : IpcError) × (told.0 ≡ err e)
          × (rename h parent name new_parent new_name s
              ≡ (err (namespace_err_to_errno e), record s { world = told.1 })))
        ⊎ ((told.0 ≡ ok tt)
            × ((rename h parent name new_parent new_name s).0 ≡ ok tt)
            × ((r : Str) (i : ℕ)
                → is_same_or_below old_path r ≡ true
                → PathMap.inode_for s.fs.paths r ≡ some i
                → PathMap.path_for (rename h parent name new_parent new_name s).1.fs.paths i
                  ≡ some (moved old_path new_path r))
            × ((i : ℕ)
                → lookup i (rename h parent name new_parent new_name s).1.fs.open_handles
                  ≡ map_some (λ o. follow_rename o old_path new_path) (lookup i s.fs.open_handles)))
  unfolding move_entry rename_raw_names record_raw_name change ◌>>◌
  rename-outcome b = elim (Result-cases told.0) [
    | inr (e, r) ↦ inl (e, r, rename_refused r)
    | inl (a, r) ↦ inr (
      r,
      rw (rename_done r) refl,
      λ t i below known.
          rw (rename_done r) (path_for-rename s.fs.paths old_path new_path b t i below known),
      λ i. rw (rename_done r) (lookup-follow_all_map s.fs.open_handles old_path new_path i),
    )
  ]
