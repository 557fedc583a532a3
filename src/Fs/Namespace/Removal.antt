-- ===== src/Fs/Namespace/Removal.antt =====
-- `unlink` and `rmdir` of mount/src/fuse_fs.rs: what they drop.
use unidrive_mount_linux.PathMap
use unidrive_mount_linux.Base.{
  ℕ, ◌≡◌, refl, ◌⊎◌, inl, inr, true, none, some, arith, ◌==◌, list_eq, nat_eq, if◌then◌else◌,
  Option-cases, Str,
}
use unidrive_mount_linux.Host.{Host}
use unidrive_mount_linux.Fs.{St, forget, read_fs, to_str, os, resolve, remove_attr, change, ipc}
use unidrive_mount_linux.Base.Exec.{
  Result, expect_some, pure, ◌>>=◌, mapped, ◌>>◌, ok, err, Result-cases,
}
use unidrive_mount_linux.Names.{child_path}
use unidrive_mount_linux.Fs.Namespace.{drop_entry, evict, unlink}
use unidrive_mount_linux.Ipc.{IpcError}
use unidrive_mount_linux.Fs.Listing.{forget_raw_names}
use unidrive_mount_linux.Fs.Files.{verb}
use unidrive_mount_linux.Base.Dict.{lookup, lookup-erase}
use unidrive_mount_linux.Errno.{namespace_err_to_errno}
use unidrive_mount_linux.PathMap.Bijection.{inode_for-forget}

module _ {h : Host} (cp : Str) (s : St h) where
  abbrev dropped : St h
  dropped = (drop_entry h cp s).1

  drop_entry-paths : dropped.fs.paths ≡ (PathMap.forget s.fs.paths cp).1
  unfolding drop_entry forget forget_raw_names remove_attr change pure ◌>>=◌ ◌>>◌
  drop_entry-paths = elim (Option-cases (PathMap.forget s.fs.paths cp).0) [
    | inl n ↦ rw (n, dropped) refl
    | inr (i, e) ↦ rw (e, dropped) refl
  ]

  drop_entry-attrs :
      (i : ℕ) → PathMap.inode_for s.fs.paths cp ≡ some i → lookup i dropped.fs.attrs ≡ none
  unfolding drop_entry forget PathMap.forget PathMap.inode_for forget_raw_names remove_attr change
      pure ◌>>=◌ ◌>>◌
  drop_entry-attrs i e = rw (e, dropped, lookup-erase i i s.fs.attrs) (ground arith)

  drop_entry-ok : (drop_entry h cp s).0 ≡ ok tt
  unfolding drop_entry forget forget_raw_names remove_attr change pure ◌>>=◌ ◌>>◌
  drop_entry-ok = elim (Option-cases (PathMap.forget s.fs.paths cp).0) [
    | inl n ↦ rw n refl
    | inr (i, e) ↦ rw e refl
  ]

  evict-fs : (remove : Str → h.World → h.World) → (evict h remove cp s).1.fs ≡ s.fs
  unfolding evict read_fs os pure ◌>>=◌
  evict-fs remove = elim (Option-cases s.fs.cache_root) [
    | inl n ↦ rw n refl
    | inr (r, e) ↦ rw e refl
  ]

  evict-ok : (remove : Str → h.World → h.World) → (evict h remove cp s).0 ≡ ok tt
  unfolding evict read_fs os pure ◌>>=◌
  evict-ok remove = elim (Option-cases s.fs.cache_root) [
    | inl n ↦ rw n refl
    | inr (r, e) ↦ rw e refl
  ]

module _ {h : Host} (parent : ℕ) (path name : Str) (s : St h) (u : h.is_utf8 name ≡ true)
    (p : PathMap.path_for s.fs.paths parent ≡ some path) where
  abbrev target : Str
  target = child_path h.nfc path name

  abbrev asked : Result IpcError (Unit {0}) × h.World
  asked = h.unlink target s.world

  abbrev gone : St h
  gone = (drop_entry h target (record s { world = asked.1 })).1

  unlink_refused :
      {e : IpcError}
      → asked.0 ≡ err e
      → unlink h parent name s ≡ (err (namespace_err_to_errno e), record s { world = asked.1 })
  unfolding unlink to_str resolve read_fs expect_some verb mapped ipc pure ◌>>=◌ ◌>>◌
  unlink_refused q = rw (u, p, q) refl

  unlink_done : asked.0 ≡ ok tt → (unlink h parent name s).1.fs ≡ gone.fs
  unfolding unlink to_str resolve read_fs expect_some verb mapped ipc pure ◌>>=◌ ◌>>◌
  unlink_done q =
      rw (u, p, q, drop_entry-ok target (record s { world = asked.1 }))
        (evict-fs target gone h.remove_file)

  unlink_answer : asked.0 ≡ ok tt → (unlink h parent name s).0 ≡ ok tt
  unfolding unlink to_str resolve read_fs expect_some verb mapped ipc pure ◌>>=◌ ◌>>◌
  unlink_answer q =
      rw (u, p, q, drop_entry-ok target (record s { world = asked.1 }))
        (evict-ok target gone h.remove_file)

  -- Where the name is text and the folder's inode is known, an unlink fails exactly where the daemon
  -- refuses it, with that error's number and nothing changed; otherwise the entry's path has no
  -- inode any more, every other path keeps its own, and the attributes cached of the entry's inode
  -- are dropped.
  pub unlink-outcome :
      ((e : IpcError) × (asked.0 ≡ err e)
        × (unlink h parent name s ≡ (err (namespace_err_to_errno e), record s { world = asked.1 })))
      ⊎ ((asked.0 ≡ ok tt)
          × ((unlink h parent name s).0 ≡ ok tt)
          × ((q : Str)
              → PathMap.inode_for (unlink h parent name s).1.fs.paths q
                ≡ (if q == target then none else PathMap.inode_for s.fs.paths q))
          × ((i : ℕ)
              → PathMap.inode_for s.fs.paths target ≡ some i
              → lookup i (unlink h parent name s).1.fs.attrs ≡ none))
  unlink-outcome = elim (Result-cases asked.0) [
    | inr (e, q) ↦ inl (e, q, unlink_refused q)
    | inl (a, q) ↦ inr (
      q,
      unlink_answer q,
      λ r.
          rw (unlink_done q, drop_entry-paths target (record s { world = asked.1 }))
            (inode_for-forget s.fs.paths target r),
      λ i e. rw (unlink_done q) (drop_entry-attrs target (record s { world = asked.1 }) i e),
    )
  ]
