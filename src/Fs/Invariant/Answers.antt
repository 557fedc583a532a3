-- ===== src/Fs/Invariant/Answers.antt =====
-- The handlers of mount/src/fuse_fs.rs that answer from listings and caches keep the invariant.
use unidrive_mount_linux.Base.{
  ℕ, ◌+◌, refl, none, some, arith, ◌==◌, list_eq, nat_eq, length, leb, Str,
}
use unidrive_mount_linux.Host.{Host}
use unidrive_mount_linux.Fs.Invariant.Listings.{
  IsBounded, Keeps-cached_attr, Keeps-cached_entry, Keeps-get_or_fetch_attr, Keeps-list_dir,
  Keeps-visible_name, Keeps-dotdot_inode,
}
use unidrive_mount_linux.Fs.Reads.{getattr, lookup_child, lookup_path, readdir, readdirplus}
use unidrive_mount_linux.Fs.Volume.{
  getxattr, init, listxattr, quota_task, refresh_quota_if_due, statfs, xattr_names,
}
use unidrive_mount_linux.Fs.{St}
use unidrive_mount_linux.Fs.Invariant.{
  Keeps, Keeps-if, Keeps-less, Room, Keeps-bind, Keeps-pure, Room-less, Keeps-expect_some,
  Keeps-raise,
}
use unidrive_mount_linux.Fs.Invariant.Steps.{Room-same, Keeps-read_fs, Keeps-resolve, Keeps-to_str}
use unidrive_mount_linux.Base.Int.{ℤ}

module _ {h : Host} {lo : ℕ} where
  Keeps-refresh_quota_if_due : Keeps {h = h} lo 0 (refresh_quota_if_due h)
  unfolding refresh_quota_if_due
  Keeps-refresh_quota_if_due = record {
    at = λ s k r. Room-same (Room-less lo k r (omega arith) (omega arith)) refl refl refl (record {
      paths = r.valid.paths;
      attrs_known = r.valid.attrs_known;
      handles_known = r.valid.handles_known;
    });
  }

  pub quota_task-Room : (s : St h) (k : ℕ) → Room lo k s.fs → Room lo k (quota_task h s).fs
  unfolding quota_task
  quota_task-Room s k r = Room-same r refl refl refl (record {
    paths = r.valid.paths;
    attrs_known = r.valid.attrs_known;
    handles_known = r.valid.handles_known;
  })

  pub Keeps-init : Keeps {h = h} lo 0 (init h)
  unfolding init
  Keeps-init = Keeps-less 0 (omega arith) (Keeps-bind Keeps-refresh_quota_if_due λ g. Keeps-pure _)

  pub Keeps-statfs : Keeps {h = h} lo 0 (statfs h)
  unfolding statfs
  Keeps-statfs =
      Keeps-less 0 (omega arith) (
        Keeps-bind Keeps-refresh_quota_if_due λ g. Keeps-bind (Keeps-read_fs _) (λ q. Keeps-pure _))

  pub Keeps-getxattr : (ino : ℕ) (name : Str) (k : ℕ) → Keeps {h = h} lo 0 (getxattr h ino name k)
  unfolding getxattr
  Keeps-getxattr ino name k =
      Keeps-if (h.is_utf8 name)
        (Keeps-bind (Keeps-cached_attr ino)
          λ a. Keeps-bind (Keeps-expect_some _ _) λ v. Keeps-expect_some _ _)
        (Keeps-raise _)

  pub Keeps-listxattr : (k : ℕ) → Keeps {h = h} lo 0 (listxattr h k)
  unfolding listxattr
  Keeps-listxattr k =
      Keeps-if (k == 0) (Keeps-pure _)
        (Keeps-if (leb (length xattr_names) k) (Keeps-pure _) (Keeps-raise _))

module _ {h : Host} {lo n : ℕ} (bounded : IsBounded h n) where
  Keeps-lookup_path : (parent cp : Str) → Keeps {h = h} lo n (lookup_path h parent cp)
  unfolding lookup_path
  Keeps-lookup_path parent cp = Keeps-less n (omega arith) (
      Keeps-bind (Keeps-cached_entry cp) (elim [
        | some p ↦ Keeps-less n (omega arith) (Keeps-pure _)
        | none ↦ Keeps-less n (omega arith) (
            Keeps-bind (Keeps-list_dir bounded parent)
              λ listed. Keeps-bind (Keeps-expect_some _ _) (λ p. Keeps-pure _))
      ]))

  pub Keeps-lookup_child :
      (parent : ℕ) (name : Str) → Keeps {h = h} lo n (lookup_child h parent name)
  unfolding lookup_child
  Keeps-lookup_child parent name = Keeps-less n (omega arith) (
      Keeps-bind (Keeps-to_str name) λ name'. Keeps-bind (Keeps-resolve parent) λ path.
        Keeps-bind (Keeps-visible_name _) λ visible.
          Keeps-if (visible == name') (Keeps-lookup_path path _)
            (Keeps-less n (omega arith) (Keeps-raise _)))

  pub Keeps-getattr : (ino : ℕ) → Keeps {h = h} lo n (getattr h ino)
  unfolding getattr
  Keeps-getattr ino =
      Keeps-less n (omega arith)
        (Keeps-bind (Keeps-get_or_fetch_attr bounded ino) (λ a. Keeps-pure _))

  pub Keeps-readdir : (parent : ℕ) (offset : ℤ) → Keeps {h = h} lo (n + 1) (readdir h parent offset)
  unfolding readdir
  Keeps-readdir parent offset = Keeps-less (n + 1) (omega arith) (
      Keeps-bind (Keeps-resolve parent) λ path. Keeps-bind (Keeps-list_dir bounded path) λ listed.
        Keeps-bind (Keeps-dotdot_inode parent path)
          λ dotdot. Keeps-bind (Keeps-read_fs _) (λ raw. Keeps-pure _))

  pub Keeps-readdirplus :
      (parent offset : ℕ) → Keeps {h = h} lo (n + n + 1) (readdirplus h parent offset)
  unfolding readdirplus
  Keeps-readdirplus parent offset = Keeps-less (n + n + 1) (omega arith) (
      Keeps-bind (Keeps-resolve parent) λ path. Keeps-bind (Keeps-list_dir bounded path) λ listed.
        Keeps-bind (Keeps-get_or_fetch_attr bounded parent) λ a.
          Keeps-bind (Keeps-dotdot_inode parent path)
            λ dotdot. Keeps-bind (Keeps-read_fs _) (λ raw. Keeps-pure _))
