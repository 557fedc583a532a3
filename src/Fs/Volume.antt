-- ===== src/Fs/Volume.antt =====
-- The handlers of mount/src/fuse_fs.rs that answer from what is kept: init, statfs with its quota
-- refresh, and the extended attributes.
use unidrive_mount_linux.Base.Exec.{pure, raise, expect_some, ◌>>=◌, ok, err}
use unidrive_mount_linux.Attr.{CachedAttr, state_comment}
use unidrive_mount_linux.Quota.{
  begin_refresh, finish_refresh, statfs_blocks, from_status, block_size,
}
use unidrive_mount_linux.Host.{Host}
use unidrive_mount_linux.Errno.{enodata, erange}
use unidrive_mount_linux.Fs.{St, Act, read_fs}
use unidrive_mount_linux.Fs.Listing.{cached_attr}
use unidrive_mount_linux.Base.{
  ℕ, ◌/◌, ◌%◌, ◌^◌, Bool, Option, none, some, [], ◌∷◌, ◌++◌, ◌==◌, list_eq, nat_eq, length, ltb,
  leb, if◌then◌else◌, Str, str,
}

pub record ReplyStatFs : Type 0 where
  pub blocks : ℕ
  pub bfree : ℕ
  pub bavail : ℕ
  pub files : ℕ
  pub ffree : ℕ
  pub bsize : ℕ
  pub namelen : ℕ
  pub frsize : ℕ

-- `ReplyXAttr`
pub data ReplyXattr : Type 0 where
  size : ℕ → ReplyXattr
  content : Str → ReplyXattr

-- `user.unidrive.hydrated\0user.xdg.comment\0`
abbrev pub xattr_names : Str
xattr_names = str "user.unidrive.hydrated" ++ (0 ∷ (str "user.xdg.comment" ++ (0 ∷ [])))

-- The bytes of a `u32` in memory, least significant first, as on x86-64 and AArch64.
unfoldable pub u32_bytes : ℕ → Str
u32_bytes n = n % 256 ∷ (n / 256) % 256 ∷ (n / 65536) % 256 ∷ (n / 16777216) % 256 ∷ []

-- `getxattr_size_reply`
unfoldable pub getxattr_size_reply : ℕ → ReplyXattr
unfolding u32_bytes
getxattr_size_reply len = content (u32_bytes len ++ (0 ∷ 0 ∷ 0 ∷ 0 ∷ []))

-- The end of `getxattr`: a size probe, a buffer that is too small, or the value.
unfoldable pub xattr_reply : ℕ → Str → Option ReplyXattr
unfolding getxattr_size_reply
xattr_reply n val =
    if n == 0
    then some (getxattr_size_reply (length val % 2 ^ 32))
    else if ltb n (length val)
    then none
    else some (content val)

-- The value of a named attribute in `getxattr`.
unfoldable pub xattr_value : Str → Option CachedAttr → Option Str
xattr_value name a =
    if name == str "user.unidrive.hydrated"
    then some (elim a [ some c ↦ (if c.is_hydrated then str "1" else str "0") | none ↦ str "0" ])
    else if name == str "user.xdg.comment"
    then elim a [ some c ↦ state_comment c | none ↦ none ]
    else none

module _ (h : Host) where
  -- The claim of `refresh_quota_if_due`; nothing comes between its two readings of the clock. What it starts when it is granted is `quota_task`.
  unfoldable pub refresh_quota_if_due : Act h Bool
  refresh_quota_if_due s =
      let now = h.instant s.world in
      let (granted, quota) = begin_refresh now now s.fs.quota in
      (ok granted, record s { fs = record s.fs { quota = quota } })

  -- The background task of `refresh_quota_if_due`.
  unfoldable pub quota_task : St h → St h
  quota_task s =
      let (reply, w) = h.daemon_status s.world in
      record {
        fs = record s.fs {
          quota = finish_refresh (elim reply [ ok v ↦ from_status v | err e ↦ none ]) s.fs.quota;
        };
        world = w;
      }

  -- `init`: the largest write
  unfoldable pub init : Act h ℕ
  unfolding refresh_quota_if_due
  init = do granted ← refresh_quota_if_due; pure (2 ^ 20)

  -- `statfs`
  unfoldable pub statfs : Act h ReplyStatFs
  unfolding refresh_quota_if_due read_fs
  statfs = do
    granted ← refresh_quota_if_due
    q ← read_fs h (λ fs. fs.quota.quota)
    pure (record {
      blocks = (statfs_blocks q).0;
      bfree = (statfs_blocks q).1;
      bavail = (statfs_blocks q).1;
      files = 2 ^ 20;
      ffree = 2 ^ 20;
      bsize = block_size;
      namelen = 255;
      frsize = block_size;
    })

  -- `getxattr`
  unfoldable pub getxattr : ℕ → Str → ℕ → Act h ReplyXattr
  unfolding cached_attr
  getxattr inode os_name n =
      if h.is_utf8 os_name
      then (do
        a ← cached_attr h inode
        val ← expect_some enodata (xattr_value os_name a)
        expect_some erange (xattr_reply n val))
      else raise enodata

  -- `listxattr`
  unfoldable pub listxattr : ℕ → Act h ReplyXattr
  listxattr n =
      if n == 0
      then pure (size (length xattr_names))
      else if leb (length xattr_names) n
      then pure (content xattr_names)
      else raise erange

  -- `setxattr` and `removexattr` do nothing.
  unfoldable pub setxattr : ℕ → Str → Str → Act h (Unit {0})
  setxattr inode name value = pure tt

  unfoldable pub removexattr : ℕ → Str → Act h (Unit {0})
  removexattr inode name = pure tt
