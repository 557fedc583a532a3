-- ===== src/Fs/Invariant/Requests.antt =====
-- The requests that the kernel sends to the filesystem of mount/src/fuse_fs.rs, and the quota task
-- that runs beside them.
use unidrive_mount_linux.Base.{
  ℕ, ◌+◌, ◌*◌, ◌≤◌, ◌<◌, Bool, Option, List, [], ◌∷◌, arith, list_eq, nat_eq, length, Str,
}
use unidrive_mount_linux.PathMap
use unidrive_mount_linux.Fs.Reads
use unidrive_mount_linux.Fs.Volume
use unidrive_mount_linux.Fs.View
use unidrive_mount_linux.Fs.Files
use unidrive_mount_linux.Fs.Creation
use unidrive_mount_linux.Fs.Setattr
use unidrive_mount_linux.Fs.Namespace
use unidrive_mount_linux.PathMap.{u64_mod}
use unidrive_mount_linux.Fs.Invariant.Open.{
  Keeps-open_inode, Keeps-read, Keeps-write, Keeps-fsync, Keeps-release, Keeps-create, Keeps-mknod,
}
use unidrive_mount_linux.Host.{Host}
use unidrive_mount_linux.Base.Int.{ℤ}
use unidrive_mount_linux.Fs.Invariant.Listings.{IsBounded}
use unidrive_mount_linux.Fs.{St, Act, new_fs}
use unidrive_mount_linux.Fs.Invariant.{IsValid, Room, Keeps, Room-less, IsValid-new_fs}
use unidrive_mount_linux.Fs.Invariant.Answers.{
  Keeps-lookup_child, Keeps-getattr, Keeps-readdir, Keeps-readdirplus, Keeps-init, Keeps-statfs,
  Keeps-getxattr, Keeps-listxattr, quota_task-Room,
}
use unidrive_mount_linux.Fs.Invariant.Tree.{
  Keeps-setattr, Keeps-mkdir, Keeps-unlink, Keeps-rmdir, Keeps-rename,
}
use unidrive_mount_linux.Subscribe.{Invalidation}
use unidrive_mount_linux.Fs.View.Invariant.{apply-Room}

-- A request, one for each handler that looks at the state, the end of a quota task, and a change
-- event.
pub data Request : Type 0 where
  lookup_child : ℕ → Str → Request
  getattr : ℕ → Request
  setattr : ℕ → Option ℕ → Option ℕ → Request
  readdir : ℕ → ℤ → Request
  readdirplus : ℕ → ℕ → Request
  open_inode : ℕ → ℕ → Request
  read : ℕ → ℕ → ℕ → Request
  write : ℕ → ℕ → ℕ → Str → Request
  fsync : ℕ → Bool → Request
  release : ℕ → Request
  create : ℕ → Str → Request
  mknod : ℕ → Str → ℕ → Request
  mkdir : ℕ → Str → Request
  unlink : ℕ → Str → Request
  rmdir : ℕ → Str → Request
  rename : ℕ → Str → ℕ → Str → Request
  init : Request
  statfs : Request
  getxattr : ℕ → Str → ℕ → Request
  listxattr : ℕ → Request
  quota_task : Request
  change_event : Invalidation → Request

module _ (h : Host) where
  -- The state after a request, whether it is answered or refused.
  unfoldable pub serve : Request → St h → St h
  serve (lookup_child parent name) s = (Reads.lookup_child h parent name s).1
  serve (getattr ino) s = (Reads.getattr h ino s).1
  serve (setattr ino fh size) s = (Setattr.setattr h ino fh size s).1
  serve (readdir parent offset) s = (Reads.readdir h parent offset s).1
  serve (readdirplus parent offset) s = (Reads.readdirplus h parent offset s).1
  serve (open_inode ino flags) s = (Files.open_inode h ino flags s).1
  serve (read fh offset n) s = (Files.read h fh offset n s).1
  serve (write ino fh offset bytes) s = (Files.write h ino fh offset bytes s).1
  serve (fsync fh datasync) s = (Files.fsync h fh datasync s).1
  serve (release fh) s = (Files.release h fh s).1
  serve (create parent name) s = (Creation.create h parent name s).1
  serve (mknod parent name mode) s = (Creation.mknod h parent name mode s).1
  serve (mkdir parent name) s = (Namespace.mkdir h parent name s).1
  serve (unlink parent name) s = (Namespace.unlink h parent name s).1
  serve (rmdir parent name) s = (Namespace.rmdir h parent name s).1
  serve (rename parent name new_parent new_name) s =
      (Namespace.rename h parent name new_parent new_name s).1
  serve init s = (Volume.init h s).1
  serve statfs s = (Volume.statfs h s).1
  serve (getxattr ino name k) s = (Volume.getxattr h ino name k s).1
  serve (listxattr k) s = (Volume.listxattr h k s).1
  serve quota_task s = Volume.quota_task h s
  serve (change_event c) s = record s { fs = View.apply c s.fs }

  unfoldable pub serve_all : List Request → St h → St h
  serve_all [] s = s
  serve_all (r ∷ rs) s = serve_all rs (serve r s)

  -- The numbers that one request may use up when a listing has at most `n` entries.
  abbrev pub cost : ℕ → ℕ
  cost n = n + n + 3

module _ {h : Host} {n : ℕ} (bounded : IsBounded h n) where
  served :
      {A : Type 0} {c : ℕ} {m : Act h A} (s : St h) (k : ℕ)
      → c ≤ cost h n
      → Keeps 0 c m
      → Room 0 (cost h n + k) s.fs
      → Room 0 k (m s).1.fs
  served s k l km r = km.at s k (Room-less 0 _ r (omega arith) (omega arith))

  serve-Room :
      (r : Request) (s : St h) (k : ℕ) → Room 0 (cost h n + k) s.fs → Room 0 k (serve h r s).fs
  unfolding serve
  serve-Room (lookup_child p name) s k =
      served s k (omega arith) (Keeps-lookup_child bounded p name)
  serve-Room (getattr ino) s k = served s k (omega arith) (Keeps-getattr bounded ino)
  serve-Room (setattr ino fh size) s k =
      served s k (omega arith) (Keeps-setattr bounded ino fh size)
  serve-Room (readdir p offset) s k = served s k (omega arith) (Keeps-readdir bounded p offset)
  serve-Room (readdirplus p offset) s k =
      served s k (omega arith) (Keeps-readdirplus bounded p offset)
  serve-Room (open_inode ino flags) s k = served s k (omega arith) (Keeps-open_inode ino flags)
  serve-Room (read fh offset len) s k = served s k (omega arith) (Keeps-read fh offset len)
  serve-Room (write ino fh offset bytes) s k =
      served s k (omega arith) (Keeps-write ino fh offset bytes)
  serve-Room (fsync fh datasync) s k = served s k (omega arith) (Keeps-fsync fh datasync)
  serve-Room (release fh) s k = served s k (omega arith) (Keeps-release fh)
  serve-Room (create p name) s k = served s k (omega arith) (Keeps-create bounded p name)
  serve-Room (mknod p name mode) s k = served s k (omega arith) (Keeps-mknod bounded p name mode)
  serve-Room (mkdir p name) s k = served s k (omega arith) (Keeps-mkdir bounded p name)
  serve-Room (unlink p name) s k = served s k (omega arith) (Keeps-unlink p name)
  serve-Room (rmdir p name) s k = served s k (omega arith) (Keeps-rmdir p name)
  serve-Room (rename p name q new_name) s k =
      served s k (omega arith) (Keeps-rename bounded p name q new_name)
  serve-Room init s k = served s k (omega arith) Keeps-init
  serve-Room statfs s k = served s k (omega arith) Keeps-statfs
  serve-Room (getxattr ino name len) s k = served s k (omega arith) (Keeps-getxattr ino name len)
  serve-Room (listxattr len) s k = served s k (omega arith) (Keeps-listxattr len)
  serve-Room quota_task s k = λ r. quota_task-Room s k (Room-less 0 k r (omega arith) (omega arith))
  serve-Room (change_event c) s k = λ r. apply-Room c (Room-less 0 k r (omega arith) (omega arith))

  serve_all-Room :
      (rs : List Request) (s : St h)
      → Room 0 (length rs * cost h n) s.fs
      → Room 0 0 (serve_all h rs s).fs
  unfolding serve_all
  serve_all-Room [] s r = Room-less 0 0 r (omega arith) (omega arith)
  serve_all-Room (q ∷ rs) s r =
      serve_all-Room rs (serve h q s)
        (serve-Room q s (length rs * cost h n) (Room-less 0 _ r (omega arith) (ground arith)))

new_fs-Room : (F : Type 0) (k : ℕ) → 2 + k < u64_mod → Room 0 k (new_fs F)
unfolding new_fs PathMap.new
new_fs-Room F k l = record {
  valid = IsValid-new_fs F;
  given = omega arith;
  inodes = omega arith;
  handles = omega arith;
  numbers = omega arith;
}

-- If listings have at most `n` entries and the counters cannot wrap around within a sequence of
-- requests, then after these requests to a new filesystem, in whatever state the daemon and the
-- operating system are and whatever they answer, the path map is a bijection that keeps the root
-- at inode 1, attributes are only cached for inodes that were given out, and the table of open
-- handles only holds numbers that were given out.
pub serve_all-IsValid :
    {h : Host} {n : ℕ}
    → IsBounded h n
    → (rs : List Request) (w : h.World) → 2 + length rs * cost h n < u64_mod
    → IsValid (serve_all h rs (record { fs = new_fs h.File; world = w })).fs
serve_all-IsValid bounded rs w l =
    (serve_all-Room bounded rs (record { fs = new_fs _; world = w }) (new_fs-Room _ _ l)).valid
