-- ===== src/ProfileLock.antt =====
-- mount/src/profile_lock.rs: the lock file of a profile, which one process holds at a time. Opening,
-- flock(2) and closing a file are a parameter.
pub mod Exclusion
use unidrive_mount_linux.Base.{
  ℕ, Option, none, some, [], ◌∷◌, ◌++◌, ◌==◌, list_eq, nat_eq, if◌then◌else◌, Str, str,
}
use unidrive_mount_linux.Base.Exec.{Result, ok, err, Exec}

-- The system's files: an error is its `errno`.
pub record Files (K : Type 0) : Type 1 where
  pub File : Type 0
  -- for reading and writing, created where it is missing
  pub open_file : Str → K → Result ℕ File × K
  -- `flock(fd, LOCK_EX | LOCK_NB)`, and `last_os_error` where it does not return 0
  pub flock : File → K → Option ℕ × K
  -- what dropping a `File` does
  pub close : File → K → K

-- `ProfileLockError`
pub data ProfileLockError : Type 0 where
  open_error : Str → ℕ → ProfileLockError
  held : Str → ProfileLockError
  flock_error : Str → ℕ → ProfileLockError

-- `Display` of an error, where the text of an `errno` is the library's
unfoldable pub display : (ℕ → Str) → ProfileLockError → Str
display text (open_error path source) =
    str "failed to open profile lock file " ++ (path ++ (str ": " ++ text source))
display text (held path) =
    str "Profile lock " ++ (path ++ str " is held by another unidrive process; refusing mount.")
display text (flock_error path source) = str "flock(" ++ (path ++ (str ") failed: " ++ text source))

-- `EWOULDBLOCK`
abbrev pub would_block : ℕ
would_block = 11

module _ {K : Type 0} (sys : Files K) where
  -- `ProfileLock`
  pub record ProfileLock : Type 0 where
    pub path : Str
    pub file : sys.File

  -- What is made of the code that flock(2) gave.
  unfoldable pub granted : Str → sys.File → Option ℕ → Exec ProfileLockError K ProfileLock
  granted path file none k = (ok (record { path = path; file = file }), k)
  granted path file (some e) k =
      (err (if e == would_block then held path else flock_error path e), sys.close file k)

  -- `acquire`; without the lock the file is closed again.
  unfoldable pub acquire : Str → Exec ProfileLockError K ProfileLock
  unfolding granted
  acquire path k =
      let (r, k1) = sys.open_file path k in
      elim r [
        | err e ↦ (err (open_error path e), k1)
        | ok file ↦ (let (code, k2) = sys.flock file k1 in granted path file code k2)
      ]

  -- `Drop` of a lock
  unfoldable pub drop_lock : ProfileLock → K → K
  drop_lock lock k = sys.close lock.file k
