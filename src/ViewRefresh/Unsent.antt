-- ===== src/ViewRefresh/Unsent.antt =====
-- What the changes of mount/src/view_refresh.rs leave of a file with unsent local writes.
use unidrive_mount_linux.Base.{
  nat_eq, list_eq, ℕ, ◌≡◌, refl, ◌∙◌, ap, true, some, List, [], ◌∷◌, Str,
}
use unidrive_mount_linux.Base.Dict.{lookup}
use unidrive_mount_linux.Base.Exec.{ok}
use unidrive_mount_linux.Fs.{Fs, OpenHandle, St}
use unidrive_mount_linux.Fs.Files.{write}
use unidrive_mount_linux.Fs.Handles.Writes.{write-marks}
use unidrive_mount_linux.Fs.View.{apply}
use unidrive_mount_linux.Fs.View.Laws.{apply-unsent}
use unidrive_mount_linux.Host.{Host}
use unidrive_mount_linux.PathMap
use unidrive_mount_linux.Subscribe.{Invalidation}
use unidrive_mount_linux.ViewRefresh.{apply_pending}
use unidrive_mount_linux.ViewRefresh.Changes.{open_handles-apply, paths-apply}

apply_pending-unsent :
    {F : Type 0} (pending : List Invalidation) (fs : Fs F) (fh i : ℕ) {o : OpenHandle F}
    → lookup fh fs.open_handles ≡ some o
    → o.dirty ≡ true
    → PathMap.inode_for fs.paths o.remote_path ≡ some i
    → lookup i (apply_pending pending fs).attrs ≡ lookup i fs.attrs
unfolding apply_pending
apply_pending-unsent [] fs fh i e t p = refl
apply_pending-unsent (c ∷ pending) fs fh i {o} e t p =
    apply_pending-unsent pending (apply c fs) fh i {o = o}
      (ap (λ d. lookup fh d) (open_handles-apply c fs) ∙ e) t
      (ap (λ m. PathMap.inode_for m o.remote_path) (paths-apply c fs) ∙ p)
    ∙ apply-unsent fs c fh i {o = o} e t p

-- After a write that succeeded through an open handle whose path is known as the written inode, any
-- changes that are applied before another request leave what is cached of the inode as the write
-- left it.
pub write-apply_pending :
    {h : Host} (s : St h) (ino fh offset : ℕ) (bytes : Str) (o : OpenHandle h.File)
    (pending : List Invalidation) {n : ℕ}
    → lookup fh s.fs.open_handles ≡ some o
    → (write h ino fh offset bytes s).0 ≡ ok n
    → PathMap.inode_for s.fs.paths o.remote_path ≡ some ino
    → lookup ino (apply_pending pending (write h ino fh offset bytes s).1.fs).attrs
      ≡ lookup ino (write h ino fh offset bytes s).1.fs.attrs
write-apply_pending {h} s ino fh offset bytes o pending {n} k q known =
    let (marked, same) = write-marks s ino fh offset bytes o k {n = n} q in
    apply_pending-unsent pending (write h ino fh offset bytes s).1.fs fh ino
      {o = record o { dirty = true }} marked refl
      (ap (λ m. PathMap.inode_for m o.remote_path) same ∙ known)
