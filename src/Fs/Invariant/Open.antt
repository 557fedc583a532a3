-- ===== src/Fs/Invariant/Open.antt =====
-- The handlers on open files of mount/src/fuse_fs.rs keep the invariant.
use unidrive_mount_linux.Base.Exec.{ok, err, pure}
use unidrive_mount_linux.Ipc.{IpcError}
use unidrive_mount_linux.Host.{Host, Verb}
use unidrive_mount_linux.Errno.{Errno, eio, ebadf}
use unidrive_mount_linux.Fs.{OpenHandle}
use unidrive_mount_linux.Fs.Files.{
  verb, prepare_cache, note_open, note_size, open_inode, read, write, upload, fsync, close_handle,
  finish_handle, release, is_truncating, fsync_claim, fsync_commit,
}
use unidrive_mount_linux.Fs.Creation.{note_created, create_internal, create, mknod, is_regular_mode}
use unidrive_mount_linux.Fs.Invariant.{
  Keeps, Keeps-pure, Keeps-raise, Keeps-expect_some, Keeps-less, Keeps-if, Keeps-mapped,
  Keeps-attempt, Keeps-bind, Keeps-then,
}
use unidrive_mount_linux.Fs.Invariant.Steps.{
  Keeps-ipc, Keeps-os, Keeps-to_str, Keeps-resolve, Keeps-now_ms, Keeps-put_attr, Keeps-intern-bind,
  Keeps-handle_for, Keeps-fresh_handle_number,
}
use unidrive_mount_linux.Fs.Invariant.Updates.{
  Keeps-modify_attr, Keeps-set_dirty, Keeps-take_handle, Keeps-add_handle,
}
use unidrive_mount_linux.Fs.Invariant.Listings.{
  IsBounded, Keeps-record_raw_name, Keeps-cached_attr, Keeps-refuse_nfc_collision,
}
use unidrive_mount_linux.Base.{
  ℕ, ◌+◌, ◌<◌, Bool, true, false, not, none, some, arith, list_eq, nat_eq, is_empty, Str,
}

module _ {h : Host} {lo : ℕ} where
  pub Keeps-verb :
      {A : Type 0} (f : IpcError → Errno) (v : Verb h.World A) → Keeps {h = h} lo 0 (verb h f v)
  unfolding verb
  Keeps-verb f v = Keeps-mapped f (Keeps-ipc v)

  -- Open files.
  Keeps-note_open : (t : Bool) (ino : ℕ) → Keeps {h = h} lo 0 (note_open h t ino)
  unfolding note_open
  Keeps-note_open true ino =
      Keeps-less 0 (omega arith) (Keeps-bind Keeps-now_ms (λ now. Keeps-modify_attr ino _))
  Keeps-note_open false ino = Keeps-modify_attr ino _

  Keeps-prepare_cache : (t : Bool) (id path : Str) → Keeps {h = h} lo 0 (prepare_cache h t id path)
  unfolding prepare_cache
  Keeps-prepare_cache t id path = Keeps-if t (Keeps-verb _ _) (Keeps-verb _ _)

  Keeps-note_size : (ino : ℕ) (file : h.File) → Keeps {h = h} lo 0 (note_size h ino file)
  unfolding note_size
  Keeps-note_size ino file = Keeps-less 0 (omega arith) (
      Keeps-bind (Keeps-os _) (elim [
        | none ↦ Keeps-less 0 (omega arith) (Keeps-pure false)
        | some n ↦ Keeps-less 0 (omega arith) (
            Keeps-bind (Keeps-cached_attr ino) (elim [
              | none ↦ Keeps-less 0 (omega arith) (Keeps-pure false)
              | some c ↦
                  Keeps-less 0 (omega arith) (Keeps-then (Keeps-modify_attr ino _) (Keeps-pure _))
            ]))
      ]))

  pub Keeps-open_inode : (ino flags : ℕ) → Keeps {h = h} lo 2 (open_inode h ino flags)
  unfolding open_inode
  Keeps-open_inode ino flags = Keeps-less 2 (omega arith) (
      Keeps-bind (Keeps-resolve ino) λ path.
        Keeps-if (is_empty path) (Keeps-less 2 (omega arith) (Keeps-raise _)) (
          Keeps-less 2 (omega arith) (
            Keeps-bind Keeps-fresh_handle_number λ n.
              Keeps-bind (Keeps-prepare_cache (is_truncating flags) _ path) λ cache_path.
                Keeps-then (Keeps-note_open (is_truncating flags) ino) (
                  Keeps-bind (Keeps-os _) λ opened.
                    Keeps-bind (Keeps-expect_some eio opened) λ file.
                      Keeps-bind
                        (Keeps-if (is_truncating flags) (Keeps-pure false)
                          (Keeps-note_size ino file))
                        λ stale. Keeps-bind (Keeps-add_handle _) (λ fh. Keeps-pure _)))))

  pub Keeps-read : (fh offset n : ℕ) → Keeps {h = h} lo 0 (read h fh offset n)
  unfolding read
  Keeps-read fh offset n =
      Keeps-less 0 (omega arith) (
        Keeps-bind (Keeps-handle_for ebadf fh) λ o. Keeps-bind (Keeps-os _) (Keeps-expect_some eio))

  pub Keeps-write :
      (ino fh offset : ℕ) (bytes : Str) → Keeps {h = h} lo 0 (write h ino fh offset bytes)
  unfolding write
  Keeps-write ino fh offset bytes = Keeps-less 0 (omega arith) (
      Keeps-bind (Keeps-handle_for ebadf fh) λ o. Keeps-bind (Keeps-os _) λ written.
        Keeps-bind (Keeps-expect_some eio written) λ n.
          Keeps-then (Keeps-set_dirty fh true)
            (Keeps-bind Keeps-now_ms λ now. Keeps-then (Keeps-modify_attr ino _) (Keeps-pure _)))

  Keeps-upload : (o : OpenHandle h.File) → Keeps {h = h} lo 0 (upload h o)
  unfolding upload
  Keeps-upload o = Keeps-attempt (Keeps-ipc _)

  pub Keeps-close_handle : (id : Str) → Keeps {h = h} lo 0 (close_handle h id)
  unfolding close_handle
  Keeps-close_handle id = Keeps-attempt (Keeps-ipc _)

  Keeps-fsync_claim : (fh : ℕ) (datasync : Bool) → Keeps {h = h} lo 0 (fsync_claim h fh datasync)
  unfolding fsync_claim
  Keeps-fsync_claim fh datasync = Keeps-less 0 (omega arith) (
      Keeps-bind (Keeps-handle_for ebadf fh) λ o. Keeps-bind (Keeps-os _) λ synced.
        Keeps-if (not synced) (Keeps-less 0 (omega arith) (Keeps-raise _))
          (Keeps-less 0 (omega arith) (Keeps-then (Keeps-set_dirty fh false) (Keeps-pure o))))

  Keeps-fsync_commit : (fh : ℕ) (o : OpenHandle h.File) → Keeps {h = h} lo 0 (fsync_commit h fh o)
  unfolding fsync_commit
  Keeps-fsync_commit fh o = Keeps-if (not o.dirty) (Keeps-less 0 (omega arith) (Keeps-pure tt)) (
      Keeps-less 0 (omega arith) (
        Keeps-bind (Keeps-upload o) (elim [
          | ok reply ↦ Keeps-less 0 (omega arith) (Keeps-pure tt)
          | err e ↦
              Keeps-less 0 (omega arith) (Keeps-then (Keeps-set_dirty fh true) (Keeps-raise _))
        ])))

  pub Keeps-fsync : (fh : ℕ) (datasync : Bool) → Keeps {h = h} lo 0 (fsync h fh datasync)
  unfolding fsync
  Keeps-fsync fh datasync =
      Keeps-less 0 (omega arith)
        (Keeps-bind (Keeps-fsync_claim fh datasync) λ o. Keeps-fsync_commit fh o)

  Keeps-finish_handle :
      (dirty : Bool) (o : OpenHandle h.File) → Keeps {h = h} lo 0 (finish_handle h dirty o)
  unfolding finish_handle
  Keeps-finish_handle dirty o = Keeps-less 0 (omega arith) (
      Keeps-bind
        (Keeps-if dirty (Keeps-bind (Keeps-upload o) (λ r. Keeps-pure tt))
          (Keeps-less 0 (omega arith) (Keeps-pure tt)))
        λ u. Keeps-bind (Keeps-close_handle o.handle_id) (λ c. Keeps-pure tt))

  pub Keeps-release : (fh : ℕ) → Keeps {h = h} lo 0 (release h fh)
  unfolding release
  Keeps-release fh = Keeps-less 0 (omega arith) (
      Keeps-bind (Keeps-take_handle fh)
        (elim [ none ↦ Keeps-pure tt | some o ↦ Keeps-finish_handle o.dirty o ]))

  Keeps-note_created : (ino : ℕ) → ino < lo → Keeps {h = h} lo 0 (note_created h ino)
  unfolding note_created
  Keeps-note_created ino given =
      Keeps-less 0 (omega arith)
        (Keeps-bind Keeps-now_ms λ now. Keeps-then (Keeps-put_attr ino _ given) (Keeps-pure _))

module _ {h : Host} {lo n : ℕ} (bounded : IsBounded h n) where
  Keeps-create_internal :
      (parent : ℕ) (name : Str) → Keeps {h = h} lo (n + 3) (create_internal h parent name)
  unfolding create_internal
  Keeps-create_internal parent name = Keeps-less (n + 3) (omega arith) (
      Keeps-bind (Keeps-to_str name) λ name'. Keeps-bind (Keeps-resolve parent) λ path.
        Keeps-then (Keeps-refuse_nfc_collision bounded path _ name') (
          Keeps-bind Keeps-fresh_handle_number λ k. Keeps-bind (Keeps-verb _ _) λ reply.
            Keeps-bind (Keeps-os _) λ opened. Keeps-bind (Keeps-expect_some eio opened) λ file.
              Keeps-intern-bind _ λ ino lo' l given. Keeps-then (Keeps-record_raw_name _ name') (
                Keeps-bind (Keeps-note_created ino given)
                  λ attr. Keeps-bind (Keeps-add_handle _) (λ fh. Keeps-pure _))))

  pub Keeps-create : (parent : ℕ) (name : Str) → Keeps {h = h} lo (n + 3) (create h parent name)
  unfolding create
  Keeps-create parent name =
      Keeps-less (n + 3) (omega arith)
        (Keeps-bind (Keeps-create_internal parent name) (λ r. Keeps-pure _))

  pub Keeps-mknod :
      (parent : ℕ) (name : Str) (mode : ℕ) → Keeps {h = h} lo (n + 3) (mknod h parent name mode)
  unfolding mknod
  Keeps-mknod parent name mode =
      Keeps-if (not (is_regular_mode mode)) (Keeps-less (n + 3) (omega arith) (Keeps-raise _)) (
        Keeps-less (n + 3) (omega arith) (
          Keeps-bind (Keeps-create_internal parent name) λ r.
            Keeps-bind (Keeps-take_handle r.0) λ removed.
              Keeps-then
                (elim removed
                  as (λ o.
                    Keeps lo 0 (elim o [ none ↦ pure tt | some o ↦ finish_handle h true o ])) [
                      | none ↦ Keeps-pure tt
                      | some o ↦ Keeps-finish_handle true o
                    ])
                (Keeps-pure _)))
