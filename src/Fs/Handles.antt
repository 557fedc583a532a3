-- ===== src/Fs/Handles.antt =====
-- The open handles of mount/src/fuse_fs.rs: what fsync, write and release do to them and to the
-- daemon.
pub mod Writes
pub mod Follow
use unidrive_mount_linux.Base.{
  ℕ, ◌≡◌, Bool, none, some, arith, ◌==◌, list_eq, nat_eq, if◌then◌else◌, true, false, sym, refl,
  Str, Bool-cases, Option-cases, inr, inl,
}
use unidrive_mount_linux.Host.{Host}
use unidrive_mount_linux.Fs.{
  St, handle_for, take_handle, read_fs, os, set_dirty, change, ipc, OpenHandle,
}
use unidrive_mount_linux.Fs.Files.{fsync, release, finish_handle, upload, close_handle}
use unidrive_mount_linux.Base.Exec.{
  expect_some, attempt, pure, ◌>>◌, raise, err, ok, ◌>>=◌, Result, Result-cases,
}
use unidrive_mount_linux.Errno.{eio, ipc_error_to_errno, Errno}
use unidrive_mount_linux.Base.Dict.{lookup, lookup-erase, lookup-modify, Dict, modify}
use unidrive_mount_linux.Ipc.{IpcError}

-- What the dirty mark of a handle does to the table.
abbrev marked : {F : Type 0} → ℕ → Bool → Dict ℕ (OpenHandle F) → Dict ℕ (OpenHandle F)
marked fh b d = modify fh (λ o. record o { dirty = b }) d

module _ {F : Type 0} (fh i : ℕ) (d : Dict ℕ (OpenHandle F)) where
  marked-back :
      (o : OpenHandle F) → o.dirty ≡ true → record (record o { dirty = false }) { dirty = true } ≡ o
  marked-back o e = λ k. record o { dirty = sym e k }

  lookup-marked :
      (b : Bool) (o : OpenHandle F)
      → lookup fh d ≡ some o
      → lookup i (marked fh b d) ≡ (if i == fh then some (record o { dirty = b }) else lookup i d)
  lookup-marked b o e = ground (arith, lookup-modify i fh (λ p. record p { dirty = b }) d)

  lookup-marked_back :
      (o : OpenHandle F)
      → lookup fh d ≡ some o
      → o.dirty ≡ true
      → lookup i (marked fh true (marked fh false d)) ≡ lookup i d
  lookup-marked_back o e t = ground (
    arith,
    marked-back o t,
    lookup-modify i fh (λ p. record p { dirty = true }) (marked fh false d),
    lookup-modify i fh (λ p. record p { dirty = false }) d,
  )

module _ {h : Host} (s : St h) (fh : ℕ) where
  fsync_unknown :
      (datasync : Bool) (i : ℕ)
      → lookup fh s.fs.open_handles ≡ none
      → lookup i (fsync h fh datasync s).1.fs.open_handles ≡ lookup i s.fs.open_handles
  unfolding fsync handle_for read_fs expect_some ◌>>=◌
  fsync_unknown datasync i n = rw n refl

  -- The outcome of an fsync, by the outcomes of the sync and of the upload.
  module _ (datasync : Bool) (o : OpenHandle h.File)
      (k : lookup fh s.fs.open_handles ≡ some o) where
    abbrev synced : Bool × h.World
    synced = (if datasync then h.sync_data o.file else h.sync_all o.file) s.world

    abbrev sent : Result IpcError Str × h.World
    sent = h.open_write o.handle_id o.remote_path o.cache_path synced.1

    fsync_unsynced :
        synced.0 ≡ false → fsync h fh datasync s ≡ (err eio, record s { world = synced.1 })
    unfolding fsync handle_for read_fs expect_some os raise ◌>>=◌
    fsync_unsynced f = rw (k, f) refl

    fsync_clean :
        synced.0 ≡ true
        → o.dirty ≡ false
        → fsync h fh datasync s ≡ (
          ok tt,
          record {
            fs = record s.fs { open_handles = marked fh false s.fs.open_handles };
            world = synced.1;
          },
        )
    unfolding fsync handle_for read_fs expect_some os set_dirty change pure ◌>>=◌ ◌>>◌
    fsync_clean t c = rw (k, t, c) refl

    fsync_sent :
        {reply : Str}
        → synced.0 ≡ true
        → o.dirty ≡ true
        → sent.0 ≡ ok reply
        → fsync h fh datasync s ≡ (
          ok tt,
          record {
            fs = record s.fs { open_handles = marked fh false s.fs.open_handles };
            world = sent.1;
          },
        )
    unfolding fsync handle_for read_fs expect_some os set_dirty change pure ◌>>=◌ ◌>>◌ upload
        attempt ipc
    fsync_sent t d u = rw (k, t, d, u) refl

    fsync_refused :
        {e : IpcError}
        → synced.0 ≡ true
        → o.dirty ≡ true
        → sent.0 ≡ err e
        → fsync h fh datasync s ≡ (
          err (ipc_error_to_errno e),
          record {
            fs = record s.fs { open_handles = marked fh true (marked fh false s.fs.open_handles) };
            world = sent.1;
          },
        )
    unfolding fsync handle_for read_fs expect_some os set_dirty change pure ◌>>=◌ ◌>>◌ upload
        attempt ipc raise
    fsync_refused t d u = rw (k, t, d, u) refl

  -- A failed fsync leaves every open handle as it was, its dirty mark included.
  pub fsync-failed :
      (datasync : Bool) (i : ℕ) {e : Errno}
      → (fsync h fh datasync s).0 ≡ err e
      → lookup i (fsync h fh datasync s).1.fs.open_handles ≡ lookup i s.fs.open_handles
  fsync-failed datasync i q = elim (Option-cases (lookup fh s.fs.open_handles)) [
    | inl n ↦ fsync_unknown datasync i n
    | inr (o, k) ↦ elim (Bool-cases (synced datasync o k).0) [
      | inr f ↦ rw (fsync_unsynced datasync o k f) refl
      | inl t ↦ elim (Bool-cases o.dirty) [
        | inr c ↦ absurd (cc (q, fsync_clean datasync o k t c))
        | inl d ↦ elim (Result-cases (sent datasync o k).0) [
          | inl (reply, u) ↦ absurd (cc (q, fsync_sent datasync o k t d u))
          | inr (e', u) ↦
              rw (fsync_refused datasync o k t d u)
                (lookup-marked_back fh i s.fs.open_handles o k d)
        ]
      ]
    ]
  ]

  -- Where an fsync of an open handle succeeds, the sync of its cache file that the caller asked for,
  -- of the data alone or of everything, has succeeded, and the handle is left clean; if it was dirty,
  -- its cache file was uploaded after the sync, and the daemon's last answer is the upload's success.
  pub fsync-done :
      (datasync : Bool) (o : OpenHandle h.File)
      → lookup fh s.fs.open_handles ≡ some o
      → (fsync h fh datasync s).0 ≡ ok tt
      → (((if datasync then h.sync_data o.file else h.sync_all o.file) s.world).0 ≡ true)
        × (lookup fh (fsync h fh datasync s).1.fs.open_handles ≡ some (record o { dirty = false }))
        × (o.dirty ≡ true
            → (reply : Str) × (h.open_write o.handle_id o.remote_path o.cache_path
                  ((if datasync then h.sync_data o.file else h.sync_all o.file) s.world).1
                ≡ (ok reply, (fsync h fh datasync s).1.world)))
  fsync-done datasync o k q =
      let clean = lookup-marked fh fh s.fs.open_handles false o k in
      elim (Bool-cases (synced datasync o k).0) [
        | inr f ↦ absurd (cc (q, fsync_unsynced datasync o k f))
        | inl t ↦ elim (Bool-cases o.dirty) [
          | inr c ↦ (t, rw (fsync_clean datasync o k t c) (ground (arith, clean)), λ d. absurd (cc))
          | inl d ↦ elim (Result-cases (sent datasync o k).0) [
            | inr (e', u) ↦ absurd (cc (q, fsync_refused datasync o k t d u))
            | inl (reply, u) ↦
                rw (fsync_sent datasync o k t d u)
                  (t, ground (arith, clean), λ d. (reply, λ j. (u j, (sent datasync o k).1)))
          ]
        ]
      ]

  -- The release of an open handle answers with success, drops the handle and no other, uploads the
  -- handle's cache file if it is dirty and then closes it at the daemon, whatever the upload's
  -- outcome.
  pub release_lem :
      (o : OpenHandle h.File) (i : ℕ)
      → lookup fh s.fs.open_handles ≡ some o
      → ((release h fh s).0 ≡ ok tt)
        × (lookup i (release h fh s).1.fs.open_handles
            ≡ (if i == fh then none else lookup i s.fs.open_handles))
        × ((release h fh s).1.world
            ≡ (h.close_handle o.handle_id (
                if o.dirty
                then (h.open_write o.handle_id o.remote_path o.cache_path s.world).1
                else s.world)).1)
  unfolding release take_handle finish_handle upload close_handle attempt ipc ◌>>=◌ pure
  release_lem o i e = ground (arith, lookup-erase i fh s.fs.open_handles)
