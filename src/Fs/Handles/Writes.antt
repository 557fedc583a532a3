-- ===== src/Fs/Handles/Writes.antt =====
-- `write` of mount/src/fuse_fs.rs.
use unidrive_mount_linux.Fs.{
  ipc, now_ms, St, OpenHandle, handle_for, read_fs, os, set_dirty, change, modify_attr,
}
use unidrive_mount_linux.Base.{
  ℕ, ◌+◌, ◌%◌, ◌^◌, ◌≤◌, max, ◌≡◌, refl, ◌⊎◌, inl, inr, true, Option, none, some, arith, list_eq,
  nat_eq, Option-cases, Str, sym, Bool-cases,
}
use unidrive_mount_linux.Host.{Host}
use unidrive_mount_linux.Base.Dict.{lookup, lookup-modify, modify}
use unidrive_mount_linux.Fs.Files.{write, fsync_commit, upload}
use unidrive_mount_linux.Base.Int.{ℤ, pos, wrap_i64}
use unidrive_mount_linux.Base.Exec.{
  err, ok, expect_some, ◌>>=◌, ◌>>◌, pure, attempt, raise, Result-cases,
}
use unidrive_mount_linux.Attr.{CachedAttr}
use unidrive_mount_linux.Errno.{eio}
use unidrive_mount_linux.PathMap.{u64_mod}

fsync_commit-dirty :
    {h : Host} (s : St h) (fh : ℕ) (claimed p : OpenHandle h.File)
    → lookup fh s.fs.open_handles ≡ some p
    → p.dirty ≡ true
    → lookup fh (fsync_commit h fh claimed s).1.fs.open_handles ≡ some p
unfolding fsync_commit upload attempt ipc set_dirty change pure raise ◌>>=◌ ◌>>◌
fsync_commit-dirty {h} s fh claimed p k d =
    let same : record p { dirty = true } ≡ p = λ j. record p { dirty = sym d j } in
    elim (Bool-cases claimed.dirty) [
      | inr c ↦ rw c k
      | inl c ↦
          elim (Result-cases
            (h.open_write claimed.handle_id claimed.remote_path claimed.cache_path s.world).0) [
              | inl (reply, u) ↦ rw (c, u) k
              | inr (e, u) ↦
                  rw (c, u)
                    (ground (
                      arith,
                      same,
                      lookup-modify fh fh (λ q. record q { dirty = true }) s.fs.open_handles,
                    ))
            ]
    ]

module _ {h : Host} (s : St h) (ino fh offset : ℕ) (bytes : Str) (o : OpenHandle h.File)
    (k : lookup fh s.fs.open_handles ≡ some o) where
  abbrev written : Option ℕ × h.World
  written = h.write_at o.file bytes offset s.world

  abbrev noted : ℕ → ℤ → CachedAttr → CachedAttr
  noted n now a = record a {
    size = max a.size ((offset + n) % u64_mod);
    mtime_ms = now;
    remote_mtime_ms = none;
  }

  write_failed :
      written.0 ≡ none → write h ino fh offset bytes s ≡ (err eio, record s { world = written.1 })
  unfolding write handle_for read_fs expect_some os ◌>>=◌ ◌>>◌
  write_failed n = rw (k, n) refl

  abbrev clock : ℤ
  clock = elim (h.epoch_ms written.1) [ none ↦ pos 0 | some ms ↦ wrap_i64 ms ]

  write_lem :
      {n : ℕ}
      → written.0 ≡ some n
      → write h ino fh offset bytes s ≡ (
        ok (n % 2 ^ 32),
        record {
          fs = record s.fs {
            open_handles = modify fh (λ p. record p { dirty = true }) s.fs.open_handles;
            attrs = modify ino (noted n clock) s.fs.attrs;
          };
          world = written.1;
        },
      )
  unfolding write handle_for read_fs expect_some os set_dirty change modify_attr now_ms pure ◌>>=◌
      ◌>>◌
  write_lem e = rw (k, e) refl

  -- A write through an open handle fails only where the cache file's write does, with EIO, and then
  -- no open handle and no cached attribute has changed. Otherwise it answers with what the cache
  -- file took, modulo 2 ^ 32, the handle is dirty, and a cached size is at least the end of what
  -- was written, modulo 2 ^ 64, and no less than before.
  pub write-outcome :
      ((write h ino fh offset bytes s).0 ≡ err eio
        × (write h ino fh offset bytes s).1.fs ≡ s.fs
        × (written.0 ≡ none))
      ⊎ ((n : ℕ) × (written.0 ≡ some n)
          × ((write h ino fh offset bytes s).0 ≡ ok (n % 2 ^ 32))
          × (lookup fh (write h ino fh offset bytes s).1.fs.open_handles
              ≡ some (record o { dirty = true }))
          × ((a : CachedAttr)
              → lookup ino s.fs.attrs ≡ some a
              → (b : CachedAttr) × (lookup ino (write h ino fh offset bytes s).1.fs.attrs ≡ some b)
                × (a.size ≤ b.size)
                × ((offset + n) % u64_mod ≤ b.size)))
  write-outcome = elim (Option-cases written.0) [
    | inl n ↦ inl (rw (write_failed n) (refl, refl, n))
    | inr (n, e) ↦ inr (
      n,
      e,
      rw (write_lem e) refl,
      rw (write_lem e)
          (ground (arith, lookup-modify fh fh (λ p. record p { dirty = true }) s.fs.open_handles)),
      λ a known. rw (write_lem e) (
        noted n clock a,
        ground (arith, lookup-modify ino ino (noted n clock) s.fs.attrs),
        omega arith,
        omega arith,
      ),
    )
  ]

  -- A write that succeeds marks its handle and moves no path.
  pub write-marks :
      {n : ℕ}
      → (write h ino fh offset bytes s).0 ≡ ok n
      → (lookup fh (write h ino fh offset bytes s).1.fs.open_handles
          ≡ some (record o { dirty = true }))
        × ((write h ino fh offset bytes s).1.fs.paths ≡ s.fs.paths)
  write-marks {n} q = elim (Option-cases written.0) [
    | inl m ↦ absurd (cc (q, write_failed m))
    | inr (m, e) ↦ rw (write_lem e) (
      ground (arith, lookup-modify fh fh (λ p. record p { dirty = true }) s.fs.open_handles),
      refl,
    )
  ]

  -- A write that succeeds between the two halves of an fsync of its handle leaves the handle dirty
  -- after the fsync, whatever the fsync claimed and however its upload ends.
  pub write-fsync_commit :
      (claimed : OpenHandle h.File) {n : ℕ}
      → (write h ino fh offset bytes s).0 ≡ ok n
      → lookup fh (fsync_commit h fh claimed (write h ino fh offset bytes s).1).1.fs.open_handles
        ≡ some (record o { dirty = true })
  write-fsync_commit claimed {n} q =
      fsync_commit-dirty (write h ino fh offset bytes s).1 fh claimed (record o { dirty = true })
        (write-marks {n = n} q).0 refl
