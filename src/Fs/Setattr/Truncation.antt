-- ===== src/Fs/Setattr/Truncation.antt =====
-- `setattr` of mount/src/fuse_fs.rs where it truncates through an open handle.
use unidrive_mount_linux.PathMap
use unidrive_mount_linux.PathMap.{root_inode}
use unidrive_mount_linux.Base.{
  ℕ, ◌≡◌, refl, ◌⊎◌, inl, inr, true, false, none, some, arith, ◌==◌, list_eq, nat_eq, if◌then◌else◌,
  Str, Bool-cases, Bool,
}
use unidrive_mount_linux.Host.{Host}
use unidrive_mount_linux.Base.Dict.{lookup, modify, lookup-modify}
use unidrive_mount_linux.Base.Int.{ℤ, pos, wrap_i64}
use unidrive_mount_linux.Base.Exec.{ok, err, expect_some, pure, raise, ◌>>=◌, ◌>>◌}
use unidrive_mount_linux.Attr.{CachedAttr, file_attr_from_cached}
use unidrive_mount_linux.Errno.{eio}
use unidrive_mount_linux.Fs.{
  St, OpenHandle, resolve, read_fs, os, handle_for, set_dirty, change, modify_attr, now_ms,
}
use unidrive_mount_linux.Fs.Listing.{get_or_fetch_attr, cached_attr}
use unidrive_mount_linux.Fs.Setattr.{setattr, set_size, truncate_handle, note_truncated}

get_or_fetch_attr-cached :
    {h : Host} (s : St h) (ino : ℕ) {a : CachedAttr}
    → (ino == root_inode) ≡ false
    → lookup ino s.fs.attrs ≡ some a
    → get_or_fetch_attr h ino s ≡ (ok a, s)
unfolding get_or_fetch_attr cached_attr read_fs pure ◌>>=◌
get_or_fetch_attr-cached s ino r k = rw (r, k) refl

module _ {h : Host} (s : St h) (ino fh n : ℕ) (path : Str) (o : OpenHandle h.File) (a : CachedAttr)
    (p : PathMap.path_for s.fs.paths ino ≡ some path) (k : lookup fh s.fs.open_handles ≡ some o)
    (r : (ino == root_inode) ≡ false) (known : lookup ino s.fs.attrs ≡ some a) where
  abbrev cut : Bool × h.World
  cut = h.set_len o.file n s.world

  abbrev clock : ℤ
  clock = elim (h.epoch_ms cut.1) [ none ↦ pos 0 | some ms ↦ wrap_i64 ms ]

  abbrev shortened : CachedAttr → CachedAttr
  shortened b = record b {
    size = n;
    mtime_ms = clock;
    is_hydrated = if n == 0 then b.is_hydrated else true;
    remote_mtime_ms = none;
  }

  cut_failed :
      cut.0 ≡ false → setattr h ino (some fh) (some n) s ≡ (err eio, record s { world = cut.1 })
  unfolding setattr set_size truncate_handle resolve handle_for read_fs expect_some os pure raise
      ◌>>=◌ ◌>>◌
  cut_failed f = rw (p, k, f) refl

  attrs_cut : lookup ino (modify ino shortened s.fs.attrs) ≡ some (shortened a)
  attrs_cut = ground (arith, lookup-modify ino ino shortened s.fs.attrs)

  abbrev after : St h
  after = record {
    fs = record s.fs {
      open_handles = modify fh (λ q. record q { dirty = true }) s.fs.open_handles;
      attrs = modify ino shortened s.fs.attrs;
    };
    world = cut.1;
  }

  set_size_lem : cut.0 ≡ true → set_size h ino path (some fh) n s ≡ (ok tt, after)
  unfolding set_size truncate_handle note_truncated handle_for read_fs expect_some os set_dirty
      modify_attr now_ms change pure ◌>>=◌ ◌>>◌
  set_size_lem t = rw (k, t) refl

  cut_done :
      cut.0 ≡ true
      → setattr h ino (some fh) (some n) s
        ≡ (ok (record { ttl = 1; attr = file_attr_from_cached h.owner ino (shortened a) }), after)
  unfolding setattr resolve read_fs expect_some pure ◌>>=◌ ◌>>◌
  cut_done t = rw (p, set_size_lem t, get_or_fetch_attr-cached after ino r attrs_cut) refl

  -- Where an entry other than the root has cached attributes and is truncated through an open
  -- handle, the truncation fails exactly where the one of the cache file does, with EIO and no other
  -- change. Otherwise the handle is dirty, the cached size is the one asked for, no time of the
  -- server is kept, and the attributes answered are those now cached.
  pub setattr-outcome :
      ((cut.0 ≡ false)
        × (setattr h ino (some fh) (some n) s ≡ (err eio, record s { world = cut.1 })))
      ⊎ ((cut.0 ≡ true)
          × (lookup fh (setattr h ino (some fh) (some n) s).1.fs.open_handles
              ≡ some (record o { dirty = true }))
          × (b : CachedAttr) × (lookup ino (setattr h ino (some fh) (some n) s).1.fs.attrs ≡ some b)
          × (b.size ≡ n)
          × (b.remote_mtime_ms ≡ none)
          × ((setattr h ino (some fh) (some n) s).0
              ≡ ok (record { ttl = 1; attr = file_attr_from_cached h.owner ino b })))
  setattr-outcome = elim (Bool-cases cut.0) [
    | inr f ↦ inl (f, cut_failed f)
    | inl t ↦ inr (
      t,
      rw (cut_done t)
          (ground (arith, lookup-modify fh fh (λ q. record q { dirty = true }) s.fs.open_handles)),
      shortened a,
      rw (cut_done t) attrs_cut,
      refl,
      refl,
      rw (cut_done t) refl,
    )
  ]
