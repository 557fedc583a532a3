-- ===== src/Fs/Invariant/Steps.antt =====
-- The steps that the handlers of mount/src/fuse_fs.rs are made of keep the invariant.
use unidrive_mount_linux.Base.Exec.{Exec, ◌>>=◌}
use unidrive_mount_linux.Base.Dict.{lookup-insert}
use unidrive_mount_linux.PathMap
use unidrive_mount_linux.PathMap.{u64_mod, PathMap}
use unidrive_mount_linux.PathMap.Bijection.{
  intern-IsValid, inode_for-intern, forget-IsValid, next-forget, next-intern,
}
use unidrive_mount_linux.PathMap.Bijection
use unidrive_mount_linux.Attr.{CachedAttr}
use unidrive_mount_linux.Host.{Host, Verb}
use unidrive_mount_linux.Fs.{
  Fs, St, ipc, os, change, read_fs, to_str, resolve, intern, forget, put_attr, now_ms,
  fresh_handle_number, handle_for,
}
use unidrive_mount_linux.Fs.Invariant.{
  Room, Room-less, Keeps, Keeps-pure, Keeps-raise, Keeps-expect_some, Keeps-less, Keeps-if,
  Keeps-bind, IsValid,
}
use unidrive_mount_linux.Errno.{Errno}
use unidrive_mount_linux.Base.{ℕ, ◌+◌, ◌≤◌, ◌<◌, ◌≡◌, ◌≢◌, [], arith, list_eq, nat_eq, Str}

-- What `intern` does to the counter, to the inodes and to the one it returns.
module _ (m : PathMap) (p : Str) (v : Bijection.IsValid m) (room : m.next + 1 < u64_mod) where
  next-le-next-intern : m.next ≤ (PathMap.intern m p).1.next
  unfolding PathMap.intern
  next-le-next-intern = ground arith

  intern-lt-next : (PathMap.intern m p).0 < (PathMap.intern m p).1.next
  intern-lt-next =
      (intern-IsValid m v p room).below_next p (PathMap.intern m p).0
        (ground (arith, inode_for-intern m v p p))

interned-Room :
    {F : Type 0} {lo : ℕ} (fs : Fs F) (p : Str) (k : ℕ)
    → Room lo (1 + k) fs
    → Room
        (PathMap.intern fs.paths p).1.next
        k
        (record fs { paths = (PathMap.intern fs.paths p).1 })
interned-Room fs p k r =
    let one : fs.paths.next + 1 < u64_mod = omega (arith, r.inodes) in
    let grows = next-le-next-intern fs.paths p r.valid.paths one in
    let least = next-intern fs.paths r.valid.paths p one in
    record {
      valid = record {
        paths = intern-IsValid fs.paths r.valid.paths p one;
        attrs_known = λ i a e. omega (arith, r.valid.attrs_known i a e, grows);
        handles_known = r.valid.handles_known;
      };
      given = omega arith;
      inodes = omega (arith, r.inodes, least);
      handles = omega (arith, r.handles);
      numbers = omega (arith, r.numbers);
    }

pub Room-same :
    {F : Type 0} {lo k : ℕ} {fs fs' : Fs F}
    → Room lo k fs
    → fs'.paths.next ≡ fs.paths.next
    → fs'.next_fh ≡ fs.next_fh
    → fs'.next_handle_id ≡ fs.next_handle_id
    → IsValid fs'
    → Room lo k fs'
Room-same r p q n v = record {
  valid = v;
  given = omega (arith, r.given);
  inodes = omega (arith, r.inodes);
  handles = omega (arith, r.handles);
  numbers = omega (arith, r.numbers);
}

module _ {h : Host} {lo : ℕ} where
  pub Keeps-ipc : {A : Type 0} (v : Verb h.World A) → Keeps {h = h} lo 0 (ipc h v)
  unfolding ipc
  Keeps-ipc v = record { at = λ s k r. Room-less lo k r (omega arith) (omega arith) }

  pub Keeps-os : {A : Type 0} (f : h.World → A × h.World) → Keeps {h = h} lo 0 (os h f)
  unfolding os
  Keeps-os f = record { at = λ s k r. Room-less lo k r (omega arith) (omega arith) }

  pub Keeps-read_fs : {E A : Type 0} (f : Fs h.File → A) → Keeps {h = h} {E = E} lo 0 (read_fs h f)
  unfolding read_fs
  Keeps-read_fs f = record { at = λ s k r. Room-less lo k r (omega arith) (omega arith) }

  pub Keeps-change :
      {E : Type 0} (f : Fs h.File → Fs h.File)
      → ((fs : Fs h.File) (k : ℕ) → Room lo k fs → Room lo k (f fs))
      → Keeps {h = h} {E = E} lo 0 (change h f)
  unfolding change
  Keeps-change f kf = record {
    at = λ s k r. kf s.fs k (Room-less lo k r (omega arith) (omega arith));
  }

  pub Keeps-to_str : (name : Str) → Keeps {h = h} lo 0 (to_str h name)
  unfolding to_str
  Keeps-to_str name = Keeps-if (h.is_utf8 name) (Keeps-pure name) (Keeps-raise _)

  pub Keeps-resolve : (inode : ℕ) → Keeps {h = h} lo 0 (resolve h inode)
  unfolding resolve
  Keeps-resolve inode =
      Keeps-less 0 (omega arith) (Keeps-bind (Keeps-read_fs _) (λ p. Keeps-expect_some _ p))

  pub Keeps-now_ms : Keeps {h = h} lo 0 (now_ms h)
  unfolding now_ms
  Keeps-now_ms = record { at = λ s k r. Room-less lo k r (omega arith) (omega arith) }

  pub Keeps-handle_for : (e : Errno) (fh : ℕ) → Keeps {h = h} lo 0 (handle_for h e fh)
  unfolding handle_for
  Keeps-handle_for e fh =
      Keeps-less 0 (omega arith) (Keeps-bind (Keeps-read_fs _) (λ p. Keeps-expect_some _ p))

  pub Keeps-fresh_handle_number : Keeps {h = h} lo 1 (fresh_handle_number h)
  unfolding fresh_handle_number
  Keeps-fresh_handle_number = record {
    at = λ s k r. record {
      valid = record {
        paths = r.valid.paths;
        attrs_known = r.valid.attrs_known;
        handles_known = r.valid.handles_known;
      };
      given = r.given;
      inodes = omega (arith, r.inodes);
      handles = omega (arith, r.handles);
      numbers = omega (arith, r.numbers);
    };
  }

  pub Keeps-put_attr :
      {E : Type 0} (ino : ℕ) (a : CachedAttr)
      → ino < lo
      → Keeps {h = h} {E = E} lo 0 (put_attr h ino a)
  unfolding put_attr
  Keeps-put_attr ino a l = Keeps-change _ λ fs k r. record {
    valid = record {
      paths = r.valid.paths;
      attrs_known =
          λ i b e. ground (arith, lookup-insert i ino a fs.attrs, r.valid.attrs_known i b, r.given);
      handles_known = r.valid.handles_known;
    };
    given = r.given;
    inodes = r.inodes;
    handles = r.handles;
    numbers = r.numbers;
  }

  -- What follows `intern` may rely on the inode's having been given out.
  pub Keeps-intern-bind :
      {E A : Type 0} {d : ℕ} (p : Str) {f : ℕ → Exec E (St h) A}
      → ((ino lo' : ℕ) → lo ≤ lo' → ino < lo' → Keeps lo' d (f ino))
      → Keeps lo (1 + d) (intern h p >>= f)
  unfolding intern ◌>>=◌
  Keeps-intern-bind {d} p kf = record {
    at = λ s k r.
        let one : s.fs.paths.next + 1 < u64_mod = omega (arith, r.inodes) in
        let m = (PathMap.intern s.fs.paths p).1 in
        let lo-le : lo ≤ m.next =
          omega (arith, r.given, next-le-next-intern s.fs.paths p r.valid.paths one) in
        Room-less lo k
          ((kf (PathMap.intern s.fs.paths p).0 m.next lo-le
              (intern-lt-next s.fs.paths p r.valid.paths one)).at
            (record s { fs = record s.fs { paths = m } }) k
            (interned-Room s.fs p (d + k)
              (Room-less lo (1 + (d + k)) r (omega arith) (omega arith))))
          lo-le (omega arith);
  }

  pub Keeps-intern : {E : Type 0} (p : Str) → Keeps {h = h} {E = E} lo 1 (intern h p)
  unfolding intern
  Keeps-intern p = record {
    at = λ s k r.
        Room-less lo k (interned-Room s.fs p k r)
          (omega (
            arith,
            r.given,
            next-le-next-intern s.fs.paths p r.valid.paths (omega (arith, r.inodes)),
          ))
          (omega arith);
  }

  pub Keeps-forget : (p : Str) → p ≢ [] → Keeps {h = h} lo 0 (forget h p)
  unfolding forget
  Keeps-forget p n = record {
    at = λ s k r.
        let same : (PathMap.forget s.fs.paths p).1.next ≡ s.fs.paths.next =
          next-forget s.fs.paths p in
        record {
          valid = record {
            paths = forget-IsValid s.fs.paths p r.valid.paths n;
            attrs_known = λ i a e. omega (arith, r.valid.attrs_known i a e, same);
            handles_known = r.valid.handles_known;
          };
          given = omega (arith, r.given, same);
          inodes = omega (arith, r.inodes, same);
          handles = omega (arith, r.handles);
          numbers = omega (arith, r.numbers);
        };
  }
