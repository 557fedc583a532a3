-- ===== src/Fs.antt =====
-- The state of `UnidriveFs` in mount/src/fuse_fs.rs, and the steps that its handlers are made of.
-- A handler runs as one step: between two of its locks no other handler runs. Only fsync is also
-- split where writes may run in between.
pub mod Creation
pub mod Files
pub mod Handles
pub mod Invariant
pub mod Listing
pub mod Namespace
pub mod Reads
pub mod Setattr
pub mod View
pub mod Volume
use unidrive_mount_linux.Base.Exec.{ok, Exec, pure, raise, expect_some, ◌>>=◌}
use unidrive_mount_linux.Base.Int.{ℤ, pos, wrap_i64}
use unidrive_mount_linux.Base.Dict.{Dict, lookup, insert, erase, modify}
use unidrive_mount_linux.Ipc.{IpcError}
use unidrive_mount_linux.PathMap
use unidrive_mount_linux.PathMap.{PathMap, u64_mod}
use unidrive_mount_linux.Attr.{CachedAttr}
use unidrive_mount_linux.Quota.{QuotaCache, new_cache, default_refresh_interval}
use unidrive_mount_linux.Host.{Host, Verb}
use unidrive_mount_linux.Errno.{Errno, einval, enoent}
use unidrive_mount_linux.Base.{
  ℕ, ◌+◌, ◌%◌, Bool, Option, none, some, List, [], list_eq, nat_eq, if◌then◌else◌, Str,
}

-- `OpenHandle`, over the type of open files
pub record OpenHandle (F : Type 0) : Type 0 where
  pub file : F
  pub handle_id : Str
  pub remote_path : Str
  pub cache_path : Str
  pub dirty : Bool

-- `UnidriveFs`
pub record Fs (F : Type 0) : Type 0 where
  pub paths : PathMap
  pub attrs : Dict ℕ CachedAttr
  pub open_handles : Dict ℕ (OpenHandle F)
  pub next_fh : ℕ
  pub next_handle_id : ℕ
  pub cache_root : Option Str
  pub quota : QuotaCache
  pub quarantine_warned : List Str
  pub raw_names : Dict Str Str

-- `UnidriveFs::new`
unfoldable pub new_fs : (F : Type 0) → Fs F
unfolding PathMap.new new_cache
new_fs F = record {
  paths = PathMap.new;
  attrs = [];
  open_handles = [];
  next_fh = 1;
  next_handle_id = 1;
  cache_root = none;
  quota = new_cache default_refresh_interval;
  quarantine_warned = [];
  raw_names = [];
}

-- `with_cache_root`
unfoldable pub with_cache_root : {F : Type 0} → Fs F → Str → Fs F
with_cache_root fs root = record fs { cache_root = some root }

module _ (h : Host) where
  open h use {World, File}

  -- The filesystem and what it runs in.
  pub record St : Type 0 where
    pub fs : Fs File
    pub world : World

  -- A handler, and a part of one that hands IPC errors on.
  abbrev pub Act : Type 0 → Type 0
  Act A = Exec Errno St A

  abbrev pub Ipc : Type 0 → Type 0
  Ipc A = Exec IpcError St A

  -- A verb over the shared connection.
  unfoldable pub ipc : {A : Type 0} → Verb World A → Ipc A
  ipc v s = let (r, w) = v s.world in (r, record s { world = w })

  -- A call of the operating system.
  unfoldable pub os : {A : Type 0} → (World → A × World) → Act A
  os f s = let (a, w) = f s.world in (ok a, record s { world = w })

  unfoldable pub change : {E : Type 0} → (Fs File → Fs File) → Exec E St (Unit {0})
  change f s = (ok tt, record s { fs = f s.fs })

  unfoldable pub read_fs : {E A : Type 0} → (Fs File → A) → Exec E St A
  read_fs f s = (ok (f s.fs), s)

  -- `name.to_str().ok_or(EINVAL)?`
  unfoldable pub to_str : Str → Act Str
  to_str name = if h.is_utf8 name then pure name else raise einval

  -- `paths.path_for(inode).ok_or(ENOENT)?`
  unfoldable pub resolve : ℕ → Act Str
  unfolding read_fs PathMap.path_for
  resolve inode = do p ← read_fs (λ fs. PathMap.path_for fs.paths inode); expect_some enoent p

  -- `paths.intern(path)`
  unfoldable pub intern : {E : Type 0} → Str → Exec E St ℕ
  intern path s =
      let (ino, paths) = PathMap.intern s.fs.paths path in
      (ok ino, record s { fs = record s.fs { paths = paths } })

  -- `paths.forget(path)`
  unfoldable pub forget : Str → Act (Option ℕ)
  forget path s =
      let (ino, paths) = PathMap.forget s.fs.paths path in
      (ok ino, record s { fs = record s.fs { paths = paths } })

  unfoldable pub put_attr : {E : Type 0} → ℕ → CachedAttr → Exec E St (Unit {0})
  unfolding change
  put_attr ino a = change (λ fs. record fs { attrs = insert ino a fs.attrs })

  -- `if let Some(a) = attrs.get_mut(&inode) { .. }`
  unfoldable pub modify_attr : ℕ → (CachedAttr → CachedAttr) → Act (Unit {0})
  unfolding change
  modify_attr ino f = change (λ fs. record fs { attrs = modify ino f fs.attrs })

  unfoldable pub remove_attr : ℕ → Act (Unit {0})
  unfolding change
  remove_attr ino = change (λ fs. record fs { attrs = erase ino fs.attrs })

  -- `now_ms()`
  unfoldable pub now_ms : Act ℤ
  now_ms s = (ok (elim (h.epoch_ms s.world) [ none ↦ pos 0 | some n ↦ wrap_i64 n ]), s)

  -- `next_handle_id.fetch_add(1)`
  unfoldable pub fresh_handle_number : Act ℕ
  fresh_handle_number s = (
    ok s.fs.next_handle_id,
    record s { fs = record s.fs { next_handle_id = (s.fs.next_handle_id + 1) % u64_mod } },
  )

  -- `next_fh.fetch_add(1)`, and the insertion of the new handle
  unfoldable pub add_handle : OpenHandle File → Act ℕ
  add_handle o s = (
    ok s.fs.next_fh,
    record s {
      fs = record s.fs {
        next_fh = (s.fs.next_fh + 1) % u64_mod;
        open_handles = insert s.fs.next_fh o s.fs.open_handles;
      };
    },
  )

  -- `open_handles.get(&fh).ok_or(..)?`
  unfoldable pub handle_for : Errno → ℕ → Act (OpenHandle File)
  unfolding read_fs
  handle_for e fh = do o ← read_fs (λ fs. lookup fh fs.open_handles); expect_some e o

  -- `h.dirty.store(b)`
  unfoldable pub set_dirty : ℕ → Bool → Act (Unit {0})
  unfolding change
  set_dirty fh b =
      change
        (λ fs. record fs { open_handles = modify fh (λ o. record o { dirty = b }) fs.open_handles })

  -- `open_handles.remove(&fh)`
  unfoldable pub take_handle : ℕ → Act (Option (OpenHandle File))
  take_handle fh s = (
    ok (lookup fh s.fs.open_handles),
    record s { fs = record s.fs { open_handles = erase fh s.fs.open_handles } },
  )
