-- ===== src/Fs/Invariant/Updates.antt =====
-- The steps of mount/src/fuse_fs.rs that change cached attributes and open handles keep the
-- invariant.
use unidrive_mount_linux.Base.Dict.{lookup-insert, lookup-erase, lookup_of_modify, erase, modify}
use unidrive_mount_linux.PathMap.{u64_mod}
use unidrive_mount_linux.Attr.{CachedAttr}
use unidrive_mount_linux.Host.{Host}
use unidrive_mount_linux.Fs.{
  OpenHandle, modify_attr, remove_attr, add_handle, set_dirty, take_handle,
}
use unidrive_mount_linux.Fs.Invariant.{Keeps}
use unidrive_mount_linux.Base.{ℕ, ◌+◌, ◌%◌, ◌≡◌, Bool, arith, list_eq, nat_eq, refl}
use unidrive_mount_linux.Fs.Invariant.Steps.{Keeps-change, Room-same}

module _ {h : Host} {lo : ℕ} where
  pub Keeps-modify_attr :
      (ino : ℕ) (f : CachedAttr → CachedAttr) → Keeps {h = h} lo 0 (modify_attr h ino f)
  unfolding modify_attr
  Keeps-modify_attr ino f =
      Keeps-change (λ fs. record fs { attrs = modify ino f fs.attrs })
        λ fs k r. Room-same r refl refl refl record {
          paths = r.valid.paths;
          handles_known = r.valid.handles_known;
          attrs_known = λ i b e.
              let (c, e') = lookup_of_modify i ino f fs.attrs e in r.valid.attrs_known i c e';
        }

  pub Keeps-remove_attr : (ino : ℕ) → Keeps {h = h} lo 0 (remove_attr h ino)
  unfolding remove_attr
  Keeps-remove_attr ino =
      Keeps-change (λ fs. record fs { attrs = erase ino fs.attrs })
        λ fs k r. Room-same r refl refl refl record {
          paths = r.valid.paths;
          handles_known = r.valid.handles_known;
          attrs_known =
              λ i b e. ground (arith, lookup-erase i ino fs.attrs, r.valid.attrs_known i b);
        }

  pub Keeps-set_dirty : (fh : ℕ) (b : Bool) → Keeps {h = h} lo 0 (set_dirty h fh b)
  unfolding set_dirty
  Keeps-set_dirty fh b =
      Keeps-change
        (λ fs. record fs { open_handles = modify fh (λ o. record o { dirty = b }) fs.open_handles })
        λ fs k r. Room-same r refl refl refl record {
          paths = r.valid.paths;
          attrs_known = r.valid.attrs_known;
          handles_known = λ i o e.
              let (p, e') = lookup_of_modify i fh (λ o. record o { dirty = b }) fs.open_handles e in
              r.valid.handles_known i p e';
        }

  pub Keeps-take_handle : (fh : ℕ) → Keeps {h = h} lo 0 (take_handle h fh)
  unfolding take_handle
  Keeps-take_handle fh = record {
    at = λ s k r. record {
      valid = record {
        paths = r.valid.paths;
        attrs_known = r.valid.attrs_known;
        handles_known =
            λ i o e. ground (arith, lookup-erase i fh s.fs.open_handles, r.valid.handles_known i o);
      };
      given = r.given;
      inodes = omega (arith, r.inodes);
      handles = omega (arith, r.handles);
      numbers = omega (arith, r.numbers);
    };
  }

  pub Keeps-add_handle : (o : OpenHandle h.File) → Keeps {h = h} lo 1 (add_handle h o)
  unfolding add_handle
  Keeps-add_handle o = record {
    at = λ s k r.
        let unwrapped : (s.fs.next_fh + 1) % u64_mod ≡ s.fs.next_fh + 1 =
          omega (arith, r.handles) in
        record {
          valid = record {
            paths = r.valid.paths;
            attrs_known = r.valid.attrs_known;
            handles_known = λ i p e. ground (
              arith,
              unwrapped,
              lookup-insert i s.fs.next_fh o s.fs.open_handles,
              r.valid.handles_known i p,
            );
          };
          given = r.given;
          inodes = omega (arith, r.inodes);
          handles = omega (arith, r.handles);
          numbers = omega (arith, r.numbers);
        };
  }
