-- ===== src/Fs/View/Invariant.antt =====
-- `ViewCache::apply` of mount/src/fuse_fs.rs keeps the invariant.
use unidrive_mount_linux.Base.{ℕ, refl, list_eq, nat_eq}
use unidrive_mount_linux.Fs.View.{apply}
use unidrive_mount_linux.Subscribe.{Invalidation, paths, all}
use unidrive_mount_linux.Fs.{Fs}
use unidrive_mount_linux.Fs.View.Laws.{known_of_apply}
use unidrive_mount_linux.Fs.Invariant.{Room}
use unidrive_mount_linux.Fs.Invariant.Steps.{Room-same}

pub apply-Room :
    {F : Type 0} {lo k : ℕ} {fs : Fs F} (c : Invalidation) → Room lo k fs → Room lo k (apply c fs)
unfolding apply
apply-Room {fs} all r = Room-same r refl refl refl (record {
  paths = r.valid.paths;
  attrs_known = λ i a e. r.valid.attrs_known i a (known_of_apply all fs i e);
  handles_known = r.valid.handles_known;
})
apply-Room {fs} (paths roots) r = Room-same r refl refl refl (record {
  paths = r.valid.paths;
  attrs_known = λ i a e. r.valid.attrs_known i a (known_of_apply (paths roots) fs i e);
  handles_known = r.valid.handles_known;
})
