-- ===== src/Fs/Handles/Follow.antt =====
-- `OpenHandle::follow_rename` of mount/src/fuse_fs.rs: open handles follow a rename.
use unidrive_mount_linux.PathMap
use unidrive_mount_linux.Base.{
  ℕ, ◌≡◌, inl, inr, true, false, none, some, [], ◌∷◌, arith, list_eq, nat_eq, length, drop,
  drop-append, if◌then◌else◌, Bool-cases, Option-cases, Str, strip_prefix, strip_prefix-append,
  strip_prefix-eq_some,
}
use unidrive_mount_linux.Fs.Namespace.{follow_rename, rest_below}
use unidrive_mount_linux.PathMap.{PathMap, is_same_or_below, moved}
use unidrive_mount_linux.Fs.{OpenHandle}
use unidrive_mount_linux.PathMap.Bijection.{IsBijective}
use unidrive_mount_linux.PathMap.Rename.{path_for-rename}
use unidrive_mount_linux.PathMap.Below.{is_rest, is_same_or_below-append, is_same_or_below-split}

rest_below-exact :
    (p old : Str)
    → rest_below p old ≡ (if is_same_or_below old p then some (drop (length old) p) else none)
unfolding rest_below is_rest
rest_below-exact p old = elim (Option-cases (strip_prefix p old)) [
  | inr ([], e) ↦
      let q = strip_prefix-eq_some p old e in
      ground (arith, q, is_same_or_below-append old [], drop-append old [])
  | inr (c ∷ r, e) ↦
      let q = strip_prefix-eq_some p old e in
      ground (arith, q, is_same_or_below-append old (c ∷ r), drop-append old (c ∷ r))
  | inl n ↦ elim (Bool-cases (is_same_or_below old p)) [
    | inr f ↦ ground arith
    | inl t ↦
        let (r, q, _) = is_same_or_below-split old p t in
        absurd (ground (arith, q, strip_prefix-append old r))
  ]
]

-- A handle at or below the renamed path gets the path that the path map gives to entries there, and
-- any other handle stays as it is.
pub follow_rename-moved :
    {F : Type 0} (o : OpenHandle F) (old new_path : Str)
    → (is_same_or_below old o.remote_path ≡ true
        → (follow_rename o old new_path).remote_path ≡ moved old new_path o.remote_path)
      × (is_same_or_below old o.remote_path ≡ false → follow_rename o old new_path ≡ o)
unfolding follow_rename moved
follow_rename-moved o old new_path = (
  λ t. ground (arith, rest_below-exact o.remote_path old),
  λ f. ground (arith, rest_below-exact o.remote_path old),
)

-- In a bijective map, where the remote path of an open handle is at or below the old path and has
-- an inode, that inode leads after the rename to the handle's new remote path.
pub follow_rename-path_for :
    {F : Type 0} (m : PathMap) (o : OpenHandle F) (old new_path : Str) (i : ℕ)
    → IsBijective m
    → is_same_or_below old o.remote_path ≡ true
    → PathMap.inode_for m o.remote_path ≡ some i
    → PathMap.path_for (PathMap.rename m old new_path) i
      ≡ some (follow_rename o old new_path).remote_path
follow_rename-path_for m o old new_path i b t e =
    rw ((follow_rename-moved o old new_path).0 t)
      (path_for-rename m old new_path b o.remote_path i t e)
