-- ===== src/PathMap/Rename.antt =====
-- What `rename` of path_map.rs does to every path and every inode.
mod Loops
mod Result
use unidrive_mount_linux.Base.{
  ℕ, ◌≡◌, ◌≢◌, refl, sym, true, false, none, some, ◌++◌, [], arith, if◌then◌else◌, Str, Bool-cases,
  is_empty, ◌∷◌, nat_eq, list_eq, inl, inr, false≢true, starts_with, ◌<◌,
}
use unidrive_mount_linux.Base.Dict.{Dict, lookup, lookup-retain}
use unidrive_mount_linux.PathMap.{
  PathMap, inode_for, path_for, moving, moved, rename, is_same_or_below,
}
use unidrive_mount_linux.PathMap.Below.{is_rest, is_same_or_below-split}
use unidrive_mount_linux.PathMap.Bijection.{IsBijective, IsValid}
use Result.{
  result, result-there, result-elsewhere, result-next, path_of-moving, path_for-result,
  lookup-moving, result-IsBijective,
}

is_empty-lookup : (l : Dict Str ℕ) (p : Str) → is_empty l ≡ true → lookup p l ≡ none
unfolding lookup
is_empty-lookup [] p h = refl
is_empty-lookup (e ∷ l) p h = cc

module _ (m : PathMap) (old new_path : Str) (b : IsBijective m) where
  module _ (p : Str) (i : ℕ) (below : is_same_or_below old p ≡ true)
      (known : inode_for m p ≡ some i) where
    rename-result : rename m old new_path ≡ result m old new_path b
    unfolding rename
    rename-result =
        ground (arith, is_empty-lookup (moving old m) p, lookup-moving m old new_path b p)

    -- In a bijective map that has something interned at or below the old path: what followed the
    -- old path is found at the new path with its inode, what was at or below the old path is found
    -- there no more (unless it is at or below the new path too), and any other path keeps its inode.
    pub inode_for-rename :
        ((r : Str)
          → is_rest r ≡ true
          → inode_for (rename m old new_path) (new_path ++ r) ≡ inode_for m (old ++ r))
        × ((q : Str)
            → is_same_or_below new_path q ≡ false
            → inode_for (rename m old new_path) q
              ≡ (if is_same_or_below old q then none else inode_for m q))
    inode_for-rename =
        rw rename-result (result-there m old new_path b, result-elsewhere m old new_path b)

    -- In a bijective map the inode of an entry at or below the old path survives the rename and
    -- leads to the path with the old path replaced by the new one.
    pub path_for-rename : path_for (rename m old new_path) i ≡ some (moved old new_path p)
    path_for-rename =
        rw rename-result
          (ground (arith, path_for-result m old new_path b i, path_of-moving m old new_path b p i))

  pub rename-IsBijective : IsBijective (rename m old new_path)
  unfolding rename
  rename-IsBijective = elim (Bool-cases (is_empty (moving old m))) [
    | inl e ↦ rw (e, rename) b
    | inr e ↦ rw (e, rename) (result-IsBijective m old new_path b)
  ]

lookup_head : (l : Dict Str ℕ) → is_empty l ≡ false → (p : Str) × (i : ℕ) × (lookup p l ≡ some i)
unfolding lookup
lookup_head [] h = absurd (false≢true (sym h))
lookup_head ((p, i) ∷ l) h = (p, i, ground arith)

-- A rename of a path below which nothing is interned changes nothing.
pub rename_unknown :
    (m : PathMap) (old new_path : Str)
    → ((p : Str) → is_same_or_below old p ≡ true → inode_for m p ≡ none)
    → rename m old new_path ≡ m
unfolding rename moving inode_for
rename_unknown m old new_path h = elim (Bool-cases (is_empty (moving old m))) [
  | inl e ↦ rw e
  | inr e ↦
      let (p, i, k) = lookup_head (moving old m) e in
      absurd (ground (arith, k, lookup-retain (is_same_or_below old) p m.path_to_inode, h p))
]

is_same_or_below-nil : (a : Str) → a ≢ [] → is_same_or_below a [] ≡ false
unfolding is_same_or_below starts_with
is_same_or_below-nil [] n = absurd (n refl)
is_same_or_below-nil (c ∷ a) n = ground arith

module _ (m : PathMap) (old new_path : Str) (v : IsValid m) where
  abbrev after : PathMap
  after = result m old new_path v.bijective

  after_below_next : (q : Str) (i : ℕ) → inode_for after q ≡ some i → i < after.next
  after_below_next q i h =
      rw (result-next m old new_path v.bijective) (elim (Bool-cases (is_same_or_below new_path q)) [
        | inl t ↦
            let (r, e, k) = is_same_or_below-split new_path q t in
            ground
              (arith, e, result-there m old new_path v.bijective r k, v.below_next (old ++ r) i)
        | inr f ↦ ground (arith, result-elsewhere m old new_path v.bijective q f, v.below_next q i)
      ])

  after-IsValid : old ≢ [] → new_path ≢ [] → IsValid after
  after-IsValid o n = record {
    bijective = result-IsBijective m old new_path v.bijective;
    below_next = after_below_next;
    root = ground (
      arith,
      result-elsewhere m old new_path v.bijective [],
      is_same_or_below-nil old o,
      is_same_or_below-nil new_path n,
      v.root,
    );
  }

  -- A valid map stays valid under a rename between paths other than the root's.
  pub rename-IsValid : old ≢ [] → new_path ≢ [] → IsValid (rename m old new_path)
  unfolding rename
  rename-IsValid o n = elim (Bool-cases (is_empty (moving old m))) [
    | inl e ↦ rw (e, rename) v
    | inr e ↦ rw (e, rename) (after-IsValid o n)
  ]

  pub next-rename : (rename m old new_path).next ≡ m.next
  unfolding rename
  next-rename = elim (Bool-cases (is_empty (moving old m))) [
    | inl e ↦ rw e
    | inr e ↦ rw e (result-next m old new_path v.bijective)
  ]
