-- ===== src/PathMap/Rename/Result.antt =====
-- The map that `rename` of path_map.rs builds when something moves: which entry every path and
-- every inode has in it.
use unidrive_mount_linux.Base.{
  ℕ, ◌≡◌, inl, inr, ◌∙◌, true, false, not, ◌&&◌, none, some, [], ◌∷◌, ◌++◌, arith, nat_eq, list_eq,
  if◌then◌else◌, Str, Option-cases, Bool-cases, or_else,
}
use unidrive_mount_linux.Base.Dict.{
  Dict, lookup, erase_all, retain, keys, NodupKeys, lookup-retain, lookup-erase_all, contains-keys,
  retain-NodupKeys, erase_all-NodupKeys,
}
use unidrive_mount_linux.PathMap.{
  PathMap, path_for, inode_for, drop_stale, moving, stale, moved, insert_moved, is_same_or_below,
}
use unidrive_mount_linux.PathMap.Below.{
  is_rest, is_same_or_below-append, is_same_or_below-split, moved-append,
}
use unidrive_mount_linux.PathMap.Bijection.{IsBijective}
use unidrive_mount_linux.PathMap.Rename.Loops.{
  drop_stale-path_to_inode, drop_stale-IsBijective, drop_stale-next, AllBelow, insert_moved-next,
  insert_moved-nodup, insert_moved_elsewhere, insert_moved_there, path_of, NodupInodes,
  path_of-eq_some, path_of-eq_none, renamed, insert_moved-path_for,
}

module _ (old : Str) where
  retain-AllBelow :
      (new_path : Str) (l : Dict Str ℕ) → AllBelow old new_path (retain (is_same_or_below old) l)
  unfolding retain
  retain-AllBelow new_path [] = tt
  retain-AllBelow new_path ((p, i) ∷ l) = ground (arith, retain-AllBelow new_path l)

-- Distinct inodes, from the map's being one to one.
NodupInodes-of :
    (l : Dict Str ℕ)
    → NodupKeys l
    → ((p q : Str) (i : ℕ) → lookup p l ≡ some i → lookup q l ≡ some i → p ≡ q)
    → NodupInodes l
unfolding lookup path_of
NodupInodes-of [] u h = tt
NodupInodes-of ((p, i) ∷ l) (fresh, u) h = (
  elim (Option-cases (path_of i l)) [
    | inl e ↦ e
    | inr (q, e) ↦ absurd (ground (arith, path_of-eq_some l i q u e, h p q i))
  ],
  NodupInodes-of l u (λ p' q i' hp hq. h p' q i' (ground arith) (ground arith)),
)

module _ (m : PathMap) (old new_path : Str) (b : IsBijective m) where
  -- The map once the stale entries are gone and the moving paths are taken out.
  abbrev pub kept : PathMap
  kept = drop_stale (stale old new_path m) m

  abbrev pub cleared : PathMap
  cleared = record kept { path_to_inode = erase_all (keys (moving old m)) kept.path_to_inode }

  inode_for-cleared :
      (q : Str)
      → inode_for cleared q ≡ (
          if is_same_or_below old q
          then none
          else if is_same_or_below new_path q
          then none
          else inode_for m q)
  unfolding inode_for moving stale
  inode_for-cleared q = ground (
    arith,
    lookup-erase_all q (keys (moving old m)) kept.path_to_inode,
    drop_stale-path_to_inode (stale old new_path m) m q,
    contains-keys q (moving old m),
    lookup-retain (is_same_or_below old) q m.path_to_inode,
    contains-keys q (
        retain (λ path. not (is_same_or_below old path) && is_same_or_below new_path path)
          m.path_to_inode),
    lookup-retain (λ path. not (is_same_or_below old path) && is_same_or_below new_path path) q
        m.path_to_inode,
  )

  abbrev pub result : PathMap
  result = insert_moved old new_path (moving old m) cleared

  moving-nodup : NodupKeys (moving old m)
  unfolding moving
  moving-nodup = retain-NodupKeys (is_same_or_below old) m.path_to_inode b.nodup

  moving-AllBelow : AllBelow old new_path (moving old m)
  unfolding moving
  moving-AllBelow = retain-AllBelow old new_path m.path_to_inode

  pub lookup-moving :
      (q : Str) → lookup q (moving old m) ≡ (if is_same_or_below old q then inode_for m q else none)
  unfolding moving inode_for
  lookup-moving q = lookup-retain (is_same_or_below old) q m.path_to_inode

  moving-inodes : NodupInodes (moving old m)
  moving-inodes =
      NodupInodes-of (moving old m) moving-nodup
        λ p q i hp hq. ground (arith, lookup-moving p, lookup-moving q, b.forth p i, b.forth q i)

  pub result-there :
      (r : Str) → is_rest r ≡ true → inode_for result (new_path ++ r) ≡ inode_for m (old ++ r)
  unfolding or_else
  result-there r h =
      insert_moved_there old new_path (moving old m) cleared r moving-AllBelow moving-nodup
      ∙ ground (
        arith,
        lookup-moving (old ++ r),
        inode_for-cleared (new_path ++ r),
        is_same_or_below-append old r,
        is_same_or_below-append new_path r,
      )

  pub result-elsewhere :
      (q : Str)
      → is_same_or_below new_path q ≡ false
      → inode_for result q ≡ (if is_same_or_below old q then none else inode_for m q)
  result-elsewhere q h =
      insert_moved_elsewhere old new_path (moving old m) cleared q moving-AllBelow h
      ∙ ground (arith, inode_for-cleared q)

  -- The entry of an inode that does not move is that of the map without the stale entries.
  pub path_for-result :
      (i : ℕ)
      → path_for result i
        ≡ renamed (moved old new_path) (path_of i (moving old m)) (path_for kept i)
  unfolding path_for
  path_for-result i = insert_moved-path_for old new_path (moving old m) cleared i moving-inodes

  inode_for-kept :
      (q : Str)
      → inode_for kept q ≡ (
          if not (is_same_or_below old q) && is_same_or_below new_path q
          then none
          else inode_for m q)
  unfolding stale inode_for
  inode_for-kept q = ground (
    arith,
    drop_stale-path_to_inode (stale old new_path m) m q,
    contains-keys q (
        retain (λ path. not (is_same_or_below old path) && is_same_or_below new_path path)
          m.path_to_inode),
    lookup-retain (λ path. not (is_same_or_below old path) && is_same_or_below new_path path) q
        m.path_to_inode,
  )

  kept-IsBijective : IsBijective kept
  kept-IsBijective = drop_stale-IsBijective (stale old new_path m) m b

  -- The entry of an inode among the moving ones.
  pub path_of-moving :
      (p : Str) (i : ℕ)
      → inode_for m p ≡ some i
      → path_of i (moving old m) ≡ (if is_same_or_below old p then some p else none)
  path_of-moving p i h = elim (Option-cases (path_of i (moving old m))) [
    | inl e ↦ ground (arith, path_of-eq_none (moving old m) i p e, lookup-moving p)
    | inr (p', e) ↦ ground (
      arith,
      path_of-eq_some (moving old m) i p' moving-nodup e,
      lookup-moving p',
      b.forth p i h,
      b.forth p' i,
    )
  ]

  result-forth : (q : Str) (i : ℕ) → inode_for result q ≡ some i → path_for result i ≡ some q
  result-forth q i h = elim (Bool-cases (is_same_or_below new_path q)) [
    | inl t ↦
        let (r, e, k) = is_same_or_below-split new_path q t in
        ground (
          arith,
          e,
          result-there r k,
          path_for-result i,
          path_of-moving (old ++ r) i,
          is_same_or_below-append old r,
          moved-append old new_path r,
        )
    | inr f ↦ ground (
      arith,
      path_for-result i,
      result-elsewhere q f,
      path_of-moving q i,
      inode_for-kept q,
      kept-IsBijective.forth q i,
    )
  ]

  result-back : (q : Str) (i : ℕ) → path_for result i ≡ some q → inode_for result q ≡ some i
  result-back q i h = elim (Option-cases (path_of i (moving old m))) [
    | inl e ↦ ground (
      arith,
      path_for-result i,
      kept-IsBijective.back q i,
      inode_for-kept q,
      path_of-moving q i,
      result-elsewhere q,
    )
    | inr (p, e) ↦
        let found : lookup p (moving old m) ≡ some i =
          path_of-eq_some (moving old m) i p moving-nodup e in
        let (r, s, k) = is_same_or_below-split old p (ground (arith, lookup-moving p)) in
        ground (
          arith,
          s,
          path_for-result i,
          lookup-moving p,
          result-there r k,
          moved-append old new_path r,
        )
  ]

  pub result-IsBijective : IsBijective result
  unfolding inode_for path_for
  result-IsBijective = record {
    forth = result-forth;
    back = result-back;
    nodup =
        insert_moved-nodup old new_path (moving old m) cleared
          (erase_all-NodupKeys (keys (moving old m)) kept.path_to_inode kept-IsBijective.nodup);
  }

  pub result-next : result.next ≡ m.next
  result-next =
      insert_moved-next old new_path (moving old m) cleared
      ∙ drop_stale-next (stale old new_path m) m
