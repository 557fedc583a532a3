-- ===== src/PathMap/Rename/Loops.antt =====
-- The three loops of `rename` in path_map.rs, each on its own.
use unidrive_mount_linux.Base.{
  ◌==◌, if◌then◌else◌, nat_eq, ℕ, ◌≡◌, inl, inr, refl, ◌∙◌, true, false, none, List, [], ◌∷◌, ◌++◌,
  arith, nat_eq, list_eq, if◌then◌else◌, Str, Option-cases, contains, or_else, All, append_cancel,
  Option, some, ◌≢◌,
}
use unidrive_mount_linux.Base.Dict.{
  Dict, lookup, NodupKeys, lookup-insert, lookup-erase, insert-NodupKeys,
}
use unidrive_mount_linux.PathMap.{
  PathMap, inode_for, drop_stale, moved, insert_moved, is_same_or_below, path_for,
}
use unidrive_mount_linux.PathMap.Below.{
  is_same_or_below-append, is_same_or_below-split, moved-append,
}
use unidrive_mount_linux.PathMap.Bijection.{IsBijective, dropped, dropped-IsBijective}

-- The loop over the stale paths drops exactly those.
pub drop_stale-path_to_inode :
    (paths : List Str) (m : PathMap) (q : Str)
    → inode_for (drop_stale paths m) q ≡ (if contains paths q then none else inode_for m q)
unfolding drop_stale inode_for
drop_stale-path_to_inode [] m q = refl
drop_stale-path_to_inode (path ∷ paths) m q = elim (Option-cases (inode_for m path)) [
  | inl e ↦ rw (e, drop_stale) (ground (arith, drop_stale-path_to_inode paths m q))
  | inr (i, e) ↦
      rw (e, drop_stale)
        (ground (
          arith,
          drop_stale-path_to_inode paths (dropped m path i) q,
          lookup-erase q path m.path_to_inode,
        ))
]

pub drop_stale-IsBijective :
    (paths : List Str) (m : PathMap) → IsBijective m → IsBijective (drop_stale paths m)
unfolding drop_stale inode_for
drop_stale-IsBijective [] m b = b
drop_stale-IsBijective (path ∷ paths) m b = elim (Option-cases (inode_for m path)) [
  | inl e ↦ rw (e, drop_stale) (drop_stale-IsBijective paths m b)
  | inr (i, e) ↦
      rw (e, drop_stale)
        (drop_stale-IsBijective paths (dropped m path i) (dropped-IsBijective m path i b e))
]

pub drop_stale-next : (paths : List Str) (m : PathMap) → (drop_stale paths m).next ≡ m.next
unfolding drop_stale
drop_stale-next [] m = refl
drop_stale-next (path ∷ paths) m = elim (Option-cases (lookup path m.path_to_inode)) [
  | inl e ↦ rw (e, drop_stale) (drop_stale-next paths m)
  | inr (i, e) ↦ rw (e, drop_stale) (drop_stale-next paths (dropped m path i))
]

module _ (old new_path : Str) where
  abbrev pub AllBelow : Dict Str ℕ → Type 0
  AllBelow = All (λ (p, _). is_same_or_below old p ≡ true)

  pub insert_moved-next :
      (l : Dict Str ℕ) (m : PathMap) → (insert_moved old new_path l m).next ≡ m.next
  unfolding insert_moved
  insert_moved-next [] m = refl
  insert_moved-next ((p, i) ∷ l) m = insert_moved-next l _

  pub insert_moved-nodup :
      (l : Dict Str ℕ) (m : PathMap)
      → NodupKeys m.path_to_inode
      → NodupKeys (insert_moved old new_path l m).path_to_inode
  unfolding insert_moved
  insert_moved-nodup [] m u = u
  insert_moved-nodup ((p, i) ∷ l) m u =
      insert_moved-nodup l _ (insert-NodupKeys (moved old new_path p) i m.path_to_inode u)

  -- A path that is not at or below the new path is not touched.
  pub insert_moved_elsewhere :
      (l : Dict Str ℕ) (m : PathMap) (q : Str)
      → AllBelow l
      → is_same_or_below new_path q ≡ false
      → inode_for (insert_moved old new_path l m) q ≡ inode_for m q
  unfolding insert_moved inode_for
  insert_moved_elsewhere [] m q a h = refl
  insert_moved_elsewhere ((p, i) ∷ l) m q (b, a) h =
      let (r, e, k) = is_same_or_below-split old p b in
      insert_moved_elsewhere l _ q a h
      ∙ ground (
        arith,
        lookup-insert q (moved old new_path p) i m.path_to_inode,
        e,
        moved-append old new_path r,
        is_same_or_below-append new_path r,
      )

  -- A path at or below the new path has the inode of the entry that moved there.
  pub insert_moved_there :
      (l : Dict Str ℕ) (m : PathMap) (r : Str)
      → AllBelow l
      → NodupKeys l
      → inode_for (insert_moved old new_path l m) (new_path ++ r)
        ≡ or_else (lookup (old ++ r) l) (inode_for m (new_path ++ r))
  unfolding insert_moved inode_for lookup or_else
  insert_moved_there [] m r a u = refl
  insert_moved_there ((p, i) ∷ l) m r (b, a) (fresh, u) =
      let (s, e, k) = is_same_or_below-split old p b in
      insert_moved_there l _ r a u
      ∙ ground (
        arith,
        lookup-insert (new_path ++ r) (moved old new_path p) i m.path_to_inode,
        e,
        fresh,
        moved-append old new_path s,
        λ (p : old ++ r ≡ old ++ s). append_cancel old r s p,
        λ (p : new_path ++ r ≡ new_path ++ s). append_cancel new_path r s p,
      )

-- The path of the first entry with an inode.
unfoldable pub path_of : ℕ → Dict Str ℕ → Option Str
path_of i [] = none
path_of i ((p, j) ∷ l) = if i == j then some p else path_of i l

abbrev pub NodupInodes : Dict Str ℕ → Type 0
NodupInodes [] = Unit
NodupInodes ((_, i) ∷ l) = (path_of i l ≡ none) × NodupInodes l

pub path_of-eq_some :
    (l : Dict Str ℕ) (i : ℕ) (p : Str) → NodupKeys l → path_of i l ≡ some p → lookup p l ≡ some i
unfolding path_of lookup
path_of-eq_some [] i p u h = cc
path_of-eq_some ((q, j) ∷ l) i p (fresh, u) h = ground (arith, path_of-eq_some l i p u)

pub path_of-eq_none : (l : Dict Str ℕ) (i : ℕ) (p : Str) → path_of i l ≡ none → lookup p l ≢ some i
unfolding path_of lookup
path_of-eq_none [] i p h k = cc
path_of-eq_none ((q, j) ∷ l) i p h k = ground (arith, path_of-eq_none l i p)

abbrev pub renamed : (Str → Str) → Option Str → Option Str → Option Str
renamed f none o = o
renamed f (some p) o = some (f p)

-- Every inode of the list leads to its path at the new place, and the others are not touched.
pub insert_moved-path_for :
    (old new_path : Str) (l : Dict Str ℕ) (m : PathMap) (i : ℕ)
    → NodupInodes l
    → path_for (insert_moved old new_path l m) i
      ≡ renamed (moved old new_path) (path_of i l) (path_for m i)
unfolding insert_moved path_for path_of
insert_moved-path_for old new_path [] m i u = refl
insert_moved-path_for old new_path ((p, j) ∷ l) m i (fresh, u) =
    insert_moved-path_for old new_path l _ i u
    ∙ ground (arith, lookup-insert i j (moved old new_path p) m.inode_to_path)
