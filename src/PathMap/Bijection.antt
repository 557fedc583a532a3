-- ===== src/PathMap/Bijection.antt =====
-- The two halves of the map of path_map.rs mirror one another.
use unidrive_mount_linux.Base.{
  ℕ, ◌+◌, ◌%◌, ◌≤◌, ◌<◌, ◌≡◌, ◌≢◌, inl, inr, refl, none, some, [], arith, ◌==◌, nat_eq, list_eq,
  if◌then◌else◌, Str, Option-cases,
}
use unidrive_mount_linux.Base.Dict.{
  lookup, insert, erase, NodupKeys, lookup-insert, lookup-erase, insert-NodupKeys, erase-NodupKeys,
}
use unidrive_mount_linux.PathMap.{
  PathMap, new, u64_mod, root_inode, path_for, inode_for, intern, forget,
}

pub record IsBijective (m : PathMap) : Type 0 where
  pub forth : (p : Str) (i : ℕ) → inode_for m p ≡ some i → path_for m i ≡ some p
  pub back : (p : Str) (i : ℕ) → path_for m i ≡ some p → inode_for m p ≡ some i
  pub nodup : NodupKeys m.path_to_inode

-- The invariant of a map whose counter has not wrapped.
pub record IsValid (m : PathMap) : Type 0 where
  pub bijective : IsBijective m
  pub below_next : (p : Str) (i : ℕ) → inode_for m p ≡ some i → i < m.next
  pub root : inode_for m [] ≡ some root_inode

pub IsValid-new : IsValid new
unfolding new inode_for path_for lookup list_eq
IsValid-new = record {
  bijective = record {
    forth = λ p i h. ground arith;
    back = λ p i h. ground arith;
    nodup = (refl, tt);
  };
  below_next = λ p i h. ground arith;
  root = refl;
}

module _ (m : PathMap) (v : IsValid m) where
  -- No inode from the counter on is in use.
  next_unused : (i : ℕ) → m.next ≤ i → path_for m i ≡ none
  next_unused i h = elim (Option-cases (path_for m i)) [
    | inl e ↦ e
    | inr (p, e) ↦ absurd (omega (arith, v.below_next p i (v.bijective.back p i e)))
  ]

  abbrev interned : Str → PathMap
  interned path = record {
    next = (m.next + 1) % u64_mod;
    path_to_inode = insert path m.next m.path_to_inode;
    inode_to_path = insert m.next path m.inode_to_path;
  }

  interned-IsBijective : (path : Str) → inode_for m path ≡ none → IsBijective (interned path)
  unfolding inode_for path_for
  interned-IsBijective path fresh = record {
    forth = λ p i h. ground (
      arith,
      lookup-insert p path m.next m.path_to_inode,
      lookup-insert i m.next path m.inode_to_path,
      v.below_next p i,
      v.bijective.forth p i,
    );
    back = λ p i h. ground (
      arith,
      lookup-insert p path m.next m.path_to_inode,
      lookup-insert i m.next path m.inode_to_path,
      v.bijective.back p i,
    );
    nodup = insert-NodupKeys path m.next m.path_to_inode v.bijective.nodup;
  }

  interned-IsValid :
      (path : Str) → inode_for m path ≡ none → m.next + 1 < u64_mod → IsValid (interned path)
  unfolding inode_for
  interned-IsValid path fresh room = record {
    bijective = interned-IsBijective path fresh;
    below_next =
        λ p i h. ground (arith, lookup-insert p path m.next m.path_to_inode, v.below_next p i);
    root = ground (arith, lookup-insert [] path m.next m.path_to_inode, v.root);
  }

  -- A valid map stays valid under `intern` while the counter does not wrap.
  pub intern-IsValid : (path : Str) → m.next + 1 < u64_mod → IsValid (intern m path).1
  unfolding intern inode_for
  intern-IsValid path room = elim (Option-cases (inode_for m path)) [
    | inl e ↦ rw (e, intern) (interned-IsValid path e room)
    | inr (i, e) ↦ rw (e, intern) v
  ]

  -- `intern` returns the inode under which the path is then found, and changes no other path.
  pub inode_for-intern :
      (path q : Str)
      → inode_for (intern m path).1 q
        ≡ (if q == path then some (intern m path).0 else inode_for m q)
  unfolding intern inode_for
  inode_for-intern path q = ground (arith, lookup-insert q path m.next m.path_to_inode)

  pub next-intern : (path : Str) → m.next + 1 < u64_mod → (intern m path).1.next ≤ m.next + 1
  unfolding intern
  next-intern path room = ground arith

module _ (m : PathMap) where
  abbrev pub dropped : Str → ℕ → PathMap
  dropped path ino = record m {
    path_to_inode = erase path m.path_to_inode;
    inode_to_path = erase ino m.inode_to_path;
  }

  pub dropped-IsBijective :
      (path : Str) (ino : ℕ)
      → IsBijective m
      → inode_for m path ≡ some ino
      → IsBijective (dropped path ino)
  unfolding inode_for path_for
  dropped-IsBijective path ino b found = record {
    forth = λ p i h. ground (
      arith,
      lookup-erase p path m.path_to_inode,
      lookup-erase i ino m.inode_to_path,
      b.forth p i,
      b.forth path ino,
    );
    back = λ p i h. ground (
      arith,
      lookup-erase p path m.path_to_inode,
      lookup-erase i ino m.inode_to_path,
      b.back p i,
      b.back path ino,
    );
    nodup = erase-NodupKeys path m.path_to_inode b.nodup;
  }

  pub inode_for-forget :
      (path q : Str) → inode_for (forget m path).1 q ≡ (if q == path then none else inode_for m q)
  unfolding forget inode_for
  inode_for-forget path q = ground (arith, lookup-erase q path m.path_to_inode)

  -- A valid map stays valid when a path other than the root's is forgotten.
  pub forget-IsValid : (path : Str) → IsValid m → path ≢ [] → IsValid (forget m path).1
  unfolding forget inode_for
  forget-IsValid path v n = elim (Option-cases (inode_for m path)) [
    | inl e ↦ rw (e, forget) v
    | inr (ino, e) ↦
        rw (e, forget)
          (record {
            bijective = dropped-IsBijective path ino v.bijective e;
            below_next =
                λ p i h. ground (arith, lookup-erase p path m.path_to_inode, v.below_next p i);
            root = ground (arith, lookup-erase [] path m.path_to_inode, v.root);
          })
  ]

pub next-forget : (m : PathMap) (p : Str) → (forget m p).1.next ≡ m.next
unfolding forget
next-forget m p = ground arith
