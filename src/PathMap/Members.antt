-- ===== src/PathMap/Members.antt =====
-- `inodes_at_or_below` of path_map.rs: which inodes it lists.
use unidrive_mount_linux.PathMap.Ancestors.{AtOrBelow, is_at_or_below_exact}
use unidrive_mount_linux.PathMap.{inode_for, inodes_at_or_below, select, PathMap, path_for}
use unidrive_mount_linux.Base.Dict.{lookup, Dict, NodupKeys}
use unidrive_mount_linux.PathMap.Bijection.{IsBijective}
use unidrive_mount_linux.Base.{
  ℕ, ◌≡◌, ◌↔◌, inl, inr, Bool, true, ◌&&◌, false≢true, some, List, [], ◌∷◌, arith, ◌==◌, contains,
  list_eq, nat_eq, Bool-cases, Str,
}

select-contains :
    (f : Str → Bool) (d : Dict Str ℕ) (i : ℕ) (p : Str)
    → lookup p d ≡ some i
    → f p ≡ true
    → contains (select f d) i ≡ true
unfolding select lookup
select-contains f [] i p h k = cc
select-contains f ((q, j) ∷ d) i p h k = ground (arith, select-contains f d i p)

contains-select :
    (f : Str → Bool) (d : Dict Str ℕ) (i : ℕ)
    → NodupKeys d
    → contains (select f d) i ≡ true
    → (p : Str) × (lookup p d ≡ some i) × (f p ≡ true)
unfolding select lookup
contains-select f [] i u h = absurd (false≢true h)
contains-select f ((q, j) ∷ d) i (fresh, u) h = elim (Bool-cases (f q && (i == j))) [
  | inl e ↦ (q, ground arith, ground arith)
  | inr e ↦
      let (p, a, b) = contains-select f d i u (ground arith) in (p, ground (arith, a, fresh), b)
]

-- In a bijective map an inode is listed exactly when its path is one of the roots, or has a root other than "" above it.
pub inodes_at_or_below_exact :
    (m : PathMap) (roots : List Str) (i : ℕ)
    → IsBijective m
    → (contains (inodes_at_or_below m roots) i ≡ true) ↔ (
        (p : Str) × (q : Str) × (path_for m i ≡ some p) × (contains roots q ≡ true) × AtOrBelow p q)
unfolding inodes_at_or_below inode_for
inodes_at_or_below_exact m roots i b = (
  λ h.
      let (p, k, a) = contains-select _ m.path_to_inode i b.nodup h in
      let (q, c, w) = (is_at_or_below_exact p roots).0 a in (p, q, b.forth p i k, c, w),
  λ (p, q, k, c, w).
      select-contains _ m.path_to_inode i p (b.back p i k)
        ((is_at_or_below_exact p roots).1 (q, c, w)),
)
