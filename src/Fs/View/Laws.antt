-- ===== src/Fs/View/Laws.antt =====
-- What `ViewCache::apply` of mount/src/fuse_fs.rs drops and what it keeps.
use unidrive_mount_linux.PathMap
use unidrive_mount_linux.Base.{
  ℕ, ◌≡◌, refl, ◌↔◌, ◌⊎◌, inl, inr, true, ◌&&◌, not, none, some, List, [], ◌∷◌, arith, contains,
  list_eq, nat_eq, if◌then◌else◌, Bool-cases, Str, ◌==◌, Option-cases, ap, ◌∙◌,
}
use mathlib.Core.List.{Memᴰ}
use mathlib.Core.List.Memᴰ
use unidrive_mount_linux.Fs.{Fs, OpenHandle}
use unidrive_mount_linux.Fs.View.{apply, drop_attrs, inodes_of, kept_inodes, unsent}
use unidrive_mount_linux.Subscribe.{Invalidation, all, paths}
use unidrive_mount_linux.Attr.{CachedAttr}
use unidrive_mount_linux.Base.Dict.{Dict, lookup, erase, lookup-erase, lookup-retain}
use unidrive_mount_linux.PathMap.{PathMap}
use unidrive_mount_linux.PathMap.Bijection.{IsBijective}
use unidrive_mount_linux.PathMap.Ancestors.{AtOrBelow}
use unidrive_mount_linux.PathMap.Members.{inodes_at_or_below_exact}

contains-unsent :
    {F : Type 0} (d : Dict ℕ (OpenHandle F)) (fh : ℕ) {o : OpenHandle F}
    → lookup fh d ≡ some o
    → o.dirty ≡ true
    → contains (unsent d) o.remote_path ≡ true
unfolding unsent lookup
contains-unsent [] fh e t = cc
contains-unsent ((k, p) ∷ d) fh {o} e t = ground (arith, contains-unsent d fh {o = o})

contains-inodes_of :
    (m : PathMap) (ps : List Str) (p : Str) (i : ℕ)
    → contains ps p ≡ true
    → PathMap.inode_for m p ≡ some i
    → contains (inodes_of m ps) i ≡ true
unfolding inodes_of
contains-inodes_of m [] p i c e = cc
contains-inodes_of m (q ∷ qs) p i c e = ground (arith, contains-inodes_of m qs p i)

contains-unsent_exact :
    {F : Type 0} (d : Dict ℕ (OpenHandle F)) (p : Str)
    → contains (unsent d) p ≡ true
    → (fh : ℕ) × (o : OpenHandle F) × Memᴰ (fh, o) d × (o.dirty ≡ true) × (o.remote_path ≡ p)
unfolding unsent
contains-unsent_exact [] p c = absurd (cc)
contains-unsent_exact ((fh, o) ∷ d) p c = elim (Bool-cases o.dirty) [
  | inr n ↦
      let (fh', o', m, t, e) = contains-unsent_exact d p (rw n at c) in (fh', o', Memᴰ.tail m, t, e)
  | inl t ↦ elim (Bool-cases (p == o.remote_path)) [
    | inl y ↦ (fh, o, Memᴰ.head refl, t, ground arith)
    | inr n ↦
        let (fh', o', m, t', e) = contains-unsent_exact d p (ground arith) in
        (fh', o', Memᴰ.tail m, t', e)
  ]
]

contains-inodes_of_exact :
    (m : PathMap) (ps : List Str) (i : ℕ)
    → contains (inodes_of m ps) i ≡ true
    → (p : Str) × (contains ps p ≡ true) × (PathMap.inode_for m p ≡ some i)
unfolding inodes_of
contains-inodes_of_exact m [] i c = absurd (cc)
contains-inodes_of_exact m (q ∷ qs) i c = elim (Option-cases (PathMap.inode_for m q)) [
  | inl n ↦
      let (p, known, e) = contains-inodes_of_exact m qs i (ground arith) in (p, ground arith, e)
  | inr (j, y) ↦ elim (Bool-cases (i == j)) [
    | inl same ↦ (q, ground arith, ground arith)
    | inr n ↦
        let (p, known, e) = contains-inodes_of_exact m qs i (ground arith) in (p, ground arith, e)
  ]
]

lookup-drop_attrs :
    (keep inos : List ℕ) (attrs : Dict ℕ CachedAttr) (i : ℕ)
    → lookup i (drop_attrs keep inos attrs)
      ≡ (if contains inos i && not (contains keep i) then none else lookup i attrs)
unfolding drop_attrs
lookup-drop_attrs keep [] attrs i = refl
lookup-drop_attrs keep (j ∷ inos) attrs i = ground (
  arith,
  lookup-drop_attrs keep inos (if contains keep j then attrs else erase j attrs) i,
  lookup-erase i j attrs,
)

pub lookup-apply_all :
    {F : Type 0} (fs : Fs F) (i : ℕ)
    → lookup i (apply all fs).attrs
      ≡ (if contains (kept_inodes fs) i then lookup i fs.attrs else none)
unfolding apply
lookup-apply_all fs i = lookup-retain (contains (kept_inodes fs)) i fs.attrs

pub lookup-apply_paths :
    {F : Type 0} (fs : Fs F) (roots : List Str) (i : ℕ)
    → lookup i (apply (paths roots) fs).attrs ≡ (
        if contains (PathMap.inodes_at_or_below fs.paths roots) i
          && not (contains (kept_inodes fs) i)
        then none
        else lookup i fs.attrs)
unfolding apply
lookup-apply_paths fs roots i =
    lookup-drop_attrs (kept_inodes fs) (PathMap.inodes_at_or_below fs.paths roots) fs.attrs i

contains-kept_inodes :
    {F : Type 0} (fs : Fs F) (fh i : ℕ) {o : OpenHandle F}
    → lookup fh fs.open_handles ≡ some o
    → o.dirty ≡ true
    → PathMap.inode_for fs.paths o.remote_path ≡ some i
    → contains (kept_inodes fs) i ≡ true
unfolding kept_inodes
contains-kept_inodes fs fh i {o} e t p =
    contains-inodes_of fs.paths (unsent fs.open_handles) o.remote_path i
      (contains-unsent fs.open_handles fh {o = o} e t) p

-- Some open handle with unsent local writes has a path that is known as the inode.
abbrev pub HasUnsent : {F : Type 0} → Fs F → ℕ → Type 0
HasUnsent {F} fs i =
    (fh : ℕ) × (o : OpenHandle F) × Memᴰ (fh, o) fs.open_handles
    × (o.dirty ≡ true)
    × (PathMap.inode_for fs.paths o.remote_path ≡ some i)

contains-unsent_of :
    {F : Type 0} (d : Dict ℕ (OpenHandle F)) {fh : ℕ} {o : OpenHandle F}
    → Memᴰ (fh, o) d
    → o.dirty ≡ true
    → contains (unsent d) o.remote_path ≡ true
unfolding unsent
contains-unsent_of [] m t = absurd (Memᴰ.not-nil m)
contains-unsent_of ((k, p) ∷ d) {fh} {o} m t = elim (Memᴰ.cases_cons m) [
  | inl e ↦ (let same : o ≡ p = ap (λ x. x.1) e in ground arith)
  | inr later ↦ (let rest = contains-unsent_of d {fh = fh} {o = o} later t in ground arith)
]

-- The inodes that are kept are those with unsent writes.
pub kept_inodes_exact :
    {F : Type 0} (fs : Fs F) (i : ℕ) → (contains (kept_inodes fs) i ≡ true) ↔ HasUnsent fs i
unfolding kept_inodes
kept_inodes_exact fs i = (
  λ c.
      let (p, known, e) = contains-inodes_of_exact fs.paths (unsent fs.open_handles) i c in
      let (fh, o, m, t, same) = contains-unsent_exact fs.open_handles p known in
      (fh, o, m, t, ap (PathMap.inode_for fs.paths) same ∙ e),
  λ (fh, o, m, t, e).
      contains-inodes_of fs.paths (unsent fs.open_handles) o.remote_path i
        (contains-unsent_of fs.open_handles {fh = fh} {o = o} m t) e,
)

-- No invalidation changes the cached attributes of an inode that the path of an open handle with
-- unsent local writes has.
pub apply-unsent :
    {F : Type 0} (fs : Fs F) (c : Invalidation) (fh i : ℕ) {o : OpenHandle F}
    → lookup fh fs.open_handles ≡ some o
    → o.dirty ≡ true
    → PathMap.inode_for fs.paths o.remote_path ≡ some i
    → lookup i (apply c fs).attrs ≡ lookup i fs.attrs
apply-unsent fs all fh i {o} e t p =
    ground (arith, lookup-apply_all fs i, contains-kept_inodes fs fh i {o = o} e t p)
apply-unsent fs (paths roots) fh i {o} e t p =
    ground (arith, lookup-apply_paths fs roots i, contains-kept_inodes fs fh i {o = o} e t p)

-- When the path map is valid, an invalidation of paths leaves cached attributes in place exactly
-- where they were cached before and the inode is the one that the path of an open handle with
-- unsent local writes has, or its path is none of the named ones and is not below one of them other
-- than "".
pub apply-paths_exact :
    {F : Type 0} (fs : Fs F) (roots : List Str) (i : ℕ) (a : CachedAttr)
    → IsBijective fs.paths
    → (lookup i (apply (paths roots) fs).attrs ≡ some a) ↔ (
        (lookup i fs.attrs ≡ some a)
        × (HasUnsent fs i
            ⊎ ¬ (
                (p : Str) × (q : Str) × (PathMap.path_for fs.paths i ≡ some p)
                × (contains roots q ≡ true)
                × AtOrBelow p q)))
apply-paths_exact fs roots i a b = (
  λ e.
      let known : lookup i fs.attrs ≡ some a = ground (arith, lookup-apply_paths fs roots i) in
      elim (Bool-cases (contains (kept_inodes fs) i)) [
        | inl k ↦ (known, inl ((kept_inodes_exact fs i).0 k))
        | inr k ↦ (
          known,
          inr (λ w.
              let below = (inodes_at_or_below_exact fs.paths roots i b).1 w in
              ground (arith, lookup-apply_paths fs roots i)),
        )
      ],
  λ (e, w). elim (Bool-cases (contains (PathMap.inodes_at_or_below fs.paths roots) i)) [
    | inr n ↦ ground (arith, lookup-apply_paths fs roots i)
    | inl c ↦ elim w [
      | inl u ↦
          let k = (kept_inodes_exact fs i).1 u in ground (arith, lookup-apply_paths fs roots i)
      | inr n ↦ absurd (n ((inodes_at_or_below_exact fs.paths roots i b).0 c))
    ]
  ],
)

-- An invalidation of everything leaves exactly the cached attributes of the inodes that the paths of
-- open handles with unsent local writes have.
pub apply-all_exact :
    {F : Type 0} (fs : Fs F) (i : ℕ) (a : CachedAttr)
    → (lookup i (apply all fs).attrs ≡ some a) ↔ ((lookup i fs.attrs ≡ some a) × HasUnsent fs i)
apply-all_exact fs i a = (
  λ e.
      let kept : contains (kept_inodes fs) i ≡ true = ground (arith, lookup-apply_all fs i) in
      (ground (arith, lookup-apply_all fs i), (kept_inodes_exact fs i).0 kept),
  λ (e, u). let kept = (kept_inodes_exact fs i).1 u in ground (arith, lookup-apply_all fs i),
)

-- An invalidation caches nothing.
pub known_of_apply :
    {F : Type 0} (c : Invalidation) (fs : Fs F) (i : ℕ) {a : CachedAttr}
    → lookup i (apply c fs).attrs ≡ some a
    → lookup i fs.attrs ≡ some a
known_of_apply all fs i {a} e = ((apply-all_exact fs i a).0 e).0
known_of_apply (paths roots) fs i {a} e = ground (arith, lookup-apply_paths fs roots i)
