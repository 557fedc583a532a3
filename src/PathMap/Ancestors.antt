-- ===== src/PathMap/Ancestors.antt =====
-- `is_at_or_below` of path_map.rs walks up the ancestors of a path: it meets exactly them.
use unidrive_mount_linux.Base.{
  take-append, ℕ, zero, suc, ◌+◌, ◌<◌, ◌≡◌, ◌≢◌, ◌↔◌, ◌⊎◌, inl, inr, refl, ap, ◌∙◌, true, some,
  List, [], ◌∷◌, ◌++◌, arith, append_assoc, nat_eq, list_eq, contains, length, length-append, take,
  Str, slash, rfind, rfind-append, rfind-eq_some, after_match, Bool-cases, Option-cases,
}
use mathlib.Core.Path.{subst, sym}
use unidrive_mount_linux.PathMap.{below_loop, is_at_or_below}

-- `p` is `q`, or `q` is an ancestor of `p` other than the root "".
abbrev pub AtOrBelow : Str → Str → Type 0
AtOrBelow p q = (p ≡ q) ⊎ ((q ≢ []) × (rest : Str) × (p ≡ q ++ (slash ∷ rest)))

take-append_past :
    (q s : Str) (c j : ℕ) → take (length q + suc j) (q ++ (c ∷ s)) ≡ q ++ (c ∷ take j s)
take-append_past [] s c j = ground arith
take-append_past (d ∷ q) s c j =
    let e : suc (length q) + suc j ≡ suc (length q + suc j) = omega arith in
    rw e (ap (λ t. d ∷ t) (take-append_past q s c j))

AtOrBelow-climb : (t q r : Str) → AtOrBelow t q → t ≢ [] → AtOrBelow (t ++ (slash ∷ r)) q
AtOrBelow-climb t q r (inl e) n = inr (λ z. n (e ∙ z), r, ap (λ s. s ++ (slash ∷ r)) e)
AtOrBelow-climb t q r (inr (n, rest, e)) _ = inr (
  n,
  rest ++ (slash ∷ r),
  ap (λ s. s ++ (slash ∷ r)) e ∙ append_assoc q (slash ∷ rest) (slash ∷ r),
)

-- One round of the loop: the index that `rfind` gives, and what lies before it.
AtOrBelow-descend :
    (q rest : Str)
    → q ≢ []
    → (i : ℕ) × (rfind slash (q ++ (slash ∷ rest)) ≡ some (suc i))
      × AtOrBelow (take (suc i) (q ++ (slash ∷ rest))) q
AtOrBelow-descend [] rest n = absurd (n refl)
AtOrBelow-descend (c ∷ q) rest n = elim (Option-cases (rfind slash rest)) [
  | inl e ↦ (
    length q,
    rfind-append slash (c ∷ q) rest ∙ ap (after_match (suc (length q))) e,
    inl (take-append (c ∷ q) (slash ∷ rest)),
  )
  | inr (j, e) ↦ (
    length q + suc j,
    rfind-append slash (c ∷ q) rest ∙ ground (arith, e),
    inr (n, take j rest, ground (arith, take-append_past q rest slash j)),
  )
]

take_shorter : (p : Str) (i : ℕ) → rfind slash p ≡ some (suc i) → length (take (suc i) p) < length p
take_shorter p i h =
    let (r, e, _, n) = rfind-eq_some slash p (suc i) h in
    omega (arith, ap length e, length-append (take (suc i) p) (slash ∷ r), n)

module _ (roots : List Str) where
  below_loop_sound :
      (f : ℕ) (p : Str)
      → below_loop f roots p ≡ true
      → (q : Str) × (contains roots q ≡ true) × AtOrBelow p q
  unfolding below_loop
  below_loop_sound zero p h = cc
  below_loop_sound (suc f) p h = elim (Bool-cases (contains roots p)) [
    | inl here ↦ (p, here, inl refl)
    | inr out ↦ elim (Option-cases (rfind slash p)) [
      | inl e ↦ absurd (ground arith)
      | inr (zero, e) ↦ absurd (ground arith)
      | inr (suc i, e) ↦
          let (q, c, b) = below_loop_sound f (take (suc i) p) (ground arith) in
          let (r, s, _, n) = rfind-eq_some slash p (suc i) e in
          (
            q,
            c,
            subst (λ t. AtOrBelow t q) (sym s)
                (AtOrBelow-climb (take (suc i) p) q r b (λ z. omega (arith, ap length z, n))),
          )
    ]
  ]

  below_loop_complete :
      (f : ℕ) (p q : Str)
      → length p < f
      → contains roots q ≡ true
      → AtOrBelow p q
      → below_loop f roots p ≡ true
  unfolding below_loop
  below_loop_complete zero p q l c b = absurd (omega arith)
  below_loop_complete (suc f) p q l c (inl e) = rw e (ground arith)
  below_loop_complete (suc f) p q l c (inr (n, rest, e)) =
      let (i, found, b) = AtOrBelow-descend q rest n in
      let found' : rfind slash p ≡ some (suc i) = rw e found in
      let b' : AtOrBelow (take (suc i) p) q = rw e b in
      let short = take_shorter p i found' in
      ground (arith, below_loop_complete f (take (suc i) p) q (omega arith) c b')

-- A path is accepted exactly when a root is the path itself or a non-empty ancestor of it.
pub is_at_or_below_exact :
    (p : Str) (roots : List Str)
    → (is_at_or_below p roots ≡ true) ↔ ((q : Str) × (contains roots q ≡ true) × AtOrBelow p q)
unfolding is_at_or_below
is_at_or_below_exact p roots = (
  below_loop_sound roots (suc (length p)) p,
  λ (q, c, b). below_loop_complete roots (suc (length p)) p q (omega arith) c b,
)
