-- ===== src/Scanner/Termination.antt =====
-- The walk of mount/src/cache_scanner.rs ends in a directory tree that is finite.
use unidrive_mount_linux.Base.{
  false, Bool-cases, ℕ, zero, suc, ◌+◌, ◌<◌, ◌≡◌, refl, inl, inr, true, Option, some, List, [], ◌∷◌,
  ◌++◌, arith, list_eq, nat_eq, is_some, Option-cases, Str,
}
use unidrive_mount_linux.Base.Exec.{ok, Result-cases}
use unidrive_mount_linux.Scanner.{
  Tree, DirEntry, CacheFile, visit_all, walk, collect_files, Daemon, scan_and_replay,
}
use mathlib.Core.List
use mathlib.Core.List.{reverse}

module _ (weight : Str → ℕ) where
  abbrev pub total : List Str → ℕ
  total [] = 0
  total (d ∷ ds) = weight d + total ds

  total-append : (ds es : List Str) → total (ds ++ es) ≡ total ds + total es
  total-append [] es = omega arith
  total-append (d ∷ ds) es = omega (arith, total-append ds es)

  total-reverse_aux : (ds es : List Str) → total (List.reverse_aux ds es) ≡ total ds + total es
  total-reverse_aux [] es = omega arith
  total-reverse_aux (d ∷ ds) es = omega (arith, total-reverse_aux ds (d ∷ es))

-- The tree below each directory is finite: a directory weighs more than the folders in it.
pub record IsFinite (t : Tree) (root : Str) (weight : Str → ℕ) : Type 0 where
  pub positive : (d : Str) → 0 < weight d
  pub heavier :
      (d : Str) (es : List (Option DirEntry)) (ds : List Str) (fs : List CacheFile)
      → t.read_dir d ≡ some es
      → visit_all t root es ≡ ok (ds, fs)
      → total weight ds < weight d

module _ (t : Tree) (root : Str) (weight : Str → ℕ) (finite : IsFinite t root weight) where
  walk_ends :
      (n : ℕ) (stack : List Str) (out : List CacheFile)
      → total weight stack < n
      → is_some (walk t root n stack out) ≡ true
  unfolding walk
  walk_ends zero stack out h = absurd (omega arith)
  walk_ends (suc n) [] out h = refl
  walk_ends (suc n) (d ∷ stack) out h = elim (Option-cases (t.read_dir d)) [
    | inl r ↦ rw (r, walk) (walk_ends n stack out (omega (arith, finite.positive d)))
    | inr (es, r) ↦ elim (Result-cases (visit_all t root es)) [
      | inr (u, v) ↦ rw (r, v, walk) refl
      | inl ((ds, fs), v) ↦
          rw (r, v, walk)
            (walk_ends n (reverse ds ++ stack) (out ++ fs) (
              omega (
                arith,
                finite.heavier d es ds fs r v,
                total-append weight (reverse ds) stack,
                total-reverse_aux weight ds [],
              )))
    ]
  ]

  -- Where every directory weighs more than the folders found in it, one round more than the root
  -- weighs is enough: the scan ends, with the files or with the error of an entry.
  pub collect_files-ends :
      (n : ℕ) (dir : Str)
      → t.canonicalize dir ≡ some root
      → weight root < n
      → is_some (collect_files t n dir) ≡ true
  unfolding collect_files
  collect_files-ends n dir c h = rw (c, collect_files) (walk_ends n (root ∷ []) [] (omega arith))

-- So does the whole scan, and the uploads that follow it.
pub scan_and_replay-ends :
    {S : Type 0} (t : Tree) (d : Daemon S) (weight : Str → ℕ) (n : ℕ) (dir : Str) (s : S)
    → ((root : Str) → t.canonicalize dir ≡ some root → IsFinite t root weight × (weight root < n))
    → is_some (scan_and_replay t d n dir s) ≡ true
unfolding scan_and_replay
scan_and_replay-ends t d weight n dir s h = elim (Bool-cases (t.exists dir)) [
  | inr e ↦ rw (e, scan_and_replay) refl
  | inl e ↦ elim (Option-cases (t.canonicalize dir)) [
    | inl c ↦ rw (e, c, scan_and_replay) refl
    | inr (root, c) ↦
        let (finite, enough) = h root c in
        let ends = collect_files-ends t root weight finite n dir c enough in
        elim (Option-cases (collect_files t n dir)) [
          | inl o ↦ absurd (let no : false ≡ true = rw o at ends in cc)
          | inr (x, o) ↦ elim (Result-cases x) [
            | inl (files, r) ↦ rw (e, c, o, r, scan_and_replay) refl
            | inr (u, r) ↦ rw (e, c, o, r, scan_and_replay) refl
          ]
        ]
  ]
]
