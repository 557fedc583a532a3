-- ===== src/Scanner/Files.antt =====
-- Which files mount/src/cache_scanner.rs collects.
use unidrive_mount_linux.Base.{
  ℕ, zero, suc, ◌≡◌, ◌↔◌, refl, ◌⊎◌, inl, inr, true, Option, none, some, List, [], ◌∷◌, ◌++◌,
  list_eq, nat_eq, Option-cases, Str,
}
use unidrive_mount_linux.Base.Exec.{ok, err, Result-cases}
use unidrive_mount_linux.Scanner.{
  Tree, DirEntry, CacheFile, folder, file, visit_all, walk, collect_files, is_under, directory,
  regular,
}
use unidrive_mount_linux.Scanner.Entries.{IsEntry, IsNamed, Adds-folder, Adds-file}
use unidrive_mount_linux.Scanner.Listing.{Adds, visit_all-In, In-visit_all}
use mathlib.Core.List.{Memᴰ, reverse}
use mathlib.Core.List.Memᴰ
use mathlib.Core.List

module _ {A : Type 0} {a : A} where
  reverse_aux-cases : (xs r : List A) → Memᴰ a (List.reverse_aux xs r) → Memᴰ a xs ⊎ Memᴰ a r
  reverse_aux-cases [] r m = inr m
  reverse_aux-cases (x ∷ xs) r m = elim (reverse_aux-cases xs (x ∷ r) m) [
    | inl i ↦ inl (Memᴰ.tail i)
    | inr i ↦ elim (Memᴰ.cases_cons i) [ inl e ↦ inl (Memᴰ.head e) | inr k ↦ inr k ]
  ]

  reverse_aux_right : (xs r : List A) → Memᴰ a r → Memᴰ a (List.reverse_aux xs r)
  reverse_aux_right [] r m = m
  reverse_aux_right (x ∷ xs) r m = reverse_aux_right xs (x ∷ r) (Memᴰ.tail m)

  reverse_aux_left : (xs r : List A) → Memᴰ a xs → Memᴰ a (List.reverse_aux xs r)
  reverse_aux_left [] r m = absurd (Memᴰ.not-nil m)
  reverse_aux_left (x ∷ xs) r m = elim (Memᴰ.cases_cons m) [
    | inl e ↦ reverse_aux_right xs (x ∷ r) (Memᴰ.head e)
    | inr i ↦ reverse_aux_left xs (x ∷ r) i
  ]

module _ (t : Tree) (root : Str) where
  -- The files at or below a directory: a regular file that is an entry of it, under its remote path,
  -- or a file at or below one of the folders that are its entries.
  pub data Holds : Str → CacheFile → Type 0 where
    directly :
        {d : Str} {f : CacheFile} {es : List (Option DirEntry)}
        → t.read_dir d ≡ some es
        → IsEntry t root regular es f.0
        → IsNamed t root f
        → Holds d f
    below :
        {d sub : Str} {f : CacheFile} {es : List (Option DirEntry)}
        → t.read_dir d ≡ some es
        → IsEntry t root directory es sub
        → Holds sub f
        → Holds d f

  -- What a walk has collected, or will find below the directories of its stack.
  abbrev Ahead : List Str → List CacheFile → CacheFile → Type 0
  Ahead stack out f = Memᴰ f out ⊎ ((d : Str) × Memᴰ d stack × Holds d f)

  Holds-cases :
      {d : Str} {f : CacheFile}
      → Holds d f
      → (es : List (Option DirEntry)) × (t.read_dir d ≡ some es)
        × (Adds t root es (file f) ⊎ ((sub : Str) × Adds t root es (folder sub) × Holds sub f))
  Holds-cases {f = f} (directly {es = es} r e n) = (es, r, inl ((Adds-file t root es f).1 (e, n)))
  Holds-cases (below {sub = sub} {es = es} r e h) =
      (es, r, inr (sub, (Adds-folder t root es sub).1 e, h))

  Holds-added :
      {d : Str} {f : CacheFile} {es : List (Option DirEntry)}
      → t.read_dir d ≡ some es
      → Adds t root es (file f)
      → Holds d f
  Holds-added {f = f} {es = es} r a = (let (e, n) = (Adds-file t root es f).0 a in directly r e n)

  Ahead-unreadable :
      (d : Str) (stack : List Str) (out : List CacheFile) (f : CacheFile)
      → t.read_dir d ≡ none
      → Ahead stack out f ↔ Ahead (d ∷ stack) out f
  Ahead-unreadable d stack out f n = (
    λ a. elim a [ inl m ↦ inl m | inr (e, i, h) ↦ inr (e, Memᴰ.tail i, h) ],
    λ a. elim a [
      | inl m ↦ inl m
      | inr (e, i, h) ↦ elim (Memᴰ.cases_cons i) [
        | inr k ↦ inr (e, k, h)
        | inl same ↦
            (let (es, r, found) = Holds-cases h in
              let r' : t.read_dir d ≡ some es = rw (← same) r in absurd (cc))
      ]
    ],
  )

  Ahead-listed :
      (d : Str) (stack : List Str) (out : List CacheFile) (f : CacheFile)
      (es : List (Option DirEntry)) (ds : List Str) (fs : List CacheFile)
      → t.read_dir d ≡ some es
      → visit_all t root es ≡ ok (ds, fs)
      → Ahead (reverse ds ++ stack) (out ++ fs) f ↔ Ahead (d ∷ stack) out f
  Ahead-listed d stack out f es ds fs r v = (
    λ a. elim a [
      | inl m ↦ elim (Memᴰ.append_cases out m) [
        | inl i ↦ inl i
        | inr i ↦
            inr (d, Memᴰ.head refl, Holds-added r (visit_all-In t root es (ds, fs) (file f) v i))
      ]
      | inr (e, i, h) ↦ elim (Memᴰ.append_cases (reverse ds) i) [
        | inr k ↦ inr (e, Memᴰ.tail k, h)
        | inl k ↦ elim (reverse_aux-cases ds [] k) [
          | inl j ↦ inr (
            d,
            Memᴰ.head refl,
            below r ((Adds-folder t root es e).0 (visit_all-In t root es (ds, fs) (folder e) v j))
                h,
          )
          | inr j ↦ absurd (Memᴰ.not-nil j)
        ]
      ]
    ],
    λ a. elim a [
      | inl m ↦ inl (Memᴰ.append_left fs m)
      | inr (e, i, h) ↦ elim (Memᴰ.cases_cons i) [
        | inr k ↦ inr (e, Memᴰ.append_right (reverse ds) k, h)
        | inl same ↦
            (let (es', r', found) = Holds-cases h in
              let listing : es' ≡ es = (let r2 : t.read_dir d ≡ some es' = rw (← same) r' in cc) in
              elim found [
                | inl adds ↦ inl (
                    Memᴰ.append_right out
                      (In-visit_all t root es (ds, fs) (file f) v (λ q. cc) (rw listing at adds)))
                | inr (sub, adds, h') ↦ inr (
                  sub,
                  Memᴰ.append_left stack (
                      reverse_aux_left ds [] (
                        In-visit_all t root es (ds, fs) (folder sub) v (λ q. cc)
                          (rw listing at adds))),
                  h',
                )
              ])
      ]
    ],
  )

  walk_exact :
      (n : ℕ) (stack : List Str) (out files : List CacheFile) (f : CacheFile)
      → walk t root n stack out ≡ some (ok files)
      → Memᴰ f files ↔ Ahead stack out f
  unfolding walk
  walk_exact zero stack out files f q = absurd (cc)
  walk_exact (suc n) [] out files f q =
      let same : out ≡ files = cc in
      (
        λ m. inl (rw same m),
        λ a. elim a [ inl m ↦ rw (← same) m | inr (d, i, h) ↦ absurd (Memᴰ.not-nil i) ],
      )
  walk_exact (suc n) (d ∷ stack) out files f q = elim (Option-cases (t.read_dir d)) [
    | inl r ↦
        let ih = walk_exact n stack out files f (rw (r, walk) at q) in
        let step = Ahead-unreadable d stack out f r in (λ m. step.0 (ih.0 m), λ a. ih.1 (step.1 a))
    | inr (es, r) ↦ elim (Result-cases (visit_all t root es)) [
      | inr (u, v) ↦ absurd (let no : some (err u) ≡ some (ok files) = rw (r, v, walk) at q in cc)
      | inl ((ds, fs), v) ↦
          let ih = walk_exact n (reverse ds ++ stack) (out ++ fs) files f (rw (r, v, walk) at q) in
          let step = Ahead-listed d stack out f es ds fs r v in
          (λ m. step.0 (ih.0 m), λ a. ih.1 (step.1 a))
    ]
  ]

  Holds-under : {d : Str} {f : CacheFile} → Holds d f → is_under root f.0 ≡ true
  Holds-under (directly r (e, i, k, c, b) n) = b
  Holds-under (below r e h) = Holds-under h

-- A scan that succeeds has collected exactly the files at or below the canonical root, through the
-- folders that are no links and whose canonical path is under the root; each has what follows the root
-- as its remote path, and is under the root itself.
pub collect_files_exact :
    (t : Tree) (n : ℕ) (dir root : Str) (files : List CacheFile)
    → t.canonicalize dir ≡ some root
    → collect_files t n dir ≡ some (ok files)
    → (f : CacheFile)
    → (Memᴰ f files ↔ Holds t root root f) × (Memᴰ f files → is_under root f.0 ≡ true)
unfolding collect_files
collect_files_exact t n dir root files c q f =
    let exact = walk_exact t root n (root ∷ []) [] files f (rw (c, collect_files) at q) in
    let found : Memᴰ f files → Holds t root root f = (λ m. elim (exact.0 m) [
      | inl i ↦ absurd (Memᴰ.not-nil i)
      | inr (d, i, h) ↦ rw (Memᴰ.eq_of_singleton i) at h
    ]) in
    ((found, λ h. exact.1 (inr (root, Memᴰ.head refl, h))), λ m. Holds-under t root (found m))
