-- ===== src/Scanner/Listing.antt =====
-- What one directory adds to the walk of mount/src/cache_scanner.rs.
use unidrive_mount_linux.Base.{
  ◌≡◌, ◌≢◌, refl, ap, ◌⊎◌, inl, inr, Option, List, [], ◌∷◌, arith, list_eq, nat_eq, Str,
}
use unidrive_mount_linux.Base.Exec.{ok, Result-cases}
use unidrive_mount_linux.Scanner.{
  Tree, DirEntry, CacheFile, Found, nothing, folder, file, visit, visit_all, add_found,
}
use mathlib.Core.List.{Memᴰ}
use mathlib.Core.List.Memᴰ

module _ (t : Tree) (root : Str) where
  -- What an entry of a listing adds.
  abbrev pub Adds : List (Option DirEntry) → Found → Type 0
  Adds es x = (e : Option DirEntry) × Memᴰ e es × (visit t root e ≡ ok x)

  -- What a list of folders and one of files hold.
  abbrev pub In : Found → List Str × List CacheFile → Type 0
  In nothing acc = ⊥
  In (folder d) acc = Memᴰ d acc.0
  In (file f) acc = Memᴰ f acc.1

  In-empty : (y : Found) → In y ([], []) → ⊥
  In-empty nothing h = h
  In-empty (folder d) h = Memᴰ.not-nil h
  In-empty (file f) h = Memᴰ.not-nil h

  add_found-In :
      (x y : Found) (acc : List Str × List CacheFile)
      → In y (add_found t root x acc)
      → (y ≡ x) ⊎ In y acc
  unfolding add_found
  add_found-In nothing y acc h = inr h
  add_found-In (folder d) nothing acc h = inr h
  add_found-In (folder d) (folder e) acc h = elim (Memᴰ.cases_cons h) [
    | inl same ↦ inl (ap folder same)
    | inr m ↦ inr m
  ]
  add_found-In (folder d) (file g) acc h = inr h
  add_found-In (file f) nothing acc h = inr h
  add_found-In (file f) (folder e) acc h = inr h
  add_found-In (file f) (file g) acc h = elim (Memᴰ.cases_cons h) [
    | inl same ↦ inl (ap file same)
    | inr m ↦ inr m
  ]

  In-add_found :
      (x y : Found) (acc : List Str × List CacheFile) → In y acc → In y (add_found t root x acc)
  unfolding add_found
  In-add_found nothing y acc h = h
  In-add_found (folder d) nothing acc h = h
  In-add_found (folder d) (folder e) acc h = Memᴰ.tail h
  In-add_found (folder d) (file g) acc h = h
  In-add_found (file f) nothing acc h = h
  In-add_found (file f) (folder e) acc h = h
  In-add_found (file f) (file g) acc h = Memᴰ.tail h

  add_found_new :
      (x : Found) (acc : List Str × List CacheFile) → x ≢ nothing → In x (add_found t root x acc)
  unfolding add_found
  add_found_new nothing acc h = absurd (h refl)
  add_found_new (folder d) acc h = Memᴰ.head refl
  add_found_new (file f) acc h = Memᴰ.head refl

  visit_all-eq_ok :
      (e : Option DirEntry) (es : List (Option DirEntry)) {acc : List Str × List CacheFile}
      → visit_all t root (e ∷ es) ≡ ok acc
      → (x : Found) × (visit t root e ≡ ok x)
        × (rest : List Str × List CacheFile) × (visit_all t root es ≡ ok rest)
        × (acc ≡ add_found t root x rest)
  unfolding visit_all
  visit_all-eq_ok e es q = elim (Result-cases (visit t root e)) [
    | inr (u, r) ↦ absurd (ground arith)
    | inl (x, r) ↦ elim (Result-cases (visit_all t root es)) [
      | inr (u, k) ↦ absurd (ground arith)
      | inl (rest, k) ↦ (x, r, rest, k, ground arith)
    ]
  ]

  -- A listing that can be read whole gives nothing but the folders and the files of its entries,
  pub visit_all-In :
      (es : List (Option DirEntry)) (acc : List Str × List CacheFile) (y : Found)
      → visit_all t root es ≡ ok acc
      → In y acc
      → Adds es y
  visit_all-In [] acc y q h =
      let same : acc ≡ ([], []) = unfold visit_all in (cc) in absurd (In-empty y (rw same at h))
  visit_all-In (e ∷ es) acc y q h =
      let (x, r, rest, k, same) = visit_all-eq_ok e es q in
      elim (add_found-In x y rest (rw same at h)) [
        | inl this ↦ (e, Memᴰ.head refl, rw this r)
        | inr m ↦ (let (e', i, v) = visit_all-In es rest y k m in (e', Memᴰ.tail i, v))
      ]

  -- and all of them.
  pub In-visit_all :
      (es : List (Option DirEntry)) (acc : List Str × List CacheFile) (y : Found)
      → visit_all t root es ≡ ok acc
      → y ≢ nothing
      → Adds es y
      → In y acc
  In-visit_all [] acc y q n (e, i, v) = absurd (Memᴰ.not-nil i)
  In-visit_all (e ∷ es) acc y q n (e', i, v) =
      let (x, r, rest, k, same) = visit_all-eq_ok e es q in
      elim (Memᴰ.cases_cons i) [
        | inl this ↦
            (let found : x ≡ y = (let v' : visit t root e ≡ ok y = rw (← this) v in cc) in
              rw (same, found) (add_found_new y rest n))
        | inr m ↦ rw same (In-add_found x y rest (In-visit_all es rest y k n (e', m, v)))
      ]
