-- ===== src/Scanner/Entries.antt =====
-- What the loop body of mount/src/cache_scanner.rs makes of one entry.
use unidrive_mount_linux.Base.{
  ◌≡◌, ◌≢◌, ◌↔◌, refl, inl, inr, true, Option, none, some, List, arith, list_eq, nat_eq, Bool-cases,
  Option-cases, Str,
}
use unidrive_mount_linux.Base.Exec.{ok}
use unidrive_mount_linux.Scanner.{
  Tree, DirEntry, FileKind, CacheFile, Found, nothing, folder, file, visit, is_under, remote_path,
  relative, found_folder, found_file, directory, regular, symlink, special,
}
use unidrive_mount_linux.Scanner.Listing.{Adds}
use mathlib.Core.List.{Memᴰ}

module _ (t : Tree) (root : Str) where
  -- A listing has an entry of a kind, whose canonical path is this one and under the root.
  abbrev pub IsEntry : FileKind → List (Option DirEntry) → Str → Type 0
  IsEntry kind es p =
      (e : DirEntry) × Memᴰ (some e) es
      × (e.kind ≡ some kind)
      × (t.canonicalize e.path ≡ some p)
      × (is_under root p ≡ true)

  -- The remote path of a file is what follows the root.
  abbrev pub IsNamed : CacheFile → Type 0
  IsNamed (p, remote) = (rel : Str) × (relative root p ≡ some rel) × (remote ≡ remote_path t rel)

  found_folder-eq :
      (o : Option Str) (x : Found)
      → found_folder t root o ≡ x
      → x ≢ nothing
      → (p : Str) × (o ≡ some p) × (is_under root p ≡ true) × (x ≡ folder p)
  unfolding found_folder
  found_folder-eq none x q n = absurd (n (cc))
  found_folder-eq (some p) x q n = elim (Bool-cases (is_under root p)) [
    | inl b ↦ (p, refl, b, ground arith)
    | inr b ↦ absurd (n (ground arith))
  ]

  found_file-eq :
      (o : Option Str) (x : Found)
      → found_file t root o ≡ x
      → x ≢ nothing
      → (f : CacheFile) × (o ≡ some f.0) × (is_under root f.0 ≡ true) × IsNamed f × (x ≡ file f)
  unfolding found_file
  found_file-eq none x q n = absurd (n (cc))
  found_file-eq (some p) x q n = elim (Bool-cases (is_under root p)) [
    | inr b ↦ absurd (n (let h : nothing ≡ x = rw (b, found_file) at q in cc))
    | inl b ↦ elim (Option-cases (relative root p)) [
      | inl r ↦ absurd (n (let h : nothing ≡ x = rw (b, r, found_file) at q in cc))
      | inr (rel, r) ↦
          (let h : file (p, remote_path t rel) ≡ x = rw (b, r, found_file) at q in
            ((p, remote_path t rel), refl, b, (rel, r, refl), cc))
    ]
  ]

  visit-folder :
      (e : Option DirEntry) (p : Str)
      → visit t root e ≡ ok (folder p)
      → (d : DirEntry) × (e ≡ some d)
        × (d.kind ≡ some directory)
        × (t.canonicalize d.path ≡ some p)
        × (is_under root p ≡ true)
  unfolding visit
  visit-folder none p q = absurd (cc)
  visit-folder (some d) p q = elim (Option-cases d.kind) [
    | inl k ↦ absurd (ground arith)
    | inr (directory, k) ↦
        (let (o, c, b, same) =
            found_folder-eq (t.canonicalize d.path) (folder p) (ground arith) (λ h. cc) in
          let this : o ≡ p = cc in (d, refl, k, cc, (rw this at b)))
    | inr (regular, k) ↦
        (let (f, c, b, m, same) =
            found_file-eq (t.canonicalize d.path) (folder p) (ground arith) (λ h. cc) in
          absurd (cc))
    | inr (symlink, k) ↦ absurd (ground arith)
    | inr (special, k) ↦ absurd (ground arith)
  ]

  visit-file :
      (e : Option DirEntry) (f : CacheFile)
      → visit t root e ≡ ok (file f)
      → (d : DirEntry) × (e ≡ some d)
        × (d.kind ≡ some regular)
        × (t.canonicalize d.path ≡ some f.0)
        × (is_under root f.0 ≡ true)
        × IsNamed f
  unfolding visit
  visit-file none f q = absurd (cc)
  visit-file (some d) f q = elim (Option-cases d.kind) [
    | inl k ↦ absurd (ground arith)
    | inr (directory, k) ↦
        (let (o, c, b, same) =
            found_folder-eq (t.canonicalize d.path) (file f) (ground arith) (λ h. cc) in
          absurd (cc))
    | inr (regular, k) ↦
        (let (g, c, b, m, same) =
            found_file-eq (t.canonicalize d.path) (file f) (ground arith) (λ h. cc) in
          let this : g ≡ f = cc in rw (← this) (d, refl, k, c, b, m))
    | inr (symlink, k) ↦ absurd (ground arith)
    | inr (special, k) ↦ absurd (ground arith)
  ]

  -- A listing adds the folders that are its entries and under the root,
  pub Adds-folder :
      (es : List (Option DirEntry)) (p : Str) → Adds t root es (folder p) ↔ IsEntry directory es p
  Adds-folder es p = (
    λ (e, i, v). (let (d, same, k, c, b) = visit-folder e p v in (d, rw same at i, k, c, b)),
    λ (d, i, k, c, b). (some d, i, unfold visit found_folder in rw (k, c, b) refl),
  )

  -- and the files, under their remote paths.
  pub Adds-file :
      (es : List (Option DirEntry)) (f : CacheFile)
      → Adds t root es (file f) ↔ (IsEntry regular es f.0 × IsNamed f)
  Adds-file es (p, remote) = (
    λ (e, i, v).
        (let (d, same, k, c, b, m) = visit-file e (p, remote) v in ((d, rw same at i, k, c, b), m)),
    λ ((d, i, k, c, b), (rel, r, same)).
        (some d, i, unfold visit found_file in rw (k, c, b, r, same) refl),
  )
