-- ===== src/Fs/Reads/Directory.antt =====
-- The answers of `readdir` and `readdirplus` in mount/src/fuse_fs.rs.
use unidrive_mount_linux.Base.{
  ℕ, zero, suc, ◌+◌, ◌≡◌, refl, sym, ap, List, [], ◌∷◌, ◌++◌, map, arith, list_eq, nat_eq, drop,
  Str,
}
use unidrive_mount_linux.Fs.Reads.{
  readdir, DirectoryEntry, dir_entries, dir_entries_plus, plus, dot_entries,
}
use unidrive_mount_linux.Base.Dict.{Dict}
use unidrive_mount_linux.Ipc.Entry.{ListEntry}
use unidrive_mount_linux.Attr.{CachedAttr, FileAttr, kind_of}
use unidrive_mount_linux.Fs.Listing.{visible_in, list_dir, dotdot_inode}
use unidrive_mount_linux.Host.{Host}
use unidrive_mount_linux.Fs.{St, resolve, read_fs}
use unidrive_mount_linux.Base.Int.{pos}
use unidrive_mount_linux.Base.Exec.{ok, bind-eq_ok, pure}

-- Entries whose offsets count up from a number.
abbrev pub NumberedFrom : ℕ → List DirectoryEntry → Type 0
NumberedFrom n [] = Unit
NumberedFrom n (d ∷ ds) = (d.offset ≡ n) × NumberedFrom (n + 1) ds

dir_entries-NumberedFrom :
    (raw : Dict Str Str) (n : ℕ) (es : List (ℕ × ListEntry)) → NumberedFrom n (dir_entries raw n es)
unfolding dir_entries
dir_entries-NumberedFrom raw n [] = tt
dir_entries-NumberedFrom raw n ((ino, e) ∷ es) = (refl, dir_entries-NumberedFrom raw (n + 1) es)

NumberedFrom-subst :
    {n m : ℕ} (ds : List DirectoryEntry) → n ≡ m → NumberedFrom n ds → NumberedFrom m ds
NumberedFrom-subst ds e k = rw (sym e) k

drop-NumberedFrom :
    (k n : ℕ) (ds : List DirectoryEntry) → NumberedFrom n ds → NumberedFrom (n + k) (drop k ds)
drop-NumberedFrom zero n ds w = NumberedFrom-subst ds (omega arith) w
drop-NumberedFrom (suc k) n [] w = tt
drop-NumberedFrom (suc k) n (d ∷ ds) (_, w) =
    NumberedFrom-subst (drop k ds) (omega arith) (drop-NumberedFrom k (n + 1) ds w)

-- Whatever `readdir` answers for an offset that is not negative, the offsets of the entries count
-- up from the number after it, so the offset of the last entry of an answer is the one to go on
-- from.
pub readdir-NumberedFrom :
    {h : Host} (parent k : ℕ) (s : St h) {ds : List DirectoryEntry}
    → (readdir h parent (pos k) s).0 ≡ ok ds
    → NumberedFrom (1 + k) ds
unfolding readdir pure dot_entries
readdir-NumberedFrom parent k s {ds} q =
    let (path, _, q1) = bind-eq_ok (resolve _ parent) _ s q in
    let (listed, _, q2) = bind-eq_ok (list_dir _ path) _ _ q1 in
    let (dotdot, _, q3) = bind-eq_ok (dotdot_inode _ parent path) _ _ q2 in
    let (raw, _, q4) = bind-eq_ok (read_fs _ (λ fs. fs.raw_names)) _ _ q3 in
    let shown : drop k (dot_entries parent dotdot ++ dir_entries raw 3 listed) ≡ ds = cc in
    rw (sym shown) (
      drop-NumberedFrom k 1 (dot_entries parent dotdot ++ dir_entries raw 3 listed)
        (refl, (refl, dir_entries-NumberedFrom raw 3 listed)))

-- From the same listing and offset, `readdirplus` makes the entries that `readdir` makes.
pub dir_entries_plus-entry :
    (stat : ℕ → CachedAttr → FileAttr) (raw : Dict Str Str) (n : ℕ) (es : List (ℕ × ListEntry))
    → map (λ d. d.entry) (dir_entries_plus stat raw n es) ≡ dir_entries raw n es
unfolding dir_entries dir_entries_plus plus
dir_entries_plus-entry stat raw n [] = refl
dir_entries_plus-entry stat raw n ((ino, e) ∷ es) =
    ap
      (λ t.
        record { inode = ino; kind = kind_of e.folder; name = visible_in raw e.path; offset = n }
        ∷ t)
      (dir_entries_plus-entry stat raw (n + 1) es)
