-- ===== src/Fs/Invariant/Listings.antt =====
-- The parts of the handlers of mount/src/fuse_fs.rs that list directories keep the invariant.
use unidrive_mount_linux.Base.Exec.{ok}
use unidrive_mount_linux.Ipc.Entry.{ListEntry}
use unidrive_mount_linux.PathMap.{root_inode}
use unidrive_mount_linux.Attr.{from_entry, root_attr}
use unidrive_mount_linux.Host.{Host}
use unidrive_mount_linux.Fs.Listing.{
  screen, visible_name, record_raw_name, forget_raw_names, rename_raw_names, record_entries,
  populate_from_list, list_dir, cached_attr, cached_entry, entry_exists, refuse_nfc_collision,
  dotdot_inode, fetch_attr, get_or_fetch_attr,
}
use unidrive_mount_linux.Fs.Invariant.{
  Keeps, Keeps-pure, Keeps-raise, Keeps-expect_some, Keeps-less, Keeps-if, Keeps-mapped, Keeps-bind,
  Keeps-then, Keeps-bind_of,
}
use unidrive_mount_linux.Fs.Invariant.Steps.{
  Keeps-ipc, Keeps-read_fs, Keeps-change, Keeps-resolve, Keeps-put_attr, Keeps-intern-bind,
  Keeps-intern, Room-same,
}
use unidrive_mount_linux.Base.{
  ℕ, suc, ◌≤◌, ◌≡◌, refl, true, ◌||◌, none, some, List, [], ◌∷◌, arith, ◌==◌, contains, list_eq,
  nat_eq, length, if◌then◌else◌, is_some, Str,
}
use unidrive_mount_linux.Names.{is_representable_component, basename}

-- The daemon's reply lines are bounded (4 MiB), so a listing has a bounded number of entries.
pub record IsBounded (h : Host) (n : ℕ) : Type 0 where
  pub listed :
      (p : Str) (w : h.World) (es : List ListEntry) → (h.list p w).0 ≡ ok es → length es ≤ n

length-screen : (es : List ListEntry) (warned : List Str) → length (screen es warned).0 ≤ length es
unfolding screen
length-screen [] warned = omega arith
length-screen (e ∷ es) warned = ground (
  arith,
  length-screen es (
      if is_representable_component (basename e.path) || contains warned e.path
      then warned
      else e.path ∷ warned),
)

Keeps-record_entries :
    {h : Host} (es : List ListEntry) (lo : ℕ) → Keeps {h = h} lo (length es) (record_entries h es)
unfolding record_entries
Keeps-record_entries [] lo = Keeps-pure []
Keeps-record_entries (e ∷ es) lo = Keeps-less (suc (length es)) (omega arith) (
    Keeps-intern-bind e.path λ ino lo' l given.
      Keeps-then (Keeps-put_attr ino (from_entry e) given)
        (Keeps-bind (Keeps-record_entries es lo') (λ rest. Keeps-pure _)))

module _ {h : Host} {lo : ℕ} where
  pub Keeps-visible_name : (cp : Str) → Keeps {h = h} lo 0 (visible_name h cp)
  unfolding visible_name
  Keeps-visible_name cp = Keeps-read_fs _

  pub Keeps-record_raw_name : (cp name : Str) → Keeps {h = h} lo 0 (record_raw_name h cp name)
  unfolding record_raw_name
  Keeps-record_raw_name cp name = Keeps-change _ λ fs k r. Room-same r refl refl refl record {
    paths = r.valid.paths;
    attrs_known = r.valid.attrs_known;
    handles_known = r.valid.handles_known;
  }

  pub Keeps-forget_raw_names : (cp : Str) → Keeps {h = h} lo 0 (forget_raw_names h cp)
  unfolding forget_raw_names
  Keeps-forget_raw_names cp = Keeps-change _ λ fs k r. Room-same r refl refl refl record {
    paths = r.valid.paths;
    attrs_known = r.valid.attrs_known;
    handles_known = r.valid.handles_known;
  }

  pub Keeps-rename_raw_names :
      (old new_path : Str) → Keeps {h = h} lo 0 (rename_raw_names h old new_path)
  unfolding rename_raw_names
  Keeps-rename_raw_names old new_path = Keeps-change _ λ fs k r. Room-same r refl refl refl record {
    paths = r.valid.paths;
    attrs_known = r.valid.attrs_known;
    handles_known = r.valid.handles_known;
  }

  pub Keeps-cached_attr : (ino : ℕ) → Keeps {h = h} lo 0 (cached_attr h ino)
  unfolding cached_attr
  Keeps-cached_attr ino = Keeps-read_fs _

  pub Keeps-cached_entry : (cp : Str) → Keeps {h = h} lo 0 (cached_entry h cp)
  unfolding cached_entry
  Keeps-cached_entry cp = Keeps-read_fs _

  pub Keeps-dotdot_inode : (dir : ℕ) (path : Str) → Keeps {h = h} lo 1 (dotdot_inode h dir path)
  unfolding dotdot_inode
  Keeps-dotdot_inode dir path =
      Keeps-if (dir == root_inode) (Keeps-less 1 (omega arith) (Keeps-pure root_inode))
        (Keeps-intern _)

  module _ {n : ℕ} (bounded : IsBounded h n) where
    Keeps-populate_from_list : (p : Str) → Keeps {h = h} lo n (populate_from_list h p)
    unfolding populate_from_list
    Keeps-populate_from_list p = Keeps-less n (omega arith) (
        Keeps-bind_of (λ es. length es ≤ n) (λ s a e. bounded.listed p s.world a e) (Keeps-ipc _)
          λ es l. Keeps-less n (omega arith) (
            Keeps-bind_of (λ shown. length shown.0 ≤ n)
              (λ s a e. ground (arith, length-screen es s.fs.quarantine_warned)) (Keeps-read_fs _)
              λ shown l'. Keeps-less n (omega arith) (
                Keeps-then
                  (Keeps-change _ λ fs k r. Room-same r refl refl refl record {
                    paths = r.valid.paths;
                    attrs_known = r.valid.attrs_known;
                    handles_known = r.valid.handles_known;
                  })
                  (Keeps-less n l' (Keeps-record_entries shown.0 lo)))))

    pub Keeps-list_dir : (p : Str) → Keeps {h = h} lo n (list_dir h p)
    unfolding list_dir
    Keeps-list_dir p = Keeps-mapped _ (Keeps-populate_from_list p)

    Keeps-fetch_attr : (ino : ℕ) → Keeps {h = h} lo n (fetch_attr h ino)
    unfolding fetch_attr
    Keeps-fetch_attr ino = Keeps-less n (omega arith) (
        Keeps-bind (Keeps-resolve ino) λ path.
          Keeps-bind (Keeps-list_dir _)
            λ listed. Keeps-bind (Keeps-cached_attr ino) (Keeps-expect_some _))

    pub Keeps-get_or_fetch_attr : (ino : ℕ) → Keeps {h = h} lo n (get_or_fetch_attr h ino)
    unfolding get_or_fetch_attr
    Keeps-get_or_fetch_attr ino =
        Keeps-if (ino == root_inode) (Keeps-less n (omega arith) (Keeps-pure root_attr)) (
          Keeps-less n (omega arith) (
            Keeps-bind (Keeps-cached_attr ino) (elim [
              | some c ↦ Keeps-less n (omega arith) (Keeps-pure c)
              | none ↦ Keeps-fetch_attr ino
            ])))

    Keeps-entry_exists : (parent cp : Str) → Keeps {h = h} lo n (entry_exists h parent cp)
    unfolding entry_exists
    Keeps-entry_exists parent cp = Keeps-less n (omega arith) (
        Keeps-bind (Keeps-cached_entry cp) λ cached.
          Keeps-if (is_some cached) (Keeps-less n (omega arith) (Keeps-pure true)) (
            Keeps-less n (omega arith)
              (Keeps-bind (Keeps-list_dir parent) (λ listed. Keeps-pure _))))

    pub Keeps-refuse_nfc_collision :
        (parent cp name : Str) → Keeps {h = h} lo n (refuse_nfc_collision h parent cp name)
    unfolding refuse_nfc_collision
    Keeps-refuse_nfc_collision parent cp name = Keeps-less n (omega arith) (
        Keeps-bind (Keeps-visible_name cp) λ visible.
          Keeps-if (visible == name) (Keeps-less n (omega arith) (Keeps-pure tt)) (
            Keeps-less n (omega arith) (
              Keeps-bind (Keeps-entry_exists parent cp)
                λ exists. Keeps-if exists (Keeps-raise _) (Keeps-pure tt))))
