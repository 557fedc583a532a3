-- ===== src/Fs/Invariant/Tree.antt =====
-- The handlers of mount/src/fuse_fs.rs that read and change the tree keep the invariant.
use unidrive_mount_linux.Base.Exec.{ok, err, pure, raise}
use unidrive_mount_linux.Base.Dict.{Dict, lookup}
use unidrive_mount_linux.PathMap
use unidrive_mount_linux.PathMap.Rename.{rename-IsValid, next-rename}
use unidrive_mount_linux.Names.Laws.{child_path-ne-root}
use unidrive_mount_linux.Host.{Host}
use unidrive_mount_linux.Errno.{ebadf, ipc_error_to_errno}
use unidrive_mount_linux.Fs.{OpenHandle}
use unidrive_mount_linux.Fs.Setattr.{
  truncate_handle, commit, truncate_to_zero, give_up, truncate_to, note_truncated, set_size,
  setattr,
}
use unidrive_mount_linux.Fs.Namespace.{
  note_folder, drop_entry, evict, unlink, rmdir, move_entry, follow_all, follow_rename, mkdir,
  rename,
}
use unidrive_mount_linux.Fs.Invariant.{
  Keeps, Keeps-pure, Keeps-raise, Keeps-less, Keeps-if, Keeps-attempt, Keeps-bind, Keeps-then,
}
use unidrive_mount_linux.Fs.Invariant.Steps.{
  Room-same, Keeps-ipc, Keeps-os, Keeps-read_fs, Keeps-change, Keeps-to_str, Keeps-resolve,
  Keeps-now_ms, Keeps-put_attr, Keeps-forget, Keeps-handle_for, Keeps-fresh_handle_number,
  Keeps-intern-bind,
}
use unidrive_mount_linux.Fs.Invariant.Updates.{
  Keeps-modify_attr, Keeps-remove_attr, Keeps-set_dirty,
}
use unidrive_mount_linux.Fs.Invariant.Listings.{
  Keeps-record_raw_name, Keeps-forget_raw_names, Keeps-rename_raw_names, IsBounded,
  Keeps-get_or_fetch_attr, Keeps-refuse_nfc_collision,
}
use unidrive_mount_linux.Fs.Invariant.Open.{Keeps-verb, Keeps-close_handle}
use unidrive_mount_linux.Base.{
  ℕ, ◌+◌, ◌<◌, ◌≡◌, refl, ◌≢◌, inl, inr, true, Option, none, some, [], ◌∷◌, arith, ◌==◌, list_eq,
  nat_eq, Bool-cases, Str,
}
use unidrive_mount_linux.Names.{child_path}

lookup-follow_all :
    {F : Type 0} (d : Dict ℕ (OpenHandle F)) (old new_path : Str) (i : ℕ) {o : OpenHandle F}
    → lookup i (follow_all d old new_path) ≡ some o
    → (p : OpenHandle F) × (lookup i d ≡ some p) × (o ≡ follow_rename p old new_path)
unfolding follow_all lookup
lookup-follow_all [] old new_path i e = absurd (cc)
lookup-follow_all ((j, p) ∷ d) old new_path i {o} e = elim (Bool-cases (i == j)) [
  | inl t ↦ (p, ground arith, ground arith)
  | inr f ↦
      let (q, a, b) = lookup-follow_all d old new_path i {o = o} (ground arith) in
      (q, ground arith, b)
]

module _ {h : Host} {lo : ℕ} where
  -- Truncation.
  Keeps-truncate_handle : (fh k : ℕ) → Keeps {h = h} lo 0 (truncate_handle h fh k)
  unfolding truncate_handle
  Keeps-truncate_handle fh k = Keeps-less 0 (omega arith) (
      Keeps-bind (Keeps-handle_for ebadf fh) λ o.
        Keeps-bind (Keeps-os _) λ done. Keeps-if done (Keeps-set_dirty fh true) (Keeps-raise _))

  Keeps-commit : (id path cache : Str) → Keeps {h = h} lo 0 (commit h id path cache)
  unfolding commit
  Keeps-commit id path cache = Keeps-less 0 (omega arith) (
      Keeps-bind (Keeps-attempt (Keeps-ipc _)) λ upload.
        Keeps-bind (Keeps-close_handle id) λ closed.
          elim upload
            as (λ u.
              Keeps lo 0 (elim u [ ok reply ↦ pure tt | err e ↦ raise (ipc_error_to_errno e) ])) [
                | ok reply ↦ Keeps-pure tt
                | err e ↦ Keeps-raise _
              ])

  Keeps-truncate_to_zero : (path : Str) → Keeps {h = h} lo 1 (truncate_to_zero h path)
  unfolding truncate_to_zero
  Keeps-truncate_to_zero path = Keeps-less 1 (omega arith) (
      Keeps-bind (Keeps-verb _ _)
        λ cache. Keeps-bind Keeps-fresh_handle_number λ k. Keeps-commit _ path cache)

  Keeps-give_up : (id : Str) → Keeps {h = h} lo 0 (give_up h id)
  unfolding give_up
  Keeps-give_up id =
      Keeps-less 0 (omega arith) (Keeps-bind (Keeps-close_handle id) (λ c. Keeps-raise _))

  Keeps-truncate_to : (path : Str) (size : ℕ) → Keeps {h = h} lo 1 (truncate_to h path size)
  unfolding truncate_to
  Keeps-truncate_to path size = Keeps-less 1 (omega arith) (
      Keeps-bind Keeps-fresh_handle_number λ k. Keeps-bind (Keeps-verb _ _) λ cache.
        Keeps-bind (Keeps-os _) (elim [
          | none ↦ Keeps-less 0 (omega arith) (Keeps-give_up _)
          | some file ↦ Keeps-less 0 (omega arith) (
              Keeps-bind (Keeps-os _)
                λ done. Keeps-if done (Keeps-commit _ path cache) (Keeps-give_up _))
        ]))

  Keeps-note_truncated : (ino size : ℕ) → Keeps {h = h} lo 0 (note_truncated h ino size)
  unfolding note_truncated
  Keeps-note_truncated ino size =
      Keeps-less 0 (omega arith) (Keeps-bind Keeps-now_ms (λ now. Keeps-modify_attr ino _))

  Keeps-set_size :
      (ino : ℕ) (path : Str) (fh : Option ℕ) (size : ℕ)
      → Keeps {h = h} lo 1 (set_size h ino path fh size)
  unfolding set_size
  Keeps-set_size ino path (some fh) size =
      Keeps-less 1 (omega arith)
        (Keeps-then (Keeps-truncate_handle fh size) (Keeps-note_truncated ino size))
  Keeps-set_size ino path none size = Keeps-less 1 (omega arith) (
      Keeps-then (Keeps-if (size == 0) (Keeps-truncate_to_zero path) (Keeps-truncate_to path size))
        (Keeps-note_truncated ino size))

  -- The tree.
  Keeps-note_folder : (ino : ℕ) → ino < lo → Keeps {h = h} lo 0 (note_folder h ino)
  unfolding note_folder
  Keeps-note_folder ino given =
      Keeps-less 0 (omega arith)
        (Keeps-bind Keeps-now_ms λ now. Keeps-then (Keeps-put_attr ino _ given) (Keeps-pure _))

  Keeps-drop_entry : (cp : Str) → cp ≢ [] → Keeps {h = h} lo 0 (drop_entry h cp)
  unfolding drop_entry
  Keeps-drop_entry cp n = Keeps-less 0 (omega arith) (
      Keeps-bind (Keeps-forget cp n) λ ino.
        Keeps-then (Keeps-forget_raw_names cp)
          (elim ino as (λ i. Keeps lo 0 (elim i [ none ↦ pure tt | some j ↦ _ ])) [
            | none ↦ Keeps-pure tt
            | some j ↦ Keeps-remove_attr j
          ]))

  Keeps-evict :
      (remove : Str → h.World → h.World) (cp : Str) → Keeps {h = h} lo 0 (evict h remove cp)
  unfolding evict
  Keeps-evict remove cp =
      Keeps-less 0 (omega arith)
        (Keeps-bind (Keeps-read_fs _) (elim [ none ↦ Keeps-pure tt | some r ↦ Keeps-os _ ]))

  pub Keeps-unlink : (parent : ℕ) (name : Str) → Keeps {h = h} lo 0 (unlink h parent name)
  unfolding unlink
  Keeps-unlink parent name = Keeps-less 0 (omega arith) (
      Keeps-bind (Keeps-to_str name) λ name'. Keeps-bind (Keeps-resolve parent) λ path.
        Keeps-bind (Keeps-verb _ _) λ done.
          Keeps-then (Keeps-drop_entry _ (child_path-ne-root h.nfc path name'))
            (Keeps-evict h.remove_file (child_path h.nfc path name')))

  pub Keeps-rmdir : (parent : ℕ) (name : Str) → Keeps {h = h} lo 0 (rmdir h parent name)
  unfolding rmdir
  Keeps-rmdir parent name = Keeps-less 0 (omega arith) (
      Keeps-bind (Keeps-to_str name) λ name'. Keeps-bind (Keeps-resolve parent) λ path.
        Keeps-bind (Keeps-verb _ _) λ done.
          Keeps-then (Keeps-drop_entry _ (child_path-ne-root h.nfc path name'))
            (Keeps-evict h.remove_dir_all (child_path h.nfc path name')))

  Keeps-move_entry :
      (old new_path name : Str)
      → old ≢ []
      → new_path ≢ []
      → Keeps {h = h} lo 0 (move_entry h old new_path name)
  unfolding move_entry
  Keeps-move_entry old new_path name o n = Keeps-less 0 (omega arith) (
      Keeps-then
        (Keeps-change (λ fs. record fs { paths = PathMap.rename fs.paths old new_path })
          λ fs k r.
            let same = next-rename fs.paths old new_path r.valid.paths in
            Room-same r same refl refl (record {
              paths = rename-IsValid fs.paths old new_path r.valid.paths o n;
              attrs_known = λ i a e. omega (arith, r.valid.attrs_known i a e, same);
              handles_known = r.valid.handles_known;
            }))
        (Keeps-then
          (Keeps-change (λ fs. record fs { open_handles = follow_all fs.open_handles old new_path })
            λ fs k r. Room-same r refl refl refl (record {
              paths = r.valid.paths;
              attrs_known = r.valid.attrs_known;
              handles_known = λ i p e.
                  let (q, f, _) = lookup-follow_all fs.open_handles old new_path i e in
                  r.valid.handles_known i q f;
            }))
          (Keeps-then (Keeps-rename_raw_names old new_path) (Keeps-record_raw_name new_path name))))

module _ {h : Host} {lo n : ℕ} (bounded : IsBounded h n) where
  pub Keeps-setattr :
      (ino : ℕ) (fh size : Option ℕ) → Keeps {h = h} lo (n + 1) (setattr h ino fh size)
  unfolding setattr
  Keeps-setattr ino fh size = Keeps-less (n + 1) (omega arith) (
      Keeps-bind (Keeps-resolve ino) λ path.
        Keeps-then
          (elim size
            as (λ z. Keeps lo 1 (elim z [ none ↦ pure tt | some k ↦ set_size h ino path fh k ])) [
              | none ↦ Keeps-less {c = 0} 1 (omega arith) (Keeps-pure tt)
              | some k ↦ Keeps-set_size ino path fh k
            ])
          (Keeps-bind (Keeps-get_or_fetch_attr bounded ino) (λ a. Keeps-pure _)))

  pub Keeps-mkdir : (parent : ℕ) (name : Str) → Keeps {h = h} lo (n + 1) (mkdir h parent name)
  unfolding mkdir
  Keeps-mkdir parent name = Keeps-less (n + 1) (omega arith) (
      Keeps-bind (Keeps-to_str name) λ name'. Keeps-bind (Keeps-resolve parent) λ path.
        Keeps-then (Keeps-refuse_nfc_collision bounded path _ name') (
          Keeps-bind (Keeps-verb _ _) λ done. Keeps-intern-bind _ λ ino lo' l given.
            Keeps-then (Keeps-record_raw_name _ name')
              (Keeps-bind (Keeps-note_folder ino given) (λ attr. Keeps-pure _))))

  pub Keeps-rename :
      (parent : ℕ) (name : Str) (new_parent : ℕ) (new_name : Str)
      → Keeps {h = h} lo n (rename h parent name new_parent new_name)
  unfolding rename
  Keeps-rename parent name new_parent new_name = Keeps-less n (omega arith) (
      Keeps-bind (Keeps-to_str name) λ name'. Keeps-bind (Keeps-to_str new_name) λ new_name'.
        Keeps-bind (Keeps-resolve parent) λ path. Keeps-bind (Keeps-resolve new_parent) λ new_path.
          Keeps-then (Keeps-refuse_nfc_collision bounded new_path _ new_name') (
            Keeps-bind (Keeps-verb _ _) λ done.
              Keeps-move_entry _ _ new_name' (child_path-ne-root h.nfc path name')
                (child_path-ne-root h.nfc new_path new_name')))
