-- ===== src/Tests/Handlers.antt =====
-- Tests of the handlers and of the cached view.
use unidrive_mount_linux.PathMap
use unidrive_mount_linux.Fs.Namespace.{rename, follow_rename}
use unidrive_mount_linux.PathMap.{is_same_or_below, moved, u64_mod}
use unidrive_mount_linux.Fs.Invariant
use unidrive_mount_linux.Tests.Setting.{
  some_paths, some_paths-IsValid, some_handle, some_fs, some_attr, some_host, some_host-IsBounded,
  running, cut_off,
}
use unidrive_mount_linux.Fs.Invariant.Requests.{serve_all, Request, serve_all-IsValid}
use unidrive_mount_linux.Base.{
  ℕ, ◌+◌, ◌-◌, ◌/◌, ◌%◌, ◌^◌, ◌≤◌, ◌≡◌, refl, ◌≢◌, ◌↔◌, ◌⊎◌, true, false, none, some, List, [], ◌∷◌,
  arith, ◌==◌, contains, list_eq, nat_eq, if◌then◌else◌, Str, str, rfind,
}
use unidrive_mount_linux.Fs.Listing.{visible_in, record_raw_name}
use unidrive_mount_linux.Ipc.{IpcError}
use unidrive_mount_linux.Base.Dict.{lookup, map_some}
use unidrive_mount_linux.Fs.Files.{release, write, fsync, fsync_commit}
use unidrive_mount_linux.Fs.View.{apply}
use unidrive_mount_linux.Base.Exec.{err, ok}
use unidrive_mount_linux.Fs.Listing.RawNames.{visible_name-record_raw_name}
use unidrive_mount_linux.Subscribe.{all, paths}
use unidrive_mount_linux.Errno.{eexist, eio, enoent, namespace_err_to_errno}
use unidrive_mount_linux.Fs.Handles.{fsync-done, fsync-failed, release_lem}
use unidrive_mount_linux.Fs.View.Laws.{apply-paths_exact, HasUnsent}
use unidrive_mount_linux.Fs.Handles.Writes.{write-fsync_commit}
use unidrive_mount_linux.ViewRefresh.{apply_pending}
use unidrive_mount_linux.ViewRefresh.Unsent.{write-apply_pending}
use unidrive_mount_linux.PathMap.Ancestors.{AtOrBelow}
use unidrive_mount_linux.Fs.{new_fs}
use unidrive_mount_linux.Names.{child_path}
use unidrive_mount_linux.Fs.Namespace.Moves.{rename-outcome}

abbrev some_requests : List Request
some_requests =
    Request.mkdir 1 (str "a")
    ∷ Request.create 2 (str "b")
    ∷ Request.write 3 1 0 (str "xyz")
    ∷ Request.rename 1 (str "a") 1 (str "z")
    ∷ Request.release 1
    ∷ Request.unlink 2 (str "b")
    ∷ []

serve_all-IsValid_example :
    Invariant.IsValid
      (serve_all some_host some_requests (record { fs = new_fs Str; world = true })).fs
serve_all-IsValid_example = serve_all-IsValid some_host-IsBounded some_requests true (omega arith)

fsync-failed_example :
    lookup 1 (fsync some_host 1 true cut_off).1.fs.open_handles ≡ lookup 1 cut_off.fs.open_handles
unfolding fsync unidrive_mount_linux.Base.Exec.◌>>=◌ unidrive_mount_linux.Base.Exec.expect_some
    lookup nat_eq unidrive_mount_linux.Base.Exec.◌>>◌ unidrive_mount_linux.Base.Exec.attempt
    unidrive_mount_linux.Base.Exec.raise unidrive_mount_linux.Errno.ipc_error_to_errno
    unidrive_mount_linux.Base.Exec.pure
fsync-failed_example = fsync-failed cut_off 1 true 1 {e = eio} refl

fsync-done_example :
    ((some_host.sync_data some_handle.file true).0 ≡ true)
    × (lookup 1 (fsync some_host 1 true running).1.fs.open_handles
        ≡ some (record some_handle { dirty = false }))
    × (some_handle.dirty ≡ true
        → (reply : Str) × (some_host.open_write some_handle.handle_id some_handle.remote_path
              some_handle.cache_path true
            ≡ (ok reply, (fsync some_host 1 true running).1.world)))
unfolding lookup nat_eq fsync unidrive_mount_linux.Base.Exec.◌>>=◌
    unidrive_mount_linux.Base.Exec.expect_some unidrive_mount_linux.Base.Exec.◌>>◌
    unidrive_mount_linux.Base.Exec.attempt unidrive_mount_linux.Base.Exec.pure
fsync-done_example = fsync-done running 1 true some_handle refl refl

release_lem_example :
    ((release some_host 1 running).0 ≡ ok tt)
    × (lookup 1 (release some_host 1 running).1.fs.open_handles ≡ none)
    × ((release some_host 1 running).1.world ≡ true)
unfolding lookup nat_eq
release_lem_example = release_lem running 1 some_handle 1 refl

write-apply_pending_example :
    lookup 3
      (apply_pending
        (all ∷ paths (str "/a" ∷ []) ∷ all ∷ [])
        (write some_host 3 1 4 (str "xyz") running).1.fs).attrs
    ≡ lookup 3 (write some_host 3 1 4 (str "xyz") running).1.fs.attrs
unfolding lookup nat_eq write unidrive_mount_linux.Base.Exec.◌>>=◌
    unidrive_mount_linux.Base.Exec.expect_some unidrive_mount_linux.Base.Exec.◌>>◌
    unidrive_mount_linux.Base.Exec.pure PathMap.inode_for unidrive_mount_linux.PathMap.History.calls
    unidrive_mount_linux.PathMap.History.call PathMap.intern PathMap.new list_eq
write-apply_pending_example =
    write-apply_pending running 3 1 4 (str "xyz") some_handle
      (all ∷ paths (str "/a" ∷ []) ∷ all ∷ []) {n = 3} refl refl refl

apply-paths_exact_example :
    (lookup 4 (apply (paths (str "/c" ∷ [])) some_fs).attrs ≡ some some_attr) ↔ (
      (lookup 4 some_fs.attrs ≡ some some_attr)
      × (HasUnsent some_fs 4
          ⊎ ¬ (
              (p : Str) × (q : Str) × (PathMap.path_for some_paths 4 ≡ some p)
              × (contains (str "/c" ∷ []) q ≡ true)
              × AtOrBelow p q)))
apply-paths_exact_example =
    apply-paths_exact some_fs (str "/c" ∷ []) 4 some_attr some_paths-IsValid.bijective

visible_name-record_raw_name_example :
    visible_in (record_raw_name some_host (str "/c") (str "c") running).1.fs.raw_names (str "/c")
    ≡ str "c"
unfolding nat_eq unidrive_mount_linux.Names.child_path
visible_name-record_raw_name_example = visible_name-record_raw_name [] (str "c") running refl

C-ne-c : str "C" ≢ str "c"
C-ne-c e = cc

visible_C : visible_in some_fs.raw_names (child_path some_host.nfc [] (str "c")) ≢ str "c"
unfolding visible_in lookup list_eq nat_eq child_path
visible_C e = C-ne-c e

write-fsync_commit_example :
    lookup 1
      (fsync_commit some_host 1 some_handle
        (write some_host 3 1 4 (str "xyz") cut_off).1).1.fs.open_handles
    ≡ some (record some_handle { dirty = true })
unfolding lookup nat_eq write unidrive_mount_linux.Base.Exec.◌>>=◌
    unidrive_mount_linux.Base.Exec.expect_some unidrive_mount_linux.Base.Exec.◌>>◌
    unidrive_mount_linux.Base.Exec.pure
write-fsync_commit_example =
    write-fsync_commit cut_off 3 1 4 (str "xyz") some_handle refl some_handle {n = 3} refl

rename-outcome_example :
    ((e : IpcError) × ((some_host.rename (str "/a") (str "/z") true).0 ≡ err e)
      × (rename some_host 1 (str "a") 1 (str "z") running
          ≡ (err (namespace_err_to_errno e), running)))
    ⊎ (((some_host.rename (str "/a") (str "/z") true).0 ≡ ok tt)
        × ((rename some_host 1 (str "a") 1 (str "z") running).0 ≡ ok tt)
        × ((r : Str) (i : ℕ)
            → is_same_or_below (str "/a") r ≡ true
            → PathMap.inode_for some_paths r ≡ some i
            → PathMap.path_for (rename some_host 1 (str "a") 1 (str "z") running).1.fs.paths i
              ≡ some (moved (str "/a") (str "/z") r))
        × ((i : ℕ)
            → lookup i (rename some_host 1 (str "a") 1 (str "z") running).1.fs.open_handles
              ≡ map_some
                  (λ o. follow_rename o (str "/a") (str "/z"))
                  (lookup i some_fs.open_handles)))
unfolding PathMap.path_for lookup unidrive_mount_linux.PathMap.History.calls
    unidrive_mount_linux.PathMap.History.call PathMap.intern PathMap.new list_eq nat_eq visible_in
    child_path unidrive_mount_linux.Names.basename rfind
rename-outcome_example =
    rename-outcome 1 [] (str "a") 1 [] (str "z") running refl refl refl refl refl
      some_paths-IsValid.bijective
