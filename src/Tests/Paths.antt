-- ===== src/Tests/Paths.antt =====
-- Tests of the path map and of what follows it.
use unidrive_mount_linux.PathMap.Bijection
use unidrive_mount_linux.Base.{
  ◌<◌, ◌≡◌, refl, ◌↔◌, true, false, none, some, [], ◌∷◌, ◌++◌, arith, contains, list_eq, nat_eq,
  if◌then◌else◌, Str, str, strip_prefix, starts_with,
}
use unidrive_mount_linux.PathMap
use unidrive_mount_linux.Tests.Setting.{some_paths, some_calls, some_paths-IsValid, some_handle}
use unidrive_mount_linux.Fs.Namespace.{follow_rename, strip_suffix, trim_slashes}
use unidrive_mount_linux.PathMap.Ancestors.{AtOrBelow, is_at_or_below_exact}
use unidrive_mount_linux.Base.Dict.{lookup, insert, erase}
use unidrive_mount_linux.PathMap.{is_at_or_below, is_same_or_below, moved}
use unidrive_mount_linux.PathMap.Members.{inodes_at_or_below_exact}
use unidrive_mount_linux.PathMap.History.{calls, call, forgets, calls-IsValid, intern_fresh}
use unidrive_mount_linux.Fs.Handles.Follow.{follow_rename-path_for}
use unidrive_mount_linux.PathMap.Rename.{inode_for-rename}
use unidrive_mount_linux.PathMap.Below.{is_rest}

inode_for-rename_example :
    ((r : Str)
      → is_rest r ≡ true
      → PathMap.inode_for (PathMap.rename some_paths (str "/a") (str "/z")) (str "/z" ++ r)
        ≡ PathMap.inode_for some_paths (str "/a" ++ r))
    × ((q : Str)
        → is_same_or_below (str "/z") q ≡ false
        → PathMap.inode_for (PathMap.rename some_paths (str "/a") (str "/z")) q
          ≡ (if is_same_or_below (str "/a") q then none else PathMap.inode_for some_paths q))
unfolding PathMap.inode_for lookup calls call PathMap.intern PathMap.new insert is_same_or_below
    list_eq nat_eq starts_with
inode_for-rename_example =
    inode_for-rename some_paths (str "/a") (str "/z") some_paths-IsValid.bijective (str "/a/b") 3
      refl refl

calls-IsValid_example : Bijection.IsValid (calls PathMap.new some_calls)
calls-IsValid_example = calls-IsValid some_calls (tt, (tt, (tt, tt))) (omega arith)

is_at_or_below_exact_example :
    (is_at_or_below (str "/a/b") (str "/a" ∷ []) ≡ true)
    ↔ ((q : Str) × (contains (str "/a" ∷ []) q ≡ true) × AtOrBelow (str "/a/b") q)
is_at_or_below_exact_example = is_at_or_below_exact (str "/a/b") (str "/a" ∷ [])

inodes_at_or_below_exact_example :
    (contains (PathMap.inodes_at_or_below some_paths (str "/a" ∷ [])) 3 ≡ true) ↔ (
      (p : Str) × (q : Str) × (PathMap.path_for some_paths 3 ≡ some p)
      × (contains (str "/a" ∷ []) q ≡ true)
      × AtOrBelow p q)
inodes_at_or_below_exact_example =
    inodes_at_or_below_exact some_paths (str "/a" ∷ []) 3 some_paths-IsValid.bijective

-- `/c` is forgotten, which had the inode 4, and made again.
intern_fresh_example :
    4 < (PathMap.intern (calls PathMap.new (some_calls ++ (forgets (str "/c") ∷ []))) (str "/c")).0
unfolding PathMap.inode_for lookup calls call PathMap.intern PathMap.forget PathMap.new insert erase
    list_eq nat_eq
intern_fresh_example =
    intern_fresh some_calls (forgets (str "/c") ∷ []) (str "/c") (str "/c") 4 (tt, (tt, (tt, tt)))
      ((λ e. cc), tt) (omega arith) refl refl

follow_rename-path_for_example :
    PathMap.path_for (PathMap.rename some_paths (str "/a") (str "/z")) 3
    ≡ some (follow_rename some_handle (str "/a") (str "/z")).remote_path
unfolding PathMap.inode_for lookup calls call PathMap.intern PathMap.new insert is_same_or_below
    list_eq nat_eq starts_with
follow_rename-path_for_example =
    follow_rename-path_for some_paths some_handle (str "/a") (str "/z") 3
      some_paths-IsValid.bijective refl refl

-- The run that README.md describes: a folder is renamed, its file keeps its inode, and the open
-- handle's upload goes to the new path.
follow_rename_run :
    follow_rename some_handle (str "/a") (str "/z")
    ≡ record some_handle { remote_path = str "/z/b"; cache_path = str "/cache/z/b" }
unfolding follow_rename strip_prefix strip_suffix trim_slashes nat_eq list_eq
follow_rename_run = refl
