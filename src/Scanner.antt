-- ===== src/Scanner.antt =====
-- mount/src/cache_scanner.rs: the files of the cache whose upload a crash may have cut off are uploaded
-- again. The directory tree is a parameter, which does not change during the scan, and so are the two
-- verbs of the daemon.
pub mod Files
pub mod Entries
pub mod Listing
pub mod Plan
pub mod Replay
pub mod Termination
use unidrive_mount_linux.Base.{
  ℕ, zero, suc, ◌+◌, Bool, ◌||◌, not, Option, none, some, List, [], ◌∷◌, ◌++◌, map, ◌==◌, list_eq,
  nat_eq, slash, starts_with, strip_prefix, if◌then◌else◌, Str, str,
}
use unidrive_mount_linux.Base.Decimal.{decimal}
use unidrive_mount_linux.Base.Exec.{Result, ok, err, Exec, pure, attempt, ◌>>=◌}
use unidrive_mount_linux.Base.Int.{ℤ, wrap_i64, is_less}
use unidrive_mount_linux.Ipc.{IpcError}
use mathlib.Core.List.{reverse}

pub data FileKind : Type 0 where
  symlink directory regular special : FileKind

-- An entry of a directory; its kind may not be readable.
pub record DirEntry : Type 0 where
  pub path : Str
  pub kind : Option FileKind

-- What `symlink_metadata` says of a file: the milliseconds since 1970, `none` where they cannot be read
-- or are before.
pub record Metadata : Type 0 where
  pub is_symlink : Bool
  pub modified_ms : Option ℕ

pub record Tree : Type 0 where
  pub exists : Str → Bool
  pub canonicalize : Str → Option Str
  -- `none` where a directory, or one entry of it, cannot be read
  pub read_dir : Str → Option (List (Option DirEntry))
  pub metadata : Str → Option Metadata
  -- `to_string_lossy`
  pub lossy : Str → Str

-- `Path::starts_with` and `Path::strip_prefix`, of paths that are canonical: absolute, and with no
-- slash at the end but that of the root
abbrev pub with_slash : Str → Str
with_slash root = if root == str "/" then root else root ++ (slash ∷ [])

unfoldable pub is_under : Str → Str → Bool
is_under root p = p == root || starts_with p (with_slash root)

unfoldable pub relative : Str → Str → Option Str
relative root p = if p == root then some [] else strip_prefix p (with_slash root)

-- `/{}` of a relative path, with `\\` replaced
unfoldable pub remote_path : Tree → Str → Str
remote_path t rel = slash ∷ map (λ c. if c == b'\\' then slash else c) (t.lossy rel)

-- A cache file with its remote path.
abbrev pub CacheFile : Type 0
CacheFile = Str × Str

-- What an entry adds to the walk.
pub data Found : Type 0 where
  nothing : Found
  folder : Str → Found
  file : CacheFile → Found

module _ (t : Tree) (root : Str) where
  unfoldable pub found_folder : Option Str → Found
  unfolding is_under
  found_folder none = nothing
  found_folder (some p) = if is_under root p then folder p else nothing

  unfoldable pub found_file : Option Str → Found
  unfolding is_under relative remote_path
  found_file none = nothing
  found_file (some p) =
      if not (is_under root p)
      then nothing
      else elim (relative root p) [ none ↦ nothing | some rel ↦ file (p, remote_path t rel) ]

  -- The body of the loop over a directory; an entry that cannot be read ends the scan.
  unfoldable pub visit : Option DirEntry → Result (Unit {0}) Found
  unfolding found_folder found_file
  visit none = err tt
  visit (some e) = elim e.kind [
    | none ↦ err tt
    | some directory ↦ ok (found_folder (t.canonicalize e.path))
    | some regular ↦ ok (found_file (t.canonicalize e.path))
    | some other ↦ ok nothing
  ]

  unfoldable pub add_found : Found → List Str × List CacheFile → List Str × List CacheFile
  add_found nothing acc = acc
  add_found (folder d) (ds, fs) = (d ∷ ds, fs)
  add_found (file f) (ds, fs) = (ds, f ∷ fs)

  -- The folders and the files of a directory, in the order of its entries.
  unfoldable pub visit_all : List (Option DirEntry) → Result (Unit {0}) (List Str × List CacheFile)
  unfolding visit add_found
  visit_all [] = ok ([], [])
  visit_all (e ∷ es) =
      let rest = visit_all es in
      elim (visit e) [
        | err u ↦ err u
        | ok found ↦ elim rest [ err u ↦ err u | ok acc ↦ ok (add_found found acc) ]
      ]

  -- The loop over the stack, whose top is the head; `none` where the fuel ran out.
  unfoldable pub walk : ℕ → List Str → List CacheFile → Option (Result (Unit {0}) (List CacheFile))
  unfolding visit_all
  walk zero stack out = none
  walk (suc f) [] out = some (ok out)
  walk (suc f) (d ∷ stack) out = elim (t.read_dir d) [
    | none ↦ walk f stack out
    | some es ↦ elim (visit_all es) [
      | err u ↦ some (err u)
      | ok (ds, fs) ↦ walk f (reverse ds ++ stack) (out ++ fs)
    ]
  ]

  -- `mtime_ms`
  unfoldable pub mtime_ms : Str → Option ℤ
  unfolding is_under
  mtime_ms p = if not (is_under root p) then none else elim (t.metadata p) [
    | none ↦ none
    | some m ↦
        if m.is_symlink
        then none
        else elim m.modified_ms [ none ↦ none | some ms ↦ some (wrap_i64 ms) ]
  ]

-- `collect_files`
unfoldable pub collect_files : Tree → ℕ → Str → Option (Result (Unit {0}) (List CacheFile))
unfolding walk
collect_files t f root = elim (t.canonicalize root) [
  | none ↦ some (err tt)
  | some canon ↦ walk t canon f (canon ∷ []) []
]

-- The verbs that the scan sends, on a state of which nothing is known.
pub record Daemon (S : Type 0) : Type 0 where
  pub last_synced : Str → Exec IpcError S ℤ
  -- handle, remote path, cache path
  pub open_write : Str → Str → Str → Exec IpcError S Str

module _ {S : Type 0} (t : Tree) (root : Str) (d : Daemon S) where
  -- The numbers of files replayed and of handles given out; neither can pass the number of files.
  abbrev pub Counts : Type 0
  Counts = ℕ × ℕ

  unfoldable pub upload : CacheFile → Counts → Exec IpcError S Counts
  unfolding attempt ◌>>=◌ pure
  upload (cache_path, remote) (replayed, n) = do
    r ← attempt (d.open_write (str "recovery-" ++ decimal (n + 1)) remote (t.lossy cache_path))
    pure (elim r [ ok reply ↦ (replayed + 1, n + 1) | err e ↦ (replayed, n + 1) ])

  -- The body of the loop over the files. A watermark that is not later than the file is no reason to
  -- skip it.
  unfoldable pub replay : CacheFile → Counts → Exec IpcError S Counts
  unfolding mtime_ms upload attempt ◌>>=◌ pure
  replay (cache_path, remote) counts = elim (mtime_ms t root cache_path) [
    | none ↦ pure counts
    | some mtime ↦ (do
      w ← attempt (d.last_synced remote)
      elim w [
        | err e ↦ pure counts
        | ok watermark ↦
            if is_less mtime watermark then pure counts else upload (cache_path, remote) counts
      ])
  ]

  unfoldable pub replay_all : List CacheFile → Counts → Exec IpcError S Counts
  unfolding replay ◌>>=◌ pure
  replay_all [] counts = pure counts
  replay_all (x ∷ xs) counts = do counts' ← replay x counts; replay_all xs counts'

-- `scan_and_replay`: the number of files replayed
unfoldable pub scan_and_replay :
    {S : Type 0} → Tree → Daemon S → ℕ → Str → S → Option (Result (Unit {0}) ℕ × S)
unfolding collect_files replay_all
scan_and_replay t d f root s =
    if not (t.exists root) then some (ok 0, s) else elim (t.canonicalize root) [
      | none ↦ some (err tt, s)
      | some canon ↦ elim (collect_files t f root) [
        | none ↦ none
        | some (err u) ↦ some (err u, s)
        | some (ok files) ↦
            let (r, s') = replay_all t canon d files (0, 0) s in
            some (elim r [ ok counts ↦ ok counts.0 | err e ↦ err tt ], s')
      ]
    ]
