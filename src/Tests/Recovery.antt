-- ===== src/Tests/Recovery.antt =====
-- Tests of the crash recovery.

use unidrive_mount_linux.Base.{
  ◌+◌, ◌<◌, ◌≡◌, ◌↔◌, refl, ap, ◌∙◌, true, false, Option, none, some, List, [], ◌∷◌, ◌==◌, arith,
  keep_if, list_eq, nat_eq, if◌then◌else◌, Str, str, ℕ, starts_with, strip_prefix, Bool-cases, inl,
  inr,
}
use unidrive_mount_linux.Base.Exec.{Result, ok}
use unidrive_mount_linux.Base.Int.{pos, wrap_i64}
use unidrive_mount_linux.Ipc.Client.{Link, Conn, json}
use unidrive_mount_linux.Ipc.Client.Verbs
use unidrive_mount_linux.Json.{Value, bool, int, string}
use unidrive_mount_linux.Tests.Network.{as_line}
use unidrive_mount_linux.Scanner.{
  Tree, DirEntry, is_under, FileKind, regular, directory, CacheFile, Daemon, visit_all,
  collect_files, scan_and_replay,
}
use unidrive_mount_linux.Scanner.Files.{Holds, collect_files_exact}
use unidrive_mount_linux.Scanner.Plan.{IsSteady, is_due, plan, perform, Request, asks, sends}
use unidrive_mount_linux.Scanner.Replay.{scan_and_replay-plan}
use unidrive_mount_linux.Scanner.Termination.{IsFinite, total}
use mathlib.Core.List.{Memᴰ}

-- A cache with the files `/c/f` and `/c/d/g`.
abbrev entry : FileKind → Str → Option DirEntry
entry kind path = some (record { path = path; kind = some kind })

abbrev listing : Str → Option (List (Option DirEntry))
listing d =
    if d == str "/c"
    then some (entry directory (str "/c/d") ∷ entry regular (str "/c/f") ∷ [])
    else if d == str "/c/d"
    then some (entry regular (str "/c/d/g") ∷ [])
    else none

abbrev pub some_tree : Tree
some_tree = record {
  exists = λ p. true;
  canonicalize = λ p. some p;
  read_dir = listing;
  metadata = λ p.
      some (record { is_symlink = false; modified_ms = some (if p == str "/c/f" then 4 else 5) });
  lossy = λ s. s;
}

abbrev some_files : List CacheFile
some_files = (str "/c/f", str "/f") ∷ (str "/c/d/g", str "/d/g") ∷ []

collected : collect_files some_tree 3 (str "/c") ≡ some (ok some_files)
unfolding collect_files nat_eq list_eq starts_with strip_prefix
collected = refl

collect_files_exact_example :
    (Memᴰ (str "/c/d/g", str "/d/g") some_files
      ↔ Holds some_tree (str "/c") (str "/c") (str "/c/d/g", str "/d/g"))
    × (Memᴰ (str "/c/d/g", str "/d/g") some_files → is_under (str "/c") (str "/c/d/g") ≡ true)
collect_files_exact_example =
    collect_files_exact some_tree 3 (str "/c") (str "/c") some_files refl collected
      (str "/c/d/g", str "/d/g")

-- A daemon that answers every verb with success, the watermark 5 and a cache path; the world is the
-- number of writes to the socket.
abbrev synced : Value
synced = json (
    (str "ok", bool true)
    ∷ (str "mtime_ms", int (pos 5))
    ∷ (str "cache_path", string (str "/c/f"))
    ∷ [])

abbrev counting_link : Link
counting_link = record {
  World = ℕ;
  dial = λ w. (ok tt, w);
  write_all = λ s w. (ok tt, w + 1);
  flush = λ w. (ok (as_line (str "t")), w);
  shutdown = λ w. w;
  buffered = λ s. 2;
  print = λ v. str "?";
  parse = λ s. ok synced;
  lossy = λ s. s;
}

-- The verbs of the client, as the scan uses them.
abbrev some_daemon : Daemon (Conn counting_link)
some_daemon = record {
  last_synced = λ path. Verbs.last_synced counting_link path;
  open_write = λ id path cache. Verbs.open_write counting_link id path cache;
}

abbrev connected : ℕ → Conn counting_link
connected w = record { incoming = []; world = w }

asked :
    (path : Str) (w : ℕ)
    → Verbs.last_synced counting_link path (connected w) ≡ (ok (pos 5), connected (w + 1 + 1))
unfolding Verbs.last_synced unidrive_mount_linux.Base.Exec.◌>>=◌ unidrive_mount_linux.Base.Exec.◌>>◌
    unidrive_mount_linux.Ipc.Client.write_all unidrive_mount_linux.Ipc.Client.flush
    unidrive_mount_linux.Ipc.Client.read_line
    unidrive_mount_linux.Ipc.Inbound.max_inbound_line_bytes nat_eq
    unidrive_mount_linux.Ipc.Client.parse_reply unidrive_mount_linux.Json.as_bool
    unidrive_mount_linux.Json.index list_eq unidrive_mount_linux.Json.as_i64
asked path w = refl

sent :
    (id path cache : Str) (w : ℕ)
    → Verbs.open_write counting_link id path cache (connected w)
      ≡ (ok (str "/c/f"), connected (w + 1 + 1))
unfolding Verbs.open_write unidrive_mount_linux.Base.Exec.◌>>=◌ unidrive_mount_linux.Base.Exec.◌>>◌
    unidrive_mount_linux.Ipc.Client.write_all unidrive_mount_linux.Ipc.Client.flush
    unidrive_mount_linux.Ipc.Client.read_line
    unidrive_mount_linux.Ipc.Inbound.max_inbound_line_bytes nat_eq
    unidrive_mount_linux.Ipc.Client.parse_reply unidrive_mount_linux.Json.as_bool
    unidrive_mount_linux.Json.index list_eq unidrive_mount_linux.Json.as_str
sent id path cache w = refl

-- Nothing is left to be read.
abbrev Ready : Conn counting_link → Type 0
Ready c = c.incoming ≡ []

asked_ready :
    (path : Str) (c : Conn counting_link)
    → Ready c
    → Verbs.last_synced counting_link path c ≡ (ok (pos 5), connected (c.world + 1 + 1))
asked_ready path c e =
    ap
      (λ (t : Str). Verbs.last_synced counting_link path (record { incoming = t; world = c.world }))
      e
    ∙ asked path c.world

sent_ready :
    (id path cache : Str) (c : Conn counting_link)
    → Ready c
    → Verbs.open_write counting_link id path cache c
      ≡ (ok (str "/c/f"), connected (c.world + 1 + 1))
sent_ready id path cache c e =
    ap
      (λ (t : Str).
        Verbs.open_write counting_link id path cache (record { incoming = t; world = c.world }))
      e
    ∙ sent id path cache c.world

steady : IsSteady some_tree (str "/c") some_daemon Ready
steady = record {
  ask_ready = λ p c e. rw (asked_ready p c e) refl;
  send_ready = λ id p cache c e. rw (sent_ready id p cache c e) refl;
  ask_same = λ p q c e. rw (asked_ready p c e, asked_ready q c e, asked q (c.world + 1 + 1)) refl;
  send_same = λ id p cache q c e n.
      rw (sent_ready id p cache c e, asked_ready q c e, asked q (c.world + 1 + 1)) refl;
}

abbrev planned : List Request
planned =
    plan some_tree (str "/c") some_daemon (is_due some_tree (str "/c") some_daemon (connected 0)) 0
      some_files

scan_and_replay-plan_example :
    scan_and_replay some_tree some_daemon 3 (str "/c") (connected 0)
    ≡ some (
      ok (perform some_tree (str "/c") some_daemon planned (connected 0)).0,
      (perform some_tree (str "/c") some_daemon planned (connected 0)).1,
    )
unfolding list_eq nat_eq
scan_and_replay-plan_example =
    scan_and_replay-plan some_tree (str "/c") some_daemon Ready steady 3 (str "/c") some_files
      (connected 0) refl refl refl collected (refl, (refl, tt))

-- `/f` is older than its watermark.
planned_run :
    planned
    ≡ asks (str "/f")
      ∷ asks (str "/d/g")
      ∷ sends (str "recovery-1") (str "/d/g") (str "/c/d/g")
      ∷ []
unfolding plan is_due unidrive_mount_linux.Scanner.mtime_ms list_eq nat_eq starts_with
    Verbs.last_synced unidrive_mount_linux.Base.Exec.◌>>◌ unidrive_mount_linux.Ipc.Client.write_all
    unidrive_mount_linux.Ipc.Client.flush unidrive_mount_linux.Ipc.Client.read_line
    unidrive_mount_linux.Ipc.Inbound.max_inbound_line_bytes
    unidrive_mount_linux.Ipc.Client.parse_reply unidrive_mount_linux.Json.as_bool
    unidrive_mount_linux.Json.index unidrive_mount_linux.Json.as_i64 wrap_i64
    unidrive_mount_linux.Base.Decimal.decimal
planned_run = refl

abbrev pub some_weight : Str → ℕ
some_weight d = if d == str "/c" then 2 else 1

folders :
    (d : Str) (es : List (Option DirEntry)) (ds : List Str) (fs : List CacheFile)
    → listing d ≡ some es
    → visit_all some_tree (str "/c") es ≡ ok (ds, fs)
    → total some_weight ds < some_weight d
unfolding visit_all nat_eq list_eq starts_with strip_prefix
folders d es ds fs r v = elim (Bool-cases (d == str "/c")) [
  | inl b ↦
      let same : entry directory (str "/c/d") ∷ entry regular (str "/c/f") ∷ [] ≡ es =
        (let h : some (entry directory (str "/c/d") ∷ entry regular (str "/c/f") ∷ []) ≡ some es =
            rw b at r in
          cc) in
      let only : str "/c/d" ∷ [] ≡ ds = (let h = rw (← same) at v in cc) in
      rw (← only, b) (omega arith)
  | inr b ↦ elim (Bool-cases (d == str "/c/d")) [
    | inl k ↦
        let same : entry regular (str "/c/d/g") ∷ [] ≡ es =
          (let h : some (entry regular (str "/c/d/g") ∷ []) ≡ some es = rw (b, k) at r in cc) in
        let only : [] ≡ ds = (let h = rw (← same) at v in cc) in rw (← only, b) (omega arith)
    | inr k ↦ absurd (ground arith)
  ]
]

pub some_tree-IsFinite : IsFinite some_tree (str "/c") some_weight
some_tree-IsFinite = record { positive = λ d. ground arith; heavier = folders }
