-- ===== src/Tests/Runs.antt =====
-- Tests of start-up and of the lock of the profile.
use unidrive_mount_linux.Json
use unidrive_mount_linux.Base.Exec
use unidrive_mount_linux.Ipc.Client
use unidrive_mount_linux.Base.{
  ℕ, ◌≡◌, refl, Bool, true, false, none, some, List, [], ◌∷◌, list_eq, nat_eq, Str, str, length,
  is_some, arith, ◌<◌,
}
use unidrive_mount_linux.Base.Exec.{Result, ok, err}
use unidrive_mount_linux.Cli.{Cli, Env, parse_args}
use unidrive_mount_linux.Ipc.Inbound.{max_inbound_line_bytes}
use unidrive_mount_linux.KernelFloor.{check_kernel_floor}
use unidrive_mount_linux.ProfileLock.{held, acquire, drop_lock}
use unidrive_mount_linux.Reconnect.Daemon.{Pacing, net, open_conn, connect_inner}
use unidrive_mount_linux.Reconnect.{connect_at_startup}
use unidrive_mount_linux.Run.{
  Platform, signalled, auth_of, Failure, Outcome, not_locked, run_async, run_with_argv,
}
use unidrive_mount_linux.Run.Exclusion.{run_async-lock}
use unidrive_mount_linux.Run.Termination.{run_async-ends}
use unidrive_mount_linux.Reconnect.Bounds.{IsTicking}
use unidrive_mount_linux.Run.ExitCode.{Told, run_with_argv-Told}
use unidrive_mount_linux.Scanner.{scan_and_replay}
use unidrive_mount_linux.Scanner.Termination.{IsFinite}
use unidrive_mount_linux.Tests.Recovery.{some_tree, some_weight, some_tree-IsFinite}
use unidrive_mount_linux.Tests.Network.{as_line, steady_link, some_secrets}
use unidrive_mount_linux.Tests.Kernel.{
  some_platform, some_locks, some-IsApart, Kernel, holder, Ours, mounted,
}
use unidrive_mount_linux.Version.{Build}

abbrev some_cli : Cli
some_cli = record {
  mount = str "/mnt";
  ipc = str "/s";
  cache = str "/c";
  lock = some (str "/l");
  ipc_token_file = none;
  profile = none;
}

-- Another process holds the lock.
abbrev elsewhere : Kernel
elsewhere = (some false, false)

abbrev locked_out : Outcome some_platform
locked_out = (err (not_locked (held (str "/l"))), elsewhere, [])

locked_out_run :
    run_async some_platform 1 1 some_cli elsewhere (as_line (str "d") ∷ []) ≡ some locked_out
unfolding run_async list_eq nat_eq connect_at_startup open_conn Exec.◌>>=◌ Exec.◌>>◌ Exec.pure
    Client.round_trip Client.write_all Client.flush Client.read_line Client.parse_reply Client.json
    max_inbound_line_bytes Json.as_u64 Json.index acquire
locked_out_run = refl

run_async-lock_example :
    (holder locked_out.1 ≡ holder elsewhere)
    × ((g : Bool)
        → holder elsewhere ≡ some g
        → (mounted locked_out.1 ≡ mounted elsewhere) × (e : Failure) × (locked_out.0 ≡ err e))
run_async-lock_example =
    run_async-lock some_platform (str "/l") holder Ours mounted some-IsApart 1 1 some_cli elsewhere
      (as_line (str "d") ∷ []) locked_out refl locked_out_run

-- A run from the first connection to the signal that ends it.
served_run :
    run_async some_platform 1 1 some_cli (none, false) (as_line (str "d") ∷ as_line (str "d") ∷ [])
    ≡ some (ok tt, (none, false), [])
unfolding run_async list_eq nat_eq connect_at_startup open_conn Exec.◌>>=◌ Exec.◌>>◌ Exec.pure
    Client.round_trip Client.write_all Client.flush Client.read_line Client.parse_reply Client.json
    max_inbound_line_bytes Json.as_u64 Json.index acquire scan_and_replay connect_inner drop_lock
served_run = refl

abbrev a_build : Build
a_build = record { version = str "0.0.2"; commit = []; dirty = false; tagged = true }

abbrev an_env : Env
an_env = record { xdg_cache_home = none; home = none }

-- A command line without a mount point.
abbrev misused : ℕ × Kernel × List Str
misused = (64, elsewhere, [])

misused_run : run_with_argv some_platform 1 1 a_build an_env [] elsewhere [] ≡ some misused
unfolding run_with_argv
misused_run = refl

run_with_argv-Told_example :
    Told some_platform elsewhere []
      (parse_args a_build an_env [])
      (check_kernel_floor (some (str "6.12.0")))
      false
      (λ cli. run_async some_platform 1 1 cli elsewhere [])
      misused
run_with_argv-Told_example =
    run_with_argv-Told some_platform elsewhere [] 1 1 a_build an_env [] misused misused_run

-- A platform whose daemon answers always, and whose time is the number of pauses.
abbrev counting : Pacing (List Str)
counting = record { now = length; pause = λ w. [] ∷ w; budget = 10 }

abbrev steady_platform : Platform
steady_platform = record {
  link = steady_link;
  secrets = some_secrets;
  at_startup = counting;
  afterwards = counting;
  Kernel = Kernel;
  files = some_locks;
  osrelease = none;
  is_root = false;
  has_runtime = true;
  tree = λ k. some_tree;
  mount_at = λ dir k. (true, k);
  handle_signal = λ s k. (true, k);
  wait = λ k w. (signalled, k, w);
  unmount = λ k. (true, k);
  drop_mount = λ k. k;
}

answered :
    (w : List Str)
    → open_conn steady_link some_secrets (some (auth_of steady_platform some_cli)) counting w
      ≡ (ok [], w)
unfolding open_conn list_eq nat_eq Exec.◌>>=◌ Exec.◌>>◌ Exec.pure Client.round_trip Client.write_all
    Client.flush Client.read_line Client.parse_reply Client.json max_inbound_line_bytes Json.as_u64
    Json.index
answered w = refl

ticking :
    IsTicking (net steady_link some_secrets (some (auth_of steady_platform some_cli)) counting)
ticking = record {
  attempts_take = λ w. rw (answered w) (omega arith);
  pauses_take = λ w. omega arith;
}

small :
    (root : Str)
    → some_tree.canonicalize some_cli.cache ≡ some root
    → IsFinite some_tree root some_weight × (some_weight root < 3)
unfolding list_eq nat_eq
small root c = let same : str "/c" ≡ root = cc in rw (← same) (some_tree-IsFinite, omega arith)

run_async-ends_example : is_some (run_async steady_platform 11 3 some_cli elsewhere []) ≡ true
run_async-ends_example =
    run_async-ends steady_platform some_cli some_weight 3 ticking (λ k. small) elsewhere []
