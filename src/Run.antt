-- ===== src/Run.antt =====
-- mount/src/run.rs: start-up, the mount, and the exit code. The session of the FUSE crate, the signals
-- and the runtime are a parameter; the task of `keep_view_fresh` (ViewRefresh) runs beside and is no
-- step here. What is printed and logged is left out.
pub mod ExitCode
pub mod Exclusion
pub mod Termination
use unidrive_mount_linux.Base.{
  ℕ, Bool, true, false, not, Option, none, some, List, [], if◌then◌else◌, Str,
}
use unidrive_mount_linux.Base.Exec.{Result, ok, err}
use unidrive_mount_linux.Cli.{Cli, CliError, Env, usage_error, help, version, parse_args}
use unidrive_mount_linux.Ipc.{IpcError}
use unidrive_mount_linux.Ipc.Client.{Link, Conn}
use unidrive_mount_linux.Ipc.Client.Handshake.{Secrets}
use unidrive_mount_linux.Ipc.Client.Verbs
use unidrive_mount_linux.IpcAuth.{IpcAuth}
use unidrive_mount_linux.KernelFloor.{check_kernel_floor}
use unidrive_mount_linux.ProfileLock.{Files, ProfileLock, ProfileLockError, acquire, drop_lock}
use unidrive_mount_linux.Reconnect.{connect_at_startup}
use unidrive_mount_linux.Reconnect.Daemon.{Pacing, net, connect_inner}
use unidrive_mount_linux.Scanner.{Tree, Daemon, scan_and_replay}
use unidrive_mount_linux.Version.{Build}

-- `EX_OK`, `EX_USAGE`, `EX_CONFIG`, `EX_GENERIC_FAILURE`
abbrev pub ex_ok : ℕ
ex_ok = 0

abbrev pub ex_usage : ℕ
ex_usage = 64

abbrev pub ex_config : ℕ
ex_config = 78

abbrev pub ex_generic_failure : ℕ
ex_generic_failure = 1

-- The signals that end the mount.
pub data SignalKind : Type 0 where
  terminate interrupt : SignalKind

-- `StopReason`; a session ends well or with an error.
pub data StopReason : Type 0 where
  session_ended : Bool → StopReason
  signalled : StopReason

-- What `run_async` fails with.
pub data Failure : Type 0 where
  not_connected : IpcError → Failure
  not_locked : ProfileLockError → Failure
  scan_failed not_mounted no_handler session_failed unmount_failed : Failure

-- The daemon's side is a world as for the client; the kernel's side is apart from it.
pub record Platform : Type 1 where
  pub link : Link
  pub secrets : Secrets link.World
  pub at_startup : Pacing link.World
  pub afterwards : Pacing link.World
  pub Kernel : Type 0
  pub files : Files Kernel
  pub osrelease : Option Str
  pub is_root : Bool
  -- whether the runtime can be built
  pub has_runtime : Bool
  pub tree : Kernel → Tree
  -- `mount_with_unprivileged`
  pub mount_at : Str → Kernel → Bool × Kernel
  pub handle_signal : SignalKind → Kernel → Bool × Kernel
  -- requests are served until a signal comes or the session ends
  pub wait : Kernel → link.World → StopReason × Kernel × link.World
  pub unmount : Kernel → Bool × Kernel
  -- what dropping a `MountHandle` does
  pub drop_mount : Kernel → Kernel

module _ (p : Platform) where
  open p use {link, Kernel}

  -- How a run ends, with the kernel and the world then.
  abbrev pub Outcome : Type 0
  Outcome = Result Failure (Unit {0}) × Kernel × link.World

  abbrev pub or_fail : Bool → Failure → Result Failure (Unit {0})
  or_fail true e = ok tt
  or_fail false e = err e

  -- The mount, from the signal handlers to its end.
  unfoldable pub serve : Kernel → link.World → Outcome
  serve k w =
      let (term, k1) = p.handle_signal terminate k in
      if not term
      then (err no_handler, p.drop_mount k1, w)
      else let (int, k2) = p.handle_signal interrupt k1 in
        if not int
        then (err no_handler, p.drop_mount k2, w)
        else let (stop, k3, w1) = p.wait k2 w in
          elim stop [
            | session_ended fine ↦ (or_fail fine session_failed, p.drop_mount k3, w1)
            | signalled ↦ (let (fine, k4) = p.unmount k3 in (or_fail fine unmount_failed, k4, w1))
          ]

  -- The reconnecting client, and the mount.
  unfoldable pub mount : IpcAuth → Str → Kernel → link.World → Outcome
  unfolding serve
  mount auth path k w =
      let (r, w1) = connect_inner link p.secrets (some auth) p.afterwards w in
      elim r [
        | err e ↦ (err (not_connected e), k, w1)
        | ok client ↦
            let (fine, k1) = p.mount_at path k in
            if fine then serve k1 w1 else (err not_mounted, k1, w1)
      ]

  -- The verbs of the scan, on the first connection.
  unfoldable pub daemon : Daemon (Conn link)
  daemon = record {
    last_synced = λ path. Verbs.last_synced link path;
    open_write = λ id path cache. Verbs.open_write link id path cache;
  }

  -- What is done under the lock: the scan on the first connection, which is dropped then, and the
  -- mount; `none` where the walk has not ended.
  unfoldable pub session : ℕ → IpcAuth → Cli → Str → Kernel → link.World → Option Outcome
  unfolding daemon mount
  session f auth cli incoming k w =
      elim (scan_and_replay (p.tree k) daemon f cli.cache
        (record { incoming = incoming; world = w })) [
          | none ↦ none
          | some (err u, c) ↦ some (err scan_failed, k, c.world)
          | some (ok replayed, c) ↦ some (mount auth cli.mount k c.world)
        ]

  -- `ipc_auth` of the command line
  abbrev pub auth_of : Cli → IpcAuth
  auth_of cli = record {
    token_file = cli.ipc_token_file;
    profile = elim cli.profile [ some name ↦ name | none ↦ [] ];
  }

  -- The lock is dropped last.
  abbrev pub unlocked : ProfileLock p.files → Option Outcome → Option Outcome
  unlocked lock none = none
  unlocked lock (some (r, k, w)) = some (r, drop_lock p.files lock k, w)

  -- `run_async`, on the fuel of the first connection and of the scan
  unfoldable pub run_async : ℕ → ℕ → Cli → Kernel → link.World → Option Outcome
  unfolding session
  run_async n f cli k w =
      elim (connect_at_startup (net link p.secrets (some (auth_of cli)) p.at_startup) n
        (p.at_startup.now w) w) [
          | none ↦ none
          | some (err e, w1) ↦ some (err (not_connected e), k, w1)
          | some (ok incoming, w1) ↦ elim cli.lock [
            | none ↦ session f (auth_of cli) cli incoming k w1
            | some path ↦
                let (r, k1) = acquire p.files path k in
                elim r [
                  | err e ↦ some (err (not_locked e), k1, w1)
                  | ok lock ↦ unlocked lock (session f (auth_of cli) cli incoming k1 w1)
                ]
          ]
        ]

  -- The exit code of `run_async`.
  abbrev pub exit_code : Result Failure (Unit {0}) → ℕ
  exit_code (ok u) = ex_ok
  exit_code (err e) = ex_generic_failure

  -- `run_with_argv`
  unfoldable pub run_with_argv :
      ℕ → ℕ → Build → Env → List Str → Kernel → link.World → Option (ℕ × Kernel × link.World)
  unfolding run_async parse_args check_kernel_floor
  run_with_argv n f b e argv k w = elim (parse_args b e argv) [
    | err (help message) ↦ some (ex_ok, k, w)
    | err (version message) ↦ some (ex_ok, k, w)
    | err (usage_error message) ↦ some (ex_usage, k, w)
    | ok cli ↦ elim (check_kernel_floor p.osrelease) [
      | err x ↦ some (ex_config, k, w)
      | ok u ↦
          if p.is_root
          then some (ex_generic_failure, k, w)
          else if not p.has_runtime
          then some (ex_generic_failure, k, w)
          else elim (run_async n f cli k w) [
            | none ↦ none
            | some (r, k1, w1) ↦ some (exit_code r, k1, w1)
          ]
    ]
  ]
