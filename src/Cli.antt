-- ===== src/Cli.antt =====
-- mount/src/cli.rs: the command line.
pub mod Roundtrip
use unidrive_mount_linux.Base.{
  zero, suc, ◌+◌, ◌-◌, ◌/◌, ◌<◌, refl, ◌&&◌, ◌||◌, not, Option, none, some, List, [], ◌∷◌, ◌++◌,
  arith, ◌==◌, list_eq, nat_eq, drop, if◌then◌else◌, is_some, Str, str,
}
use unidrive_mount_linux.Version.{Build, version_string}
use unidrive_mount_linux.Fs.Namespace.{join}
use unidrive_mount_linux.Base.Exec.{Result, err, ok}
use unidrive_mount_linux.Json.{unwrap_or}
use unidrive_mount_linux.Base.Decimal.{decimal}

-- Lines, each with its newline.
unfoldable pub lines : List Str → Str
lines [] = []
lines (l ∷ ls) = l ++ (10 ∷ lines ls)

-- `USAGE`
abbrev pub usage : Str
usage = lines (
    str "Usage: unidrive-mount --mount <path> --ipc <socket> [--cache <path>] [--lock <path>]"
    ∷ str "                       [--ipc-token-file <path> --profile <name>]"
    ∷ str "       unidrive-mount --version"
    ∷ str ""
    ∷ str "Options:"
    ∷ str "  --mount <path>   Filesystem mount point (an existing empty directory)."
    ∷ str "  --ipc <socket>   Unix-domain-socket path to the unidrive JVM IpcServer."
    ∷ str "  --cache <path>   LocalCache root for crash-recovery scan at startup."
    ∷ str "                   Defaults to $XDG_CACHE_HOME/unidrive/hydration, or"
    ∷ str "                   $HOME/.cache/unidrive/hydration if XDG_CACHE_HOME unset."
    ∷ str "  --lock <path>    Per-profile lock file. When supplied, the co-daemon"
    ∷ str "                   acquires its own flock(2) on this path for the session,"
    ∷ str "                   closing the kill -9 race with the JVM-side ProcessLock."
    ∷ str "  --ipc-token-file <path>"
    ∷ str "                   The profile's IPC token file (ipc.token, scope full)."
    ∷ str "                   Read again on every connect; every connection runs"
    ∷ str "                   the IPC protocol-2 handshake with it. Requires --profile."
    ∷ str "  --profile <name> Profile name exactly as in config.toml (part of the"
    ∷ str "                   handshake proof)."
    ∷ str "  --version        Print the version and the IPC protocol, then exit."
    ∷ str "  --help           Show this message and exit."
    ∷ [])

-- `Cli`
pub record Cli : Type 0 where
  pub mount : Str
  pub ipc : Str
  pub cache : Str
  pub lock : Option Str
  pub ipc_token_file : Option Str
  pub profile : Option Str

-- `CliError`
pub data CliError : Type 0 where
  usage_error : Str → CliError
  help : Str → CliError
  version : Str → CliError

-- The local variables of `parse_args`.
pub record Given : Type 0 where
  pub mount : Option Str
  pub ipc : Option Str
  pub cache : Option Str
  pub lock : Option Str
  pub ipc_token_file : Option Str
  pub profile : Option Str

abbrev pub nothing_given : Given
nothing_given = record {
  mount = none;
  ipc = none;
  cache = none;
  lock = none;
  ipc_token_file = none;
  profile = none;
}

-- The options that take a value.
pub data Slot : Type 0 where
  mount ipc cache lock ipc_token_file profile : Slot

-- What an argument is.
pub data Argument : Type 0 where
  asks_help asks_version unknown : Argument
  takes : Slot → Argument

unfoldable pub flag_of : Slot → Str
flag_of mount = str "--mount"
flag_of ipc = str "--ipc"
flag_of cache = str "--cache"
flag_of lock = str "--lock"
flag_of ipc_token_file = str "--ipc-token-file"
flag_of profile = str "--profile"

-- The arms of the `match` on an argument.
unfoldable pub argument_of : Str → Argument
argument_of arg =
    if arg == str "--help" || arg == str "-h"
    then asks_help
    else if arg == str "--mount"
    then takes mount
    else if arg == str "--ipc"
    then takes ipc
    else if arg == str "--cache"
    then takes cache
    else if arg == str "--lock"
    then takes lock
    else if arg == str "--version"
    then asks_version
    else if arg == str "--ipc-token-file"
    then takes ipc_token_file
    else if arg == str "--profile"
    then takes profile
    else unknown

unfoldable pub set_slot : Slot → Str → Given → Given
set_slot mount v g = record g { mount = some v }
set_slot ipc v g = record g { ipc = some v }
set_slot cache v g = record g { cache = some v }
set_slot lock v g = record g { lock = some v }
set_slot ipc_token_file v g = record g { ipc_token_file = some v }
set_slot profile v g = record g { profile = some v }

-- A usage error: its message, and the usage below it.
unfoldable pub complain : {A : Type 0} → Str → Result CliError A
complain message = err (usage_error (message ++ (10 ∷ usage)))

-- An argument that ends the loop: help, the version, an unknown one, or an option at the end.
unfoldable pub stop : Build → Str → Argument → Result CliError Given
unfolding complain version_string flag_of
stop b arg asks_help = err (help usage)
stop b arg asks_version = err (
    version (
      str "unidrive-mount "
      ++ (version_string b ++ (str " ipc-protocol " ++ (decimal 2 ++ (10 ∷ []))))))
stop b arg unknown = complain (str "unknown argument: " ++ arg)
stop b arg (takes slot) = complain (flag_of slot ++ str " requires a value")

-- The loop of `parse_args` over the arguments after the program's name.
unfoldable pub parse_flags : Build → Given → List Str → Result CliError Given
unfolding argument_of set_slot stop
parse_flags b g [] = ok g
parse_flags b g (arg ∷ []) = stop b arg (argument_of arg)
parse_flags b g (arg ∷ v ∷ rest) = elim (argument_of arg) [
  | takes slot ↦ parse_flags b (set_slot slot v g) rest
  | other ↦ stop b arg other
]

-- The environment that `default_cache_root` reads.
pub record Env : Type 0 where
  pub xdg_cache_home : Option Str
  pub home : Option Str

-- `default_cache_root`
unfoldable pub default_cache_root : Env → Str
unfolding join
default_cache_root e = elim e.xdg_cache_home [
  | some x ↦ join (join x (str "unidrive")) (str "hydration")
  | none ↦ elim e.home [
    | some h ↦ join (join (join h (str ".cache")) (str "unidrive")) (str "hydration")
    | none ↦ str ".cache/unidrive/hydration"
  ]
]

-- The end of `parse_args`: what is required, and the default.
unfoldable pub finish : Env → Given → Result CliError Cli
unfolding complain default_cache_root
finish e g = elim g.mount [
  | none ↦ complain (str "missing required --mount")
  | some m ↦ elim g.ipc [
    | none ↦ complain (str "missing required --ipc")
    | some i ↦
        if is_some g.ipc_token_file && not (is_some g.profile)
        then complain (str "--ipc-token-file requires --profile")
        else ok (record {
          mount = m;
          ipc = i;
          cache = unwrap_or g.cache (default_cache_root e);
          lock = g.lock;
          ipc_token_file = g.ipc_token_file;
          profile = g.profile;
        })
  ]
]

-- `parse_args`
unfoldable pub parse_args : Build → Env → List Str → Result CliError Cli
unfolding parse_flags finish
parse_args b e argv = elim (parse_flags b nothing_given (drop 1 argv)) [
  | err x ↦ err x
  | ok g ↦ finish e g
]
