-- ===== src/Tests/Client.antt =====
-- Tests of the client's framing, of its reconnection and of the command line.
use unidrive_mount_linux.Base.{
  ℕ, ◌+◌, ◌≡◌, refl, ◌⊎◌, true, false, none, some, [], ◌∷◌, ◌++◌, arith, list_eq, nat_eq, is_some,
  if◌then◌else◌, ltb, str,
}
use unidrive_mount_linux.Cli.{Cli, Env, default_cache_root, parse_args}
use unidrive_mount_linux.Version.{Build, version_string}
use unidrive_mount_linux.Ipc.{IpcError, io, server_error, unexpected_eof, not_found, IoKind}
use unidrive_mount_linux.Reconnect.Bounds.{IsTicking, ensure_connected-ends}
use unidrive_mount_linux.Reconnect.{
  Client, Method, Net, ensure_connected, no_retry_on_io, retry_io_loop,
}
use unidrive_mount_linux.Ipc.Inbound.{
  read_inbound_line, newline, read_until, ends_line, too_long, line,
}
use unidrive_mount_linux.Cli.Roundtrip.{flags, options, parse_args-flags}
use unidrive_mount_linux.Reconnect.Verbs.{
  retry_io_loop-endless, auth_failure-final, no_retry_on_io-once,
}
use unidrive_mount_linux.Base.Exec.{err, ok, Result}
use unidrive_mount_linux.Ipc.Inbound.InStep.{read_inbound_line_lem}

-- Two lines that arrive three bytes at a time; the first is one byte too long.
read_inbound_line_lem_example :
    read_inbound_line (λ s. 2) 4 (str "four" ++ (newline ∷ str "abc")) ≡ (ok too_long, str "abc")
unfolding nat_eq
read_inbound_line_lem_example =
    read_inbound_line_lem (λ s. 2) 4 (str "four") (str "abc") (omega arith) refl

read_inbound_line_run :
    read_inbound_line (λ s. 2) 5 (str "four" ++ (newline ∷ str "abc"))
    ≡ (ok (line (str "four" ++ (newline ∷ []))), str "abc")
unfolding read_inbound_line read_until ends_line nat_eq
read_inbound_line_run = refl

-- A daemon that lets a client connect and then breaks the connection; the world is the time.
abbrev some_net : Net
some_net = record {
  World = ℕ;
  Conn = Unit {0};
  open_conn = λ t. (ok tt, t);
  now = λ t. t;
  pause = λ t. t + 5;
  budget = 60;
}

abbrev breaking : Method some_net ℕ
breaking conn t = (err (io unexpected_eof), tt, t)

abbrev fresh_client : Client (Unit {0})
fresh_client = record { inner = none; auth_failure = none }

abbrev refused_client : Client (Unit {0})
refused_client = record { inner = none; auth_failure = some (str "auth_failed") }

ticking : IsTicking some_net
ticking = record { attempts_take = λ w. omega arith; pauses_take = λ w. omega arith }

ensure_connected-ends_example : is_some (ensure_connected some_net 61 fresh_client 7) ≡ true
ensure_connected-ends_example = ensure_connected-ends some_net ticking fresh_client 7

-- A daemon that is not there before the time 12 and refuses the handshake then.
abbrev refusing_net : Net
refusing_net = record some_net {
  open_conn = λ t. (err (if ltb t 12 then io not_found else server_error (str "auth_failed")), t);
}

auth_failure-final_example :
    (no_retry_on_io refusing_net 9 breaking refused_client 70
      ≡ some (err (server_error (str "auth_failed")), refused_client, 70))
    × (retry_io_loop refusing_net 3 9 breaking refused_client 70
        ≡ some (err (server_error (str "auth_failed")), refused_client, 70))
unfolding ensure_connected unidrive_mount_linux.Base.starts_with nat_eq
auth_failure-final_example =
    auth_failure-final refusing_net 9 2 9 breaking fresh_client refused_client 7 12 70
      (server_error (str "auth_failed")) refl refl

retry_io_loop-endless_example : retry_io_loop some_net 1000 9 breaking fresh_client 7 ≡ none
retry_io_loop-endless_example =
    retry_io_loop-endless some_net 1000 9 breaking fresh_client 7 refl (λ w. (tt, refl))
      (λ conn w. (unexpected_eof, refl))

abbrev broken : Result IpcError ℕ
broken = err (io unexpected_eof)

no_retry_on_io-once_example :
    ((e : IpcError) × (broken ≡ err e)
      × (ensure_connected some_net 9 fresh_client 7 ≡ some (err e, fresh_client, 7)))
    ⊎ ((c1 : Client (Unit {0})) × (conn : Unit {0}) × (w1 : ℕ) × (ensure_connected some_net 9
            fresh_client 7
          ≡ some (ok tt, c1, w1))
        × (c1.inner ≡ some conn)
        × (broken ≡ (breaking conn w1).0)
        × (7 ≡ (breaking conn w1).2)
        × ((kind : IoKind) → broken ≡ err (io kind) → fresh_client.inner ≡ none))
unfolding no_retry_on_io
no_retry_on_io-once_example =
    no_retry_on_io-once some_net 9 breaking fresh_client 7 {r = err (io unexpected_eof)}
      {c2 = fresh_client} {w2 = 7} refl

abbrev some_build : Build
some_build = record { version = str "0.0.2"; commit = str "abc1234"; dirty = true; tagged = false }

abbrev some_env : Env
some_env = record { xdg_cache_home = none; home = some (str "/home/u") }

abbrev some_cli : Cli
some_cli = record {
  mount = str "/mnt";
  ipc = str "--help";
  cache = str "/c";
  lock = none;
  ipc_token_file = some (str "/t");
  profile = some (str "p1");
}

parse_args-flags_example :
    parse_args some_build some_env (str "unidrive-mount" ∷ flags (options some_cli)) ≡ ok some_cli
parse_args-flags_example = parse_args-flags some_build some_env (str "unidrive-mount") some_cli refl

version_string_run : version_string some_build ≡ str "0.0.2+abc1234.dirty"
unfolding version_string
version_string_run = refl

default_cache_root_run : default_cache_root some_env ≡ str "/home/u/.cache/unidrive/hydration"
unfolding default_cache_root nat_eq
default_cache_root_run = refl
