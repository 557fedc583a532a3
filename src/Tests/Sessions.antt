-- ===== src/Tests/Sessions.antt =====
-- Tests of the handshake, of the requests and of the kernel floor.
use unidrive_mount_linux.Json
use unidrive_mount_linux.Base.Exec
use unidrive_mount_linux.Ipc.Client
use unidrive_mount_linux.Base.{
  ℕ, ◌≤◌, ◌<◌, ◌≡◌, ◌≢◌, refl, ◌⊎◌, inr, none, some, List, [], ◌∷◌, ◌++◌, arith, list_eq, nat_eq,
  length, Str, str,
}
use unidrive_mount_linux.Base.Decimal.{decimal}
use unidrive_mount_linux.Base.Exec.{ok, err}
use unidrive_mount_linux.Base.Split.{trim}
use unidrive_mount_linux.Ipc.{IpcError, malformed}
use unidrive_mount_linux.Ipc.Client.{Conn, round_trip, call, decode}
use unidrive_mount_linux.Ipc.Client.Exchange.{call-reply, Answers, discarded}
use unidrive_mount_linux.Ipc.Client.Failures.{IsConnectError}
use unidrive_mount_linux.Ipc.Client.Handshake.{
  connect_auth, failed, token_of, status_request, version_of,
}
use unidrive_mount_linux.Ipc.Client.Handshake.Acceptance.{IsHonest, connect_auth-honest}
use unidrive_mount_linux.Ipc.Client.Handshake.Authentication.{IsAuthentic, connect_auth-authentic}
use unidrive_mount_linux.Ipc.Client.Handshake.Refusals.{connect_auth-refused}
use unidrive_mount_linux.Ipc.Client.InStep.{IsAnswering, ask}
use unidrive_mount_linux.Ipc.Client.Verbs.{done, list}
use unidrive_mount_linux.Ipc.Client.Listing.{list-wire}
use unidrive_mount_linux.Ipc.Inbound.{newline, max_inbound_line_bytes}
use unidrive_mount_linux.IpcAuth.{
  key, absent, protocol, client_message, server_message, client_proof, server_proof,
  verify_server_proof, read_token,
}
use unidrive_mount_linux.IpcAuth.Messages.{messages_unambiguous}
use unidrive_mount_linux.Json.{Value}
use unidrive_mount_linux.KernelFloor.{check_kernel_floor, too_old}
use unidrive_mount_linux.KernelFloor.Releases.{check_kernel_floor-release}
use unidrive_mount_linux.Reconnect.{Client, no_retry_on_io, retry_io_loop}
use unidrive_mount_linux.Reconnect.Daemon.{Pacing, net, method}
use unidrive_mount_linux.Reconnect.InStep.{IsInStep, verb-IsInStep}
use unidrive_mount_linux.Tests.Network.{
  some_link, steady_link, some_secrets, with_token, as_line, greeting, read_json, some_entry,
  proved, some_key,
}

abbrev script : List Str
script = as_line (str "g") ∷ as_line (str "p") ∷ as_line (str "d") ∷ []

abbrev dialled : Conn some_link
dialled = record { incoming = []; world = script }

abbrev session : Conn some_link
session = record { incoming = []; world = as_line (str "d") ∷ [] }

connected : (connect_auth some_link some_secrets with_token script).0 ≡ ok session
unfolding connect_auth nat_eq Exec.◌>>=◌ Exec.◌>>◌ Exec.expect_some Exec.pure round_trip
    Client.write_all Client.flush Client.read_line Client.parse_reply Client.is_ok Client.json
    max_inbound_line_bytes list_eq Json.as_bool Json.index Json.as_str verify_server_proof
    client_proof server_proof decimal
connected = refl

connect_auth-authentic_example :
    (w1 : List Str) × (some_link.dial script ≡ (ok tt, w1))
    × (((k : Str) × (token_of some_link some_secrets with_token w1 ≡ ok (key k))
          × IsAuthentic some_link some_secrets k with_token.profile
              (record { incoming = []; world = w1 }))
        ⊎ ((reply : Value) × (token_of some_link some_secrets with_token w1 ≡ ok absent)
            × ((round_trip some_link
                  (status_request some_link some_secrets)
                  (record { incoming = []; world = w1 })).0
                ≡ ok reply)
            × (version_of some_link some_secrets reply < protocol)))
connect_auth-authentic_example =
    connect_auth-authentic some_link some_secrets with_token script session connected

honest : IsHonest some_link some_secrets some_key (str "p1") dialled
unfolding nat_eq list_eq Exec.◌>>=◌ Exec.◌>>◌ Client.round_trip Client.write_all Client.flush
    Client.read_line Client.parse_reply Client.is_ok Client.json max_inbound_line_bytes Json.as_bool
    Json.index Json.as_str
honest = record {
  bytes = str "n";
  snonce = str "s";
  greeting = greeting;
  reply = proved;
  greeted = record { incoming = []; world = as_line (str "p") ∷ as_line (str "d") ∷ [] };
  final = session;
  random = refl;
  greets = refl;
  welcome = refl;
  named = refl;
  proves = refl;
  agrees = refl;
  proved = refl;
}

has_key : token_of some_link some_secrets with_token script ≡ ok (key some_key)
unfolding token_of read_token trim nat_eq
has_key = refl

connect_auth-honest_example :
    connect_auth some_link some_secrets with_token script ≡ (ok session, as_line (str "d") ∷ [])
unfolding honest
connect_auth-honest_example =
    connect_auth-honest some_link some_secrets with_token some_key script script (λ s. refl) refl
      has_key honest

-- A daemon that does not know the token.
abbrev impostor : List Str
impostor = as_line (str "g") ∷ as_line (str "d") ∷ []

abbrev mismatch : IpcError
mismatch = failed (str "the daemon's proof did not match; connection closed")

refused : (connect_auth some_link some_secrets with_token impostor).0 ≡ err mismatch
unfolding connect_auth nat_eq Exec.◌>>=◌ Exec.◌>>◌ Exec.expect_some Exec.pure Exec.raise round_trip
    Client.write_all Client.flush Client.read_line Client.parse_reply Client.is_ok Client.json
    max_inbound_line_bytes list_eq Json.as_bool Json.index Json.as_str verify_server_proof
    client_proof server_proof decimal
refused = refl

connect_auth-refused_example : IsConnectError mismatch
connect_auth-refused_example =
    connect_auth-refused some_link some_secrets with_token impostor mismatch refused

messages_unambiguous_example :
    (client_message (str "p|1") (str "n") (str "s") ≡ client_message (str "p") (str "1") (str "s")
      → (str "p|1" ≡ str "p") × (str "n" ≡ str "1") × (str "s" ≡ str "s"))
    × (server_message (str "p|1") (str "n") (str "s") (str "c")
          ≡ server_message (str "p") (str "1") (str "s") (str "d")
        → (str "p|1" ≡ str "p") × (str "n" ≡ str "1") × (str "s" ≡ str "s") × (str "c" ≡ str "d"))
    × (client_message (str "p|1") (str "n") (str "s")
        ≢ server_message (str "p") (str "1") (str "s") (str "d"))
unfolding nat_eq
messages_unambiguous_example =
    messages_unambiguous (str "p|1") (str "p") (str "n") (str "1") (str "s") (str "s") (str "c")
      (str "d") refl refl refl refl

-- A request whose answer is a line and the beginning of the next one.
abbrev asked : Conn some_link
asked = record { incoming = []; world = (as_line (str "d") ++ str "x") ∷ [] }

abbrev ahead : Conn some_link
ahead = record { incoming = str "x"; world = [] }

answers : Answers some_link asked greeting (str "d" ++ (newline ∷ str "x"))
answers = record { fits = omega arith; wrote = refl; ended = refl; flushed = refl }

call-reply_example :
    ((length (str "d") < max_inbound_line_bytes)
      × ((v : Value)
          → read_json (str "d") ≡ ok v
          → call some_link greeting done asked ≡ (decode done v, ahead))
      × ((e : Str)
          → read_json (str "d") ≡ err e
          → call some_link greeting done asked
            ≡ (err (malformed (e ++ (str ": " ++ str "d"))), ahead)))
    ⊎ ((max_inbound_line_bytes ≤ length (str "d"))
        × (call some_link greeting done asked ≡ (err discarded, ahead)))
unfolding nat_eq
call-reply_example = call-reply some_link asked greeting (str "d") (str "x") refl refl answers done

-- A listing of one entry, whose modified time is before 1970.
abbrev asks_list : Conn some_link
asks_list = record { incoming = []; world = as_line (str "l") ∷ [] }

list-wire_example :
    list some_link (str "/") asks_list
    ≡ (ok (some_entry ∷ []), record { incoming = []; world = [] })
unfolding nat_eq list_eq
list-wire_example =
    list-wire some_link asks_list (str "/") (str "l") [] (some_entry ∷ []) refl refl
      (record { fits = omega arith; wrote = refl; ended = refl; flushed = refl })
      (unfold max_inbound_line_bytes in omega arith) refl (((omega arith, omega arith, tt), tt))

steady : IsAnswering steady_link
unfolding nat_eq
steady = record { one_line = λ w s e. (str "d", cc, refl) }

abbrev pacing : Pacing (List Str)
pacing = record { now = λ w. 0; pause = λ w. w; budget = 60 }

abbrev clean : Client Str
clean = record { inner = some []; auth_failure = none }

verb-IsInStep_example :
    (no_retry_on_io
          (net steady_link some_secrets none pacing)
          9
          (method steady_link some_secrets none pacing (ask steady_link greeting (decode done)))
          clean
          []
        ≡ some (ok tt, clean, [])
      → IsInStep clean)
    × (retry_io_loop
            (net steady_link some_secrets none pacing)
            3
            9
            (method steady_link some_secrets none pacing (ask steady_link greeting (decode done)))
            clean
            []
          ≡ some (ok tt, clean, [])
        → IsInStep clean)
verb-IsInStep_example =
    verb-IsInStep steady_link some_secrets none pacing steady greeting (decode done) 3 9 clean clean
      [] [] (ok tt) (λ s e. cc)

check_kernel_floor-release_example :
    (((6 < 6) ⊎ ((◌≡◌ {A = ℕ} 6 6) × (9 ≤ 9)))
      × (check_kernel_floor (some (str "6.9.1-arch1\n")) ≡ ok tt))
    ⊎ (((6 < 6) ⊎ ((◌≡◌ {A = ℕ} 6 6) × (9 < 9)))
        × (check_kernel_floor (some (str "6.9.1-arch1\n"))
            ≡ err (too_old (trim (str "6.9.1-arch1\n")))))
unfolding trim nat_eq decimal
check_kernel_floor-release_example =
    check_kernel_floor-release 6 9 (str ".1") (str "-arch1") (omega arith) (omega arith)
      (inr (str "1", refl)) (inr (str "arch1", refl)) refl (str "6.9.1-arch1\n") refl
