-- ===== src/Ipc/Client/Handshake.antt =====
-- The handshake of `IpcClient` in mount/src/ipc.rs, and `new_nonce` of mount/src/ipc_auth.rs.
pub mod Acceptance
pub mod Authentication
pub mod Refusals
use unidrive_mount_linux.Base.{
  not, Option, none, some, [], ◌∷◌, ◌++◌, ◌==◌, list_eq, nat_eq, leb, if◌then◌else◌, ℕ, Str, str,
}
use unidrive_mount_linux.Base.Decimal.{decimal}
use unidrive_mount_linux.Base.Exec.{Result, ok, err, pure, raise, expect_some, ◌>>=◌, ◌>>◌}
use unidrive_mount_linux.Base.Int.{pos}
use unidrive_mount_linux.Ipc.{IpcError, malformed, server_error}
use unidrive_mount_linux.Ipc.Client.{Link, Conn, Ipc, json, is_ok, round_trip, connect}
use unidrive_mount_linux.IpcAuth.{
  Crypto, IpcAuth, TokenRead, key, absent, read_token, client_proof, verify_server_proof, protocol,
  scope, client_name, auth_failed, auth_unavailable,
}
use unidrive_mount_linux.Json.{Value, int, string, index, as_str, as_u64, unwrap_or}

-- What authentication takes from the system and from crates.
pub record Secrets (W : Type 0) : Type 0 where
  pub crypto : Crypto
  -- 16 bytes, or what went wrong
  pub random : W → Result Str Str × W
  -- the text of a file, `none` where it cannot be read
  pub read_file : Str → W → Option Str

-- `failed(why)`
unfoldable pub failed : Str → IpcError
failed why = server_error (auth_failed ++ (str ": " ++ why))

-- What is made of a refused `hello`.
unfoldable pub hello_refused : Str → IpcError
hello_refused e =
    if e == str "unknown_verb"
    then failed
        (str "a token file exists but the daemon does not speak protocol 2; restart the daemon")
    else failed (str "the daemon refused hello (" ++ (e ++ str "); restart the mount"))

unfoldable pub error_text : Value → Str
error_text reply = unwrap_or (as_str (index reply (str "error"))) (str "unknown")

module _ (l : Link) (x : Secrets l.World) where
  -- `new_nonce`
  unfoldable pub new_nonce : Ipc l Str
  new_nonce c =
      let (r, w) = x.random c.world in
      (
        elim r [
          | ok b ↦ ok (x.crypto.encode b)
          | err e ↦
              err (server_error (auth_failed ++ (str ": no OS randomness for the nonce: " ++ e)))
        ],
        record c { world = w },
      )

  abbrev pub hello_request : Str → Value
  hello_request nonce = json (
      (str "verb", string (str "hello"))
      ∷ (str "protocol", int (pos protocol))
      ∷ (str "scope", string scope)
      ∷ (str "client", string client_name)
      ∷ (str "nonce", string nonce)
      ∷ [])

  abbrev pub proof_request : Str → Value
  proof_request proof =
      json ((str "verb", string (str "hello.proof")) ∷ (str "proof", string proof) ∷ [])

  -- `hello`: the nonce of the daemon
  unfoldable pub hello : Str → Ipc l Str
  hello nonce = do
    reply ← round_trip l (hello_request nonce)
    (if not (is_ok reply)
        then raise (hello_refused (error_text reply))
        else expect_some (malformed (l.print reply)) (as_str (index reply (str "snonce"))))

  -- `self.writer.shutdown()`, so that no verb can follow
  unfoldable pub shutdown : Ipc l (Unit {0})
  shutdown c = (ok tt, record c { world = l.shutdown c.world })

  -- `hello.proof`, and the check of the daemon's proof
  unfoldable pub prove : Str → Str → Str → Str → Ipc l (Unit {0})
  unfolding shutdown
  prove k profile nonce snonce = do
    let proof = client_proof x.crypto k profile nonce snonce
    reply ← round_trip l (proof_request proof)
    (if not (is_ok reply)
        then raise (
            failed (
              str "the daemon rejected the IPC token ("
              ++ (error_text reply ++ str "); restart the mount")))
        else if not (
            verify_server_proof x.crypto k profile nonce snonce proof
              (unwrap_or (as_str (index reply (str "proof"))) []))
        then (do
          shutdown
          raise (failed (str "the daemon's proof did not match; connection closed")))
        else pure tt)

  -- `handshake`
  unfoldable pub handshake : Str → Str → Ipc l (Unit {0})
  unfolding new_nonce hello prove
  handshake k profile = do nonce ← new_nonce; snonce ← hello nonce; prove k profile nonce snonce

  -- The token of a connection, read afresh.
  unfoldable pub token_of : IpcAuth → l.World → Result Str TokenRead
  unfolding read_token
  token_of auth w = elim auth.token_file [
    | some p ↦ read_token x.crypto p (x.read_file p w)
    | none ↦ ok absent
  ]

  abbrev pub status_request : Value
  status_request = json ((str "verb", string (str "daemon.status")) ∷ [])

  abbrev pub version_of : Value → ℕ
  version_of reply = unwrap_or (as_u64 (index reply (str "protocol_version"))) 1

  unfoldable pub token_missing : IpcAuth → Str
  token_missing auth = elim auth.token_file [
    | some p ↦ str "no readable token at " ++ p
    | none ↦ str "no token file configured (--ipc-token-file)"
  ]

  -- Without a token only a daemon of protocol 1 is used.
  unfoldable pub fall_back : IpcAuth → Ipc l (Unit {0})
  unfolding token_missing
  fall_back auth = do
    reply ← round_trip l status_request
    (if leb protocol (version_of reply)
        then raise (
            server_error (
              auth_unavailable
              ++ (str ": cannot authenticate to this daemon (protocol "
                  ++ (decimal (version_of reply) ++ (str "): " ++ token_missing auth)))))
        else pure tt)

  -- What `connect_auth` does on a new connection.
  unfoldable pub authenticate : IpcAuth → Ipc l (Unit {0})
  unfolding token_of handshake fall_back
  authenticate auth c = elim (token_of auth c.world) [
    | err m ↦ (err (server_error m), c)
    | ok (key k) ↦ handshake k auth.profile c
    | ok absent ↦ fall_back auth c
  ]

  -- `connect_auth`
  unfoldable pub connect_auth : IpcAuth → l.World → Result IpcError (Conn l) × l.World
  unfolding connect authenticate
  connect_auth auth w =
      let (r, w1) = connect l w in
      elim r [
        | err e ↦ (err e, w1)
        | ok c ↦
            let (done, c') = authenticate auth c in
            (elim done [ ok u ↦ ok c' | err e ↦ err e ], c'.world)
      ]
