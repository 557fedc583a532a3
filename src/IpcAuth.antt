-- ===== src/IpcAuth.antt =====
-- mount/src/ipc_auth.rs: the token and the proofs of the handshake of IPC protocol 2. The HMAC and
-- the base64url encoding are those of crates and stand as a parameter.
pub mod Messages
use unidrive_mount_linux.Base.{
  ℕ, Bool, false, not, Option, none, some, ◌∷◌, ◌++◌, ◌==◌, list_eq, nat_eq, length, if◌then◌else◌,
  Str, str,
}
use unidrive_mount_linux.Base.Decimal.{decimal}
use unidrive_mount_linux.Base.Exec.{Result, ok, err}
use unidrive_mount_linux.Base.Split.{trim}

-- `PROTOCOL`, `SCOPE`, `CLIENT_NAME`, `AUTH_FAILED`, `AUTH_UNAVAILABLE`
abbrev pub protocol : ℕ
protocol = 2

abbrev pub scope : Str
scope = str "full"

abbrev pub client_name : Str
client_name = str "unidrive-mount-linux"

abbrev pub auth_failed : Str
auth_failed = str "auth_failed"

abbrev pub auth_unavailable : Str
auth_unavailable = str "auth_unavailable"

-- The crates: HMAC-SHA256 of a key and a message, and base64url without padding.
pub record Crypto : Type 0 where
  pub hmac : Str → Str → Str
  pub encode : Str → Str
  pub decode : Str → Option Str

-- `IpcAuth`, less the flag that keeps a warning from being logged twice
pub record IpcAuth : Type 0 where
  pub token_file : Option Str
  pub profile : Str

-- `TokenRead`
pub data TokenRead : Type 0 where
  key : Str → TokenRead
  absent : TokenRead

-- `read_token`, of a path and of what the file holds: `none` where it cannot be read
unfoldable pub read_token : Crypto → Str → Option Str → Result Str TokenRead
unfolding trim
read_token c path none = ok absent
read_token c path (some text) = elim (c.decode (trim text)) [
  | none ↦ err (auth_unavailable ++ (str ": token file " ++ (path ++ str " is not base64url")))
  | some k ↦
      if not (length k == 32)
      then err
          (auth_unavailable ++ (str ": token file " ++ (path ++ str " does not hold 32 bytes")))
      else ok (key k)
]

abbrev pub bar : ℕ
bar = b'|'

-- `{}:{profile}|{nonce}|{snonce}`, which both messages hold
unfoldable pub session_part : Str → Str → Str → Str
session_part profile nonce snonce =
    decimal (length profile) ++ (b':' ∷ (profile ++ (bar ∷ (nonce ++ (bar ∷ snonce)))))

-- `client_message`
unfoldable pub client_message : Str → Str → Str → Str
unfolding session_part
client_message profile nonce snonce =
    str "unidrive-ipc-v2|client|" ++ (scope ++ (bar ∷ session_part profile nonce snonce))

-- `server_message`
unfoldable pub server_message : Str → Str → Str → Str → Str
unfolding session_part
server_message profile nonce snonce proof =
    str "unidrive-ipc-v2|server|"
    ++ (scope ++ (bar ∷ (session_part profile nonce snonce ++ (bar ∷ proof))))

-- `client_proof`: the token, the profile and the two nonces
unfoldable pub client_proof : Crypto → Str → Str → Str → Str → Str
unfolding client_message
client_proof c k profile nonce snonce = c.encode (c.hmac k (client_message profile nonce snonce))

-- `server_proof`
unfoldable pub server_proof : Crypto → Str → Str → Str → Str → Str → Str
unfolding server_message
server_proof c k profile nonce snonce proof =
    c.encode (c.hmac k (server_message profile nonce snonce proof))

-- `verify_server_proof`; `verify_slice` compares the whole code.
unfoldable pub verify_server_proof : Crypto → Str → Str → Str → Str → Str → Str → Bool
unfolding server_message
verify_server_proof c k profile nonce snonce proof answer = elim (c.decode answer) [
  | none ↦ false
  | some got ↦ c.hmac k (server_message profile nonce snonce proof) == got
]
