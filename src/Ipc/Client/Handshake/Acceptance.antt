-- ===== src/Ipc/Client/Handshake/Acceptance.antt =====
-- A daemon that keeps to the protocol is accepted by the handshake in mount/src/ipc.rs.
use unidrive_mount_linux.Base.{◌≡◌, refl, ◌∙◌, true, some, [], list_eq, nat_eq, Str, str, eq_refl}
use unidrive_mount_linux.Base.Exec.{ok, pure, expect_some, ◌>>=◌, bind-ok}
use unidrive_mount_linux.Ipc.Client.{Link, Conn, round_trip, connect, is_ok}
use unidrive_mount_linux.Ipc.Client.Handshake.{
  Secrets, new_nonce, hello, prove, handshake, token_of, authenticate, connect_auth, hello_request,
  proof_request,
}
use unidrive_mount_linux.IpcAuth.{IpcAuth, key, client_proof, server_proof, verify_server_proof}
use unidrive_mount_linux.IpcAuth.Messages.{verify_server_proof-server_proof}
use unidrive_mount_linux.Json.{Value, index, as_str}

module _ (l : Link) (x : Secrets l.World) (k profile : Str) (c : Conn l) where
  -- A daemon that, on a connection, answers `hello` with a nonce, and the client's proof with the
  -- server's proof for the two nonces under the same key.
  pub record IsHonest : Type 0 where
    pub bytes : Str
    pub snonce : Str
    pub greeting : Value
    pub reply : Value
    pub greeted : Conn l
    pub final : Conn l
    pub random : (x.random c.world).0 ≡ ok bytes
    pub greets :
        round_trip l
          (hello_request l x (x.crypto.encode bytes))
          (record c { world = (x.random c.world).1 })
        ≡ (ok greeting, greeted)
    pub welcome : is_ok greeting ≡ true
    pub named : as_str (index greeting (str "snonce")) ≡ some snonce
    pub proves :
        round_trip l
          (proof_request l x (client_proof x.crypto k profile (x.crypto.encode bytes) snonce))
          greeted
        ≡ (ok reply, final)
    pub agrees : is_ok reply ≡ true
    pub proved :
        as_str (index reply (str "proof"))
        ≡ some (
            server_proof x.crypto k profile
              (x.crypto.encode bytes)
              snonce
              (client_proof x.crypto k profile (x.crypto.encode bytes) snonce))

  module _ (codec : (s : Str) → x.crypto.decode (x.crypto.encode s) ≡ some s) (h : IsHonest) where
    open h use {bytes, snonce, greeting, reply, greeted, final}

    abbrev nonce : Str
    nonce = x.crypto.encode bytes

    verified :
        verify_server_proof x.crypto k profile nonce snonce
          (client_proof x.crypto k profile nonce snonce)
          (server_proof x.crypto k profile nonce snonce
            (client_proof x.crypto k profile nonce snonce))
        ≡ true
    verified =
        rw
          (verify_server_proof-server_proof x.crypto codec k profile nonce snonce _ k profile nonce
            snonce _)
          (eq_refl {A = Str} _)

    new_nonce-random : new_nonce l x c ≡ (ok nonce, record c { world = (x.random c.world).1 })
    unfolding new_nonce
    new_nonce-random = rw (h.random, new_nonce) refl

    hello-snonce :
        hello l x nonce (record c { world = (x.random c.world).1 }) ≡ (ok snonce, greeted)
    unfolding hello ◌>>=◌ expect_some
    hello-snonce = rw (h.greets, h.welcome, h.named) refl

    prove-final : prove l x k profile nonce snonce greeted ≡ (ok tt, final)
    unfolding prove ◌>>=◌ pure
    prove-final = rw (h.proves, h.agrees, h.proved, verified) refl

    handshake-final : handshake l x k profile c ≡ (ok tt, final)
    unfolding handshake
    handshake-final =
        bind-ok (new_nonce l x) _ new_nonce-random
        ∙ bind-ok (hello l x nonce) _ hello-snonce
        ∙ prove-final

authenticate-handshake :
    (l : Link) (x : Secrets l.World) (auth : IpcAuth) (k : Str) (c : Conn l)
    → token_of l x auth c.world ≡ ok (key k)
    → authenticate l x auth c ≡ handshake l x k auth.profile c
unfolding authenticate
authenticate-handshake l x auth k c t = rw (t, authenticate) refl

-- Where the encoding is decoded as it was, the socket can be dialled and a key was read: a daemon that
-- is honest on the new connection is accepted, and the connection is as the handshake has left it.
pub connect_auth-honest :
    (l : Link) (x : Secrets l.World) (auth : IpcAuth) (k : Str) (w w1 : l.World)
    → ((s : Str) → x.crypto.decode (x.crypto.encode s) ≡ some s)
    → l.dial w ≡ (ok tt, w1)
    → token_of l x auth w1 ≡ ok (key k)
    → (h : IsHonest l x k auth.profile (record { incoming = []; world = w1 }))
    → connect_auth l x auth w ≡ (ok h.final, h.final.world)
unfolding connect_auth connect
connect_auth-honest l x auth k w w1 codec d t h =
    let c : Conn l = record { incoming = []; world = w1 } in
    let accepted : (l.dial w).0 ≡ ok tt = cc in
    let dialled : (l.dial w).1 ≡ w1 = cc in
    let done : authenticate l x auth (record { incoming = []; world = (l.dial w).1 })
        ≡ (ok tt, h.final) =
      rw dialled
        (authenticate-handshake l x auth k c t ∙ handshake-final l x k auth.profile c codec h) in
    rw (accepted, done, done) refl
