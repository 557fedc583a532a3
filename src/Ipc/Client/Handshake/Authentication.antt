-- ===== src/Ipc/Client/Handshake/Authentication.antt =====
-- What a connection that the handshake in mount/src/ipc.rs accepts is known to be.
use unidrive_mount_linux.Base.{
  ◌<◌, ◌≡◌, ◌≢◌, refl, ◌⊎◌, inl, inr, true, some, [], arith, list_eq, nat_eq, Bool-cases,
  Option-cases, Str, str, leb,
}
use unidrive_mount_linux.Base.Exec.{
  ok, err, pure, raise, expect_some, ◌>>=◌, ◌>>◌, Result-cases, bind-eq_ok, bind-ok,
}
use unidrive_mount_linux.Ipc.Client.{Link, Conn, round_trip, connect, is_ok}
use unidrive_mount_linux.Ipc.Client.Handshake.{
  Secrets, new_nonce, hello, prove, handshake, token_of, fall_back, authenticate, connect_auth,
  hello_request, proof_request, status_request, version_of, shutdown,
}
use unidrive_mount_linux.IpcAuth.{
  IpcAuth, key, absent, Crypto, client_proof, server_message, verify_server_proof, protocol,
}
use unidrive_mount_linux.Json.{Value, index, as_str, unwrap_or}

verify_server_proof-eq_true :
    (y : Crypto) (k p n s c answer : Str)
    → verify_server_proof y k p n s c answer ≡ true
    → y.decode answer ≡ some (y.hmac k (server_message p n s c))
unfolding verify_server_proof
verify_server_proof-eq_true y k p n s c answer h = ground arith

module _ (l : Link) (x : Secrets l.World) where
  abbrev answer_of : Value → Str
  answer_of reply = unwrap_or (as_str (index reply (str "proof"))) []

  module _ (k profile : Str) (c : Conn l) where
    -- The connection once a nonce was drawn.
    abbrev drawn : Conn l
    drawn = record c { world = (x.random c.world).1 }

    -- A handshake with the daemon: the client drew a nonce, the daemon answered `hello` with a nonce
    -- of its own, and answered the client's proof with the code of the server's message for these
    -- two nonces, this profile and this proof under the key.
    pub record IsAuthentic : Type 0 where
      pub bytes : Str
      pub snonce : Str
      pub greeting : Value
      pub reply : Value
      pub random : (x.random c.world).0 ≡ ok bytes
      pub greeted : (round_trip l (hello_request l x (x.crypto.encode bytes)) drawn).0 ≡ ok greeting
      pub named : as_str (index greeting (str "snonce")) ≡ some snonce
      pub proved :
          (round_trip l
            (proof_request l x (client_proof x.crypto k profile (x.crypto.encode bytes) snonce))
            (round_trip l (hello_request l x (x.crypto.encode bytes)) drawn).1).0
          ≡ ok reply
      pub verified :
          x.crypto.decode (answer_of reply)
          ≡ some (
              x.crypto.hmac k (
                server_message profile
                  (x.crypto.encode bytes)
                  snonce
                  (client_proof x.crypto k profile (x.crypto.encode bytes) snonce)))

  new_nonce-drawn :
      (k profile : Str) (c : Conn l) {b : Str}
      → (x.random c.world).0 ≡ ok b
      → new_nonce l x c ≡ (ok (x.crypto.encode b), drawn k profile c)
  unfolding new_nonce
  new_nonce-drawn k profile c r = rw (r, new_nonce) refl

  new_nonce-refused :
      (c : Conn l) {m nonce : Str} → (x.random c.world).0 ≡ err m → (new_nonce l x c).0 ≢ ok nonce
  unfolding new_nonce
  new_nonce-refused c r q = ground arith

  hello-eq_ok :
      (nonce snonce : Str) (c : Conn l)
      → (hello l x nonce c).0 ≡ ok snonce
      → (greeting : Value) × ((round_trip l (hello_request l x nonce) c).0 ≡ ok greeting)
        × (as_str (index greeting (str "snonce")) ≡ some snonce)
        × ((hello l x nonce c).1 ≡ (round_trip l (hello_request l x nonce) c).1)
  unfolding hello expect_some raise ◌>>=◌
  hello-eq_ok nonce snonce c q =
      let s' = (round_trip l (hello_request l x nonce) c).1 in
      let (reply, r, rest) = bind-eq_ok (round_trip l (hello_request l x nonce)) _ c q in
      elim (Bool-cases (is_ok reply)) [
        | inl t ↦ elim (Option-cases (as_str (index reply (str "snonce")))) [
          | inl n ↦ absurd (ground arith)
          | inr (found, e) ↦ (reply, r, ground arith, rw (r, t, e, hello, ◌>>=◌) refl)
        ]
        | inr f ↦ absurd (ground arith)
      ]

  prove-eq_ok :
      (k profile nonce snonce : Str) (c : Conn l)
      → (prove l x k profile nonce snonce c).0 ≡ ok tt
      → (reply : Value) × ((round_trip l
            (proof_request l x (client_proof x.crypto k profile nonce snonce))
            c).0
          ≡ ok reply)
        × (verify_server_proof x.crypto k profile nonce snonce
              (client_proof x.crypto k profile nonce snonce)
              (answer_of reply)
            ≡ true)
  unfolding prove raise pure ◌>>◌ shutdown
  prove-eq_ok k profile nonce snonce c q =
      let proof = client_proof x.crypto k profile nonce snonce in
      let (reply, r, rest) = bind-eq_ok (round_trip l (proof_request l x proof)) _ c q in
      elim (Bool-cases (is_ok reply)) [
        | inr f ↦ absurd (ground arith)
        | inl t ↦
            elim (Bool-cases
              (verify_server_proof x.crypto k profile nonce snonce proof (answer_of reply))) [
                | inl v ↦ (reply, r, v)
                | inr v ↦ absurd (ground arith)
              ]
      ]

  handshake-eq_ok :
      (k profile : Str) (c : Conn l)
      → (handshake l x k profile c).0 ≡ ok tt
      → IsAuthentic k profile c
  unfolding handshake
  handshake-eq_ok k profile c q = elim (Result-cases (x.random c.world).0) [
    | inr (m, r) ↦ absurd (new_nonce-refused c r (bind-eq_ok (new_nonce l x) _ c q).1)
    | inl (bytes, random) ↦
        let nonce = x.crypto.encode bytes in
        let s : Conn l = drawn k profile c in
        let rest : ((hello l x nonce >>= prove l x k profile nonce) s).0 ≡ ok tt =
          rw (bind-ok (new_nonce l x) _ (new_nonce-drawn k profile c random)) at q in
        let (snonce, h, q2) = bind-eq_ok (hello l x nonce) (prove l x k profile nonce) s rest in
        let (greeting, greeted, named, same) = hello-eq_ok nonce snonce s h in
        let (reply, proved, v) = prove-eq_ok k profile nonce snonce _ (rw same at q2) in
        record {
          bytes = bytes;
          snonce = snonce;
          greeting = greeting;
          reply = reply;
          random = random;
          greeted = greeted;
          named = named;
          proved = proved;
          verified =
              verify_server_proof-eq_true x.crypto k profile nonce snonce _ (answer_of reply) v;
        }
  ]

  fall_back-eq_ok :
      (auth : IpcAuth) (c : Conn l)
      → (fall_back l x auth c).0 ≡ ok tt
      → (reply : Value) × ((round_trip l (status_request l x) c).0 ≡ ok reply)
        × (version_of l x reply < protocol)
  unfolding fall_back raise
  fall_back-eq_ok auth c q =
      let (reply, r, rest) = bind-eq_ok (round_trip l (status_request l x)) _ c q in
      elim (Bool-cases (leb protocol (version_of l x reply))) [
        | inl t ↦ absurd (ground arith)
        | inr f ↦ (reply, r, ground arith)
      ]

  authenticated :
      (auth : IpcAuth) (c : Conn l)
      → (authenticate l x auth c).0 ≡ ok tt
      → ((k : Str) × (token_of l x auth c.world ≡ ok (key k)) × IsAuthentic k auth.profile c)
        ⊎ ((reply : Value) × (token_of l x auth c.world ≡ ok absent)
            × ((round_trip l (status_request l x) c).0 ≡ ok reply)
            × (version_of l x reply < protocol))
  unfolding authenticate
  authenticated auth c q = elim (Result-cases (token_of l x auth c.world)) [
    | inr (m, r) ↦ absurd (ground arith)
    | inl (key k, r) ↦ inl (k, r, handshake-eq_ok k auth.profile c (rw (r, authenticate) at q))
    | inl (absent, r) ↦
        let (reply, t, v) = fall_back-eq_ok auth c (rw (r, authenticate) at q) in
        inr (reply, r, t, v)
  ]

  -- A connection that is accepted, from the one that was dialled, is of one of two kinds: the token
  -- file held a key, and the daemon proved in a handshake on it that it knows this key; or there was
  -- no token to read, and the daemon reported a protocol version below 2, or none.
  pub connect_auth-authentic :
      (auth : IpcAuth) (w : l.World) (c' : Conn l)
      → (connect_auth l x auth w).0 ≡ ok c'
      → (w1 : l.World) × (l.dial w ≡ (ok tt, w1))
        × (((k : Str) × (token_of l x auth w1 ≡ ok (key k))
              × IsAuthentic k auth.profile (record { incoming = []; world = w1 }))
            ⊎ ((reply : Value) × (token_of l x auth w1 ≡ ok absent)
                × ((round_trip l (status_request l x) (record { incoming = []; world = w1 })).0
                    ≡ ok reply)
                × (version_of l x reply < protocol)))
  unfolding connect_auth connect
  connect_auth-authentic auth w c' q = elim (Result-cases (l.dial w).0) [
    | inr (k, r) ↦ absurd (ground arith)
    | inl (u, r) ↦
        let w1 = (l.dial w).1 in
        let c : Conn l = record { incoming = []; world = w1 } in
        elim (Result-cases (authenticate l x auth c).0) [
          | inr (m, d) ↦ absurd (ground arith)
          | inl (v, d) ↦ (w1, ground arith, authenticated auth c d)
        ]
  ]
