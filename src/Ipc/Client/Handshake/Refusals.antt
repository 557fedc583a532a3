-- ===== src/Ipc/Client/Handshake/Refusals.antt =====
-- Which failures of the handshake in mount/src/ipc.rs end the attempts to connect.
use unidrive_mount_linux.Base.{
  ◌≡◌, inl, inr, Option, none, some, ◌++◌, [], arith, list_eq, nat_eq, Bool-cases, Option-cases,
  Str, str, length, not, ◌==◌,
}
use unidrive_mount_linux.Base.Split.{trim}
use unidrive_mount_linux.Base.Exec.{err, Result-cases}
use unidrive_mount_linux.Ipc.{IpcError, io, server_error}
use unidrive_mount_linux.Ipc.Client.{Link, Conn, round_trip, connect}
use unidrive_mount_linux.Ipc.Client.Failures.{
  Fails, IsConnectError, Fails-pure, Fails-raise, Fails-expect_some, Fails-if, Fails-bind,
  Fails-then, Fails-round_trip, final_refusal, final_lack,
}
use unidrive_mount_linux.Ipc.Client.Handshake.{
  Secrets, failed, hello_refused, new_nonce, hello, prove, shutdown, handshake, token_of, fall_back,
  authenticate, connect_auth,
}
use unidrive_mount_linux.IpcAuth.{
  IpcAuth, key, absent, read_token, Crypto, auth_failed, auth_unavailable,
}

read_token-refused :
    (y : Crypto) (p : Str) (text : Option Str) (m : Str)
    → read_token y p text ≡ err m
    → (why : Str) × (m ≡ auth_unavailable ++ why)
unfolding read_token
read_token-refused y p none m q = absurd (cc)
read_token-refused y p (some t) m q = elim (Option-cases (y.decode (trim t))) [
  | inl n ↦ (str ": token file " ++ (p ++ str " is not base64url"), ground arith)
  | inr (k, e) ↦ elim (Bool-cases (not (length k == 32))) [
    | inl t ↦ (str ": token file " ++ (p ++ str " does not hold 32 bytes"), ground arith)
    | inr f ↦ absurd (ground arith)
  ]
]

failed-final : (why : Str) → IsConnectError (failed why)
unfolding failed
failed-final why = final_refusal (str ": " ++ why)

hello_refused-final : (e : Str) → IsConnectError (hello_refused e)
unfolding hello_refused
hello_refused-final e = elim (Bool-cases (e == str "unknown_verb")) [
  | inl t ↦ rw (t, hello_refused) (failed-final _)
  | inr f ↦ rw (f, hello_refused) (failed-final _)
]

module _ (l : Link) (x : Secrets l.World) where
  Fails-new_nonce : Fails (new_nonce l x)
  unfolding new_nonce
  Fails-new_nonce c e q = elim (Result-cases (x.random c.world).0) [
    | inl (b, r) ↦ absurd (ground arith)
    | inr (m, r) ↦
        (let same : e
              ≡ server_error (auth_failed ++ (str ": no OS randomness for the nonce: " ++ m)) =
            ground arith in
          rw same (final_refusal (str ": no OS randomness for the nonce: " ++ m)))
  ]

  Fails-hello : (nonce : Str) → Fails (hello l x nonce)
  unfolding hello
  Fails-hello nonce =
      Fails-bind (round_trip l _) _ (Fails-round_trip l _)
        λ reply. Fails-if _ _ _ (Fails-raise _ (hello_refused-final _)) (Fails-expect_some _ _ tt)

  Fails-prove : (k profile nonce snonce : Str) → Fails (prove l x k profile nonce snonce)
  unfolding prove
  Fails-prove k profile nonce snonce = Fails-bind (round_trip l _) _ (Fails-round_trip l _) λ reply.
      Fails-if _ _ _ (Fails-raise _ (failed-final _)) (
        Fails-if _ _ _
          (Fails-then (shutdown l x) _ (λ c e q. absurd (cc)) (Fails-raise _ (failed-final _)))
          (Fails-pure tt))

  Fails-handshake : (k profile : Str) → Fails (handshake l x k profile)
  unfolding handshake
  Fails-handshake k profile = Fails-bind (new_nonce l x) _ Fails-new_nonce λ nonce.
      Fails-bind (hello l x nonce) _ (Fails-hello nonce)
        λ snonce. Fails-prove k profile nonce snonce

  Fails-fall_back : (auth : IpcAuth) → Fails (fall_back l x auth)
  unfolding fall_back
  Fails-fall_back auth =
      Fails-bind (round_trip l _) _ (Fails-round_trip l _)
        λ reply. Fails-if _ _ _ (Fails-raise _ (final_lack _)) (Fails-pure tt)

  token_of-refused :
      (auth : IpcAuth) (w : l.World) (m : Str)
      → token_of l x auth w ≡ err m
      → IsConnectError (server_error m)
  unfolding token_of
  token_of-refused auth w m q = elim (Option-cases auth.token_file) [
    | inl n ↦ absurd (ground arith)
    | inr (p, e) ↦
        let (why, same) = read_token-refused x.crypto p (x.read_file p w) m (ground arith) in
        rw same (final_lack why)
  ]

  pub Fails-authenticate : (auth : IpcAuth) → Fails (authenticate l x auth)
  unfolding authenticate
  Fails-authenticate auth c e q = elim (Result-cases (token_of l x auth c.world)) [
    | inr (m, r) ↦
        (let same : e ≡ server_error m = ground arith in
          rw same (token_of-refused auth c.world m r))
    | inl (key k, r) ↦ Fails-handshake k auth.profile c e (rw (r, authenticate) at q)
    | inl (absent, r) ↦ Fails-fall_back auth c e (rw (r, authenticate) at q)
  ]

  -- A failure to connect is one of the socket, a reply that cannot be read, or a refusal that the
  -- reconnecting client takes for final; it is never the error of a verb.
  pub connect_auth-refused :
      (auth : IpcAuth) (w : l.World) (e : IpcError)
      → (connect_auth l x auth w).0 ≡ err e
      → IsConnectError e
  unfolding connect_auth connect
  connect_auth-refused auth w e q = elim (Result-cases (l.dial w).0) [
    | inr (k, r) ↦ (let same : e ≡ io k = ground arith in rw same tt)
    | inl (u, r) ↦
        let c : Conn l = record { incoming = []; world = (l.dial w).1 } in
        elim (Result-cases (authenticate l x auth c).0) [
          | inr (m, d) ↦
              (let same : e ≡ m = ground arith in rw same (Fails-authenticate auth c m d))
          | inl (v, d) ↦ absurd (ground arith)
        ]
  ]
