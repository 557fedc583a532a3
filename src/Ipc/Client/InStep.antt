-- ===== src/Ipc/Client/InStep.antt =====
-- Every verb of mount/src/ipc.rs, and the handshake, reads the reply to its own request and no more.
use unidrive_mount_linux.Base.{
  ◌≡◌, refl, inl, inr, Bool, true, false, Option, none, some, [], ◌∷◌, ◌++◌, arith, contains,
  list_eq, nat_eq, if◌then◌else◌, Str,
}
use unidrive_mount_linux.Base.Exec.{
  Result, ok, err, pure, raise, expect_some, ◌>>=◌, ◌>>◌, Result-cases, then-ok,
}
use unidrive_mount_linux.Ipc.{IpcError, IoKind, io}
use unidrive_mount_linux.Ipc.Client.{
  Link, Conn, Ipc, round_trip, write_all, flush, read_line, settle, reply_of, connect,
}
use unidrive_mount_linux.Ipc.Client.Exchange.{flush-ok, read_line-reply}
use unidrive_mount_linux.Ipc.Client.Handshake.{
  Secrets, new_nonce, hello, prove, handshake, token_of, fall_back, authenticate, connect_auth,
  shutdown,
}
use unidrive_mount_linux.Ipc.Inbound.{InboundLine, newline}
use unidrive_mount_linux.IpcAuth.{IpcAuth, key, absent}
use unidrive_mount_linux.Json.{Value}

-- The daemon answers every request with one line.
pub record IsAnswering (l : Link) : Type 0 where
  pub one_line :
      (w : l.World) (s : Str)
      → (l.flush w).0 ≡ ok s
      → (reply : Str) × (s ≡ reply ++ (newline ∷ [])) × (contains reply newline ≡ false)

-- What a step leaves to be read is nothing, if there was nothing before.
pub record InStep {l : Link} {A : Type 0} (m : Ipc l A) : Type 0 where
  pub keeps : (c : Conn l) → c.incoming ≡ [] → (m c).1.incoming ≡ []

module _ {l : Link} where
  InStep-raise : {A : Type 0} (e : IpcError) → InStep {l = l} {A = A} (raise e)
  unfolding raise
  InStep-raise e = record { keeps = λ c h. h }

  module _ {A : Type 0} where
    InStep-pure : (a : A) → InStep {l = l} (pure a)
    unfolding pure
    InStep-pure a = record { keeps = λ c h. h }

    InStep-expect_some : (e : IpcError) (o : Option A) → InStep {l = l} (expect_some e o)
    unfolding expect_some
    InStep-expect_some e none = record { keeps = λ c h. h }
    InStep-expect_some e (some a) = record { keeps = λ c h. h }

    InStep-settle : (r : Result IpcError A) → InStep (settle l r)
    unfolding settle
    InStep-settle r = record { keeps = λ c h. h }

    InStep-if : (b : Bool) (m n : Ipc l A) → InStep m → InStep n → InStep (if b then m else n)
    InStep-if true m n h k = h
    InStep-if false m n h k = k

  module _ {A B : Type 0} where
    InStep-bind :
        (m : Ipc l A) (f : A → Ipc l B) → InStep m → ((a : A) → InStep (f a)) → InStep (m >>= f)
    unfolding ◌>>=◌
    InStep-bind m f h k = record {
      keeps = λ c e. elim (Result-cases (m c).0) [
        | inl (a, r) ↦ rw (r, ◌>>=◌) ((k a).keeps (m c).1 (h.keeps c e))
        | inr (x, r) ↦ rw (r, ◌>>=◌) (h.keeps c e)
      ];
    }

    InStep-then : (m : Ipc l A) (n : Ipc l B) → InStep m → InStep n → InStep (m >> n)
    unfolding ◌>>◌
    InStep-then m n h k = record {
      keeps = λ c e. elim (Result-cases (m c).0) [
        | inl (a, r) ↦ rw (r, ◌>>◌) (k.keeps (m c).1 (h.keeps c e))
        | inr (x, r) ↦ rw (r, ◌>>◌) (h.keeps c e)
      ];
    }

module _ (l : Link) where
  -- What every verb is: a request, and what is made of its reply.
  abbrev pub ask : {A : Type 0} → Value → (Value → Result IpcError A) → Ipc l A
  ask req read = do reply ← round_trip l req; settle l (read reply)

module _ (l : Link) (answering : IsAnswering l) where
  InStep-write_all : (s : Str) → InStep (write_all l s)
  unfolding write_all
  InStep-write_all s = record { keeps = λ c h. h }

  flush-err :
      (c : Conn l) {k : IoKind}
      → (l.flush c.world).0 ≡ err k
      → flush l c ≡ (err (io k), record c { world = (l.flush c.world).1 })
  unfolding flush
  flush-err c e = rw (e, flush) refl

  -- The daemon's line is taken whole.
  take_reply : {A : Type 0} (f : InboundLine → Result IpcError A) → Ipc l A
  take_reply f = read_line l >>= λ i. settle l (f i)

  take_reply-incoming :
      {A : Type 0} (f : InboundLine → Result IpcError A) (c : Conn l) (reply : Str)
      → c.incoming ≡ reply ++ (newline ∷ [])
      → contains reply newline ≡ false
      → (take_reply f c).1.incoming ≡ []
  unfolding take_reply settle ◌>>=◌
  take_reply-incoming f c reply e n = rw (read_line-reply l c reply [] e n) refl

  InStep-flush-take_reply :
      {A : Type 0} (f : InboundLine → Result IpcError A) → InStep (flush l >> take_reply f)
  unfolding ◌>>◌
  InStep-flush-take_reply f = record {
    keeps = λ c h. elim (Result-cases (l.flush c.world).0) [
      | inr (k, r) ↦ rw (flush-err c r, ◌>>◌) h
      | inl (s, r) ↦
          let (reply, e, n) = answering.one_line c.world s r in
          let c' : Conn l = record { incoming = c.incoming ++ s; world = (l.flush c.world).1 } in
          let whole : c.incoming ++ s ≡ reply ++ (newline ∷ []) = rw (h, e) refl in
          rw (then-ok (flush l) (take_reply f) (flush-ok l c r))
            (take_reply-incoming f c' reply whole n)
    ];
  }

  InStep-round_trip : (req : Value) → InStep (round_trip l req)
  unfolding round_trip take_reply
  InStep-round_trip req = InStep-if _ _ _ (InStep-raise _) (
      InStep-then (write_all l (l.print req)) _ (InStep-write_all (l.print req)) (
        InStep-then (write_all l (newline ∷ [])) _ (InStep-write_all (newline ∷ []))
          (InStep-flush-take_reply (reply_of l))))

  pub InStep-ask :
      {A : Type 0} (req : Value) (read : Value → Result IpcError A) → InStep (ask l req read)
  InStep-ask req read =
      InStep-bind (round_trip l req) _ (InStep-round_trip req) λ v. InStep-settle (read v)

module _ (l : Link) (x : Secrets l.World) (answering : IsAnswering l) where
  InStep-new_nonce : InStep (new_nonce l x)
  unfolding new_nonce
  InStep-new_nonce = record { keeps = λ c h. h }

  InStep-hello : (nonce : Str) → InStep (hello l x nonce)
  unfolding hello
  InStep-hello nonce =
      InStep-bind (round_trip l _) _ (InStep-round_trip l answering _)
        λ reply. InStep-if _ _ _ (InStep-raise _) (InStep-expect_some _ _)

  InStep-prove : (k profile nonce snonce : Str) → InStep (prove l x k profile nonce snonce)
  unfolding prove
  InStep-prove k profile nonce snonce =
      InStep-bind (round_trip l _) _ (InStep-round_trip l answering _) λ reply.
        InStep-if _ _ _ (InStep-raise _) (
          InStep-if _ _ _
            (InStep-then (shutdown l x) _ (record { keeps = λ c h. h }) (InStep-raise _))
            (InStep-pure tt))

  InStep-fall_back : (auth : IpcAuth) → InStep (fall_back l x auth)
  unfolding fall_back
  InStep-fall_back auth =
      InStep-bind (round_trip l _) _ (InStep-round_trip l answering _)
        λ reply. InStep-if _ _ _ (InStep-raise _) (InStep-pure tt)

  InStep-handshake : (k profile : Str) → InStep (handshake l x k profile)
  unfolding handshake
  InStep-handshake k profile = InStep-bind (new_nonce l x) _ InStep-new_nonce λ nonce.
      InStep-bind (hello l x nonce) _ (InStep-hello nonce)
        λ snonce. InStep-prove k profile nonce snonce

  InStep-authenticate : (auth : IpcAuth) → InStep (authenticate l x auth)
  unfolding authenticate
  InStep-authenticate auth = record {
    keeps = λ c h. elim (Result-cases (token_of l x auth c.world)) [
      | inr (m, r) ↦ rw (r, authenticate) h
      | inl (key k, r) ↦ rw (r, authenticate) ((InStep-handshake k auth.profile).keeps c h)
      | inl (absent, r) ↦ rw (r, authenticate) ((InStep-fall_back auth).keeps c h)
    ];
  }

  -- A new connection has nothing left to be read.
  pub connect_auth-incoming :
      (auth : IpcAuth) (w : l.World) {c' : Conn l}
      → (connect_auth l x auth w).0 ≡ ok c'
      → c'.incoming ≡ []
  unfolding connect_auth connect
  connect_auth-incoming auth w q = elim (Result-cases (l.dial w).0) [
    | inr (k, r) ↦ absurd (ground arith)
    | inl (u, r) ↦
        let c : Conn l = record { incoming = []; world = (l.dial w).1 } in
        elim (Result-cases (authenticate l x auth c).0) [
          | inr (m, d) ↦ absurd (ground arith)
          | inl (v, d) ↦ ground (arith, (InStep-authenticate auth).keeps c refl)
        ]
  ]
