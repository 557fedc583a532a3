-- ===== src/Ipc/Client/Failures.antt =====
-- How the requests of mount/src/ipc.rs fail: rules for the steps that a request is made of.
use unidrive_mount_linux.Base.{
  ◌≡◌, refl, inl, inr, Bool, true, false, Option, none, some, ◌++◌, arith, list_eq, nat_eq,
  if◌then◌else◌, Str, str, starts_with,
}
use unidrive_mount_linux.Base.Exec.{
  Result, err, Exec, pure, raise, expect_some, ◌>>=◌, ◌>>◌, Result-cases,
}
use unidrive_mount_linux.Ipc.{IpcError, io, unexpected_eof, malformed, server_error, busy, unknown}
use unidrive_mount_linux.Ipc.Client.{
  Link, round_trip, write_all, flush, read_line, settle, reply_of, parse_reply,
}
use unidrive_mount_linux.Ipc.Inbound.{
  InboundLine, line, eof, too_long, read_inbound_line, max_inbound_line_bytes, strip_newline,
}
use unidrive_mount_linux.Ipc.Client.Exchange.{discarded}
use unidrive_mount_linux.IpcAuth.{auth_failed, auth_unavailable}
use unidrive_mount_linux.Json.{Value}
use unidrive_mount_linux.Reconnect.{is_auth_terminal}

-- The errors of a connection: of the socket or of a reply, or a refusal that is final.
abbrev pub IsConnectError : IpcError → Type 0
IsConnectError (io k) = Unit {0}
IsConnectError (malformed m) = Unit {0}
IsConnectError (server_error m) = is_auth_terminal (server_error m) ≡ true
IsConnectError busy = ⊥
IsConnectError (unknown r) = ⊥

-- Every error of a step is one of a connection.
abbrev pub Fails : {S A : Type 0} → Exec IpcError S A → Type 0
Fails {S} m = (s : S) (e : IpcError) → (m s).0 ≡ err e → IsConnectError e

module _ {S A : Type 0} where
  pub Fails-pure : (a : A) → Fails {S = S} (pure a)
  unfolding pure
  Fails-pure a s e q = cc

  pub Fails-raise : (x : IpcError) → IsConnectError x → Fails {S = S} {A = A} (raise x)
  unfolding raise
  Fails-raise x h s e q = let same : x ≡ e = cc in rw (← same) h

  pub Fails-expect_some :
      (x : IpcError) (o : Option A) → IsConnectError x → Fails {S = S} (expect_some x o)
  unfolding expect_some
  Fails-expect_some x none h s e q = let same : x ≡ e = cc in rw (← same) h
  Fails-expect_some x (some a) h s e q = cc

  pub Fails-if :
      (b : Bool) (m n : Exec IpcError S A) → Fails m → Fails n → Fails (if b then m else n)
  Fails-if true m n h k = h
  Fails-if false m n h k = k

module _ {S A B : Type 0} where
  pub Fails-bind :
      (m : Exec IpcError S A) (f : A → Exec IpcError S B)
      → Fails m
      → ((a : A) → Fails (f a))
      → Fails (m >>= f)
  unfolding ◌>>=◌
  Fails-bind m f h k s e q = elim (Result-cases (m s).0) [
    | inl (a, r) ↦ k a (m s).1 e (rw (r, ◌>>=◌) at q)
    | inr (x, r) ↦
        (let same : ◌≡◌ {A = Result IpcError B} (err x) (err e) = rw (r, ◌>>=◌) at q in h s e (cc))
  ]

  pub Fails-then :
      (m : Exec IpcError S A) (n : Exec IpcError S B) → Fails m → Fails n → Fails (m >> n)
  unfolding ◌>>◌
  Fails-then m n h k s e q = elim (Result-cases (m s).0) [
    | inl (a, r) ↦ k (m s).1 e (rw (r, ◌>>◌) at q)
    | inr (x, r) ↦
        (let same : ◌≡◌ {A = Result IpcError B} (err x) (err e) = rw (r, ◌>>◌) at q in h s e (cc))
  ]

pub final_refusal : (why : Str) → IsConnectError (server_error (auth_failed ++ why))
unfolding is_auth_terminal starts_with nat_eq
final_refusal why = refl

pub final_lack : (why : Str) → IsConnectError (server_error (auth_unavailable ++ why))
unfolding is_auth_terminal starts_with nat_eq
final_lack why = refl

module _ (l : Link) where
  pub Fails-write_all : (s : Str) → Fails (write_all l s)
  unfolding write_all
  Fails-write_all s c e q = elim (Result-cases (l.write_all s c.world).0) [
    | inl (u, r) ↦ absurd (ground arith)
    | inr (k, r) ↦ (let same : e ≡ io k = ground arith in rw same tt)
  ]

  pub Fails-flush : Fails (flush l)
  unfolding flush
  Fails-flush c e q = elim (Result-cases (l.flush c.world).0) [
    | inl (u, r) ↦ absurd (ground arith)
    | inr (k, r) ↦ (let same : e ≡ io k = ground arith in rw same tt)
  ]

  pub Fails-read_line : Fails (read_line l)
  unfolding read_line
  Fails-read_line c e q =
      elim (Result-cases (read_inbound_line l.buffered max_inbound_line_bytes c.incoming).0) [
        | inl (i, r) ↦ absurd (ground arith)
        | inr (k, r) ↦ (let same : e ≡ io k = ground arith in rw same tt)
      ]

  reply_of-IsConnectError :
      (i : InboundLine) (e : IpcError) → reply_of l i ≡ err e → IsConnectError e
  unfolding reply_of parse_reply
  reply_of-IsConnectError eof e q = let same : io unexpected_eof ≡ e = cc in rw (← same) tt
  reply_of-IsConnectError too_long e q = let same : discarded ≡ e = cc in rw (← same) tt
  reply_of-IsConnectError (line buf) e q = elim (Result-cases (l.parse (strip_newline buf))) [
    | inl (v, r) ↦ absurd (ground arith)
    | inr (x, r) ↦
        (let same : e ≡ malformed (x ++ (str ": " ++ l.lossy (strip_newline buf))) = ground arith in
          rw same tt)
  ]

  pub Fails-round_trip : (req : Value) → Fails (round_trip l req)
  unfolding round_trip settle
  Fails-round_trip req = Fails-if _ _ _ (Fails-raise _ tt) (
      Fails-then (write_all l (l.print req)) _ (Fails-write_all (l.print req)) (
        Fails-then (write_all l _) _ (Fails-write_all _) (
          Fails-then (flush l) _ Fails-flush
            (Fails-bind (read_line l) _ Fails-read_line λ i s e q. reply_of-IsConnectError i e q))))
