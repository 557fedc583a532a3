-- ===== src/Ipc/Client/Exchange.antt =====
-- What a verb of `IpcClient` in mount/src/ipc.rs makes of the line that the daemon answers with.
use unidrive_mount_linux.Base.{
  ◌+◌, ◌≤◌, ◌<◌, ◌≡◌, refl, ap, ◌∙◌, ◌⊎◌, inl, inr, false, [], ◌∷◌, ◌++◌, arith, contains, list_eq,
  nat_eq, length, ltb, ltb→lt, if◌then◌else◌, Bool-cases, Str, str,
}
use unidrive_mount_linux.Base.Decimal.{decimal}
use unidrive_mount_linux.Base.Exec.{Result, ok, err, bind-ok, then-ok, ◌>>=◌}
use unidrive_mount_linux.Ipc.{IpcError, malformed}
use unidrive_mount_linux.Ipc.Client.{
  Link, Conn, call, round_trip, write_all, flush, read_line, settle, reply_of, parse_reply, decode,
  max_request_bytes,
}
use unidrive_mount_linux.Ipc.Inbound.{
  newline, max_inbound_line_bytes, strip_newline, line, too_long,
}
use unidrive_mount_linux.Ipc.Inbound.InStep.{read_inbound_line_lem}
use unidrive_mount_linux.Json.{Value}

pub strip_newline-append : (s : Str) → strip_newline (s ++ (newline ∷ [])) ≡ s
unfolding strip_newline nat_eq
strip_newline-append [] = refl
strip_newline-append (c ∷ []) = refl
strip_newline-append (c ∷ d ∷ s) = ap (λ t. c ∷ t) (strip_newline-append (d ∷ s))

abbrev pub discarded : IpcError
discarded =
    malformed
      (str "reply longer than " ++ (decimal max_inbound_line_bytes ++ str " bytes, discarded"))

pub limit_positive : 0 < max_inbound_line_bytes
unfolding max_inbound_line_bytes
limit_positive = omega arith

module _ (l : Link) (c : Conn l) where
  write_all-ok :
      (s : Str)
      → (l.write_all s c.world).0 ≡ ok tt
      → write_all l s c ≡ (ok tt, record c { world = (l.write_all s c.world).1 })
  unfolding write_all
  write_all-ok s e = rw e refl

  pub flush-ok :
      {s : Str}
      → (l.flush c.world).0 ≡ ok s
      → flush l c ≡ (ok tt, record { incoming = c.incoming ++ s; world = (l.flush c.world).1 })
  unfolding flush
  flush-ok e = rw (e, flush) refl

  pub read_line-reply :
      (reply rest : Str)
      → c.incoming ≡ reply ++ (newline ∷ rest)
      → contains reply newline ≡ false
      → read_line l c ≡ (
        ok (
            if ltb (length reply) max_inbound_line_bytes
            then line (reply ++ (newline ∷ []))
            else too_long),
        record c { incoming = rest },
      )
  unfolding read_line
  read_line-reply reply rest e n =
      rw (e, read_inbound_line_lem l.buffered max_inbound_line_bytes reply rest limit_positive n)
        refl

module _ (l : Link) (reply : Str) where
  parse_reply-ok :
      {v : Value} → l.parse reply ≡ ok v → parse_reply l (reply ++ (newline ∷ [])) ≡ ok v
  unfolding parse_reply
  parse_reply-ok q = rw (strip_newline-append reply, parse_reply, q) refl

  parse_reply-err :
      {e : Str}
      → l.parse reply ≡ err e
      → parse_reply l (reply ++ (newline ∷ [])) ≡ err (malformed (e ++ (str ": " ++ l.lossy reply)))
  unfolding parse_reply
  parse_reply-err q =
      rw (strip_newline-append reply, parse_reply, q, strip_newline-append reply) refl

module _ (l : Link) (c : Conn l) (req : Value) where
  abbrev pub request_text : Str
  request_text = l.print req

  abbrev after_request : l.World
  after_request = (l.write_all request_text c.world).1

  abbrev after_newline : l.World
  after_newline = (l.write_all (newline ∷ []) after_request).1

  -- The world after a request was written whole.
  abbrev pub answered : l.World
  answered = (l.flush after_newline).1

  -- The request is short enough and written, and the daemon sends these bytes.
  pub record Answers (bytes : Str) : Type 0 where
    pub fits : length request_text + 1 ≤ max_request_bytes
    pub wrote : (l.write_all request_text c.world).0 ≡ ok tt
    pub ended : (l.write_all (newline ∷ []) after_request).0 ≡ ok tt
    pub flushed : (l.flush after_newline).0 ≡ ok bytes

  abbrev pub left : Str → Conn l
  left rest = record { incoming = rest; world = answered }

  module _ (reply rest : Str) (s : c.incoming ≡ []) (n : contains reply newline ≡ false)
      (a : Answers (reply ++ (newline ∷ rest))) where
    round_trip-reply : round_trip l req c ≡ (
      reply_of l (
          if ltb (length reply) max_inbound_line_bytes
          then line (reply ++ (newline ∷ []))
          else too_long),
      left rest,
    )
    unfolding round_trip settle
    round_trip-reply =
        let small : ltb max_request_bytes (length request_text + 1) ≡ false =
          ground (arith, a.fits) in
        let c1 : Conn l = record c { world = after_request } in
        let c2 : Conn l = record c { world = after_newline } in
        let c3 : Conn l = record { incoming = reply ++ (newline ∷ rest); world = answered } in
        let flushed : flush l c2 ≡ (ok tt, c3) = rw (flush-ok l c2 a.flushed, s) refl in
        rw small (
          then-ok (write_all l request_text) _ (write_all-ok l c request_text a.wrote)
          ∙ then-ok (write_all l (newline ∷ [])) _ (write_all-ok l c1 (newline ∷ []) a.ended)
          ∙ then-ok (flush l) _ flushed
          ∙ bind-ok (read_line l) _ (read_line-reply l c3 reply rest refl n))

    -- Where a short enough request is written whole by a client that has read all there was, and the
    -- daemon sends a line and perhaps more, the verb answers with what its reader makes of the line
    -- (or with the reply's error), with `Malformed` where the line is no JSON, and with `Malformed`
    -- where it is longer than is allowed; in each case it has read that line and nothing after it.
    pub call-reply :
        {A : Type 0} (read : Value → Result IpcError A)
        → ((length reply < max_inbound_line_bytes)
            × ((v : Value) → l.parse reply ≡ ok v → call l req read c ≡ (decode read v, left rest))
            × ((e : Str)
                → l.parse reply ≡ err e
                → call l req read c
                  ≡ (err (malformed (e ++ (str ": " ++ l.lossy reply))), left rest)))
          ⊎ ((max_inbound_line_bytes ≤ length reply)
              × (call l req read c ≡ (err discarded, left rest)))
    unfolding call reply_of settle ◌>>=◌
    call-reply read = elim (Bool-cases (ltb (length reply) max_inbound_line_bytes)) [
      | inl t ↦ inl (
        ltb→lt (length reply) max_inbound_line_bytes t,
        λ v q. rw (round_trip-reply, t, reply_of, parse_reply-ok l reply q) refl,
        λ e q. rw (round_trip-reply, t, reply_of, parse_reply-err l reply q) refl,
      )
      | inr f ↦ inr (ground arith, rw (round_trip-reply, f) refl)
    ]
