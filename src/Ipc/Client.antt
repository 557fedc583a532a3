-- ===== src/Ipc/Client.antt =====
-- `IpcClient` of mount/src/ipc.rs: a connection and one request with its reply on it. The socket, the
-- JSON crate and the conversion of bytes to text are a parameter. What the daemon sends is known by
-- the lines that are still to be read: where the code would wait without end, they end.
pub mod Exchange
pub mod Failures
pub mod Handshake
pub mod InStep
pub mod Listing
pub mod Verbs
use unidrive_mount_linux.Base.{
  ℕ, ◌+◌, ◌*◌, Bool, false, List, [], ◌∷◌, ◌++◌, length, ltb, if◌then◌else◌, Str, str,
}
use unidrive_mount_linux.Base.Decimal.{decimal}
use unidrive_mount_linux.Base.Exec.{Result, ok, err, Exec, raise, ◌>>=◌, ◌>>◌}
use unidrive_mount_linux.Ipc.{IpcError, IoKind, io, malformed, unexpected_eof, error_of_reply}
use unidrive_mount_linux.Ipc.Inbound.{
  InboundLine, eof, line, too_long, read_inbound_line, strip_newline, newline,
  max_inbound_line_bytes,
}
use unidrive_mount_linux.Json.{Value, object, member, Members, end, index, as_bool, unwrap_or}

-- What the client calls: a socket in a world of which nothing is known, `serde_json` and the lossy
-- conversion of bytes to text.
pub record Link : Type 1 where
  pub World : Type 0
  pub dial : World → Result IoKind (Unit {0}) × World
  pub write_all : Str → World → Result IoKind (Unit {0}) × World
  -- the bytes that the daemon has sent in answer when the next request begins
  pub flush : World → Result IoKind Str × World
  pub shutdown : World → World
  -- how many of the bytes to come are buffered at a time, less one
  pub buffered : Str → ℕ
  pub print : Value → Str
  pub parse : Str → Result Str Value
  pub lossy : Str → Str

-- `json!({ ... })`
unfoldable pub members_of : List (Str × Value) → Members
members_of [] = end
members_of ((k, v) ∷ fields) = member k v (members_of fields)

unfoldable pub json : List (Str × Value) → Value
unfolding members_of
json fields = object (members_of fields)

abbrev pub max_request_bytes : ℕ
max_request_bytes = 64 * 1024

-- `reply["ok"].as_bool().unwrap_or(false)`
unfoldable pub is_ok : Value → Bool
is_ok reply = unwrap_or (as_bool (index reply (str "ok"))) false

-- What a verb makes of a reply: an error where the reply is none of success.
unfoldable pub decode : {A : Type 0} → (Value → Result IpcError A) → Value → Result IpcError A
unfolding is_ok
decode read reply = if is_ok reply then read reply else err (error_of_reply reply)

module _ (l : Link) where
  open l use {World}

  -- The bytes that are still to be read, and the rest of the world.
  pub record Conn : Type 0 where
    pub incoming : Str
    pub world : World

  abbrev pub Ipc : Type 0 → Type 0
  Ipc A = Exec IpcError Conn A

  unfoldable pub write_all : Str → Ipc (Unit {0})
  write_all s c =
      let (r, w) = l.write_all s c.world in
      (elim r [ ok u ↦ ok tt | err k ↦ err (io k) ], record c { world = w })

  unfoldable pub flush : Ipc (Unit {0})
  flush c =
      let (r, w) = l.flush c.world in
      elim r [
        | ok s ↦ (ok tt, record { incoming = c.incoming ++ s; world = w })
        | err k ↦ (err (io k), record c { world = w })
      ]

  unfoldable pub read_line : Ipc InboundLine
  unfolding read_inbound_line
  read_line c =
      let (r, rest) = read_inbound_line l.buffered max_inbound_line_bytes c.incoming in
      (elim r [ ok i ↦ ok i | err k ↦ err (io k) ], record c { incoming = rest })

  -- `from_slice`
  unfoldable pub parse_reply : Str → Result IpcError Value
  unfolding strip_newline
  parse_reply buf = elim (l.parse (strip_newline buf)) [
    | ok v ↦ ok v
    | err e ↦ err (malformed (e ++ (str ": " ++ l.lossy (strip_newline buf))))
  ]

  -- What `round_trip` makes of the line it has read.
  unfoldable pub reply_of : InboundLine → Result IpcError Value
  reply_of (line buf) = parse_reply buf
  reply_of eof = err (io unexpected_eof)
  reply_of too_long = err (
      malformed
        (str "reply longer than " ++ (decimal max_inbound_line_bytes ++ str " bytes, discarded")))

  unfoldable pub settle : {A : Type 0} → Result IpcError A → Ipc A
  settle r c = (r, c)

  -- `round_trip`
  unfoldable pub round_trip : Value → Ipc Value
  unfolding reply_of settle
  round_trip req =
      let request = l.print req in
      if ltb max_request_bytes (length request + 1)
      then raise (
          malformed
            (str "request " ++ (decimal (length request) ++ str " bytes exceeds 64 KiB JVM cap")))
      else do write_all request; write_all (newline ∷ []); flush; i ← read_line; settle (reply_of i)

  -- A verb: one request, and what is made of its reply.
  unfoldable pub call : {A : Type 0} → Value → (Value → Result IpcError A) → Ipc A
  unfolding round_trip decode settle
  call req read = do reply ← round_trip req; settle (decode read reply)

  -- `connect`
  unfoldable pub connect : World → Result IpcError Conn × World
  connect w =
      let (r, w') = l.dial w in
      (elim r [ ok u ↦ ok (record { incoming = []; world = w' }) | err k ↦ err (io k) ], w')
