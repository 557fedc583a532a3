-- ===== src/Ipc/Inbound.antt =====
-- The lines that mount/src/ipc.rs reads from the daemon. A reader is the bytes that are still to

-- come before the stream ends; `size` says how many of them are buffered at a time.
pub mod InStep
use unidrive_mount_linux.Base.{
  ℕ, zero, suc, ◌+◌, ◌*◌, refl, Bool, true, false, ◌||◌, Option, none, some, [], ◌∷◌, arith, ◌==◌,
  list_eq, nat_eq, length, drop, take, is_empty, ltb, if◌then◌else◌, Str,
}
use unidrive_mount_linux.Ipc.{IoKind, unexpected_eof, invalid_data}
use unidrive_mount_linux.Base.Exec.{Result, err, ok}
use unidrive_mount_linux.Base.Dict.{map_some}

abbrev pub newline : ℕ
newline = 10

-- `MAX_INBOUND_LINE_BYTES`
unfoldable pub max_inbound_line_bytes : ℕ
max_inbound_line_bytes = 4 * 1024 * 1024

-- `InboundLine`
pub data InboundLine : Type 0 where
  eof : InboundLine
  line : Str → InboundLine
  too_long : InboundLine

-- `reader.take(limit).read_until(b'\n')`: what is read, and what is left.
unfoldable pub read_until : ℕ → Str → Str × Str
read_until zero s = ([], s)
read_until (suc k) [] = ([], [])
read_until (suc k) (c ∷ s) =
    let (l, rest) = read_until k s in if c == newline then (c ∷ [], s) else (c ∷ l, rest)

-- `buf.last() == Some(&b'\n')`
unfoldable pub ends_line : Str → Bool
ends_line [] = false
ends_line (c ∷ []) = c == newline
ends_line (c ∷ d ∷ s) = ends_line (d ∷ s)

-- `chunk.iter().position(|b| *b == b'\n')`
unfoldable pub position : Str → Option ℕ
position [] = none
position (c ∷ s) = let rest = map_some suc (position s) in if c == newline then some 0 else rest

-- The loop that drops the rest of a long line. Every round takes a byte, so one more than the number
-- of bytes is enough fuel.
unfoldable pub skip_line : (Str → ℕ) → ℕ → Str → Result IoKind InboundLine × Str
unfolding position
skip_line size zero s = (err unexpected_eof, s)
skip_line size (suc f) s =
    let chunk = take (suc (size s)) s in
    elim (is_empty chunk) [
      | true ↦ (err unexpected_eof, s)
      | false ↦ elim (position chunk) [
        | some i ↦ (ok too_long, drop (i + 1) s)
        | none ↦ skip_line size f (drop (length chunk) s)
      ]
    ]

-- `read_inbound_line`
unfoldable pub read_inbound_line : (Str → ℕ) → ℕ → Str → Result IoKind InboundLine × Str
unfolding read_until ends_line skip_line
read_inbound_line size limit s =
    let (buf, rest) = read_until limit s in
    if is_empty buf
    then (ok eof, rest)
    else if ends_line buf || ltb (length buf) limit
    then (ok (line buf), rest)
    else skip_line size (suc (length rest)) rest

-- `buf.strip_suffix(b"\n").unwrap_or(&buf)`
unfoldable pub strip_newline : Str → Str
strip_newline [] = []
strip_newline (c ∷ []) = if c == newline then [] else c ∷ []
strip_newline (c ∷ d ∷ s) = c ∷ strip_newline (d ∷ s)

-- `read_event_line`; `lossy` is `String::from_utf8_lossy`.
unfoldable pub read_event_line : (Str → ℕ) → (Str → Str) → Str → Result IoKind Str × Str
unfolding read_inbound_line strip_newline
read_event_line size lossy s =
    let (r, rest) = read_inbound_line size max_inbound_line_bytes s in
    (
      elim r [
        | err e ↦ err e
        | ok eof ↦ err unexpected_eof
        | ok (line buf) ↦ ok (lossy (strip_newline buf))
        | ok too_long ↦ err invalid_data
      ],
      rest,
    )
