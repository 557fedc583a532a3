-- ===== src/Subscribe/Loop/Reading.antt =====
-- What is read of one event stream in mount/src/subscribe.rs.
use unidrive_mount_linux.Base.{
  ℕ, zero, suc, ◌+◌, ◌<◌, ◌≡◌, refl, inl, inr, true, false, List, [], ◌∷◌, ◌++◌, map, All, arith,
  contains, length, list_eq, nat_eq, is_empty, ltb, ◌||◌, Bool-cases, Str, Option-cases, take, drop,
  length-append,
}
use unidrive_mount_linux.Base.Exec.{ok, err, Result-cases}
use unidrive_mount_linux.Ipc.{io, unexpected_eof}
use unidrive_mount_linux.Ipc.Client.{Link, Conn}
use unidrive_mount_linux.Ipc.Client.Exchange.{strip_newline-append, limit_positive}
use unidrive_mount_linux.Ipc.Client.Verbs.{read_event}
use unidrive_mount_linux.Ipc.Inbound.{
  read_until, read_inbound_line, read_event_line, ends_line, max_inbound_line_bytes, line, eof,
  too_long, skip_line, newline, position,
}
use unidrive_mount_linux.Ipc.Inbound.InStep.{read_inbound_line_lem}

length-read_until :
    (k : ℕ) (s : Str) → length (read_until k s).0 + length (read_until k s).1 ≡ length s
unfolding read_until
length-read_until zero s = omega arith
length-read_until (suc k) [] = omega arith
length-read_until (suc k) (c ∷ s) = ground (arith, length-read_until k s)

module _ (l : Link) where
  -- The lines of a stream until it ends, and the world then: what a consumer that wants all of them
  -- is told.
  unfoldable pub stream_lines : ℕ → Conn l → List Str × l.World
  stream_lines zero c = ([], c.world)
  stream_lines (suc f) c =
      let (r, c') = read_event l c in
      elim r [
        | err e ↦ ([], c'.world)
        | ok text ↦ (let (rest, w) = stream_lines f c' in (text ∷ rest, w))
      ]

skip_line-not_line :
    (size : Str → ℕ) (f : ℕ) (s : Str) {buf : Str} → (skip_line size f s).0 ≡ ok (line buf) → ⊥
unfolding skip_line
skip_line-not_line size zero s q = cc
skip_line-not_line size (suc f) s {buf} q =
    let chunk = take (suc (size s)) s in
    elim (Bool-cases (is_empty chunk)) [
      | inl e ↦ absurd (ground arith)
      | inr e ↦ elim (Option-cases (position chunk)) [
        | inr (i, p) ↦ absurd (ground arith)
        | inl p ↦ skip_line-not_line size f (drop (length chunk) s) {buf = buf} (ground arith)
      ]
    ]

is_empty-length : (s : Str) → is_empty s ≡ false → 0 < length s
is_empty-length [] h = absurd (cc)
is_empty-length (c ∷ s) h = omega arith

read_inbound_line_shrinks :
    (size : Str → ℕ) (limit : ℕ) (s : Str) {buf : Str}
    → (read_inbound_line size limit s).0 ≡ ok (line buf)
    → length (read_inbound_line size limit s).1 < length s
unfolding read_inbound_line
read_inbound_line_shrinks size limit s {buf} q =
    elim (Bool-cases (is_empty (read_until limit s).0)) [
      | inl e ↦ absurd (ground arith)
      | inr e ↦
          elim (Bool-cases
            (ends_line (read_until limit s).0 || ltb (length (read_until limit s).0) limit)) [
              | inr n ↦ absurd (
                  skip_line-not_line size (suc (length (read_until limit s).1))
                    (read_until limit s).1 {buf = buf} (rw (e, n) at q))
              | inl d ↦
                  rw (e, d)
                    (omega
                      (arith, length-read_until limit s, is_empty-length (read_until limit s).0 e))
            ]
    ]

-- Lines with their newlines, as the daemon sends them.
pub frames : List Str → Str
frames [] = []
frames (t ∷ ts) = t ++ (newline ∷ frames ts)

abbrev pub IsEventLine : Str → Type 0
IsEventLine t = (contains t newline ≡ false) × (length t < max_inbound_line_bytes)

read_until_nothing : (k : ℕ) → read_until k [] ≡ ([], [])
unfolding read_until
read_until_nothing zero = refl
read_until_nothing (suc k) = refl

module _ (l : Link) where
  read_event_nothing :
      (w : l.World)
      → read_event l (record { incoming = []; world = w })
        ≡ (err (io unexpected_eof), record { incoming = []; world = w })
  unfolding read_event read_event_line read_inbound_line
  read_event_nothing w = rw (read_until_nothing max_inbound_line_bytes) refl

  read_event_frame :
      (t rest : Str) (w : l.World)
      → IsEventLine t
      → read_event l (record { incoming = t ++ (newline ∷ rest); world = w })
        ≡ (ok (l.lossy t), record { incoming = rest; world = w })
  unfolding read_event read_event_line
  read_event_frame t rest w (n, s) =
      let short : ltb (length t) max_inbound_line_bytes ≡ true = ground arith in
      rw
        (
          read_inbound_line_lem l.buffered max_inbound_line_bytes t rest limit_positive n,
          short,
          strip_newline-append t,
        )
        refl

  -- A stream that ends after whole lines, none of them too long, is read as these lines, in order,
  -- however its bytes are buffered; one round more than it has bytes is enough.
  pub stream_lines-frames :
      (ts : List Str) (f : ℕ) (w : l.World)
      → All IsEventLine ts
      → length (frames ts) < f
      → stream_lines l f (record { incoming = frames ts; world = w }) ≡ (map l.lossy ts, w)
  unfolding stream_lines frames
  stream_lines-frames ts zero w h b = absurd (omega arith)
  stream_lines-frames [] (suc f) w h b =
      rw (read_event_nothing w, stream_lines, read_event_nothing w) refl
  stream_lines-frames (t ∷ ts) (suc f) w (h, hs) b =
      rw
        (
          read_event_frame t (frames ts) w h,
          stream_lines,
          read_event_frame t (frames ts) w h,
          stream_lines-frames ts f w hs (omega (arith, length-append t (newline ∷ frames ts))),
        )
        refl

  read_event_shrinks :
      (c : Conn l) {text : Str}
      → (read_event l c).0 ≡ ok text
      → length (read_event l c).1.incoming < length c.incoming
  unfolding read_event read_event_line
  read_event_shrinks c q =
      elim (Result-cases (read_inbound_line l.buffered max_inbound_line_bytes c.incoming).0) [
        | inr (k, r) ↦ absurd (ground arith)
        | inl (eof, r) ↦ absurd (ground arith)
        | inl (too_long, r) ↦ absurd (ground arith)
        | inl (line buf, r) ↦
            read_inbound_line_shrinks l.buffered max_inbound_line_bytes c.incoming {buf = buf} r
      ]

  -- More fuel than a stream has bytes changes nothing: the inner loop never stops for want of it.
  pub stream_lines_fuel :
      (f g : ℕ) (c : Conn l)
      → length c.incoming < f
      → length c.incoming < g
      → stream_lines l f c ≡ stream_lines l g c
  unfolding stream_lines
  stream_lines_fuel zero g c a b = absurd (omega arith)
  stream_lines_fuel (suc f) zero c a b = absurd (omega arith)
  stream_lines_fuel (suc f) (suc g) c a b = elim (Result-cases (read_event l c).0) [
    | inr (e, r) ↦ rw (r, stream_lines) refl
    | inl (text, r) ↦
        let less = read_event_shrinks c r in
        rw (r, stream_lines, stream_lines_fuel f g (read_event l c).1 (omega arith) (omega arith))
          refl
  ]
