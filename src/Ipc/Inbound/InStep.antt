-- ===== src/Ipc/Inbound/InStep.antt =====
-- The reader of mount/src/ipc.rs stays in step with the daemon's lines, however they are buffered.
use unidrive_mount_linux.Base.{
  ℕ, zero, suc, ◌-◌, ◌≤◌, ◌<◌, ◌≡◌, refl, ap, inl, inr, true, false, none, some, [], ◌∷◌, ◌++◌,
  append-nil, arith, contains, list_eq, nat_eq, length, drop, take, is_empty, drop-append_past,
  length-append, ltb, if◌then◌else◌, Bool-cases, Str,
}
use unidrive_mount_linux.Ipc.Inbound.{
  newline, position, read_until, skip_line, too_long, ends_line, read_inbound_line, line,
}
use unidrive_mount_linux.Base.Exec.{ok}

read_until_short :
    (k : ℕ) (l rest : Str)
    → contains l newline ≡ false
    → length l < k
    → read_until k (l ++ (newline ∷ rest)) ≡ (l ++ (newline ∷ []), rest)
unfolding read_until
read_until_short zero l rest n s = absurd (omega arith)
read_until_short (suc k) [] rest n s = ground arith
read_until_short (suc k) (c ∷ l) rest n s = ground (arith, read_until_short k l rest)

read_until_long :
    (k : ℕ) (l rest : Str)
    → contains l newline ≡ false
    → k ≤ length l
    → read_until k (l ++ rest) ≡ (take k l, drop k l ++ rest)
unfolding read_until
read_until_long zero l rest n s = refl
read_until_long (suc k) [] rest n s = absurd (omega arith)
read_until_long (suc k) (c ∷ l) rest n s = ground (arith, read_until_long k l rest)

position-take :
    (k : ℕ) (m rest : Str)
    → contains m newline ≡ false
    → position (take k (m ++ (newline ∷ rest)))
      ≡ (if ltb (length m) k then some (length m) else none)
unfolding position
position-take zero m rest n = ground arith
position-take (suc k) [] rest n = ground arith
position-take (suc k) (c ∷ m) rest n = ground (arith, position-take k m rest)

length-take_long : (k : ℕ) (m rest : Str) → k ≤ length m → length (take k (m ++ rest)) ≡ k
length-take_long zero m rest s = refl
length-take_long (suc k) [] rest s = absurd (omega arith)
length-take_long (suc k) (c ∷ m) rest s = ground (arith, length-take_long k m rest)

drop-append_long : (k : ℕ) (m rest : Str) → k ≤ length m → drop k (m ++ rest) ≡ drop k m ++ rest
drop-append_long zero m rest s = refl
drop-append_long (suc k) [] rest s = absurd (omega arith)
drop-append_long (suc k) (c ∷ m) rest s = drop-append_long k m rest (omega arith)

contains-drop : (k : ℕ) (m : Str) → contains m newline ≡ false → contains (drop k m) newline ≡ false
contains-drop zero m n = n
contains-drop (suc k) [] n = n
contains-drop (suc k) (c ∷ m) n = ground (arith, contains-drop k m)

length-drop : (k : ℕ) (m : Str) → length (drop k m) ≡ length m - k
length-drop zero m = omega arith
length-drop (suc k) [] = omega arith
length-drop (suc k) (c ∷ m) = omega (arith, length-drop k m)

is_empty-take-append :
    (k : ℕ) (m rest : Str) → is_empty (take (suc k) (m ++ (newline ∷ rest))) ≡ false
is_empty-take-append k [] rest = refl
is_empty-take-append k (c ∷ m) rest = refl

skip_line_to_newline :
    (size : Str → ℕ) (f : ℕ) (m rest : Str)
    → contains m newline ≡ false
    → length m < f
    → skip_line size f (m ++ (newline ∷ rest)) ≡ (ok too_long, rest)
unfolding skip_line
skip_line_to_newline size zero m rest n s = absurd (omega arith)
skip_line_to_newline size (suc f) m rest n s =
    let k = suc (size (m ++ (newline ∷ rest))) in
    let found = position-take k m rest n in
    elim (Bool-cases (ltb (length m) k)) [
      | inl t ↦
          rw (is_empty-take-append (size (m ++ (newline ∷ rest))) m rest, found, t, skip_line)
            (ap (λ r. (ok too_long, r)) (drop-append_past m newline rest))
      | inr u ↦
          let short : k ≤ length m = ground arith in
          rw
            (
              is_empty-take-append (size (m ++ (newline ∷ rest))) m rest,
              found,
              u,
              length-take_long k m (newline ∷ rest) short,
              drop-append_long k m (newline ∷ rest) short,
              skip_line,
            )
            (skip_line_to_newline size f (drop k m) rest (contains-drop k m n)
              (omega (arith, length-drop k m)))
    ]

ends_line-append : (l : Str) → ends_line (l ++ (newline ∷ [])) ≡ true
unfolding ends_line nat_eq
ends_line-append [] = refl
ends_line-append (c ∷ []) = refl
ends_line-append (c ∷ d ∷ l) = ends_line-append (d ∷ l)

ends_line-take : (k : ℕ) (l : Str) → contains l newline ≡ false → ends_line (take k l) ≡ false
unfolding ends_line
ends_line-take zero l n = refl
ends_line-take (suc k) [] n = refl
ends_line-take (suc zero) (c ∷ l) n = ground arith
ends_line-take (suc (suc k)) (c ∷ []) n = ground arith
ends_line-take (suc (suc k)) (c ∷ d ∷ l) n = ground (arith, ends_line-take (suc k) (d ∷ l))

append_newline : (l : Str) → is_empty (l ++ (newline ∷ [])) ≡ false
append_newline [] = refl
append_newline (c ∷ l) = refl

is_empty-take : (k : ℕ) (l : Str) → 0 < k → k ≤ length l → is_empty (take k l) ≡ false
is_empty-take zero l p s = absurd (omega arith)
is_empty-take (suc k) [] p s = absurd (omega arith)
is_empty-take (suc k) (c ∷ l) p s = refl

full : (k : ℕ) (l : Str) → k ≤ length l → ltb (length (take k l)) k ≡ false
full k l s =
    let e : length (take k (l ++ [])) ≡ k = length-take_long k l [] s in
    ground (arith, e, append-nil l)

-- However the bytes are buffered, a read takes the next line and no more: it returns the line with
-- its newline where that is within the limit, reports a longer one, and in both cases the next read
-- starts after the newline. The limit is positive.
pub read_inbound_line_lem :
    (size : Str → ℕ) (limit : ℕ) (l rest : Str)
    → 0 < limit
    → contains l newline ≡ false
    → read_inbound_line size limit (l ++ (newline ∷ rest))
      ≡ (ok (if ltb (length l) limit then line (l ++ (newline ∷ [])) else too_long), rest)
unfolding read_inbound_line
read_inbound_line_lem size limit l rest p n = elim (Bool-cases (ltb (length l) limit)) [
  | inl t ↦
      let short : length l < limit = ground arith in
      rw (t, read_until_short limit l rest n short, ends_line-append l, append_newline l) refl
  | inr f ↦
      let long : limit ≤ length l = ground arith in
      let left = drop limit l ++ (newline ∷ rest) in
      rw
        (
          f,
          read_until_long limit l (newline ∷ rest) n long,
          is_empty-take limit l p long,
          ends_line-take limit l n,
          full limit l long,
        )
        (skip_line_to_newline size (suc (length left)) (drop limit l) rest (contains-drop limit l n)
          (omega (arith, length-append (drop limit l) (newline ∷ rest))))
]
