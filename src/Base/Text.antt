-- ===== src/Base/Text.antt =====
-- Rust's `str` as its UTF-8 bytes. Only `/` and other ASCII bytes are ever searched for, and
-- those are never part of a longer character, so bytes and characters agree on every split.
use Prim.Native.Nat.{ℕ, zero, suc, ◌+◌}
use Prim.Native.Char.{code}
use Prim.Native.String.{String}
use mathlib.Core.Path.{◌≡◌, refl, ap}
use mathlib.Core.Bool.{Bool, true, false, ◌&&◌}
use mathlib.Core.Option.{Option, none, some}
use mathlib.Core.List.{List, [], ◌∷◌, ◌++◌}
use native.Mathlib.Omega.{arith}
use unidrive_mount_linux.Base.Equality.{◌==◌, eq_refl, nat_eq}
use unidrive_mount_linux.Base.Lists.{length, take}
use mathlib.Core.Logic.{◌≢◌}
use unidrive_mount_linux.Base.Tests.{if◌then◌else◌}

abbrev pub Str : Type 0
Str = List ℕ

-- An ASCII literal.
abbrev pub str : String → Str
str String.[] = []
str (String.◌∷◌ c s) = code c ∷ str s

-- `str::strip_prefix(prefix)`
unfoldable pub strip_prefix : Str → Str → Option Str
strip_prefix s [] = some s
strip_prefix [] (c ∷ p) = none
strip_prefix (d ∷ s) (c ∷ p) = let rest = strip_prefix s p in if d == c then rest else none

-- `str::starts_with(prefix)`
unfoldable pub starts_with : Str → Str → Bool
starts_with s [] = true
starts_with [] (c ∷ p) = false
starts_with (d ∷ s) (c ∷ p) = d == c && starts_with s p

pub strip_prefix-append : (p r : Str) → strip_prefix (p ++ r) p ≡ some r
unfolding strip_prefix
strip_prefix-append [] r = refl
strip_prefix-append (c ∷ p) r = ground (arith, strip_prefix-append p r)

pub strip_prefix-eq_some : (s p : Str) {r : Str} → strip_prefix s p ≡ some r → s ≡ p ++ r
unfolding strip_prefix
strip_prefix-eq_some s [] h = cc
strip_prefix-eq_some [] (c ∷ p) h = cc
strip_prefix-eq_some (d ∷ s) (c ∷ p) {r} h = ground (arith, strip_prefix-eq_some s p {r = r})

pub starts_with-append : (p r : Str) → starts_with (p ++ r) p ≡ true
unfolding starts_with
starts_with-append [] r = refl
starts_with-append (c ∷ p) r = ground (arith, starts_with-append p r)

pub starts_with-eq_append : (s p : Str) → starts_with s p ≡ true → (r : Str) × (s ≡ p ++ r)
unfolding starts_with
starts_with-eq_append s [] h = (s, refl)
starts_with-eq_append [] (c ∷ p) h = cc
starts_with-eq_append (d ∷ s) (c ∷ p) h =
    let (r, e) = starts_with-eq_append s p (ground arith) in (r, ground arith)

pub starts_with-append-append : (a r s : Str) → starts_with (a ++ r) (a ++ s) ≡ starts_with r s
unfolding starts_with
starts_with-append-append [] r s = refl
starts_with-append-append (c ∷ a) r s = ground (arith, starts_with-append-append a r s)

abbrev pub slash : ℕ
slash = b'/'

-- `str::rfind(c)`
unfoldable pub rfind : ℕ → Str → Option ℕ
rfind c [] = none
rfind c (d ∷ s) = elim (rfind c s) [
  | some i ↦ some (suc i)
  | none ↦ if d == c then some 0 else none
]

abbrev pub after_match : ℕ → Option ℕ → Option ℕ
after_match n none = some n
after_match n (some j) = some (n + suc j)

pub rfind-append : (c : ℕ) (a b : Str) → rfind c (a ++ (c ∷ b)) ≡ after_match (length a) (rfind c b)
unfolding rfind
rfind-append c [] b = ground (arith, eq_refl c)
rfind-append c (d ∷ a) b = ground (arith, rfind-append c a b)

-- The last occurrence splits the text, and none follows it.
pub rfind-eq_some :
    (c : ℕ) (s : Str) (i : ℕ)
    → rfind c s ≡ some i
    → (r : Str) × (s ≡ take i s ++ (c ∷ r)) × (rfind c r ≡ none) × (length (take i s) ≡ i)
unfolding rfind
rfind-eq_some c [] i h = cc
rfind-eq_some c (d ∷ s) zero h = (s, ground arith, ground arith, refl)
rfind-eq_some c (d ∷ s) (suc i) h =
    let (r, e, l, n) = rfind-eq_some c s i (ground arith) in (r, ap (λ t. d ∷ t) e, l, ap suc n)

pub rfind-eq_none : (c : ℕ) (a b : Str) → rfind c (a ++ (c ∷ b)) ≢ none
rfind-eq_none c a b h = ground (arith, rfind-append c a b)

pub append_cancel : (a r s : Str) → a ++ r ≡ a ++ s → r ≡ s
append_cancel [] r s h = h
append_cancel (c ∷ a) r s h = append_cancel a r s (cc)
