-- ===== src/Base/Split.antt =====
-- Rust's `split(c)` and `trim` on text held as UTF-8 bytes.
use Prim.Native.Nat.{ℕ, zero, suc}
use mathlib.Core.Path.{◌≡◌, refl}
use mathlib.Core.Bool.{false}
use mathlib.Core.Option.{Option, none, some}
use mathlib.Core.List.{List, [], ◌∷◌, ◌++◌, map, reverse}
use native.Mathlib.Omega.{arith}
use unidrive_mount_linux.Base.Equality.{◌==◌, contains, list_eq, nat_eq, eq_refl}
use unidrive_mount_linux.Base.Lists.{length}
use unidrive_mount_linux.Base.Tests.{if◌then◌else◌}
use unidrive_mount_linux.Base.Text.{Str, str, strip_prefix}

abbrev onto_first : ℕ → List Str → List Str
onto_first d [] = []
onto_first d (p ∷ ps) = (d ∷ p) ∷ ps

-- `str::split(c)`: the pieces between the occurrences of `c`, at least one
unfoldable pub split : ℕ → Str → List Str
split c [] = [] ∷ []
split c (d ∷ s) = let rest = split c s in if d == c then [] ∷ rest else onto_first d rest

pub split_none : (c : ℕ) (s : Str) → contains s c ≡ false → split c s ≡ s ∷ []
unfolding split
split_none c [] h = refl
split_none c (d ∷ s) h = ground (arith, split_none c s)

pub split-append :
    (c : ℕ) (s t : Str) → contains s c ≡ false → split c (s ++ (c ∷ t)) ≡ s ∷ split c t
unfolding split
split-append c [] t h = ground (arith, eq_refl c)
split-append c (d ∷ s) t h = ground (arith, split-append c s t)

-- The encodings of the characters with the property `White_Space`, which `trim` drops.
abbrev pub white_space : List Str
white_space =
    (9 ∷ [])
    ∷ (10 ∷ [])
    ∷ (11 ∷ [])
    ∷ (12 ∷ [])
    ∷ (13 ∷ [])
    ∷ (32 ∷ [])
    ∷ (0xC2 ∷ 0x85 ∷ [])
    ∷ (0xC2 ∷ 0xA0 ∷ [])
    ∷ (0xE1 ∷ 0x9A ∷ 0x80 ∷ [])
    ∷ (0xE2 ∷ 0x80 ∷ 0x80 ∷ [])
    ∷ (0xE2 ∷ 0x80 ∷ 0x81 ∷ [])
    ∷ (0xE2 ∷ 0x80 ∷ 0x82 ∷ [])
    ∷ (0xE2 ∷ 0x80 ∷ 0x83 ∷ [])
    ∷ (0xE2 ∷ 0x80 ∷ 0x84 ∷ [])
    ∷ (0xE2 ∷ 0x80 ∷ 0x85 ∷ [])
    ∷ (0xE2 ∷ 0x80 ∷ 0x86 ∷ [])
    ∷ (0xE2 ∷ 0x80 ∷ 0x87 ∷ [])
    ∷ (0xE2 ∷ 0x80 ∷ 0x88 ∷ [])
    ∷ (0xE2 ∷ 0x80 ∷ 0x89 ∷ [])
    ∷ (0xE2 ∷ 0x80 ∷ 0x8A ∷ [])
    ∷ (0xE2 ∷ 0x80 ∷ 0xA8 ∷ [])
    ∷ (0xE2 ∷ 0x80 ∷ 0xA9 ∷ [])
    ∷ (0xE2 ∷ 0x80 ∷ 0xAF ∷ [])
    ∷ (0xE2 ∷ 0x81 ∷ 0x9F ∷ [])
    ∷ (0xE3 ∷ 0x80 ∷ 0x80 ∷ [])
    ∷ []

-- What is left of a text after a first piece that is in the list.
unfoldable pub drop_first : List Str → Str → Option Str
unfolding strip_prefix
drop_first [] s = none
drop_first (w ∷ ws) s =
    let rest = drop_first ws s in elim (strip_prefix s w) [ some r ↦ some r | none ↦ rest ]

-- Every round drops at least a byte, so the length is enough fuel.
unfoldable pub drop_all : List Str → ℕ → Str → Str
unfolding drop_first
drop_all ws zero s = s
drop_all ws (suc f) s = elim (drop_first ws s) [ none ↦ s | some r ↦ drop_all ws f r ]

-- `str::trim`
unfoldable pub trim : Str → Str
unfolding drop_all
trim s =
    let t = drop_all white_space (length s) s in
    reverse (drop_all (map reverse white_space) (length t) (reverse t))

trim_run : trim (str " 6.9 \n") ≡ str "6.9"
unfolding trim nat_eq
trim_run = refl
