-- ===== src/Base/Decimal.antt =====
-- `{}` of a number: its decimal digits, and `parse` of a `u32`. A number has at most as many digits
-- as itself plus one, so that much fuel is enough.
pub mod Laws
use Prim.Native.Nat.{ℕ, zero, suc, ◌+◌, ◌-◌, ◌*◌, ◌/◌, ◌%◌, ◌^◌}
use mathlib.Core.Bool.{Bool, ◌&&◌, not}
use mathlib.Core.Option.{Option, none, some}
use mathlib.Core.List.{[], ◌∷◌}
use unidrive_mount_linux.Base.Equality.{◌==◌, nat_eq}
use unidrive_mount_linux.Base.Lists.{is_empty}
use unidrive_mount_linux.Base.Text.{Str}
use unidrive_mount_linux.Base.Tests.{ltb, leb, if◌then◌else◌}

unfoldable pub digits_onto : ℕ → ℕ → Str → Str
digits_onto zero n out = out
digits_onto (suc f) n out =
    let rest = digits_onto f (n / 10) ((n % 10 + b'0') ∷ out) in
    if ltb n 10 then (n + b'0') ∷ out else rest

unfoldable pub decimal : ℕ → Str
unfolding digits_onto
decimal n = digits_onto (suc n) n []

abbrev pub is_digit : ℕ → Bool
is_digit c = leb b'0' c && leb c b'9'

-- The loop of `u32::from_str`, which fails on what is no digit and on overflow.
unfoldable pub parse_digits : ℕ → Str → Option ℕ
parse_digits n [] = some n
parse_digits n (c ∷ s) =
    let m = n * 10 + (c - b'0') in
    let rest = parse_digits m s in if is_digit c && ltb m (2 ^ 32) then rest else none

-- `str::parse::<u32>()`: digits, with one `+` before them at most
unfoldable pub parse_u32 : Str → Option ℕ
unfolding parse_digits
parse_u32 [] = none
parse_u32 (c ∷ s) =
    if c == b'+' && not (is_empty s) then parse_digits 0 s else parse_digits 0 (c ∷ s)
