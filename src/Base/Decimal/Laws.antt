-- ===== src/Base/Decimal/Laws.antt =====
-- What is printed in decimal is parsed back.
use Prim.Native.Nat.{ℕ, zero, suc, ◌+◌, ◌-◌, ◌*◌, ◌/◌, ◌%◌, ◌^◌, ◌<◌}
use mathlib.Core.Path.{◌≡◌, refl, ap, sym, ◌∙◌}
use mathlib.Core.Bool.{false}
use mathlib.Core.Option.{some}
use mathlib.Core.List.{[], ◌∷◌}
use native.Mathlib.Omega.{arith}
use unidrive_mount_linux.Base.Equality.{contains, nat_eq}
use unidrive_mount_linux.Base.Lists.{is_empty}
use unidrive_mount_linux.Base.Text.{Str}
use unidrive_mount_linux.Base.Decimal.{digits_onto, decimal, is_digit, parse_digits, parse_u32}

parse_digits-digits_onto :
    (f n : ℕ) (out : Str)
    → n < f
    → n < 2 ^ 32
    → parse_digits 0 (digits_onto f n out) ≡ parse_digits n out
unfolding parse_digits digits_onto
parse_digits-digits_onto zero n out h b = absurd (omega arith)
parse_digits-digits_onto (suc f) n out h b =
    ground (arith, parse_digits-digits_onto f (n / 10) ((n % 10 + b'0') ∷ out))

contains-digits_onto :
    (c f n : ℕ) (out : Str) → is_digit c ≡ false → contains (digits_onto f n out) c ≡ contains out c
unfolding digits_onto
contains-digits_onto c zero n out d = refl
contains-digits_onto c (suc f) n out d =
    ground (arith, contains-digits_onto c f (n / 10) ((n % 10 + b'0') ∷ out))

-- A printed number is made of digits.
pub contains-decimal : (c n : ℕ) → is_digit c ≡ false → contains (decimal n) c ≡ false
unfolding decimal
contains-decimal c n d = contains-digits_onto c (suc n) n [] d

is_empty-digits_onto : (f n : ℕ) (out : Str) → n < f → is_empty (digits_onto f n out) ≡ false
unfolding digits_onto
is_empty-digits_onto zero n out h = absurd (omega arith)
is_empty-digits_onto (suc f) n out h =
    ground (arith, is_empty-digits_onto f (n / 10) ((n % 10 + b'0') ∷ out))

parse_unsigned :
    (s : Str) → contains s b'+' ≡ false → is_empty s ≡ false → parse_u32 s ≡ parse_digits 0 s
unfolding parse_u32
parse_unsigned [] h e = cc
parse_unsigned (c ∷ s) h e = ground arith

-- A `u32` that is printed is parsed back.
pub parse_u32-decimal : (n : ℕ) → n < 2 ^ 32 → parse_u32 (decimal n) ≡ some n
unfolding decimal parse_digits
parse_u32-decimal n b =
    parse_unsigned (decimal n) (contains-decimal b'+' n refl)
      (is_empty-digits_onto (suc n) n [] (omega arith))
    ∙ parse_digits-digits_onto (suc n) n [] (omega arith) b

value : ℕ → Str → ℕ
value n [] = n
value n (c ∷ s) = value (n * 10 + (c - b'0')) s

value-digits_onto : (f n : ℕ) (out : Str) → n < f → value 0 (digits_onto f n out) ≡ value n out
unfolding value digits_onto
value-digits_onto zero n out h = absurd (omega arith)
value-digits_onto (suc f) n out h =
    ground (arith, value-digits_onto f (n / 10) ((n % 10 + b'0') ∷ out))

-- Numbers that are printed alike are the same.
pub decimal-injective : (m n : ℕ) → decimal m ≡ decimal n → m ≡ n
unfolding decimal value
decimal-injective m n e =
    sym (value-digits_onto (suc m) m [] (omega arith))
    ∙ ap (value 0) e
    ∙ value-digits_onto (suc n) n [] (omega arith)
