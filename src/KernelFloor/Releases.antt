-- ===== src/KernelFloor/Releases.antt =====
-- Which kernel releases mount/src/kernel_floor.rs accepts.
use unidrive_mount_linux.Base.{
  ℕ, ◌^◌, ◌<◌, ◌≤◌, ◌≡◌, refl, false, ◌⊎◌, inl, inr, some, [], ◌∷◌, ◌++◌, arith, nat_eq, append-nil,
  contains, Bool-cases, Str, List,
}
use unidrive_mount_linux.Base.Decimal.{decimal}
use unidrive_mount_linux.Base.Decimal.Laws.{parse_u32-decimal, contains-decimal}
use unidrive_mount_linux.Base.Exec.{ok, err}
use unidrive_mount_linux.Base.Split.{split, trim, split_none, split-append}
use unidrive_mount_linux.KernelFloor.{
  major_minor_of, parse_major_minor, is_before, check_kernel_floor, too_old,
}

contains-append :
    (c : ℕ) (s t : Str) → contains s c ≡ false → contains t c ≡ false → contains (s ++ t) c ≡ false
contains-append c [] t h k = k
contains-append c (d ∷ s) t h k = ground (arith, contains-append c s t)

-- Nothing, or a text that begins with the separator.
abbrev pub IsSetOff : ℕ → Str → Type 0
IsSetOff c s = (s ≡ []) ⊎ ((t : Str) × (s ≡ c ∷ t))

split-IsSetOff :
    (c : ℕ) (s r : Str)
    → contains s c ≡ false
    → IsSetOff c r
    → (rest : List Str) × (split c (s ++ r) ≡ s ∷ rest)
split-IsSetOff c s r h (inl e) = ([], rw (e, append-nil s) (split_none c s h))
split-IsSetOff c s r h (inr (t, e)) = (split c t, rw e (split-append c s t h))

module _ (major minor : ℕ) (patch tail : Str) (j : major < 2 ^ 32) (n : minor < 2 ^ 32)
    (p : IsSetOff b'.' patch) (t : IsSetOff b'-' tail) (d : contains patch b'-' ≡ false) where
  abbrev base : Str
  base = decimal major ++ (b'.' ∷ (decimal minor ++ patch))

  major_minor_of-base : major_minor_of base ≡ some (major, minor)
  unfolding major_minor_of
  major_minor_of-base =
      let (rest, e) =
        split-IsSetOff b'.' (decimal minor) patch (contains-decimal b'.' minor refl) p in
      rw
        (
          split-append b'.' (decimal major) (decimal minor ++ patch)
              (contains-decimal b'.' major refl),
          e,
          parse_u32-decimal major j,
          parse_u32-decimal minor n,
          major_minor_of,
        )
        refl

  base_dashless : contains base b'-' ≡ false
  base_dashless =
      contains-append b'-' (decimal major) (b'.' ∷ (decimal minor ++ patch))
        (contains-decimal b'-' major refl)
        (ground
          (arith, contains-append b'-' (decimal minor) patch (contains-decimal b'-' minor refl) d))

  parse_major_minor-release : parse_major_minor (base ++ tail) ≡ some (major, minor)
  unfolding parse_major_minor
  parse_major_minor-release =
      let (rest, e) = split-IsSetOff b'-' base tail base_dashless t in
      rw (e, parse_major_minor) major_minor_of-base

  -- Where the kernel's release, less the white space around it, is `major.minor`, each a `u32`, then
  -- nothing or a dot and what follows it up to a dash, then nothing or a dash and anything, the kernel
  -- is accepted exactly if it is 6.9 or newer, and refused as too old otherwise.
  pub check_kernel_floor-release :
      (raw : Str)
      → trim raw ≡ base ++ tail
      → (((6 < major) ⊎ ((major ≡ 6) × (9 ≤ minor))) × (check_kernel_floor (some raw) ≡ ok tt))
        ⊎ (((major < 6) ⊎ ((major ≡ 6) × (minor < 9)))
            × (check_kernel_floor (some raw) ≡ err (too_old (trim raw))))
  unfolding check_kernel_floor
  check_kernel_floor-release raw e =
      let parsed : parse_major_minor (trim raw) ≡ some (major, minor) =
        rw e parse_major_minor-release in
      elim (Bool-cases (is_before (major, minor) (6, 9))) [
        | inl old ↦ inr (ground arith, rw (parsed, old, check_kernel_floor) refl)
        | inr new ↦ inl (ground arith, rw (parsed, new, check_kernel_floor) refl)
      ]
