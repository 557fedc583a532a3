-- ===== src/KernelFloor.antt =====
-- mount/src/kernel_floor.rs: the oldest kernel that the program runs on.
pub mod Releases
use unidrive_mount_linux.Base.{
  ℕ, ◌&&◌, ◌||◌, Bool, Option, none, some, [], ◌∷◌, ◌==◌, nat_eq, ltb, if◌then◌else◌, Str,
}
use unidrive_mount_linux.Base.Chain.{◌>>=◌}
use unidrive_mount_linux.Base.Decimal.{parse_u32}
use unidrive_mount_linux.Base.Exec.{Result, ok, err}
use unidrive_mount_linux.Base.Split.{split, trim}

-- `KernelFloorError`
pub data KernelFloorError : Type 0 where
  too_old : Str → KernelFloorError
  unparseable : Str → KernelFloorError
  io_error : KernelFloorError

-- `prefix.split('.')`, of which the first two pieces are read
unfoldable pub major_minor_of : Str → Option (ℕ × ℕ)
unfolding split parse_u32
major_minor_of prefix = elim (split b'.' prefix) [
  | a ∷ b ∷ rest ↦ (do major ← parse_u32 a; minor ← parse_u32 b; some (major, minor))
  | other ↦ none
]

-- `parse_major_minor`
unfoldable pub parse_major_minor : Str → Option (ℕ × ℕ)
unfolding split major_minor_of
parse_major_minor raw = elim (split b'-' raw) [ [] ↦ none | prefix ∷ rest ↦ major_minor_of prefix ]

-- `(a, b) < (c, d)`
abbrev pub is_before : ℕ × ℕ → ℕ × ℕ → Bool
is_before (a, b) (c, d) = ltb a c || (a == c && ltb b d)

-- `check_kernel_floor`, of what `/proc/sys/kernel/osrelease` holds: `none` where it cannot be read
unfoldable pub check_kernel_floor : Option Str → Result KernelFloorError (Unit {0})
unfolding trim parse_major_minor
check_kernel_floor none = err io_error
check_kernel_floor (some raw) = elim (parse_major_minor (trim raw)) [
  | none ↦ err (unparseable (trim raw))
  | some v ↦ if is_before v (6, 9) then err (too_old (trim raw)) else ok tt
]
