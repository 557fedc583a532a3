-- ===== src/Attr/Time.antt =====
-- The time stamps and sizes of `file_attr_from_cached` lose nothing.
use unidrive_mount_linux.Base.Int.{ℤ, pos, negsuc, div_euclid, rem_euclid}
use unidrive_mount_linux.Json.{unwrap_or}
use unidrive_mount_linux.Attr.{CachedAttr, Owner, file_attr_from_cached}
use unidrive_mount_linux.Base.{
  ℕ, suc, ◌+◌, ◌-◌, ◌*◌, ◌/◌, ◌%◌, ◌^◌, ◌≤◌, ◌<◌, ◌≡◌, refl, arith, list_eq, nat_eq, leb,
  if◌then◌else◌,
}

-- `n` times `k`, plus `r`.
abbrev pub scaled : ℤ → ℕ → ℕ → ℤ
scaled (pos n) k r = pos (n * k + r)
scaled (negsuc n) k r =
    if leb (suc n * k) r then pos (r - suc n * k) else negsuc (suc n * k - r - 1)

scaled-div_euclid : (a : ℤ) → scaled (div_euclid a 1000) 1000 (rem_euclid a 1000) ≡ a
unfolding div_euclid rem_euclid
scaled-div_euclid (pos n) = ground arith
scaled-div_euclid (negsuc n) = ground arith

rem_euclid-lt : (a : ℤ) → rem_euclid a 1000 < 1000
unfolding rem_euclid
rem_euclid-lt (pos n) = omega arith
rem_euclid-lt (negsuc n) = omega arith

-- The seconds and nanoseconds shown for the modified time are those of the provider's modified time where the entry has
-- one, and of the cached time otherwise: the nanoseconds are a whole number of milliseconds below
-- one second, and together they give back the time, before 1970 too. The size is shown as it is,
-- in just enough blocks of 512 bytes.
pub file_attr_lossless :
    (o : Owner) (ino : ℕ) (c : CachedAttr)
    → let a = file_attr_from_cached o ino c in
      (a.mtime.nsec < 10 ^ 9)
      × ((a.mtime.nsec / 10 ^ 6) * 10 ^ 6 ≡ a.mtime.nsec)
      × (scaled a.mtime.sec 1000 (a.mtime.nsec / 10 ^ 6) ≡ unwrap_or c.remote_mtime_ms c.mtime_ms)
      × (a.size ≡ c.size)
      × (a.size ≤ a.blocks * 512)
      × (a.blocks * 512 < a.size + 512)
unfolding file_attr_from_cached
file_attr_lossless o ino c =
    let ms : ℤ = unwrap_or c.remote_mtime_ms c.mtime_ms in
    let small = rem_euclid-lt ms in
    let whole : (rem_euclid ms 1000 * 1_000_000) % 2 ^ 32 / 10 ^ 6 ≡ rem_euclid ms 1000 =
      omega (arith, small) in
    (
      omega (arith, small),
      omega (arith, small),
      rw whole (scaled-div_euclid ms),
      refl,
      ground arith,
      ground arith,
    )
