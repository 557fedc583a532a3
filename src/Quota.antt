-- ===== src/Quota.antt =====
-- mount/src/quota.rs: the account quota behind `statfs`.
pub mod Laws
use unidrive_mount_linux.Json.{Value, get, as_u64}
use unidrive_mount_linux.Base.Chain.{◌>>=◌}
use unidrive_mount_linux.Base.{
  ℕ, zero, suc, ◌-◌, ◌*◌, ◌/◌, ◌^◌, refl, Bool, true, false, Option, none, some, arith, ◌==◌,
  list_eq, nat_eq, ltb, if◌then◌else◌, str,
}

-- `BLOCK_SIZE`, `FALLBACK_BLOCKS`
abbrev pub block_size : ℕ
block_size = 4096

abbrev pub fallback_blocks : ℕ
fallback_blocks = 2 ^ 32

-- `DEFAULT_REFRESH_INTERVAL`, in nanoseconds
abbrev pub default_refresh_interval : ℕ
default_refresh_interval = 60 * 10 ^ 9

pub record Quota : Type 0 where
  pub used_bytes : ℕ
  pub total_bytes : ℕ

-- `Quota::from_status`
unfoldable pub from_status : Value → Option Quota
from_status reply = do
  q ← get reply (str "quota")
  u ← get q (str "used_bytes")
  used ← as_u64 u
  t ← get q (str "total_bytes")
  total ← as_u64 t
  if total == 0 then none else some (record { used_bytes = used; total_bytes = total })

-- `Quota::blocks`; `-` stops at 0, as `saturating_sub` does.
unfoldable pub blocks : Quota → ℕ × ℕ
blocks q = (q.total_bytes / block_size, (q.total_bytes - q.used_bytes) / block_size)

-- `statfs_blocks`
unfoldable pub statfs_blocks : Option Quota → ℕ × ℕ
unfolding blocks
statfs_blocks (some q) = blocks q
statfs_blocks none = (fallback_blocks, fallback_blocks)

-- The shared `State` of a `QuotaCache`, and its interval. Instants are nanoseconds on the clock
-- that never goes back.
pub record QuotaCache : Type 0 where
  pub quota : Option Quota
  pub last_attempt : Option ℕ
  pub in_flight : Bool
  pub interval : ℕ

-- `QuotaCache::new`
unfoldable pub new_cache : ℕ → QuotaCache
new_cache interval = record {
  quota = none;
  last_attempt = none;
  in_flight = false;
  interval = interval;
}

-- `s.last_attempt.is_some_and(|t| t.elapsed() < self.interval)`
unfoldable pub is_recent : ℕ → ℕ → Option ℕ → Bool
is_recent now interval none = false
is_recent now interval (some t) = ltb (now - t) interval

-- `QuotaCache::begin_refresh`; the clock is read for the test, and again for what is stored.
unfoldable pub begin_refresh : ℕ → ℕ → QuotaCache → Bool × QuotaCache
unfolding is_recent
begin_refresh elapsed_at now c =
    if c.in_flight
    then (false, c)
    else if is_recent elapsed_at c.interval c.last_attempt
    then (false, c)
    else (true, record c { in_flight = true; last_attempt = some now })

-- `QuotaCache::finish_refresh`
unfoldable pub finish_refresh : Option Quota → QuotaCache → QuotaCache
finish_refresh none c = record c { in_flight = false }
finish_refresh (some q) c = record c { in_flight = false; quota = some q }
