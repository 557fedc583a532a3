-- ===== src/Quota/Laws.antt =====
-- What the quota cache of quota.rs promises.
use unidrive_mount_linux.Quota.{
  Quota, statfs_blocks, block_size, QuotaCache, begin_refresh, finish_refresh,
}
use unidrive_mount_linux.Base.{
  ℕ, ◌+◌, ◌*◌, ◌≤◌, ◌<◌, max, ◌≡◌, refl, ap, ◌∙◌, Bool, true, false, Option, none, some, List, [],
  ◌∷◌, arith, list_eq, nat_eq, length, if◌then◌else◌,
}

-- The free blocks never exceed the volume, and both are whole blocks of the account's bytes; an
-- account at or over its quota has none free.
pub statfs_blocks_bounds :
    (q : Option Quota)
    → ((statfs_blocks q).1 ≤ (statfs_blocks q).0)
      × ((u : Quota)
          → q ≡ some u
          → ((statfs_blocks q).0 * block_size ≤ u.total_bytes)
            × ((statfs_blocks q).1 * block_size + u.used_bytes ≤ max u.total_bytes u.used_bytes)
            × (u.total_bytes ≤ u.used_bytes → (statfs_blocks q).1 ≡ 0))
unfolding statfs_blocks
statfs_blocks_bounds none = (omega arith, λ u e. cc)
statfs_blocks_bounds (some q) =
    (omega arith, λ u e. (ground arith, ground arith, λ h. ground arith))

-- The events of a quota cache: a `statfs` that asks for a refresh at a time, with how much later the
-- clock is read again, and the end of a refresh, which only a granted request can bring.
pub data Event : Type 0 where
  asks : ℕ → ℕ → Event
  finishes : Option Quota → Event

-- The times of the granted requests, as the cache remembers them.
unfoldable pub grants : QuotaCache → List Event → List ℕ
grants c [] = []
grants c (asks t d ∷ es) =
    let rest = grants (begin_refresh t (t + d) c).1 es in
    if (begin_refresh t (t + d) c).0 then (t + d) ∷ rest else rest
grants c (finishes q ∷ es) = grants (finish_refresh q c) es

unfoldable pub cache_after : QuotaCache → List Event → QuotaCache
cache_after c [] = c
cache_after c (asks t d ∷ es) = cache_after (begin_refresh t (t + d) c).1 es
cache_after c (finishes q ∷ es) = cache_after (finish_refresh q c) es

-- Each time is at least an interval after the one before it.
abbrev pub Spaced : ℕ → Option ℕ → List ℕ → Type 0
Spaced k last [] = Unit
Spaced k none (t ∷ ts) = Spaced k (some t) ts
Spaced k (some l) (t ∷ ts) = (l + k ≤ t) × Spaced k (some t) ts

-- Where the interval is positive: whatever requests and refresh results come, in any order, and
-- however long it is between the two readings of the clock, the first granted request is at least an
-- interval after the last attempt that the cache remembers, and each later one at least an interval
-- after the one before it.
pub grants-Spaced :
    (c : QuotaCache) (es : List Event)
    → 0 < c.interval
    → Spaced c.interval c.last_attempt (grants c es)
unfolding grants begin_refresh finish_refresh
grants-Spaced c [] h = tt
grants-Spaced c (asks t d ∷ es) h = ground (
  arith,
  grants-Spaced c es h,
  grants-Spaced (record c { in_flight = true; last_attempt = some (t + d) }) es h,
)
grants-Spaced c (finishes none ∷ es) h = grants-Spaced (record c { in_flight = false }) es h
grants-Spaced c (finishes (some q) ∷ es) h =
    grants-Spaced (record c { in_flight = false; quota = some q }) es h

abbrev pub finish_count : List Event → ℕ
finish_count [] = 0
finish_count (asks t d ∷ es) = finish_count es
finish_count (finishes q ∷ es) = finish_count es + 1

abbrev pub slots : Bool → ℕ
slots true = 0
slots false = 1

-- Over any events the granted requests outnumber the refreshes that finish by at most one, and not
-- at all where a refresh is in flight at the start.
pub grants-le-finish_count :
    (c : QuotaCache) (es : List Event) → length (grants c es) ≤ finish_count es + slots c.in_flight
unfolding grants begin_refresh finish_refresh
grants-le-finish_count c [] = omega arith
grants-le-finish_count c (asks t d ∷ es) = ground (
  arith,
  grants-le-finish_count c es,
  grants-le-finish_count (record c { in_flight = true; last_attempt = some (t + d) }) es,
)
grants-le-finish_count c (finishes none ∷ es) =
    ground (arith, grants-le-finish_count (record c { in_flight = false }) es)
grants-le-finish_count c (finishes (some q) ∷ es) =
    ground (arith, grants-le-finish_count (record c { in_flight = false; quota = some q }) es)

-- The quota of the last refresh that brought one.
abbrev pub last_known : Option Quota → List Event → Option Quota
last_known q [] = q
last_known q (asks t d ∷ es) = last_known q es
last_known q (finishes none ∷ es) = last_known q es
last_known q (finishes (some r) ∷ es) = last_known (some r) es

-- After any events the cache holds the quota of the last refresh that brought one, and without such
-- a refresh the one it held before.
pub quota-cache_after :
    (c : QuotaCache) (es : List Event) → (cache_after c es).quota ≡ last_known c.quota es
unfolding cache_after begin_refresh finish_refresh
quota-cache_after c [] = refl
quota-cache_after c (asks t d ∷ es) =
    quota-cache_after (begin_refresh t (t + d) c).1 es ∙ ap (λ q. last_known q es) (ground arith)
quota-cache_after c (finishes none ∷ es) = quota-cache_after _ es
quota-cache_after c (finishes (some q) ∷ es) = quota-cache_after _ es
