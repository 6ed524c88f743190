-- ===== src/RateLimit.antt =====
-- internal/ratelimit/ratelimiter.go: token buckets by key. The two conversions through float64 are
-- parameters: `refill` is int64(float64(capacity) * elapsed.Seconds()), of a capacity and of elapsed
-- nanoseconds, and `delay` is the duration of a number of bytes at a capacity.
pub mod Invariant
pub mod Burst
mod Tests
use svc_downloader.Common.{
  ℕ, ◌-◌, Bool, true, false, ◌||◌, not, Option, none, some, List, [], if◌then◌else◌, ltb,
}
use svc_downloader.Common.Bytes.{Bytes}
use svc_downloader.Common.Maps.{Map, lookup, insert}
use svc_downloader.Common.Int.{ℤ, pos, ◌+ℤ◌, ◌-ℤ◌, ltb_ℤ, leb_ℤ}
use svc_downloader.Models.{Time}

pub record Bucket : Type 0 where
  pub capacity : ℤ
  pub tokens : ℤ
  pub last_refill : Time

-- The map `buckets`: `none` is Go's nil map, from which one can read and to which one cannot write.
pub record Limiter : Type 0 where
  pub buckets : Option (Map Bucket)

-- New
abbrev pub new : Limiter
new = record { buckets = some [] }

-- The literal `SimpleRateLimiter{}`.
abbrev pub zero_limiter : Limiter
zero_limiter = record { buckets = none }

abbrev find : Bytes → Option (Map Bucket) → Option Bucket
find key none = none
find key (some m) = lookup key m

-- The bucket that the map holds is written through its pointer.
abbrev store : Bytes → Bucket → Option (Map Bucket) → Option (Map Bucket)
store key b none = none
store key b (some m) = some (insert key b m)

module _ (refill : ℤ → ℕ → ℤ) (delay : ℤ → ℤ → ℤ) where
  abbrev pub refilled : Time → Bucket → Bucket
  refilled now b =
      let elapsed = now - b.last_refill in
      let amount = refill b.capacity elapsed in
      let sum = b.tokens +ℤ amount in
      if ltb b.last_refill now
      then (if ltb_ℤ (pos 0) amount
          then record b {
            tokens = if ltb_ℤ b.capacity sum then b.capacity else sum;
            last_refill = now;
          }
          else b)
      else b

  -- The rest of reserveOne: a wait, and the bucket that is left.
  abbrev pub spend : ℤ → Bucket → ℤ × Bucket
  spend bytes b =
      if leb_ℤ bytes b.tokens
      then (pos 0, record b { tokens = b.tokens -ℤ bytes })
      else (delay (bytes -ℤ b.tokens) b.capacity, record b { tokens = pos 0 })

  unfoldable pub reserve_one : Time → ℤ → Bucket → ℤ × Bucket
  reserve_one now bytes b = spend bytes (refilled now b)

  abbrev reserve_found : Time → Bytes → ℤ → Option Bucket → Limiter → ℤ × Limiter
  reserve_found now key bytes none l = (pos 0, l)
  reserve_found now key bytes (some b) l =
      if leb_ℤ b.capacity (pos 0)
      then (pos 0, l)
      else (let (wait, b') = reserve_one now bytes b in
          (wait, record { buckets = store key b' l.buckets }))

  unfoldable pub reserve : Time → Bytes → ℤ → Limiter → ℤ × Limiter
  reserve now key bytes l = reserve_found now key bytes (find key l.buckets) l

-- `none` is the panic of a write to a nil map.
unfoldable pub set_limit : Time → Bytes → ℤ → Limiter → Option Limiter
set_limit now key bytes_per_second l = elim l.buckets [
  | none ↦ none
  | some m ↦ some (record {
    buckets = some (
        insert key
          (record { capacity = bytes_per_second; tokens = bytes_per_second; last_refill = now }) m);
  })
]
