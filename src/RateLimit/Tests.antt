-- ===== src/RateLimit/Tests.antt =====
-- Tests and instances of the rate limiter's theorems. The conversions are those of whole seconds.
use svc_downloader.Common.{if◌then◌else◌, ℕ, ◌+◌, ◌*◌, ◌/◌, refl, ◌≡◌, ◌≤◌, some, [], ◌∷◌, arith}
use svc_downloader.Common.Bytes.{codes, same}
use svc_downloader.Common.Int.{ℤ, pos, pos_part, ◌-ℤ◌, leb_ℤ}
use svc_downloader.RateLimit.{Bucket, Limiter, reserve, reserve_one, set_limit}
use svc_downloader.RateLimit.Invariant.{AllBounded, reserve-AllBounded, reserve-set_limit}
use svc_downloader.RateLimit.Burst.{burst, burst_bound, Waits}

abbrev refill : ℤ → ℕ → ℤ
refill capacity elapsed = pos (pos_part capacity * elapsed / 1_000_000_000)

abbrev delay : ℤ → ℤ → ℤ
delay needed capacity = pos (pos_part needed * 1_000_000_000 / pos_part capacity)

abbrev bucket : Bucket
bucket = record { capacity = pos 100; tokens = pos 40; last_refill = 5 }

abbrev limiter : Limiter
limiter = record { buckets = some ((codes "global", bucket) ∷ (codes "q", bucket) ∷ []) }

reserve-AllBounded_example :
    AllBounded (reserve refill delay 1_000_000_005 (codes "global") (pos 70) limiter).1.buckets
reserve-AllBounded_example =
    reserve-AllBounded refill delay 1_000_000_005 (codes "global") (pos 70) limiter (omega arith)
      (omega arith)

reserve-set_limit_example :
    (l : Limiter) × (set_limit 9 (codes "q") (pos 10) limiter ≡ some l)
    × ((reserve refill delay 9 (codes "q") (pos 15) l).0 ≡ (
        if same (codes "q") (codes "q")
        then (if leb_ℤ (pos 10) (pos 0)
            then pos 0
            else if leb_ℤ (pos 15) (pos 10)
            then pos 0
            else delay (pos 15 -ℤ pos 10) (pos 10))
        else (reserve refill delay 9 (codes "q") (pos 15) limiter).0))
reserve-set_limit_example =
    reserve-set_limit refill delay 9 (codes "q") (codes "q") (pos 10) (pos 15)
      ((codes "global", bucket) ∷ (codes "q", bucket) ∷ [])

delay-Waits : Waits refill delay 5 (pos 100)
delay-Waits missing more = ground (arith, more)

burst_bound_example :
    (burst refill delay 5 (30 ∷ 20 ∷ []) bucket).0
      + pos_part (burst refill delay 5 (30 ∷ 20 ∷ []) bucket).1.tokens
    ≤ 40
burst_bound_example =
    burst_bound refill delay 5 (30 ∷ 20 ∷ []) bucket delay-Waits refl (omega arith)

-- The second request of the burst waits 100 ms for the ten tokens that are missing.
waits :
    (reserve_one refill delay 5 (pos 20) (reserve_one refill delay 5 (pos 30) bucket).1).0
    ≡ pos 100_000_000
unfolding reserve_one ◌-ℤ◌
waits = refl
