-- ===== src/RateLimit/Burst.antt =====
-- What a bucket lets through at once.
use svc_downloader.Common.{ℕ, ◌+◌, ◌≡◌, sym, subst, true, List, [], ◌∷◌, ◌≤◌, arith, if◌then◌else◌}
use svc_downloader.Common.Int.{ℤ, pos, ◌≤ℤ◌, ◌-ℤ◌, -ℤ_parts, pos_part, ltb_ℤ}
use svc_downloader.Models.{Time}
use svc_downloader.RateLimit.{Bucket, reserve_one}

module _ (refill : ℤ → ℕ → ℤ) (delay : ℤ → ℤ → ℤ) (now : Time) where
  -- The requests of a burst, one after the other at the same instant: the bytes of those for which the
  -- caller is not told to wait, and the bucket at the end.
  unfoldable pub burst : List ℕ → Bucket → ℕ × Bucket
  burst [] b = (0, b)
  burst (n ∷ ns) b =
      let (wait, b') = reserve_one refill delay now (pos n) b in
      let (rest, last) = burst ns b' in ((if ltb_ℤ (pos 0) wait then 0 else n) + rest, last)

  -- At this capacity there is a wait for every number of bytes that are missing.
  abbrev pub Waits : ℤ → Type 0
  Waits capacity =
      (missing : ℤ) → ltb_ℤ (pos 0) missing ≡ true → ltb_ℤ (pos 0) (delay missing capacity) ≡ true

  burst_step :
      (n : ℕ) (b : Bucket)
      → Waits b.capacity
      → b.last_refill ≡ now
      → pos 0 ≤ℤ b.tokens
      → let (wait, b') = reserve_one refill delay now (pos n) b in
        (b'.last_refill ≡ now)
        × (pos 0 ≤ℤ b'.tokens)
        × (b'.capacity ≡ b.capacity)
        × ((if ltb_ℤ (pos 0) wait then 0 else n) + pos_part b'.tokens ≤ pos_part b.tokens)
  unfolding reserve_one
  burst_step n b waits e h =
      ground
        (arith, -ℤ_parts b.tokens (pos n), -ℤ_parts (pos n) b.tokens, waits (pos n -ℤ b.tokens))

  -- At a capacity at which there is a wait for every number of missing bytes, the requests of a burst for
  -- which Reserve returns no wait add up to no more than the tokens that the bucket held when the burst
  -- began.
  pub burst_bound :
      (ns : List ℕ) (b : Bucket)
      → Waits b.capacity
      → b.last_refill ≡ now
      → pos 0 ≤ℤ b.tokens
      → (burst ns b).0 + pos_part (burst ns b).1.tokens ≤ pos_part b.tokens
  unfolding burst
  burst_bound [] b waits e h = omega arith
  burst_bound (n ∷ ns) b waits e h =
      let (stamp, nonneg, same_capacity, step) = burst_step n b waits e h in
      let b' = (reserve_one refill delay now (pos n) b).1 in
      omega (arith, burst_bound ns b' (subst Waits (sym same_capacity) waits) stamp nonneg)
