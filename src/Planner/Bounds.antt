-- ===== src/Planner/Bounds.antt =====
-- The number of planned segments, their numbering, and the range of their offsets.
use svc_downloader.Common.{
  ℕ, zero, suc, ◌+◌, ◌-◌, ◌*◌, ◌/◌, ◌≤◌, ◌<◌, ◌≡◌, refl, true, List, [], ◌∷◌, arith,
}
use svc_downloader.Common.Lists.{length}
use svc_downloader.Common.Bytes.{Bytes}
use svc_downloader.Common.Int.{pos, negsuc, ◌≤ℤ◌}
use svc_downloader.Models.{Download, Segment}
use svc_downloader.Planner.{plan, max_conns, segments_from, segment_at}
use svc_downloader.Planner.Cover.{bound_mul}

-- The segments of one download, numbered from `i`.
abbrev pub Numbered : Bytes → ℕ → List Segment → Type 0
Numbered id i [] = Unit
Numbered id i (s ∷ ss) = (s.download_id ≡ id) × (s.index ≡ pos i) × Numbered id (i + 1) ss

-- Offsets that lie in the content: -1 is allowed as an end.
abbrev pub InContent : ℕ → Segment → Type 0
InContent n s =
    (pos 0 ≤ℤ s.start) × (s.start ≤ℤ pos n) × (negsuc 0 ≤ℤ s.end) × (s.end ≤ℤ pos (n - 1))

abbrev pub AllInContent : ℕ → List Segment → Type 0
AllInContent n [] = Unit
AllInContent n (s ∷ ss) = InContent n s × AllInContent n ss

segments_from-Numbered :
    (id : Bytes) (n m i k : ℕ)
    → (length (segments_from id n m i k) ≡ k) × Numbered id i (segments_from id n m i k)
unfolding segments_from
segments_from-Numbered id n m i zero = (refl, tt)
segments_from-Numbered id n m i (suc k) =
    let (count, numbered) = segments_from-Numbered id n m (i + 1) k in
    (omega arith, (refl, refl, numbered))

-- The products of the loop stay below the content's length.
segment_at-InContent : (id : Bytes) (n m i : ℕ) → i < m → 0 < n → InContent n (segment_at id n m i)
unfolding segment_at
segment_at-InContent id n m i lt p =
    let bound = bound_mul n m i lt (omega arith) in
    let below : n / m * i ≤ n / m * (i + 1) = grind arith in ground arith

segments_from-AllInContent :
    (id : Bytes) (n m i k : ℕ) → i + k ≤ m → 0 < n → AllInContent n (segments_from id n m i k)
unfolding segments_from
segments_from-AllInContent id n m i zero le p = tt
segments_from-AllInContent id n m i (suc k) le p = (
  segment_at-InContent id n m i (omega arith) p,
  segments_from-AllInContent id n m (i + 1) k (omega arith) p,
)

-- For a known length and accepted ranges there is one segment for each connection, numbered from 0,
-- and each offset lies between -1 and the length, so that no int64 of the loop overflows.
pub plan_shape :
    (d : Download) (n : ℕ)
    → 0 < n
    → (length (plan d (pos n) true) ≡ max_conns d)
      × Numbered d.id 0 (plan d (pos n) true)
      × AllInContent n (plan d (pos n) true)
unfolding plan
plan_shape d n p =
    let (count, numbered) = segments_from-Numbered d.id n (max_conns d) 0 (max_conns d) in
    let inside = segments_from-AllInContent d.id n (max_conns d) 0 (max_conns d) (omega arith) p in
    ground arith
