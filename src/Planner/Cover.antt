-- ===== src/Planner/Cover.antt =====
-- The ranges of the planned segments against those of the content.
use svc_downloader.Common.{
  ℕ, zero, suc, ◌+◌, ◌-◌, ◌*◌, ◌/◌, ◌≤◌, ◌<◌, ◌≡◌, refl, subst, true, List, [], ◌∷◌, arith,
}
use svc_downloader.Common.Bytes.{Bytes}
use svc_downloader.Common.Int.{pos, pos_part}
use svc_downloader.Models.{Download, Segment}
use svc_downloader.Planner.{plan, max_conns, segments_from, segment_at}

-- The segments cover the bytes from `a` up to `n`, without a gap, an overlap or an empty segment.
abbrev pub Tiles : ℕ → ℕ → List Segment → Type 0
Tiles a n [] = a ≡ n
Tiles a n (s ∷ ss) =
    (s.start ≡ pos a)
    × (s.end ≡ pos (pos_part s.end))
    × (a ≤ pos_part s.end)
    × Tiles (pos_part s.end + 1) n ss

-- The segment behind `i` begins `q` bytes further on.
step_mul : (q i : ℕ) → q * (i + 1) ≡ q * i + q
step_mul q i = grind arith

pub bound_mul : (n m i : ℕ) → i < m → 0 < m → n / m * (i + 1) ≤ n
bound_mul n m i h p = grind arith

-- A quotient of at least one byte for each segment.
one-le-div : (n m : ℕ) → 0 < m → m ≤ n → 1 ≤ n / m
one-le-div n m p h = grind arith

module _ (id : Bytes) (n m : ℕ) (positive : 0 < m) (enough : m ≤ n) where
  segment_at_last : (i : ℕ) → i + 1 ≡ m → Tiles (n / m * i) n (segment_at id n m i ∷ [])
  unfolding segment_at
  segment_at_last i e = ground (
    arith,
    bound_mul n m i (omega arith) positive,
    step_mul (n / m) i,
    one-le-div n m positive enough,
  )

  end-segment_at : (i : ℕ) → i + 1 < m → (segment_at id n m i).end ≡ pos (n / m * (i + 1) - 1)
  unfolding segment_at
  end-segment_at i lt = ground (arith, step_mul (n / m) i, one-le-div n m positive enough)

  segment_at_inner :
      (i : ℕ) (ss : List Segment)
      → i + 1 < m
      → Tiles (n / m * (i + 1)) n ss
      → Tiles (n / m * i) n (segment_at id n m i ∷ ss)
  segment_at_inner i ss lt rest =
      let grows : n / m * i + 1 ≤ n / m * (i + 1) =
        omega (arith, step_mul (n / m) i, one-le-div n m positive enough) in
      let next : n / m * (i + 1) ≡ n / m * (i + 1) - 1 + 1 = omega arith in
      rw (end-segment_at i lt)
        (unfold segment_at in refl, refl, omega arith, subst (λ a. Tiles a n ss) next rest)

  segments_from-Tiles :
      (k i : ℕ) → i + suc k ≡ m → Tiles (n / m * i) n (segments_from id n m i (suc k))
  unfolding segments_from
  segments_from-Tiles zero i e = segment_at_last i (omega arith)
  segments_from-Tiles (suc k) i e =
      segment_at_inner i (segments_from id n m (i + 1) (suc k)) (omega arith)
        (segments_from-Tiles k (i + 1) (omega arith))

pub max_conns_pos : (d : Download) → 0 < max_conns d
unfolding max_conns
max_conns_pos d = ground arith

segments_of-Tiles : (id : Bytes) (n m : ℕ) → 0 < m → m ≤ n → Tiles 0 n (segments_from id n m 0 m)
segments_of-Tiles id n zero p e = elim p [ ]
segments_of-Tiles id n (suc k) p e =
    let start : n / suc k * 0 ≡ 0 = omega arith in
    subst (λ a. Tiles a n (segments_from id n (suc k) 0 (suc k))) start
      (segments_from-Tiles id n (suc k) p e k 0 (omega arith))

-- With ranges accepted and at least one byte for each connection, the plan tiles the content.
pub plan-Tiles : (d : Download) (n : ℕ) → max_conns d ≤ n → Tiles 0 n (plan d (pos n) true)
unfolding plan
plan-Tiles d n enough =
    let some_bytes : 0 < n = omega (arith, max_conns_pos d) in
    let tiles = segments_of-Tiles d.id n (max_conns d) (max_conns_pos d) enough in ground arith
