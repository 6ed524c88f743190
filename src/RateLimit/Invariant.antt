-- ===== src/RateLimit/Invariant.antt =====
-- The buckets of a limiter: their bounds, and what SetLimit and Reserve do to them.
use svc_downloader.Common.{
  ℕ, ◌≡◌, refl, ◌≢◌, false, Option, none, some, ◌-◌, arith, inl, inr, Bool-cases, if◌then◌else◌,
}
use svc_downloader.Common.Bytes.{Bytes, same, same_ne, same_refl}
use svc_downloader.Common.Maps.{
  Map, lookup, insert, lookup-insert, AllValues, insert-AllValues, lookup-AllValues,
}
use svc_downloader.Common.Int.{ℤ, pos, ◌+ℤ◌, ◌≤ℤ◌, +ℤ_parts, -ℤ_parts, leb_ℤ, ◌-ℤ◌}
use svc_downloader.Models.{Time}
use svc_downloader.RateLimit.{
  Bucket, Limiter, find, store, zero_limiter, reserve, reserve_found, reserve_one, set_limit,
}

-- No bucket holds more than its capacity, and a bucket with a limit holds no debt.
pub record IsBounded (b : Bucket) : Type 0 where
  pub above : b.tokens ≤ℤ b.capacity
  pub below : pos 0 ≤ℤ b.capacity → pos 0 ≤ℤ b.tokens

abbrev pub AllBounded : Option (Map Bucket) → Type 0
AllBounded none = Unit
AllBounded (some m) = AllValues IsBounded m

module _ (refill : ℤ → ℕ → ℤ) (delay : ℤ → ℤ → ℤ) where
  capacity-reserve_one :
      (now : Time) (n : ℤ) (b : Bucket) → (reserve_one refill delay now n b).1.capacity ≡ b.capacity
  unfolding reserve_one
  capacity-reserve_one now n b = ground arith

  reserve_one-IsBounded :
      (now : Time) (n : ℤ) (b : Bucket)
      → leb_ℤ b.capacity (pos 0) ≡ false
      → pos 0 ≤ℤ n
      → IsBounded b
      → IsBounded (reserve_one refill delay now n b).1
  unfolding reserve_one
  reserve_one-IsBounded now n b limited h v =
      let amount = refill b.capacity (now - b.last_refill) in
      ground (
        arith,
        +ℤ_parts b.tokens amount,
        -ℤ_parts b.tokens n,
        -ℤ_parts b.capacity n,
        -ℤ_parts (b.tokens +ℤ amount) n,
      )

  store-AllBounded :
      (key : Bytes) (b : Bucket) (o : Option (Map Bucket))
      → IsBounded b
      → AllBounded o
      → AllBounded (store key b o)
  store-AllBounded key b none v h = tt
  store-AllBounded key b (some m) v h = insert-AllValues IsBounded key b m v h

  find-IsBounded :
      (key : Bytes) (o : Option (Map Bucket)) {b : Bucket}
      → AllBounded o
      → find key o ≡ some b
      → IsBounded b
  find-IsBounded key none h e = cc
  find-IsBounded key (some m) h e = lookup-AllValues IsBounded key m h e

  reserve_found-AllBounded :
      (now : Time) (key : Bytes) (n : ℤ) (o : Option Bucket) (l : Limiter)
      → pos 0 ≤ℤ n
      → ((b : Bucket) → o ≡ some b → IsBounded b)
      → AllBounded l.buckets
      → AllBounded (reserve_found refill delay now key n o l).1.buckets
  reserve_found-AllBounded now key n none l h v w = w
  reserve_found-AllBounded now key n (some b) l h v w =
      elim (Bool-cases (leb_ℤ b.capacity (pos 0))) [
        | inl off ↦ rw off w
        | inr limited ↦ rw limited (
            store-AllBounded key (reserve_one refill delay now n b).1 l.buckets
              (reserve_one-IsBounded now n b limited h (v b refl)) w)
      ]

  -- A reservation of a natural number of bytes keeps every bucket of the limiter bounded.
  pub reserve-AllBounded :
      (now : Time) (key : Bytes) (n : ℤ) (l : Limiter)
      → pos 0 ≤ℤ n
      → AllBounded l.buckets
      → AllBounded (reserve refill delay now key n l).1.buckets
  unfolding reserve
  reserve-AllBounded now key n l h w =
      reserve_found-AllBounded now key n (find key l.buckets) l h
        (λ b e. find-IsBounded key l.buckets w e) w

  find-store :
      (key other : Bytes) (b : Bucket) (o : Option (Map Bucket))
      → key ≢ other
      → find other (store key b o) ≡ find other o
  find-store key other b none ne = refl
  find-store key other b (some m) ne = rw (lookup-insert key other b m, same_ne key other ne)

  reserve_found-find :
      (now : Time) (key other : Bytes) (n : ℤ) (o : Option Bucket) (l : Limiter)
      → key ≢ other
      → find other (reserve_found refill delay now key n o l).1.buckets ≡ find other l.buckets
  reserve_found-find now key other n none l ne = refl
  reserve_found-find now key other n (some b) l ne = elim (Bool-cases (leb_ℤ b.capacity (pos 0))) [
    | inl off ↦ rw off
    | inr limited ↦
        rw limited (find-store key other (reserve_one refill delay now n b).1 l.buckets ne)
  ]

  -- A reservation leaves the buckets of all other keys as they were.
  pub find-reserve :
      (now : Time) (key other : Bytes) (n : ℤ) (l : Limiter)
      → key ≢ other
      → find other (reserve refill delay now key n l).1.buckets ≡ find other l.buckets
  unfolding reserve
  find-reserve now key other n l ne = reserve_found-find now key other n (find key l.buckets) l ne

-- SetLimit on a limiter whose map was made succeeds, and the key has the full new capacity; on the
-- nil map of the literal `SimpleRateLimiter{}` it panics, whatever the key and the limit.
pub set_limit_outcomes :
    (now : Time) (key : Bytes) (limit : ℤ) (m : Map Bucket)
    → (set_limit now key limit zero_limiter ≡ none)
      × ((l : Limiter) × (set_limit now key limit (record { buckets = some m }) ≡ some l)
          × (find key l.buckets
              ≡ some (record { capacity = limit; tokens = limit; last_refill = now })))
unfolding set_limit
set_limit_outcomes now key limit m = (
  refl,
  (
    record {
      buckets =
          some (insert key (record { capacity = limit; tokens = limit; last_refill = now }) m);
    },
    refl,
    rw (lookup-insert, same_refl),
  ),
)

-- SetLimit on a limiter whose map was made succeeds. At the same instant a reservation for its key then
-- passes without a wait if there is no limit or the bytes are within it, and waits for the bytes above
-- it otherwise; a reservation for another key waits as long as it would have before.
pub reserve-set_limit :
    (refill : ℤ → ℕ → ℤ) (delay : ℤ → ℤ → ℤ) (now : Time) (key other : Bytes) (limit n : ℤ)
    (m : Map Bucket)
    → let before : Limiter = record { buckets = some m } in
      (l : Limiter) × (set_limit now key limit before ≡ some l)
      × ((reserve refill delay now other n l).0 ≡ (
          if same key other
          then (if leb_ℤ limit (pos 0)
              then pos 0
              else if leb_ℤ n limit
              then pos 0
              else delay (n -ℤ limit) limit)
          else (reserve refill delay now other n before).0))
unfolding set_limit reserve reserve_one
reserve-set_limit refill delay now key other limit n m =
    let full : Bucket = record { capacity = limit; tokens = limit; last_refill = now } in
    (
      record { buckets = some (insert key full m) },
      refl,
      rw (lookup-insert key other full m) (elim (Bool-cases (same key other)) [
        | inl mine ↦ rw mine (elim (Bool-cases (leb_ℤ limit (pos 0))) [
          | inl off ↦ rw off refl
          | inr on ↦ rw on (elim (Bool-cases (leb_ℤ n limit)) [
            | inl within ↦ ground (arith, within)
            | inr above ↦ ground (arith, above)
          ])
        ])
        | inr another ↦ rw another (by_bucket (lookup other m))
      ]),
    )
  where
    by_bucket :
        (o : Option Bucket)
        → (reserve_found refill delay now other n o (record {
          buckets =
              some (insert key (record { capacity = limit; tokens = limit; last_refill = now }) m);
        })).0
          ≡ (reserve_found refill delay now other n o (record { buckets = some m })).0
    by_bucket none = refl
    by_bucket (some c) = elim (Bool-cases (leb_ℤ c.capacity (pos 0))) [
      | inl off ↦ rw off refl
      | inr on ↦ rw on refl
    ]
