-- ===== src/Service/Workers/Bounds.antt =====
-- How many downloads of a queue one round of the worker loop starts.
use svc_downloader.Common.{
  ℕ, ◌+◌, ◌≤◌, false, ◌≡◌, refl, ap, Option, none, some, List, [], ◌∷◌, is_some, arith, inl, inr,
  Bool-cases, zero, suc,
}
use svc_downloader.Common.Lists.{length, length-append, take}
use svc_downloader.Common.Bytes.{Bytes}
use svc_downloader.Common.Int.{ℤ, pos, negsuc, pos_part, ◌-ℤ◌, leb_ℤ}
use svc_downloader.Common.Maps.{lookup}
use svc_downloader.Models.{Time, Download, Queue, status_running}
use svc_downloader.Errors.{Result, ok, err, Context, live, cancelled}
use svc_downloader.Store.{Badger}
use svc_downloader.RateLimit.{Limiter}
use svc_downloader.Repository.Indexed.{IsIndexed}
use svc_downloader.Repository.Downloads.{get_download}
use svc_downloader.Repository.Listing.{list_downloads}
use svc_downloader.Repository.Listing.Pages.{limited, hits}
use svc_downloader.Repository.Listing.Exact.{list_downloads-page, scan}
use svc_downloader.Repository.Listing.Count.{length-order}
use svc_downloader.Repository.Queues.Indexes.{save_queue_stats-IsIndexed}
use svc_downloader.Service.State.{World, Outcome, after, on_success}
use svc_downloader.Service.Downloads.{
  start, start_limited, limit_read, limited_to, limit_by, spawn, update_status, set_started,
}
use svc_downloader.Service.Workers.{
  start_each, ignored, scheduled, schedule, count, saved_stats, concurrency_of, to_schedule,
  or_empty, go_on,
}

length-take : {A : Type 0} (n : ℕ) (xs : List A) → length (take n xs) ≤ n
length-take zero xs = ground arith
length-take (suc n) [] = ground arith
length-take (suc n) (x ∷ xs) = ground (arith, length-take n xs)

-- A positive limit bounds a page.
length-limited :
    (limit : ℤ) (ds : List Download)
    → leb_ℤ limit (pos 0) ≡ false
    → length (limited limit ds) ≤ pos_part limit
length-limited (pos zero) ds h = absurd (ground arith)
length-limited (pos (suc n)) ds h = length-take (suc n) ds
length-limited (negsuc n) ds h = absurd (ground arith)

module _ (b : Badger) where
  open b use {Db}

  -- A world, if there is one, has at most so many runs.
  abbrev pub AtMost : ℕ → Option (World Db) → Type 0
  AtMost n none = Unit
  AtMost n (some w) = length w.runs ≤ n

  after-AtMost :
      {A : Type 0} (r : Result A × Db) (f : A → World Db → World Db) (w : World Db)
      → ((a : A) (v : World Db) → (f a v).runs ≡ v.runs)
      → (after r f w).1.runs ≡ w.runs
  after-AtMost (ok a, db) f w h = h a (record w { db = db })
  after-AtMost (err e, db) f w h = refl

  on_success-spawn :
      (r : Outcome Db (Unit {0})) (id : Bytes)
      → length (on_success r (spawn id)).1.runs ≤ length r.1.runs + 1
  unfolding spawn
  on_success-spawn (ok a, w) id = omega (arith, length-append w.runs (id ∷ []))
  on_success-spawn (err e, w) id = omega arith

  runs-update_status :
      (ctx : Context) (now : Time) (id status : Bytes) (f : Download → Download) (w : World Db)
      → (update_status b ctx now id status f w).1.runs ≡ w.runs
  unfolding update_status
  runs-update_status ctx now id status f w = after-AtMost _ _ w (λ a v. refl)

  start_limited-AtMost :
      (ctx : Context) (now : Time) (id : Bytes) (n : ℕ) (o : Option (World Db))
      → AtMost n o
      → AtMost (n + 1) (ignored b (start_limited b ctx now id o))
  start_limited-AtMost ctx now id n none h = tt
  start_limited-AtMost ctx now id n (some w) h =
      let r = update_status b ctx now id status_running (set_started b now) w in
      omega (
        arith,
        on_success-spawn r id,
        h,
        ap length (runs-update_status ctx now id status_running (set_started b now) w),
      )

  limited_to-AtMost : (w : World Db) (o : Option Limiter) → AtMost (length w.runs) (limited_to w o)
  limited_to-AtMost w none = tt
  limited_to-AtMost w (some l) = omega arith

  limit_read-AtMost :
      (now : Time) (id : Bytes) (l : Option Limiter) (r : Result Download) (w : World Db)
      → AtMost (length w.runs) (limit_read now id l r w)
  limit_read-AtMost now id none r w = omega arith
  limit_read-AtMost now id (some l) (err e) w = omega arith
  limit_read-AtMost now id (some l) (ok d) w = limited_to-AtMost w (limit_by now id d.config l)

  start-AtMost :
      (ctx : Context) (now : Time) (id : Bytes) (w : World Db)
      → AtMost (length w.runs + 1) (ignored b (start b ctx now id w))
  unfolding start
  start-AtMost ctx now id w = elim (Bool-cases (is_some (lookup id w.cancels))) [
    | inl running ↦ rw running (omega arith)
    | inr idle ↦ rw idle (
        start_limited-AtMost ctx now id (length w.runs) _
          (limit_read-AtMost now id w.limiter (get_download b ctx id w.db).0 w))
  ]

  AtMost-more : (m n : ℕ) (o : Option (World Db)) → m ≤ n → AtMost m o → AtMost n o
  AtMost-more m n none p h = tt
  AtMost-more m n (some w) p h = omega (arith, p, h)

  go_on-AtMost :
      (m n : ℕ) (o : Option (World Db)) (f : World Db → Option (World Db))
      → AtMost m o
      → ((v : World Db) → length v.runs ≤ m → AtMost n (f v))
      → AtMost n (go_on o f)
  go_on-AtMost m n none f h step = tt
  go_on-AtMost m n (some v) f h step = step v h

  start_each-AtMost :
      (ctx : Context) (now : Time) (ds : List Download) (w : World Db)
      → AtMost (length w.runs + length ds) (start_each b ctx now ds w)
  unfolding start_each
  start_each-AtMost ctx now [] w = omega arith
  start_each-AtMost ctx now (d ∷ ds) w =
      go_on-AtMost (length w.runs + 1) _ _ _ (start-AtMost ctx now d.id w) (λ v one.
        AtMost-more (length v.runs + length ds) (length w.runs + length (d ∷ ds))
          (start_each b ctx now ds v) (ground (arith, one)) (start_each-AtMost ctx now ds v))

  length-scheduled :
      (ctx : Context) (queue_id : Bytes) (room : ℤ) (db : Db)
      → IsIndexed b db
      → length (scheduled b ctx queue_id room db) ≤ pos_part room
  length-scheduled ctx queue_id room db h = elim (Bool-cases (leb_ℤ room (pos 0))) [
    | inl none_free ↦ rw none_free (omega arith)
    | inr free ↦ rw free (listed ctx free)
  ]
    where
      listed :
          (c : Context)
          → leb_ℤ room (pos 0) ≡ false
          → length (or_empty (list_downloads b c (to_schedule queue_id) room (pos 0) db).0)
            ≤ pos_part room
      listed cancelled free = unfold list_downloads in omega arith
      listed live free =
          let found = hits b (to_schedule queue_id) db (scan b (to_schedule queue_id) db h) in
          rw (list_downloads-page b (to_schedule queue_id) db h room (pos 0)) (
            rw (length-order (to_schedule queue_id) (limited room found))
              (length-limited room found free))

  -- Over an indexed store the round of a queue starts at most as many runs as its concurrency, taken
  -- as 1 if it is not positive, exceeds the count of its running downloads.
  pub schedule-AtMost :
      (ctx : Context) (now : Time) (q : Queue) (w : World Db)
      → IsIndexed b w.db
      → AtMost
          (length w.runs + pos_part (concurrency_of q -ℤ count b ctx status_running q.id w.db))
          (schedule b ctx now q w)
  unfolding schedule
  schedule-AtMost ctx now q w h =
      let room = concurrency_of q -ℤ count b ctx status_running q.id w.db in
      let db = saved_stats b ctx q.id w.db in
      let h' : IsIndexed b db = save_queue_stats-IsIndexed b ctx _ w.db h in
      let ds = scheduled b ctx q.id room db in
      AtMost-more (length w.runs + length ds) (length w.runs + pos_part room) _
        (omega (arith, length-scheduled ctx q.id room db h'))
        (start_each-AtMost ctx now ds (record w { db = db }))
