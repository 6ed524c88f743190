-- ===== src/Service/Workers.antt =====
-- internal/service/workers.go: the tick of the worker loop. `none` is a panic of SetLimit.
pub mod Bounds
pub mod Indexes
use svc_downloader.Common.{
  ℕ, Bool, true, false, ◌||◌, Option, none, some, List, [], ◌∷◌, if◌then◌else◌,
}
use svc_downloader.Common.Bytes.{Bytes, codes}
use svc_downloader.Common.Int.{ℤ, pos, ◌-ℤ◌, ltb_ℤ, leb_ℤ}
use svc_downloader.Models.{
  Time, is_zero, Download, DownloadStatus, Queue, ListDownloadsOptions, status_running,
  status_queued, status_completed, status_failed,
}
use svc_downloader.Errors.{Result, ok, err, Context}
use svc_downloader.Store.{Badger}
use svc_downloader.RateLimit.{Limiter, set_limit}
use svc_downloader.Repository.Downloads.{update_download}
use svc_downloader.Repository.Listing.{list_downloads, count_downloads}
use svc_downloader.Repository.Queues.{list_queues, save_queue_stats}
use svc_downloader.Service.State.{World, Outcome}
use svc_downloader.Service.Downloads.{start, limited_to}

-- The options of the listings.
abbrev pub with_status : DownloadStatus → List Bytes → ListDownloadsOptions
with_status status queue_ids = record {
  statuses = status ∷ [];
  queue_ids = queue_ids;
  tags = [];
  search = [];
  created_after = none;
  created_before = none;
  order_by = [];
  order_desc = false;
}

abbrev pub to_schedule : Bytes → ListDownloadsOptions
to_schedule queue_id = record (with_status status_queued (queue_id ∷ [])) {
  order_by = codes "priority";
  order_desc = true;
}

-- A list or a count whose error is ignored.
abbrev pub or_empty : {A : Type 0} → Result (List A) → List A
or_empty (ok xs) = xs
or_empty (err e) = []

abbrev pub or_zero : Result ℤ → ℤ
or_zero (ok n) = n
or_zero (err e) = pos 0

abbrev pub is_stale : ℤ → Time → Download → Bool
is_stale stale_after now d = is_zero d.updated_at || ltb_ℤ stale_after (pos now -ℤ pos d.updated_at)

-- The limit that a queue sets.
abbrev pub queue_limit : {D : Type 0} → Time → Queue → Option Limiter → World D → Option (World D)
queue_limit now q none w = some w
queue_limit now q (some l) w =
    if ltb_ℤ (pos 0) q.rate_limit then limited_to w (set_limit now q.id q.rate_limit l) else some w

abbrev pub concurrency_of : Queue → ℤ
concurrency_of q = if leb_ℤ q.concurrency (pos 0) then pos 1 else q.concurrency

-- A panic ends the tick.
abbrev pub go_on : {D : Type 0} → Option (World D) → (World D → Option (World D)) → Option (World D)
go_on none f = none
go_on (some w) f = f w

module _ (b : Badger) where
  open b use {Db}

  -- The recovery of stale downloads.
  unfoldable pub requeue : Context → Time → ℤ → List Download → Db → Db
  requeue ctx now stale_after [] db = db
  requeue ctx now stale_after (d ∷ ds) db = requeue ctx now stale_after ds (
      if is_stale stale_after now d
      then (update_download b ctx now (record d { status = status_queued }) db).1
      else db)

  abbrev pub ignored : Option (Outcome Db (Unit {0})) → Option (World Db)
  ignored none = none
  ignored (some (r, w)) = some w

  unfoldable pub start_each : Context → Time → List Download → World Db → Option (World Db)
  start_each ctx now [] w = some w
  start_each ctx now (d ∷ ds) w = go_on (ignored (start b ctx now d.id w)) (start_each ctx now ds)

  abbrev pub count : Context → DownloadStatus → Bytes → Db → ℤ
  count ctx status queue_id db =
      or_zero (count_downloads b ctx (with_status status (queue_id ∷ [])) db).0

  abbrev pub saved_stats : Context → Bytes → Db → Db
  saved_stats ctx queue_id db =
      (save_queue_stats b ctx
        (record {
          queue_id = queue_id;
          num_pending = count ctx status_queued queue_id db;
          num_running = count ctx status_running queue_id db;
          num_completed = count ctx status_completed queue_id db;
          num_failed = count ctx status_failed queue_id db;
          bytes_per_sec = pos 0;
        })
        db).1

  -- The downloads that a queue starts, of those that are free to start.
  abbrev pub scheduled : Context → Bytes → ℤ → Db → List Download
  scheduled ctx queue_id to_start db =
      if leb_ℤ to_start (pos 0)
      then []
      else or_empty (list_downloads b ctx (to_schedule queue_id) to_start (pos 0) db).0

  -- The rest of the round of a queue.
  unfoldable pub schedule : Context → Time → Queue → World Db → Option (World Db)
  unfolding start_each
  schedule ctx now q w =
      let to_start = concurrency_of q -ℤ count ctx status_running q.id w.db in
      let db = saved_stats ctx q.id w.db in
      start_each ctx now (scheduled ctx q.id to_start db) (record w { db = db })

  unfoldable pub tick_queue : Context → Time → Queue → World Db → Option (World Db)
  unfolding schedule
  tick_queue ctx now q w =
      if q.paused then some w else go_on (queue_limit now q w.limiter w) (schedule ctx now q)

  unfoldable pub tick_queues : Context → Time → List Queue → World Db → Option (World Db)
  unfolding tick_queue
  tick_queues ctx now [] w = some w
  tick_queues ctx now (q ∷ qs) w = go_on (tick_queue ctx now q w) (tick_queues ctx now qs)

  abbrev pub tick_listed : ℤ → Context → Time → Result (List Queue) → World Db → Option (World Db)
  tick_listed stale_after ctx now (err e) w = some w
  tick_listed stale_after ctx now (ok qs) w =
      let running =
        or_empty (list_downloads b ctx (with_status status_running []) (pos 1000) (pos 0) w.db).0 in
      tick_queues ctx now qs (record w { db = requeue ctx now stale_after running w.db })

  unfoldable pub tick : ℤ → Context → Time → World Db → Option (World Db)
  unfolding tick_queues requeue
  tick stale_after ctx now w = tick_listed stale_after ctx now (list_queues b ctx w.db).0 w
