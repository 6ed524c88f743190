-- ===== src/Service/Workers/Indexes.antt =====
-- A tick of the worker loop and the indexes.
use svc_downloader.Common.{◌<◌, Option, none, some, List, [], ◌∷◌, inl, inr, Bool-cases}
use svc_downloader.Common.Int.{ℤ, pos, ◌-ℤ◌, ltb_ℤ}
use svc_downloader.Models.{Time, Download, Queue, status_running, status_queued}
use svc_downloader.Errors.{Result, ok, err, Context}
use svc_downloader.Store.{Badger}
use svc_downloader.RateLimit.{Limiter, set_limit}
use svc_downloader.Repository.Indexed.{IsIndexed}
use svc_downloader.Repository.Downloads.{update_download}
use svc_downloader.Repository.Invariant.{update_download-IsIndexed}
use svc_downloader.Repository.Listing.{list_downloads}
use svc_downloader.Repository.Queues.{list_queues}
use svc_downloader.Repository.Queues.Indexes.{save_queue_stats-IsIndexed}
use svc_downloader.Service.State.{World, Outcome}
use svc_downloader.Service.Downloads.{start, limited_to}
use svc_downloader.Service.Indexes.{OutcomeIsIndexed, start-IsIndexed}
use svc_downloader.Service.Workers.{
  requeue, is_stale, start_each, ignored, go_on, scheduled, schedule, count, saved_stats,
  concurrency_of, queue_limit, tick_queue, tick_queues, tick_listed, tick, with_status, or_empty,
}

module _ (b : Badger) where
  open b use {Db}

  requeue-IsIndexed :
      (ctx : Context) (now : Time) (stale_after : ℤ) (ds : List Download) (db : Db)
      → 0 < now
      → IsIndexed b db
      → IsIndexed b (requeue b ctx now stale_after ds db)
  unfolding requeue
  requeue-IsIndexed ctx now stale_after [] db p h = h
  requeue-IsIndexed ctx now stale_after (d ∷ ds) db p h =
      elim (Bool-cases (is_stale stale_after now d)) [
        | inr fresh ↦ rw fresh (requeue-IsIndexed ctx now stale_after ds db p h)
        | inl stale ↦
            let d' = record d { status = status_queued } in
            rw stale (
              requeue-IsIndexed ctx now stale_after ds (update_download b ctx now d' db).1 p
                (update_download-IsIndexed b ctx now d' db p h))
      ]

  -- A world, if there is one, has an indexed store.
  abbrev pub WorldIsIndexed : Option (World Db) → Type 0
  WorldIsIndexed none = Unit
  WorldIsIndexed (some w) = IsIndexed b w.db

  pub go_on-IsIndexed :
      (o : Option (World Db)) (f : World Db → Option (World Db))
      → WorldIsIndexed o
      → ((v : World Db) → IsIndexed b v.db → WorldIsIndexed (f v))
      → WorldIsIndexed (go_on o f)
  go_on-IsIndexed none f h step = tt
  go_on-IsIndexed (some v) f h step = step v h

  pub ignored-IsIndexed :
      (o : Option (Outcome Db (Unit {0}))) → OutcomeIsIndexed b o → WorldIsIndexed (ignored b o)
  ignored-IsIndexed none h = tt
  ignored-IsIndexed (some (r, w)) h = h

  start_each-IsIndexed :
      (ctx : Context) (now : Time) (ds : List Download) (w : World Db)
      → 0 < now
      → IsIndexed b w.db
      → WorldIsIndexed (start_each b ctx now ds w)
  unfolding start_each
  start_each-IsIndexed ctx now [] w p h = h
  start_each-IsIndexed ctx now (d ∷ ds) w p h =
      go_on-IsIndexed _ _
        (ignored-IsIndexed (start b ctx now d.id w) (start-IsIndexed b ctx now d.id w p h))
        (λ v hv. start_each-IsIndexed ctx now ds v p hv)

  schedule-IsIndexed :
      (ctx : Context) (now : Time) (q : Queue) (w : World Db)
      → 0 < now
      → IsIndexed b w.db
      → WorldIsIndexed (schedule b ctx now q w)
  unfolding schedule
  schedule-IsIndexed ctx now q w p h =
      let db = saved_stats b ctx q.id w.db in
      let h' : IsIndexed b db = save_queue_stats-IsIndexed b ctx _ w.db h in
      start_each-IsIndexed ctx now
        (scheduled b ctx q.id (concurrency_of q -ℤ count b ctx status_running q.id w.db) db)
        (record w { db = db }) p h'

  limited_to-IsIndexed :
      (w : World Db) (o : Option Limiter) → IsIndexed b w.db → WorldIsIndexed (limited_to w o)
  limited_to-IsIndexed w none h = tt
  limited_to-IsIndexed w (some l) h = h

  queue_limit-IsIndexed :
      (now : Time) (q : Queue) (l : Option Limiter) (w : World Db)
      → IsIndexed b w.db
      → WorldIsIndexed (queue_limit now q l w)
  queue_limit-IsIndexed now q none w h = h
  queue_limit-IsIndexed now q (some l) w h = elim (Bool-cases (ltb_ℤ (pos 0) q.rate_limit)) [
    | inl on ↦ rw on (limited_to-IsIndexed w (set_limit now q.id q.rate_limit l) h)
    | inr off ↦ rw off h
  ]

  tick_queue-IsIndexed :
      (ctx : Context) (now : Time) (q : Queue) (w : World Db)
      → 0 < now
      → IsIndexed b w.db
      → WorldIsIndexed (tick_queue b ctx now q w)
  unfolding tick_queue
  tick_queue-IsIndexed ctx now q w p h = elim (Bool-cases q.paused) [
    | inl e ↦ rw e h
    | inr e ↦ rw e (
        go_on-IsIndexed (queue_limit now q w.limiter w) (schedule b ctx now q)
          (queue_limit-IsIndexed now q w.limiter w h) (λ v hv. schedule-IsIndexed ctx now q v p hv))
  ]

  tick_queues-IsIndexed :
      (ctx : Context) (now : Time) (qs : List Queue) (w : World Db)
      → 0 < now
      → IsIndexed b w.db
      → WorldIsIndexed (tick_queues b ctx now qs w)
  unfolding tick_queues
  tick_queues-IsIndexed ctx now [] w p h = h
  tick_queues-IsIndexed ctx now (q ∷ qs) w p h =
      go_on-IsIndexed (tick_queue b ctx now q w) (tick_queues b ctx now qs)
        (tick_queue-IsIndexed ctx now q w p h) (λ v hv. tick_queues-IsIndexed ctx now qs v p hv)

  tick_listed-IsIndexed :
      (stale_after : ℤ) (ctx : Context) (now : Time) (r : Result (List Queue)) (w : World Db)
      → 0 < now
      → IsIndexed b w.db
      → WorldIsIndexed (tick_listed b stale_after ctx now r w)
  tick_listed-IsIndexed stale_after ctx now (err e) w p h = h
  tick_listed-IsIndexed stale_after ctx now (ok qs) w p h =
      let running =
        or_empty (list_downloads b ctx (with_status status_running []) (pos 1000) (pos 0) w.db).0 in
      tick_queues-IsIndexed ctx now qs
        (record w { db = requeue b ctx now stale_after running w.db }) p
        (requeue-IsIndexed ctx now stale_after running w.db p h)

  -- A tick of the worker loop at a time after 0 that does not panic keeps the indexes in agreement.
  pub tick-IsIndexed :
      (stale_after : ℤ) (ctx : Context) (now : Time) (w : World Db)
      → 0 < now
      → IsIndexed b w.db
      → WorldIsIndexed (tick b stale_after ctx now w)
  unfolding tick
  tick-IsIndexed stale_after ctx now w p h =
      tick_listed-IsIndexed stale_after ctx now (list_queues b ctx w.db).0 w p h
