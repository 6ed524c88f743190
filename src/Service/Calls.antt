-- ===== src/Service/Calls.antt =====
-- The service as a whole: sequences of calls of the services, ticks of the worker loop, ends of runs and
-- progress reports, one after the other. The four bulk methods on the downloads of a queue are left out.
use svc_downloader.Common.{
  ◌<◌, ◌≡◌, sym, subst, Option-cases, true, false, Bool, Option, none, some, List, [], ◌∷◌,
  if◌then◌else◌, inl, inr, Bool-cases,
}
use svc_downloader.Common.Bytes.{Bytes, same, LacksBar}
use svc_downloader.Common.Int.{ℤ}
use svc_downloader.Models.{
  Time, Download, DownloadConfig, RequestOptions, EnqueueDownloadRequest, Queue, Segment,
}
use svc_downloader.Errors.{Result, ok, err, Context, queue_id_required}
use svc_downloader.Store.{Badger, update}
use svc_downloader.Repository.Keys.{k_download}
use svc_downloader.Repository.Indexed.{IsIndexed}
use svc_downloader.Repository.Downloads.{update_download}
use svc_downloader.Repository.Invariant.{update_download-IsIndexed}
use svc_downloader.Repository.Queues.{save_queue, delete_queue, get_queue_txn}
use svc_downloader.Repository.Queues.Laws.{get_queue_txn_db}
use svc_downloader.Repository.Queues.Indexes.{save_queue-IsIndexed, delete_queue-IsIndexed}
use svc_downloader.Repository.Segments.{upsert_segment, delete_segments}
use svc_downloader.Repository.Segments.Indexes.{upsert_segment-IsIndexed, delete_segments-IsIndexed}
use svc_downloader.Service.State.{World, Validator}
use svc_downloader.Service.Downloads.{
  enqueue, start, pause, resume, cancel, remove_download, update_config, update_request,
  set_priority, add_download_tags, remove_download_tags, assign_queue, run_ended,
}
use svc_downloader.Service.Indexes.{
  start-IsIndexed, pause-IsIndexed, resume-IsIndexed, cancel-IsIndexed, remove_download-IsIndexed,
}
use svc_downloader.Service.Updated.{
  enqueue-IsIndexed, update_config-IsIndexed, update_request-IsIndexed, set_priority-IsIndexed,
  add_download_tags-IsIndexed, remove_download_tags-IsIndexed, assign_queue-IsIndexed,
}
use svc_downloader.Service.Queues.{create_queue, update_queue, pause_queue, resume_queue, save_read}
use svc_downloader.Service.Workers.{tick, go_on, ignored}
use svc_downloader.Service.Workers.Indexes.{tick-IsIndexed, WorldIsIndexed, ignored-IsIndexed}

-- The calls that change the store, but for the bulk methods on the downloads of a queue. The runner
-- writes downloads and segments back.
pub data Call : Type 0 where
  enqueue_call : Validator → Bytes → EnqueueDownloadRequest → Call
  start_call pause_call resume_call cancel_call : Bytes → Call
  remove_call : Bytes → Bool → Call
  config_call : Validator → Bytes → DownloadConfig → Call
  request_call : Validator → Bytes → RequestOptions → Call
  priority_call : Bytes → ℤ → Call
  add_tags_call remove_tags_call : Bytes → List Bytes → Call
  assign_call : Bytes → Bytes → Call
  create_queue_call update_queue_call : Queue → Call
  pause_queue_call resume_queue_call delete_queue_call : Bytes → Call
  tick_call : ℤ → Call
  write_call : Download → Call
  segment_call : Segment → Call
  segments_deleted_call ended_call : Bytes → Call

module _ (b : Badger) where
  open b use {Db, get}

  abbrev on_db : Result (Unit {0}) × Db → World Db → Option (World Db)
  on_db (r, db) w = some (record w { db = db })

  unfoldable pub perform : Context → Time → Call → World Db → Option (World Db)
  perform ctx now (enqueue_call v id req) w = some (enqueue b v ctx now id req w).1
  perform ctx now (start_call id) w = ignored b (start b ctx now id w)
  perform ctx now (pause_call id) w = some (pause b ctx now id w).1
  perform ctx now (resume_call id) w = some (resume b ctx now id w).1
  perform ctx now (cancel_call id) w = some (cancel b ctx now id w).1
  perform ctx now (remove_call id files) w = some (remove_download b ctx now id files w).1
  perform ctx now (config_call v id cfg) w = some (update_config b v ctx now id cfg w).1
  perform ctx now (request_call v id req) w = some (update_request b v ctx now id req w).1
  perform ctx now (priority_call id priority) w = some (set_priority b ctx now id priority w).1
  perform ctx now (add_tags_call id tags) w = some (add_download_tags b ctx now id tags w).1
  perform ctx now (remove_tags_call id tags) w = some (remove_download_tags b ctx now id tags w).1
  perform ctx now (assign_call id queue_id) w = some (assign_queue b ctx now id queue_id w).1
  perform ctx now (create_queue_call q) w = on_db (create_queue b ctx now q w.db) w
  perform ctx now (update_queue_call q) w = on_db (update_queue b ctx now q w.db) w
  perform ctx now (pause_queue_call id) w = on_db (pause_queue b ctx now id w.db) w
  perform ctx now (resume_queue_call id) w = on_db (resume_queue b ctx now id w.db) w
  perform ctx now (delete_queue_call id) w = on_db (delete_queue b ctx id w.db) w
  perform ctx now (tick_call stale_after) w = tick b stale_after ctx now w
  perform ctx now (write_call d) w = some (record w { db = (update_download b ctx now d w.db).1 })
  perform ctx now (segment_call s) w = on_db (upsert_segment b ctx s w.db) w
  perform ctx now (segments_deleted_call id) w = on_db (delete_segments b ctx id w.db) w
  perform ctx now (ended_call id) w = some (run_ended id w)

  -- The identifier of uuid.NewString has no bar and is new.
  unfoldable pub CanHappen : Call → World Db → Type 0
  CanHappen (enqueue_call v id req) w = LacksBar id × (get w.db (k_download id) ≡ none)
  CanHappen _ w = Unit

  queue_read-IsIndexed :
      (ctx : Context) (now : Time) (on : Bool) (r : Result Queue × Db)
      → IsIndexed b r.1
      → IsIndexed b (save_read b ctx now on r).1
  queue_read-IsIndexed ctx now on (err e, db) h = h
  queue_read-IsIndexed ctx now on (ok q, db) h =
      save_queue-IsIndexed b ctx now (record q { paused = on; updated_at = now }) db h

  saved_named-IsIndexed :
      (ctx : Context) (now : Time) (q q' : Queue) (db : Db)
      → IsIndexed b db
      → IsIndexed b
          (if same q.id [] then (err queue_id_required, db) else save_queue b ctx now q' db).1
  saved_named-IsIndexed ctx now q q' db h = elim (Bool-cases (same q.id [])) [
    | inl empty ↦ rw empty h
    | inr named ↦ rw named (save_queue-IsIndexed b ctx now q' db h)
  ]

  perform-IsIndexed :
      (ctx : Context) (now : Time) (c : Call) (w : World Db)
      → 0 < now
      → CanHappen c w
      → IsIndexed b w.db
      → WorldIsIndexed b (perform ctx now c w)
  unfolding perform CanHappen create_queue update_queue pause_queue resume_queue run_ended
  perform-IsIndexed ctx now (enqueue_call v id req) w p (plain, fresh) h =
      enqueue-IsIndexed b v ctx now id req w p plain fresh h
  perform-IsIndexed ctx now (start_call id) w p c h =
      ignored-IsIndexed b (start b ctx now id w) (start-IsIndexed b ctx now id w p h)
  perform-IsIndexed ctx now (pause_call id) w p c h = pause-IsIndexed b ctx now id w p h
  perform-IsIndexed ctx now (resume_call id) w p c h = resume-IsIndexed b ctx now id w p h
  perform-IsIndexed ctx now (cancel_call id) w p c h = cancel-IsIndexed b ctx now id w p h
  perform-IsIndexed ctx now (remove_call id files) w p c h =
      remove_download-IsIndexed b ctx now id files w h
  perform-IsIndexed ctx now (config_call v id cfg) w p c h =
      update_config-IsIndexed b v ctx now id cfg w p h
  perform-IsIndexed ctx now (request_call v id req) w p c h =
      update_request-IsIndexed b v ctx now id req w p h
  perform-IsIndexed ctx now (priority_call id priority) w p c h =
      set_priority-IsIndexed b ctx now id priority w p h
  perform-IsIndexed ctx now (add_tags_call id tags) w p c h =
      add_download_tags-IsIndexed b ctx now id tags w p h
  perform-IsIndexed ctx now (remove_tags_call id tags) w p c h =
      remove_download_tags-IsIndexed b ctx now id tags w p h
  perform-IsIndexed ctx now (assign_call id queue_id) w p c h =
      assign_queue-IsIndexed b ctx now id queue_id w p h
  perform-IsIndexed ctx now (create_queue_call q) w p c h =
      saved_named-IsIndexed ctx now q (record q { created_at = now; updated_at = now }) w.db h
  perform-IsIndexed ctx now (update_queue_call q) w p c h =
      saved_named-IsIndexed ctx now q (record q { updated_at = now }) w.db h
  perform-IsIndexed ctx now (pause_queue_call id) w p c h =
      queue_read-IsIndexed ctx now true (update ctx (get_queue_txn b ctx id) w.db)
        (subst (IsIndexed b) (sym (get_queue_txn_db b ctx id w.db)) h)
  perform-IsIndexed ctx now (resume_queue_call id) w p c h =
      queue_read-IsIndexed ctx now false (update ctx (get_queue_txn b ctx id) w.db)
        (subst (IsIndexed b) (sym (get_queue_txn_db b ctx id w.db)) h)
  perform-IsIndexed ctx now (delete_queue_call id) w p c h = delete_queue-IsIndexed b ctx id w.db h
  perform-IsIndexed ctx now (tick_call stale_after) w p c h =
      tick-IsIndexed b stale_after ctx now w p h
  perform-IsIndexed ctx now (write_call d) w p c h = update_download-IsIndexed b ctx now d w.db p h
  perform-IsIndexed ctx now (segment_call s) w p c h = upsert_segment-IsIndexed b ctx s w.db h
  perform-IsIndexed ctx now (segments_deleted_call id) w p c h =
      delete_segments-IsIndexed b ctx id w.db h
  perform-IsIndexed ctx now (ended_call id) w p c h = h

  -- The calls in their order, each with its context and its time; a panic ends the sequence.
  unfoldable pub perform_all : List (Context × Time × Call) → World Db → Option (World Db)
  unfolding perform
  perform_all [] w = some w
  perform_all ((ctx, now, c) ∷ cs) w = go_on (perform ctx now c w) (perform_all cs)

  -- Every call of the sequence can happen when its turn comes, at a time after 0.
  unfoldable pub AllHappen : List (Context × Time × Call) → World Db → Type 0
  unfolding CanHappen perform
  AllHappen [] w = Unit
  AllHappen ((ctx, now, c) ∷ cs) w =
      (0 < now) × CanHappen c w × ((v : World Db) → perform ctx now c w ≡ some v → AllHappen cs v)

  -- From an indexed store, every sequence of calls of the services, the worker loop and the runner at
  -- times after 0, other than the four bulk methods on the downloads of a queue, keeps the indexes in
  -- agreement, whatever contexts are cancelled, if the identifiers of new downloads are fresh and have
  -- no bar.
  pub perform_all-IsIndexed :
      (cs : List (Context × Time × Call)) (w : World Db)
      → AllHappen cs w
      → IsIndexed b w.db
      → WorldIsIndexed b (perform_all cs w)
  unfolding perform_all AllHappen
  perform_all-IsIndexed [] w a h = h
  perform_all-IsIndexed ((ctx, now, c) ∷ cs) w (p, can, rest) h =
      elim (Option-cases (perform ctx now c w)) [
        | inl panic ↦ rw panic tt
        | inr (v, e) ↦
            let h' : IsIndexed b v.db = rw e at (perform-IsIndexed ctx now c w p can h) in
            rw e (perform_all-IsIndexed cs v (rest v e) h')
      ]
