-- ===== src/Service/Orphans.antt =====
-- A run that was started and is registered no more.
use svc_downloader.Common.{
  ℕ, ◌+◌, ◌<◌, ◌≡◌, ◌≢◌, ◌==◌, ◌||◌, sym, ◌∙◌, false, Bool, Option, none, some, List, [], ◌∷◌,
  arith, inl, inr, is_some, Bool-cases, Option-cases,
}
use svc_downloader.Common.Lists.{length, length-append}
use svc_downloader.Common.Bytes.{Bytes, same, same_iff}
use svc_downloader.Common.Maps.{lookup, lookup-insert, lookup-remove}
use svc_downloader.Common.Int.{ℤ, pos, ltb_ℤ}
use svc_downloader.Models.{
  Time, Download, Queue, EnqueueDownloadRequest, status_running, status_paused, status_cancelled,
}
use svc_downloader.Errors.{Error, Result, ok, err, Context}
use svc_downloader.Store.{Badger}
use svc_downloader.RateLimit.{Limiter, set_limit}
use svc_downloader.Repository.Downloads.{get_download, create_download}
use svc_downloader.Repository.Listing.{list_downloads}
use svc_downloader.Repository.Queues.{list_queues}
use svc_downloader.Service.State.{World, Outcome, Validator, after, on_success}
use svc_downloader.Service.Downloads.{
  stop_run, spawn, run_ended, limit_by, limited_to, limit_read, update_status, enqueue,
  enqueue_valid, enqueue_created, start, start_limited, set_started, pause, resume, cancel,
  remove_download, remove_read, change, valid, update_config, update_request, set_priority,
  add_download_tags, remove_download_tags, assign_queue, requested, lacks_url, new_download,
}
use svc_downloader.Service.Workers.{
  go_on, ignored, start_each, schedule, saved_stats, queue_limit, tick_queue, tick_queues,
  tick_listed, tick, with_status, or_empty, requeue,
}
use svc_downloader.Service.Calls.{
  Call, perform, perform_all, enqueue_call, start_call, pause_call, resume_call, cancel_call,
  remove_call, config_call, request_call, priority_call, add_tags_call, remove_tags_call,
  assign_call, create_queue_call, update_queue_call, pause_queue_call, resume_queue_call,
  delete_queue_call, tick_call, write_call, segment_call, segments_deleted_call, ended_call,
}
use svc_downloader.Service.Runs.{pause-resume}

unfoldable pub is_in : ℕ → List ℕ → Bool
is_in n [] = false
is_in n (m ∷ ms) = n == m || is_in n ms

module _ (run : ℕ) where
  -- The run was started, no download's cancel function is its own, and its context was not cancelled.
  abbrev pub IsOrphan : {D : Type 0} → World D → Type 0
  IsOrphan w =
      (run < length w.runs)
      × ((id : Bytes) → lookup id w.cancels ≢ some run)
      × (is_in run w.stopped ≡ false)

  abbrev pub StaysOrphan : {D : Type 0} → Option (World D) → Type 0
  StaysOrphan none = Unit
  StaysOrphan (some w) = IsOrphan w

  spawn-IsOrphan : {D : Type 0} → (id : Bytes) (w : World D) → IsOrphan w → IsOrphan (spawn id w)
  unfolding spawn
  spawn-IsOrphan id w (lt, free, going) = (
    omega (arith, length-append w.runs (id ∷ []), lt),
    λ j e. elim (Bool-cases (same id j)) [
      | inl mine ↦
          let next : some (length w.runs) ≡ some run =
            sym (rw mine at (lookup-insert id j (length w.runs) w.cancels)) ∙ e in
          absurd (ground (arith, next, lt))
      | inr other ↦ free j (ground (arith, lookup-insert id j (length w.runs) w.cancels, other, e))
    ],
    going,
  )

  run_ended-IsOrphan :
      {D : Type 0} → (id : Bytes) (w : World D) → IsOrphan w → IsOrphan (run_ended id w)
  unfolding run_ended
  run_ended-IsOrphan id w (lt, free, going) =
      (lt, λ j e. free j (ground (arith, lookup-remove id j w.cancels, e)), going)

  stop_run-IsOrphan :
      {D : Type 0} → (id : Bytes) (w : World D) → IsOrphan w → IsOrphan (stop_run id w)
  unfolding stop_run is_in
  stop_run-IsOrphan id w (lt, free, going) = elim (Option-cases (lookup id w.cancels)) [
    | inl none' ↦ rw none' (lt, free, going)
    | inr (r, e) ↦ rw e (
      lt,
      λ j f. free j (ground (arith, lookup-remove id j w.cancels, f)),
      ground (arith, e, free id, going),
    )
  ]

  after-IsOrphan :
      {D A : Type 0}
      → (r : Result A × D) (f : A → World D → World D) (w : World D)
      → ((a : A) (v : World D) → IsOrphan v → IsOrphan (f a v))
      → IsOrphan w
      → IsOrphan (after r f w).1
  after-IsOrphan (ok a, db) f w step h = step a (record w { db = db }) h
  after-IsOrphan (err e, db) f w step h = h

  on_success-IsOrphan :
      {D A : Type 0}
      → (r : Outcome D A) (id : Bytes) → IsOrphan r.1
      → IsOrphan (on_success r (spawn id)).1
  on_success-IsOrphan (ok a, w) id h = spawn-IsOrphan id w h
  on_success-IsOrphan (err e, w) id h = h

  go_on-StaysOrphan :
      {D : Type 0}
      → (o : Option (World D)) (f : World D → Option (World D)) → StaysOrphan o
      → ((v : World D) → IsOrphan v → StaysOrphan (f v))
      → StaysOrphan (go_on o f)
  go_on-StaysOrphan none f h step = tt
  go_on-StaysOrphan (some v) f h step = step v h

  limited_to-StaysOrphan :
      {D : Type 0} → (w : World D) (o : Option Limiter) → IsOrphan w → StaysOrphan (limited_to w o)
  limited_to-StaysOrphan w none h = tt
  limited_to-StaysOrphan w (some l) h = h

  limit_read-StaysOrphan :
      {D : Type 0}
      → (now : Time) (id : Bytes) (l : Option Limiter) (r : Result Download) (w : World D)
      → IsOrphan w
      → StaysOrphan (limit_read now id l r w)
  limit_read-StaysOrphan now id none r w h = h
  limit_read-StaysOrphan now id (some l) (err e) w h = h
  limit_read-StaysOrphan now id (some l) (ok d) w h =
      limited_to-StaysOrphan w (limit_by now id d.config l) h

  module _ (b : Badger) where
    open b use {Db}

    update_status-IsOrphan :
        (ctx : Context) (now : Time) (id status : Bytes) (f : Download → Download) (w : World Db)
        → IsOrphan w
        → IsOrphan (update_status b ctx now id status f w).1
    unfolding update_status
    update_status-IsOrphan ctx now id status f w h = after-IsOrphan _ _ w (λ a v hv. hv) h

    start_limited-StaysOrphan :
        (ctx : Context) (now : Time) (id : Bytes) (o : Option (World Db))
        → StaysOrphan o
        → StaysOrphan (ignored b (start_limited b ctx now id o))
    start_limited-StaysOrphan ctx now id none h = tt
    start_limited-StaysOrphan ctx now id (some w) h =
        let r = update_status b ctx now id status_running (set_started b now) w in
        on_success-IsOrphan r id
          (update_status-IsOrphan ctx now id status_running (set_started b now) w h)

    start-StaysOrphan :
        (ctx : Context) (now : Time) (id : Bytes) (w : World Db)
        → IsOrphan w
        → StaysOrphan (ignored b (start b ctx now id w))
    unfolding start
    start-StaysOrphan ctx now id w h = elim (Bool-cases (is_some (lookup id w.cancels))) [
      | inl running ↦ rw running h
      | inr idle ↦ rw idle (
          start_limited-StaysOrphan ctx now id _
            (limit_read-StaysOrphan now id w.limiter (get_download b ctx id w.db).0 w h))
    ]

    change-IsOrphan :
        (ctx : Context) (now : Time) (id : Bytes) (f : Download → Download) (w : World Db)
        → IsOrphan w
        → IsOrphan (change b ctx now id f w).1
    unfolding change
    change-IsOrphan ctx now id f w h = after-IsOrphan _ _ w (λ a v hv. hv) h

    valid-IsOrphan :
        (o : Option Error) (w : World Db) (r : Outcome Db (Unit {0}))
        → IsOrphan w
        → IsOrphan r.1
        → IsOrphan (valid b o w r).1
    valid-IsOrphan (some e) w r h h' = h
    valid-IsOrphan none w r h h' = h'

    remove_read-IsOrphan :
        (ctx : Context) (now : Time) (id : Bytes) (files : Bool) (r : Result Download)
        (w : World Db)
        → IsOrphan w
        → IsOrphan (remove_read b ctx now id files r w).1
    remove_read-IsOrphan ctx now id files (err e) w h = h
    remove_read-IsOrphan ctx now id files (ok d) w h = after-IsOrphan _ _ w (λ a v hv. hv) h

    created-IsOrphan :
        (now : Time) (d : Download) (r : Result Download × Db) (w : World Db)
        → IsOrphan w
        → IsOrphan (enqueue_created b now d r w).1
    created-IsOrphan now d (ok x, db) w h = h
    created-IsOrphan now d (err e, db) w h = h

    enqueue_valid-IsOrphan :
        (o : Option Error) (ctx : Context) (now : Time) (d : Download) (w : World Db)
        → IsOrphan w
        → IsOrphan (enqueue_valid b o ctx now d w).1
    enqueue_valid-IsOrphan (some e) ctx now d w h = h
    enqueue_valid-IsOrphan none ctx now d w h =
        created-IsOrphan now d (create_download b ctx now d w.db) w h

    enqueue-IsOrphan :
        (v : Validator) (ctx : Context) (now : Time) (id : Bytes) (q : EnqueueDownloadRequest)
        (w : World Db)
        → IsOrphan w
        → IsOrphan (enqueue b v ctx now id q w).1
    unfolding enqueue
    enqueue-IsOrphan v ctx now id q w h = elim (Bool-cases (lacks_url q.url q.request)) [
      | inl empty ↦ rw empty h
      | inr full ↦
          let r = requested q.url q.request in
          rw full
            (enqueue_valid-IsOrphan (v.validate_request r) ctx now (new_download id now r q) w h)
    ]

    ignored-start_each :
        (ctx : Context) (now : Time) (ds : List Download) (w : World Db)
        → IsOrphan w
        → StaysOrphan (start_each b ctx now ds w)
    unfolding start_each
    ignored-start_each ctx now [] w h = h
    ignored-start_each ctx now (d ∷ ds) w h =
        go_on-StaysOrphan _ _ (start-StaysOrphan ctx now d.id w h)
          (λ v hv. ignored-start_each ctx now ds v hv)

    queue_limit-StaysOrphan :
        (now : Time) (q : Queue) (l : Option Limiter) (w : World Db)
        → IsOrphan w
        → StaysOrphan (queue_limit now q l w)
    queue_limit-StaysOrphan now q none w h = h
    queue_limit-StaysOrphan now q (some l) w h = elim (Bool-cases (ltb_ℤ (pos 0) q.rate_limit)) [
      | inl on ↦ rw on (limited_to-StaysOrphan w (set_limit now q.id q.rate_limit l) h)
      | inr off ↦ rw off h
    ]

    tick_queue-StaysOrphan :
        (ctx : Context) (now : Time) (q : Queue) (w : World Db)
        → IsOrphan w
        → StaysOrphan (tick_queue b ctx now q w)
    unfolding tick_queue schedule
    tick_queue-StaysOrphan ctx now q w h = elim (Bool-cases q.paused) [
      | inl e ↦ rw e h
      | inr e ↦ rw e (
          go_on-StaysOrphan (queue_limit now q w.limiter w) (schedule b ctx now q)
            (queue_limit-StaysOrphan now q w.limiter w h)
            (λ v hv.
              ignored-start_each ctx now _ (record v { db = saved_stats b ctx q.id v.db }) hv))
    ]

    tick_queues-StaysOrphan :
        (ctx : Context) (now : Time) (qs : List Queue) (w : World Db)
        → IsOrphan w
        → StaysOrphan (tick_queues b ctx now qs w)
    unfolding tick_queues
    tick_queues-StaysOrphan ctx now [] w h = h
    tick_queues-StaysOrphan ctx now (q ∷ qs) w h =
        go_on-StaysOrphan (tick_queue b ctx now q w) (tick_queues b ctx now qs)
          (tick_queue-StaysOrphan ctx now q w h) (tick_queues-StaysOrphan ctx now qs)

    tick_listed-StaysOrphan :
        (stale_after : ℤ) (ctx : Context) (now : Time) (r : Result (List Queue)) (w : World Db)
        → IsOrphan w
        → StaysOrphan (tick_listed b stale_after ctx now r w)
    tick_listed-StaysOrphan stale_after ctx now (err e) w h = h
    tick_listed-StaysOrphan stale_after ctx now (ok qs) w h =
        let running =
          or_empty
            (list_downloads b ctx (with_status status_running []) (pos 1000) (pos 0) w.db).0 in
        tick_queues-StaysOrphan ctx now qs
          (record w { db = requeue b ctx now stale_after running w.db }) h

    perform-StaysOrphan :
        (ctx : Context) (now : Time) (c : Call) (w : World Db)
        → IsOrphan w
        → StaysOrphan (perform b ctx now c w)
    unfolding perform tick pause resume cancel remove_download update_config update_request
        set_priority add_download_tags remove_download_tags assign_queue
    perform-StaysOrphan ctx now (enqueue_call v id q) w h = enqueue-IsOrphan v ctx now id q w h
    perform-StaysOrphan ctx now (start_call id) w h = start-StaysOrphan ctx now id w h
    perform-StaysOrphan ctx now (pause_call id) w h =
        update_status-IsOrphan ctx now id status_paused (λ d. d) (stop_run id w)
          (stop_run-IsOrphan id w h)
    perform-StaysOrphan ctx now (resume_call id) w h =
        on_success-IsOrphan (update_status b ctx now id status_running (λ d. d) w) id
          (update_status-IsOrphan ctx now id status_running (λ d. d) w h)
    perform-StaysOrphan ctx now (cancel_call id) w h =
        update_status-IsOrphan ctx now id status_cancelled (λ d. d) (stop_run id w)
          (stop_run-IsOrphan id w h)
    perform-StaysOrphan ctx now (remove_call id files) w h =
        remove_read-IsOrphan ctx now id files (get_download b ctx id w.db).0 w h
    perform-StaysOrphan ctx now (config_call v id cfg) w h =
        valid-IsOrphan (v.validate_config cfg) w _ h (change-IsOrphan ctx now id _ w h)
    perform-StaysOrphan ctx now (request_call v id q) w h =
        valid-IsOrphan (v.validate_request q) w _ h (change-IsOrphan ctx now id _ w h)
    perform-StaysOrphan ctx now (priority_call id priority) w h = change-IsOrphan ctx now id _ w h
    perform-StaysOrphan ctx now (add_tags_call id tags) w h = change-IsOrphan ctx now id _ w h
    perform-StaysOrphan ctx now (remove_tags_call id tags) w h = change-IsOrphan ctx now id _ w h
    perform-StaysOrphan ctx now (assign_call id queue_id) w h = change-IsOrphan ctx now id _ w h
    perform-StaysOrphan ctx now (create_queue_call q) w h = h
    perform-StaysOrphan ctx now (update_queue_call q) w h = h
    perform-StaysOrphan ctx now (pause_queue_call id) w h = h
    perform-StaysOrphan ctx now (resume_queue_call id) w h = h
    perform-StaysOrphan ctx now (delete_queue_call id) w h = h
    perform-StaysOrphan ctx now (tick_call stale_after) w h =
        tick_listed-StaysOrphan stale_after ctx now (list_queues b ctx w.db).0 w h
    perform-StaysOrphan ctx now (write_call d) w h = h
    perform-StaysOrphan ctx now (segment_call s) w h = h
    perform-StaysOrphan ctx now (segments_deleted_call id) w h = h
    perform-StaysOrphan ctx now (ended_call id) w h = run_ended-IsOrphan id w h

    perform_all-StaysOrphan :
        (cs : List (Context × Time × Call)) (w : World Db)
        → IsOrphan w
        → StaysOrphan (perform_all b cs w)
    unfolding perform_all
    perform_all-StaysOrphan [] w h = h
    perform_all-StaysOrphan ((ctx, now, c) ∷ cs) w h =
        go_on-StaysOrphan (perform b ctx now c w) (perform_all b cs)
          (perform-StaysOrphan ctx now c w h) (perform_all-StaysOrphan cs)

    -- The run goes on, and it is registered for this download only.
    abbrev pub IsRegistered : Bytes → World Db → Type 0
    IsRegistered id w =
        (run < length w.runs)
        × ((j : Bytes) → lookup j w.cancels ≡ some run → j ≡ id)
        × (is_in run w.stopped ≡ false)

    after-IsRegistered :
        {A : Type 0}
        → (id : Bytes) (r : Result A × Db) (f : A → World Db → World Db) (w : World Db)
        → ((a : A) (v : World Db) → IsRegistered id v → IsRegistered id (f a v))
        → IsRegistered id w
        → IsRegistered id (after r f w).1
    after-IsRegistered id (ok a, db) f w step h = step a (record w { db = db }) h
    after-IsRegistered id (err e, db) f w step h = h

    -- A second run takes the place of the first.
    on_success-replaced :
        (id : Bytes) (r : Outcome Db (Unit {0}))
        → (on_success r (spawn id)).0 ≡ ok tt
        → IsRegistered id r.1
        → IsOrphan (on_success r (spawn id)).1
    unfolding spawn
    on_success-replaced id (err e, w) good h = cc (good)
    on_success-replaced id (ok u, w) good (lt, only, going) = (
      omega (arith, length-append w.runs (id ∷ []), lt),
      λ j e. elim (Bool-cases (same id j)) [
        | inl mine ↦
            let next : some (length w.runs) ≡ some run =
              sym (rw mine at (lookup-insert id j (length w.runs) w.cancels)) ∙ e in
            absurd (ground (arith, next, lt))
        | inr other ↦
            let mine : j ≡ id =
              only j (ground (arith, lookup-insert id j (length w.runs) w.cancels, other, e)) in
            absurd (ground (arith, other, same_iff id j, mine))
      ],
      going,
    )

    resume-IsOrphan :
        (ctx : Context) (now : Time) (id : Bytes) (w : World Db)
        → (resume b ctx now id w).0 ≡ ok tt
        → IsRegistered id w
        → IsOrphan (resume b ctx now id w).1
    unfolding resume update_status
    resume-IsOrphan ctx now id w good h =
        on_success-replaced id (update_status b ctx now id status_running (λ d. d) w) good
          (after-IsRegistered id _ _ w (λ a v hv. hv) h)

    -- Resuming a download whose run is registered for it alone, and was not stopped, starts a second run.
    -- The next Pause stops the second run, and then no run of the download is registered. Whatever
    -- calls of the services, the worker loop and the runner follow, but for the bulk methods on the
    -- downloads of a queue, the first run is never stopped.
    pub pause-resume-StaysOrphan :
        (ctx ctx' : Context) (now now' : Time) (id : Bytes) (w : World Db)
        (cs : List (Context × Time × Call))
        → lookup id w.cancels ≡ some run
        → IsRegistered id w
        → (resume b ctx now id w).0 ≡ ok tt
        → let w' = (pause b ctx' now' id (resume b ctx now id w).1).1 in
          (length w'.runs ≡ length w.runs + 1)
          × (w'.stopped ≡ length w.runs ∷ w.stopped)
          × (lookup id w'.cancels ≡ none)
          × StaysOrphan (perform_all b cs w')
    unfolding pause
    pause-resume-StaysOrphan ctx ctx' now now' id w cs registered h good =
        let w1 = (resume b ctx now id w).1 in
        let (more, stops, gone) = pause-resume b ctx ctx' now now' id run w registered good in
        let orphan : IsOrphan (pause b ctx' now' id w1).1 =
          update_status-IsOrphan ctx' now' id status_paused (λ d. d) (stop_run id w1)
            (stop_run-IsOrphan id w1 (resume-IsOrphan ctx now id w good h)) in
        (more, stops, gone, perform_all-StaysOrphan cs (pause b ctx' now' id w1).1 orphan)
