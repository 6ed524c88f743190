-- ===== src/Service/Downloads.antt =====
-- internal/service/download.go: the operations on downloads. A method reads the clock once, `now`.
-- The goroutine that Start and Resume spawn is a run: it ends by the step `run_ended`.
use svc_downloader.Common.{
  ℕ, Bool, true, false, ◌&&◌, Option, none, some, List, [], ◌∷◌, ◌++◌, if◌then◌else◌, is_some,
}
use svc_downloader.Common.Lists.{length}
use svc_downloader.Common.Bytes.{Bytes, same}
use svc_downloader.Common.Int.{ℤ, pos, ltb_ℤ}
use svc_downloader.Common.Maps.{lookup, insert, remove}
use svc_downloader.Models.{
  Time, Download, DownloadConfig, RequestOptions, DownloadStatus, EnqueueDownloadRequest,
  EnqueueDownloadResponse, default_queue_name, status_queued, status_running, status_paused,
  status_cancelled, enqueued, cancelled, no_data, deleted,
}
use svc_downloader.Errors.{Error, Result, ok, err, Context, url_required}
use svc_downloader.Store.{Badger, Repo, ◌>>=◌, update}
use svc_downloader.RateLimit.{Limiter, set_limit}
use svc_downloader.Repository.Downloads.{
  create_download, get_download, get_download_txn, update_download_txn, delete_download,
}
use svc_downloader.Service.State.{
  World, Validator, Outcome, after, on_success, map_status_to_event, publish,
}
use svc_downloader.Service.Tags.{add_tags, remove_tags}

-- The first test of Enqueue.
abbrev pub lacks_url : Bytes → Option RequestOptions → Bool
lacks_url url none = same url []
lacks_url url (some r) = same url [] && same r.url []

-- The request, or one with the URL only.
abbrev pub requested : Bytes → Option RequestOptions → RequestOptions
requested url none = record { url = url; user_agent = []; mirror_urls = []; extra = none }
requested url (some r) = r

abbrev pub new_download : Bytes → Time → RequestOptions → EnqueueDownloadRequest → Download
new_download id now r req = record {
  id = id;
  url = r.url;
  queue_id = if same req.queue_id [] then default_queue_name else req.queue_id;
  priority = req.priority;
  tags = req.tags;
  request = some r;
  config = req.config;
  file = req.file;
  status = status_queued;
  error = [];
  retries_attempted = pos 0;
  bytes_total = pos 0;
  bytes_completed = pos 0;
  progress = 0;
  avg_speed = pos 0;
  current_speed = pos 0;
  segments = [];
  response = none;
  created_at = now;
  updated_at = now;
  requested_at = none;
  started_at = none;
  completed_at = none;
}

-- c(); delete(s.cancels, id)
abbrev pub stop_found : {D : Type 0} → Bytes → Option ℕ → World D → World D
stop_found id none w = w
stop_found id (some run) w = record w { cancels = remove id w.cancels; stopped = run ∷ w.stopped }

unfoldable pub stop_run : {D : Type 0} → Bytes → World D → World D
stop_run id w = stop_found id (lookup id w.cancels) w

-- The registration of a cancel function, and the goroutine.
unfoldable pub spawn : {D : Type 0} → Bytes → World D → World D
spawn id w = record w { cancels = insert id (length w.runs) w.cancels; runs = w.runs ++ id ∷ [] }

-- The end of the goroutine: delete(s.cancels, id).
unfoldable pub run_ended : {D : Type 0} → Bytes → World D → World D
run_ended id w = record w { cancels = remove id w.cancels }

-- The limit that Start sets for a download that has one; `none` is the panic of SetLimit.
abbrev pub limit_by : Time → Bytes → Option DownloadConfig → Limiter → Option Limiter
limit_by now id none l = some l
limit_by now id (some c) l =
    if ltb_ℤ (pos 0) c.rate_limit then set_limit now id c.rate_limit l else some l

abbrev pub limited_to : {D : Type 0} → World D → Option Limiter → Option (World D)
limited_to w none = none
limited_to w (some l) = some (record w { limiter = some l })

abbrev pub limit_read :
    {D : Type 0} → Time → Bytes → Option Limiter → Result Download → World D → Option (World D)
limit_read now id none r w = some w
limit_read now id (some l) (err e) w = some w
limit_read now id (some l) (ok d) w = limited_to w (limit_by now id d.config l)

module _ (b : Badger) where
  open b use {Db}

  -- The transaction that reads a download, changes it and writes it back.
  unfoldable pub modify : Context → Time → Bytes → (Download → Download) → Repo Db Download
  modify ctx now id f =
      update ctx (do d ← get_download_txn b ctx id; update_download_txn b ctx now (f d))

  unfoldable pub update_status :
      Context
      → Time
      → Bytes
      → DownloadStatus
      → (Download → Download)
      → World Db
      → Outcome Db (Unit {0})
  unfolding modify
  update_status ctx now id status mutate w =
      after
        (modify ctx now id
          (λ d. record (mutate (record d { status = status })) { updated_at = now }) w.db)
        (λ d. publish now (map_status_to_event status) d no_data) w

  -- Enqueue, with the identifier that uuid.NewString gives.
  abbrev pub enqueue_created :
      Time → Download → Result Download × Db → World Db → Outcome Db EnqueueDownloadResponse
  enqueue_created now d (ok created, db) w = (
    ok (record { id = d.id; queue_id = d.queue_id; status = d.status }),
    publish now enqueued created no_data (record w { db = db }),
  )
  enqueue_created now d (err e, db) w = (err e, record w { db = db })

  abbrev pub enqueue_valid :
      Option Error → Context → Time → Download → World Db → Outcome Db EnqueueDownloadResponse
  enqueue_valid (some e) ctx now d w = (err e, w)
  enqueue_valid none ctx now d w = enqueue_created now d (create_download b ctx now d w.db) w

  unfoldable pub enqueue :
      Validator
      → Context
      → Time
      → Bytes
      → EnqueueDownloadRequest
      → World Db
      → Outcome Db EnqueueDownloadResponse
  enqueue v ctx now id req w =
      let r = requested req.url req.request in
      if lacks_url req.url req.request
      then (err url_required, w)
      else enqueue_valid (v.validate_request r) ctx now (new_download id now r req) w

  abbrev pub set_started : Time → Download → Download
  set_started now d = record d { started_at = some now }

  abbrev pub start_limited :
      Context → Time → Bytes → Option (World Db) → Option (Outcome Db (Unit {0}))
  start_limited ctx now id none = none
  start_limited ctx now id (some w) =
      some (on_success (update_status ctx now id status_running (set_started now) w) (spawn id))

  -- Start; `none` is the panic of SetLimit.
  unfoldable pub start : Context → Time → Bytes → World Db → Option (Outcome Db (Unit {0}))
  unfolding update_status spawn
  start ctx now id w =
      if is_some (lookup id w.cancels)
      then some (ok tt, w)
      else start_limited ctx now id (limit_read now id w.limiter (get_download b ctx id w.db).0 w)

  unfoldable pub pause : Context → Time → Bytes → World Db → Outcome Db (Unit {0})
  unfolding update_status stop_run
  pause ctx now id w = update_status ctx now id status_paused (λ d. d) (stop_run id w)

  unfoldable pub resume : Context → Time → Bytes → World Db → Outcome Db (Unit {0})
  unfolding update_status spawn
  resume ctx now id w = on_success (update_status ctx now id status_running (λ d. d) w) (spawn id)

  unfoldable pub cancel : Context → Time → Bytes → World Db → Outcome Db (Unit {0})
  unfolding update_status stop_run
  cancel ctx now id w = update_status ctx now id status_cancelled (λ d. d) (stop_run id w)

  abbrev pub remove_files : Bool → Download → Option (List Download) → Option (List Download)
  remove_files true d (some ds) = some (ds ++ d ∷ [])
  remove_files true d none = none
  remove_files false d files = files

  abbrev pub remove_read :
      Context → Time → Bytes → Bool → Result Download → World Db → Outcome Db (Unit {0})
  remove_read ctx now id delete_files (err e) w = (err e, w)
  remove_read ctx now id delete_files (ok d) w =
      after (delete_download b ctx now id w.db)
        (λ _ w'.
          publish now cancelled d (deleted true)
            (record w' { removed_files = remove_files delete_files d w'.removed_files }))
        w

  -- Remove
  unfoldable pub remove_download : Context → Time → Bytes → Bool → World Db → Outcome Db (Unit {0})
  remove_download ctx now id delete_files w =
      remove_read ctx now id delete_files (get_download b ctx id w.db).0 w

  -- A change of a download without an event.
  unfoldable pub change :
      Context → Time → Bytes → (Download → Download) → World Db → Outcome Db (Unit {0})
  unfolding modify
  change ctx now id f w = after (modify ctx now id f w.db) (λ d w'. w') w

  abbrev pub valid : Option Error → World Db → Outcome Db (Unit {0}) → Outcome Db (Unit {0})
  valid (some e) w r = (err e, w)
  valid none w r = r

  unfoldable pub update_config :
      Validator → Context → Time → Bytes → DownloadConfig → World Db → Outcome Db (Unit {0})
  unfolding change
  update_config v ctx now id cfg w =
      valid (v.validate_config cfg) w (change ctx now id (λ d. record d { config = some cfg }) w)

  unfoldable pub update_request :
      Validator → Context → Time → Bytes → RequestOptions → World Db → Outcome Db (Unit {0})
  unfolding change
  update_request v ctx now id req w =
      valid (v.validate_request req) w (change ctx now id (λ d. record d { request = some req }) w)

  unfoldable pub set_priority : Context → Time → Bytes → ℤ → World Db → Outcome Db (Unit {0})
  unfolding change
  set_priority ctx now id priority w = change ctx now id (λ d. record d { priority = priority }) w

  unfoldable pub add_download_tags :
      Context → Time → Bytes → List Bytes → World Db → Outcome Db (Unit {0})
  unfolding change
  add_download_tags ctx now id tags w =
      change ctx now id (λ d. record d { tags = add_tags d.tags tags }) w

  unfoldable pub remove_download_tags :
      Context → Time → Bytes → List Bytes → World Db → Outcome Db (Unit {0})
  unfolding change
  remove_download_tags ctx now id tags w =
      change ctx now id (λ d. record d { tags = remove_tags d.tags tags }) w

  unfoldable pub assign_queue : Context → Time → Bytes → Bytes → World Db → Outcome Db (Unit {0})
  unfolding change
  assign_queue ctx now id queue_id w = change ctx now id (λ d. record d { queue_id = queue_id }) w
