-- ===== src/Api/Routes.antt =====
-- internal/api/routes: routes.go and queues.go. A route is a request that huma has read; a body that is a
-- pointer may be left out. `none` is a panic of the handler.
use svc_downloader.Repository.Bulk.Batch.{Batching}
use svc_downloader.Common.{true, Option, none, some, List, [], ◌++◌}
use svc_downloader.Common.Bytes.{Bytes, codes}
use svc_downloader.Common.Int.{ℤ}
use svc_downloader.Models.{
  Time, Download, DownloadStatus, DownloadConfig, RequestOptions, EnqueueDownloadRequest,
  EnqueueDownloadResponse, Queue, QueueStats,
}
use svc_downloader.Errors.{Result, ok, err, Context}
use svc_downloader.Store.{Badger}
use svc_downloader.Service.State.{World, Validator, Outcome}
use svc_downloader.Service.Downloads.{
  enqueue, start, pause, resume, cancel, remove_download, update_config, update_request,
  set_priority, add_download_tags, remove_download_tags, assign_queue,
}
use svc_downloader.Service.Queues.{
  create_queue, update_queue, pause_queue, resume_queue, get_queue, list_queues, delete_queue,
  stats, bulk_delete_downloads, bulk_reassign, bulk_set_priority, bulk_update_status,
}
use svc_downloader.Api.{
  Reply, body, status_400, status_404, failure, Query, get_handler, list_handler, count_handler,
}

pub data Route : Type 0 where
  enqueue_route : EnqueueDownloadRequest → Route
  list_route count_route : Query → Route
  get_route start_route pause_route resume_route cancel_route delete_route : Bytes → Route
  config_route : Bytes → DownloadConfig → Route
  request_route : Bytes → RequestOptions → Route
  priority_route : Bytes → Option ℤ → Route
  add_tags_route remove_tags_route : Bytes → Option (List Bytes) → Route
  assign_route : Bytes → Option Bytes → Route
  list_queues_route : Route
  create_queue_route : Queue → Route
  update_queue_route : Bytes → Queue → Route
  get_queue_route delete_queue_route pause_queue_route resume_queue_route : Bytes → Route
  stats_route bulk_delete_route : Bytes → Route
  bulk_reassign_route : Bytes → Option Bytes → Route
  bulk_priority_route : Bytes → Option ℤ → Route
  bulk_status_route : Bytes → Option DownloadStatus → Route

-- The path of a route behind `/downloads` or `/queues`.
abbrev download_path : Bytes → Bytes → Bytes
download_path id rest = codes "/downloads/" ++ (id ++ rest)

abbrev queue_path : Bytes → Bytes → Bytes
queue_path id rest = codes "/queues/" ++ (id ++ rest)

unfoldable pub path_of : Route → Bytes
path_of (enqueue_route r) = codes "/downloads"
path_of (list_route q) = codes "/downloads"
path_of (count_route q) = codes "/downloads/count"
path_of (get_route id) = download_path id []
path_of (delete_route id) = download_path id []
path_of (start_route id) = download_path id (codes "/start")
path_of (pause_route id) = download_path id (codes "/pause")
path_of (resume_route id) = download_path id (codes "/resume")
path_of (cancel_route id) = download_path id (codes "/cancel")
path_of (config_route id c) = download_path id (codes "/config")
path_of (request_route id r) = download_path id (codes "/request")
path_of (priority_route id p) = download_path id (codes "/priority")
path_of (add_tags_route id ts) = download_path id (codes "/tags")
path_of (remove_tags_route id ts) = download_path id (codes "/tags")
path_of (assign_route id q) = download_path id (codes "/queue")
path_of list_queues_route = codes "/queues"
path_of (create_queue_route q) = codes "/queues"
path_of (update_queue_route id q) = queue_path id []
path_of (get_queue_route id) = queue_path id []
path_of (delete_queue_route id) = queue_path id []
path_of (pause_queue_route id) = queue_path id (codes "/pause")
path_of (resume_queue_route id) = queue_path id (codes "/resume")
path_of (stats_route id) = queue_path id (codes "/stats")
path_of (bulk_delete_route id) = queue_path id (codes "/bulk/delete")
path_of (bulk_reassign_route id to) = queue_path id (codes "/bulk/reassign")
path_of (bulk_priority_route id p) = queue_path id (codes "/bulk/priority")
path_of (bulk_status_route id s) = queue_path id (codes "/bulk/status")

-- The bodies of the answers.
pub data Content : Type 0 where
  nothing : Content
  enqueued_as : EnqueueDownloadResponse → Content
  one : Download → Content
  many : List Download → Content
  total : ℤ → Content
  one_queue : Queue → Content
  many_queues : List Queue → Content
  queue_stats : QueueStats → Content

abbrev pub content : {A : Type 0} → (A → Content) → Reply A → Reply Content
content f (body a) = body (f a)
content f (status_400 s) = status_400 s
content f (status_404 s) = status_404 s
content f (failure e) = failure e

abbrev pub replied : {A : Type 0} → (A → Content) → Result A → Reply Content
replied f (ok a) = body (f a)
replied f (err e) = failure e

abbrev pub Answer : Type 0 → Type 0
Answer D = Option (Reply Content × World D)

-- What a handler makes of the end of a method on the store, of one on downloads, and of Start.
abbrev pub stored : {A D : Type 0} → (A → Content) → World D → Result A × D → Answer D
stored f w (r, db) = some (replied f r, record w { db = db })

abbrev pub acted : {A D : Type 0} → (A → Content) → Outcome D A → Answer D
acted f (r, w) = some (replied f r, w)

abbrev pub done : {D : Type 0} → Outcome D (Unit {0}) → Answer D
done o = acted (λ u. nothing) o

abbrev pub started : {D : Type 0} → Option (Outcome D (Unit {0})) → Answer D
started none = none
started (some o) = done o

abbrev pub read_by : {A D : Type 0} → (A → Content) → World D → Reply A × D → Answer D
read_by f w (r, db) = some (content f r, record w { db = db })

-- input.Body of an optional body
abbrev pub with_body : {A D : Type 0} → Option A → (A → Answer D) → Answer D
with_body none f = none
with_body (some a) f = f a

module _ (b : Badger) (v : Validator) (rules : Batching) where
  open b use {Db}

  -- The handlers, with the identifier that uuid.NewString gives.
  unfoldable pub handle : Context → Time → Bytes → Route → World Db → Answer Db
  handle ctx now new (enqueue_route r) w = acted enqueued_as (enqueue b v ctx now new r w)
  handle ctx now new (list_route q) w = read_by many w (list_handler b ctx q w.db)
  handle ctx now new (count_route q) w = read_by total w (count_handler b ctx q w.db)
  handle ctx now new (get_route id) w = read_by one w (get_handler b ctx id w.db)
  handle ctx now new (start_route id) w = started (start b ctx now id w)
  handle ctx now new (pause_route id) w = done (pause b ctx now id w)
  handle ctx now new (resume_route id) w = done (resume b ctx now id w)
  handle ctx now new (cancel_route id) w = done (cancel b ctx now id w)
  handle ctx now new (delete_route id) w = done (remove_download b ctx now id true w)
  handle ctx now new (config_route id c) w = done (update_config b v ctx now id c w)
  handle ctx now new (request_route id r) w = done (update_request b v ctx now id r w)
  handle ctx now new (priority_route id p) w =
      with_body p (λ n. done (set_priority b ctx now id n w))
  handle ctx now new (add_tags_route id ts) w =
      with_body ts (λ tags. done (add_download_tags b ctx now id tags w))
  handle ctx now new (remove_tags_route id ts) w =
      with_body ts (λ tags. done (remove_download_tags b ctx now id tags w))
  handle ctx now new (assign_route id q) w =
      with_body q (λ to. done (assign_queue b ctx now id to w))
  handle ctx now new list_queues_route w = stored many_queues w (list_queues b ctx w.db)
  handle ctx now new (create_queue_route q) w =
      stored (λ u. nothing) w (create_queue b ctx now q w.db)
  handle ctx now new (update_queue_route id q) w =
      stored (λ u. nothing) w (update_queue b ctx now (record q { id = id }) w.db)
  handle ctx now new (get_queue_route id) w = stored one_queue w (get_queue b ctx id w.db)
  handle ctx now new (delete_queue_route id) w =
      stored (λ u. nothing) w (delete_queue b ctx id w.db)
  handle ctx now new (pause_queue_route id) w =
      stored (λ u. nothing) w (pause_queue b ctx now id w.db)
  handle ctx now new (resume_queue_route id) w =
      stored (λ u. nothing) w (resume_queue b ctx now id w.db)
  handle ctx now new (stats_route id) w = stored queue_stats w (stats b ctx id w.db)
  handle ctx now new (bulk_delete_route id) w =
      stored (λ u. nothing) w (bulk_delete_downloads b rules ctx now id w.db)
  handle ctx now new (bulk_reassign_route id to) w =
      with_body to (λ t. stored (λ u. nothing) w (bulk_reassign b rules ctx now id t w.db))
  handle ctx now new (bulk_priority_route id p) w =
      with_body p (λ n. stored (λ u. nothing) w (bulk_set_priority b rules ctx now id n w.db))
  handle ctx now new (bulk_status_route id s) w =
      with_body s (λ t. stored (λ u. nothing) w (bulk_update_status b rules ctx now id t w.db))
