-- ===== src/Repository/Bulk/ByQueue.antt =====
-- The bulk methods of repository.go on the downloads of a queue.
use svc_downloader.Common.{◌||◌, List, [], ◌∷◌, ◌++◌, if◌then◌else◌}
use svc_downloader.Common.Bytes.{Bytes, same, last_part}
use svc_downloader.Common.Int.{ℤ}
use svc_downloader.Models.{Time, Download, DownloadStatus}
use svc_downloader.Errors.{
  Result, ok, err, Context, queue_id_required, from_and_to_required, status_required,
}
use svc_downloader.Store.{Badger, Txn, Repo, ◌>>=◌, ◌>>◌, pure, require, check, view, read}
use svc_downloader.Repository.Keys.{k_download, join, p_download_by_queue}
use svc_downloader.Repository.Downloads.{download_of}
use svc_downloader.Repository.Bulk.Batch.{Batching, live_unit}
use svc_downloader.Repository.Bulk.Writes.{bulk_update_downloads, bulk_delete_downloads}

module _ (b : Badger) (rules : Batching) where
  open b use {Db, keys}

  -- The loops over the keys of a queue: the identifiers, and the changed downloads.
  unfoldable pub queue_prefix : Bytes → Bytes
  queue_prefix queue_id = join (p_download_by_queue ∷ queue_id ∷ [])

  unfoldable pub collect_ids : Context → List Bytes → List Bytes → Txn Db (List Bytes)
  collect_ids ctx [] ids = pure ids
  collect_ids ctx (k ∷ ks) ids = do check ctx; collect_ids ctx ks (ids ++ last_part k ∷ [])

  unfoldable pub collect_downloads :
      (Download → Download) → Context → List Bytes → List Download → Txn Db (List Download)
  collect_downloads f ctx [] out = pure out
  collect_downloads f ctx (k ∷ ks) out = do
    check ctx
    v ← read b (k_download (last_part k))
    d ← require (download_of v)
    collect_downloads f ctx ks (out ++ f d ∷ [])

  abbrev pub delete_collected : Context → Time → Result (List Bytes) × Db → Result (Unit {0}) × Db
  delete_collected ctx now (err e, db) = (err e, db)
  delete_collected ctx now (ok [], db) = (ok tt, db)
  delete_collected ctx now (ok (id ∷ ids), db) = bulk_delete_downloads b rules ctx now (id ∷ ids) db

  abbrev pub update_collected :
      Context → Time → Result (List Download) × Db → Result (Unit {0}) × Db
  update_collected ctx now (err e, db) = (err e, db)
  update_collected ctx now (ok [], db) = (ok tt, db)
  update_collected ctx now (ok (d ∷ ds), db) = bulk_update_downloads b rules ctx now (d ∷ ds) db

  -- The common part of the three changes by queue.
  unfoldable pub change_queue : (Download → Download) → Context → Time → Bytes → Repo Db (Unit {0})
  unfolding collect_downloads queue_prefix
  change_queue f ctx now queue_id db =
      update_collected ctx now
        (view ctx (λ db'. collect_downloads f ctx (keys db' (queue_prefix queue_id)) [] db') db)

  -- BulkDeleteDownloadsByQueueID
  unfoldable pub bulk_delete_by_queue : Context → Time → Bytes → Repo Db (Unit {0})
  unfolding collect_ids queue_prefix
  bulk_delete_by_queue ctx now queue_id db = live_unit b rules ctx db (
      if same queue_id []
      then (err queue_id_required, db)
      else delete_collected ctx now
          (view ctx (λ db'. collect_ids ctx (keys db' (queue_prefix queue_id)) [] db') db))

  -- BulkReassignDownloadsQueue
  unfoldable pub bulk_reassign_queue : Context → Time → Bytes → Bytes → Repo Db (Unit {0})
  unfolding change_queue
  bulk_reassign_queue ctx now from_id to_id db = live_unit b rules ctx db (
      if same from_id [] || same to_id []
      then (err from_and_to_required, db)
      else if same from_id to_id
      then (ok tt, db)
      else change_queue (λ d. record d { queue_id = to_id }) ctx now from_id db)

  -- BulkSetPriorityByQueueID
  unfoldable pub bulk_set_priority : Context → Time → Bytes → ℤ → Repo Db (Unit {0})
  unfolding change_queue
  bulk_set_priority ctx now queue_id priority db = live_unit b rules ctx db (
      if same queue_id []
      then (err queue_id_required, db)
      else change_queue (λ d. record d { priority = priority }) ctx now queue_id db)

  -- BulkUpdateStatusByQueueID
  unfoldable pub bulk_update_status : Context → Time → Bytes → DownloadStatus → Repo Db (Unit {0})
  unfolding change_queue
  bulk_update_status ctx now queue_id status db =
      if same status []
      then (err status_required, db)
      else live_unit b rules ctx db (
          if same queue_id []
          then (err queue_id_required, db)
          else change_queue (λ d. record d { status = status }) ctx now queue_id db)
