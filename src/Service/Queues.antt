-- ===== src/Service/Queues.antt =====
-- internal/service/queue.go. In PauseQueue and ResumeQueue the queue is read in the transaction; its
-- SaveQueue is that of the repository, which commits a transaction of its own.
use svc_downloader.Repository.Bulk.Batch.{Batching}
use svc_downloader.Common.{Bool, true, false, List, [], if◌then◌else◌}
use svc_downloader.Common.Bytes.{Bytes, same}
use svc_downloader.Common.Int.{ℤ}
use svc_downloader.Models.{Time, DownloadStatus, Queue, QueueStats}
use svc_downloader.Errors.{Result, ok, err, Context, queue_id_required}
use svc_downloader.Store.{Badger, Repo, update}
use svc_downloader.Repository.Queues
use svc_downloader.Repository.Queues.{save_queue, get_queue_txn}
use svc_downloader.Repository.Bulk.ByQueue

module _ (b : Badger) where
  open b use {Db}

  unfoldable pub create_queue : Context → Time → Queue → Repo Db (Unit {0})
  create_queue ctx now q db =
      if same q.id []
      then (err queue_id_required, db)
      else save_queue b ctx now (record q { created_at = now; updated_at = now }) db

  unfoldable pub update_queue : Context → Time → Queue → Repo Db (Unit {0})
  update_queue ctx now q db =
      if same q.id []
      then (err queue_id_required, db)
      else save_queue b ctx now (record q { updated_at = now }) db

  abbrev pub save_read : Context → Time → Bool → Result Queue × Db → Result (Unit {0}) × Db
  save_read ctx now paused (ok q, db) =
      save_queue b ctx now (record q { paused = paused; updated_at = now }) db
  save_read ctx now paused (err e, db) = (err e, db)

  unfoldable pub pause_queue : Context → Time → Bytes → Repo Db (Unit {0})
  pause_queue ctx now id db = save_read ctx now true (update ctx (get_queue_txn b ctx id) db)

  unfoldable pub resume_queue : Context → Time → Bytes → Repo Db (Unit {0})
  resume_queue ctx now id db = save_read ctx now false (update ctx (get_queue_txn b ctx id) db)

  -- The methods that pass a call on.
  abbrev pub get_queue : Context → Bytes → Repo Db Queue
  get_queue ctx id = Queues.get_queue b ctx id

  abbrev pub list_queues : Context → Repo Db (List Queue)
  list_queues ctx = Queues.list_queues b ctx

  abbrev pub delete_queue : Context → Bytes → Repo Db (Unit {0})
  delete_queue ctx id = Queues.delete_queue b ctx id

  abbrev pub stats : Context → Bytes → Repo Db QueueStats
  stats ctx id = Queues.get_queue_stats b ctx id

  module _ (rules : Batching) where
    abbrev pub bulk_delete_downloads : Context → Time → Bytes → Repo Db (Unit {0})
    bulk_delete_downloads ctx now id = ByQueue.bulk_delete_by_queue b rules ctx now id

    abbrev pub bulk_reassign : Context → Time → Bytes → Bytes → Repo Db (Unit {0})
    bulk_reassign ctx now from_id to_id = ByQueue.bulk_reassign_queue b rules ctx now from_id to_id

    abbrev pub bulk_set_priority : Context → Time → Bytes → ℤ → Repo Db (Unit {0})
    bulk_set_priority ctx now id priority = ByQueue.bulk_set_priority b rules ctx now id priority

    abbrev pub bulk_update_status : Context → Time → Bytes → DownloadStatus → Repo Db (Unit {0})
    bulk_update_status ctx now id status = ByQueue.bulk_update_status b rules ctx now id status
