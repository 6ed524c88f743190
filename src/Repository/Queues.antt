-- ===== src/Repository/Queues.antt =====
-- The queues and their statistics in repository.go.
pub mod Laws
pub mod Indexes
use svc_downloader.Common.{Option, none, some, List, [], ◌∷◌, ◌++◌, if◌then◌else◌}
use svc_downloader.Common.Bytes.{Bytes, same}
use svc_downloader.Models.{Time, is_zero, Queue, QueueStats}
use svc_downloader.Errors.{Result, ok, err, Context, bad_json, queue_id_required}
use svc_downloader.Store.{
  Badger, Value, queue, stats, Txn, Repo, ◌>>=◌, ◌>>◌, pure, require, check, guard, update, view,
  read, write, erase,
}
use svc_downloader.Repository.Keys.{k_queue, k_queue_stats, p_queue}
use svc_downloader.Repository.Downloads.{or_not_found}

-- json.Unmarshal into a Queue and into QueueStats.
abbrev pub queue_of : Value → Result Queue
queue_of (queue q) = ok q
queue_of _ = err bad_json

abbrev pub stats_of : Value → Result QueueStats
stats_of (stats s) = ok s
stats_of _ = err bad_json

-- The queue with the times that SaveQueue sets through the pointer.
abbrev pub saved : Time → Queue → Queue
saved now q = record q {
  created_at = if is_zero q.created_at then now else q.created_at;
  updated_at = now;
}

module _ (b : Badger) where
  open b use {Db, keys}

  unfoldable pub save_queue : Context → Time → Queue → Repo Db (Unit {0})
  save_queue ctx now q =
      update ctx
        (do guard (same q.id []) queue_id_required; write b (k_queue q.id) (queue (saved now q)))

  -- GetQueue of txRepo.
  unfoldable pub get_queue_txn : Context → Bytes → Txn Db Queue
  get_queue_txn ctx id = do check ctx; v ← or_not_found (read b (k_queue id)); require (queue_of v)

  unfoldable pub get_queue : Context → Bytes → Repo Db Queue
  get_queue ctx id = view ctx (do v ← or_not_found (read b (k_queue id)); require (queue_of v))

  -- The loop of ListQueues, with the queues so far.
  unfoldable pub queues_loop : Context → List Bytes → List Queue → Txn Db (List Queue)
  queues_loop ctx [] out = pure out
  queues_loop ctx (k ∷ ks) out = do
    check ctx
    v ← read b k
    q ← require (queue_of v)
    queues_loop ctx ks (out ++ q ∷ [])

  unfoldable pub list_queues : Context → Repo Db (List Queue)
  unfolding queues_loop
  list_queues ctx = view ctx (λ db. queues_loop ctx (keys db p_queue) [] db)

  unfoldable pub delete_queue : Context → Bytes → Repo Db (Unit {0})
  delete_queue ctx id = update ctx (do erase b (k_queue id); erase b (k_queue_stats id))

  unfoldable pub save_queue_stats : Context → QueueStats → Repo Db (Unit {0})
  save_queue_stats ctx s = update ctx (write b (k_queue_stats s.queue_id) (stats s))

  -- GetQueueStats of txRepo.
  unfoldable pub get_queue_stats_txn : Context → Bytes → Txn Db QueueStats
  get_queue_stats_txn ctx id = do
    check ctx
    v ← or_not_found (read b (k_queue_stats id))
    require (stats_of v)

  unfoldable pub get_queue_stats : Context → Bytes → Repo Db QueueStats
  get_queue_stats ctx id =
      view ctx (do v ← or_not_found (read b (k_queue_stats id)); require (stats_of v))
