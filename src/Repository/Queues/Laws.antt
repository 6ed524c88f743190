-- ===== src/Repository/Queues/Laws.antt =====
-- Reads of queues and of statistics after they were saved or deleted.
use svc_downloader.Common.{
  ℕ, ◌≡◌, refl, true, false, Option, none, some, [], ◌∷◌, ◌==◌, if◌then◌else◌, arith,
}
use svc_downloader.Common.Bytes.{Bytes, same, same_iff}
use svc_downloader.Models.{Time, Queue, QueueStats}
use svc_downloader.Errors.{Result, ok, err, Context, live, cancelled, not_found}
use svc_downloader.Store.{Badger, Value, nil, download, segment, queue, stats, update}
use svc_downloader.Repository.Keys.{k_queue, k_queue_stats, k_download, is_index_key}
use svc_downloader.Repository.Queues.{
  get_queue_txn, queue_of, stats_of, saved, save_queue, get_queue, delete_queue, get_queue_stats,
}

same-k_queue : (s t : Bytes) → same (k_queue s) (k_queue t) ≡ same t s
unfolding same
same-k_queue s t = ground (arith, same_iff s t, same_iff t s)

same-k_queue_stats : (s t : Bytes) → same (k_queue_stats s) (k_queue_stats t) ≡ same t s
unfolding same
same-k_queue_stats s t = ground (arith, same_iff s t, same_iff t s)

queue-ne-stats : (s t : Bytes) → same (k_queue s) (k_queue_stats t) ≡ false
unfolding same
queue-ne-stats s t = refl

stats-ne-queue : (s t : Bytes) → same (k_queue_stats s) (k_queue t) ≡ false
unfolding same
stats-ne-queue s t = refl

-- No key of a download begins with another letter than `d`.
pub other-ne-index :
    (c : ℕ) (rest k : Bytes)
    → (c == b'd') ≡ false
    → is_index_key k ≡ true
    → same (c ∷ rest) k ≡ false
unfolding is_index_key same
other-ne-index c rest [] n i = refl
other-ne-index c rest (a ∷ k) n i = ground arith

pub other-ne-download :
    (c : ℕ) (rest id : Bytes) → (c == b'd') ≡ false → same (c ∷ rest) (k_download id) ≡ false
unfolding same
other-ne-download c rest id n = ground arith

abbrev queue_reply : Option Value → Result Queue
queue_reply none = err not_found
queue_reply (some v) = queue_of v

abbrev stats_reply : Option Value → Result QueueStats
stats_reply none = err not_found
stats_reply (some v) = stats_of v

module _ (b : Badger) where
  open b use {Db, get, get-set, get-delete}

  queue_read :
      (id : Bytes) (db : Db) (o : Option Value)
      → get db (k_queue id) ≡ o
      → (get_queue b live id db).0 ≡ queue_reply o
  unfolding get_queue
  queue_read id db none e = rw e
  queue_read id db (some (queue q)) e = rw e
  queue_read id db (some nil) e = rw e
  queue_read id db (some (segment s)) e = rw e
  queue_read id db (some (download d)) e = rw e
  queue_read id db (some (stats s)) e = rw e

  pub get_queue-reply :
      (id : Bytes) (db : Db) → (get_queue b live id db).0 ≡ queue_reply (get db (k_queue id))
  get_queue-reply id db = queue_read id db (get db (k_queue id)) refl

  stats_read :
      (id : Bytes) (db : Db) (o : Option Value)
      → get db (k_queue_stats id) ≡ o
      → (get_queue_stats b live id db).0 ≡ stats_reply o
  unfolding get_queue_stats
  stats_read id db none e = rw e
  stats_read id db (some (queue q)) e = rw e
  stats_read id db (some nil) e = rw e
  stats_read id db (some (segment s)) e = rw e
  stats_read id db (some (download d)) e = rw e
  stats_read id db (some (stats s)) e = rw e

  pub get_queue_stats-reply :
      (id : Bytes) (db : Db)
      → (get_queue_stats b live id db).0 ≡ stats_reply (get db (k_queue_stats id))
  get_queue_stats-reply id db = stats_read id db (get db (k_queue_stats id)) refl

  txn_read :
      (id : Bytes) (db : Db) (o : Option Value)
      → get db (k_queue id) ≡ o
      → (update live (get_queue_txn b live id) db).1 ≡ db
  unfolding get_queue_txn
  txn_read id db none e = rw e
  txn_read id db (some (queue q)) e = rw e
  txn_read id db (some nil) e = rw e
  txn_read id db (some (segment s)) e = rw e
  txn_read id db (some (download d)) e = rw e
  txn_read id db (some (stats s)) e = rw e

  -- A transaction that only reads a queue leaves the store as it was.
  pub get_queue_txn_db :
      (ctx : Context) (id : Bytes) (db : Db) → (update ctx (get_queue_txn b ctx id) db).1 ≡ db
  get_queue_txn_db cancelled id db = refl
  get_queue_txn_db live id db = txn_read id db (get db (k_queue id)) refl

  abbrev pub saved_db : Time → Queue → Db → Db
  saved_db now q db = b.set db (k_queue q.id) (queue (saved now q))

  pub save_queue-ok :
      (now : Time) (q : Queue) (db : Db)
      → same q.id [] ≡ false
      → save_queue b live now q db ≡ (ok tt, saved_db now q db)
  unfolding save_queue
  save_queue-ok now q db named = rw named

  -- After a queue whose id is not empty is saved, GetQueue returns it under its id, with a creation
  -- time if it had none, and under every other id what it returned before; GetQueueStats returns
  -- what it returned before.
  pub get_queue-save_queue :
      (now : Time) (q : Queue) (db : Db) (x : Bytes)
      → same q.id [] ≡ false
      → let db' = (save_queue b live now q db).1 in
        ((get_queue b live x db').0
          ≡ (if same x q.id then ok (saved now q) else (get_queue b live x db).0))
        × ((get_queue_stats b live x db').0 ≡ (get_queue_stats b live x db).0)
  get_queue-save_queue now q db x named = rw (save_queue-ok now q db named) (
    ground (
      arith,
      get_queue-reply x db,
      get_queue-reply x (saved_db now q db),
      get-set db (k_queue q.id) (k_queue x) (queue (saved now q)),
      same-k_queue q.id x,
    ),
    ground (
      arith,
      get_queue_stats-reply x db,
      get_queue_stats-reply x (saved_db now q db),
      get-set db (k_queue q.id) (k_queue_stats x) (queue (saved now q)),
      queue-ne-stats q.id x,
    ),
  )

  abbrev deleted_db : Bytes → Db → Db
  deleted_db id db = b.delete (b.delete db (k_queue id)) (k_queue_stats id)

  delete_queue-ok : (id : Bytes) (db : Db) → delete_queue b live id db ≡ (ok tt, deleted_db id db)
  unfolding delete_queue
  delete_queue-ok id db = refl

  -- After a deletion neither the queue nor its statistics are found, and every other queue and its
  -- statistics read as before.
  pub get_queue-delete_queue :
      (id x : Bytes) (db : Db)
      → let db' = (delete_queue b live id db).1 in
        ((get_queue b live x db').0
          ≡ (if same x id then err not_found else (get_queue b live x db).0))
        × ((get_queue_stats b live x db').0
            ≡ (if same x id then err not_found else (get_queue_stats b live x db).0))
  get_queue-delete_queue id x db = rw (delete_queue-ok id db) (
    ground (
      arith,
      get_queue-reply x db,
      get_queue-reply x (deleted_db id db),
      get-delete (b.delete db (k_queue id)) (k_queue_stats id) (k_queue x),
      stats-ne-queue id x,
      get-delete db (k_queue id) (k_queue x),
      same-k_queue id x,
    ),
    ground (
      arith,
      get_queue_stats-reply x db,
      get_queue_stats-reply x (deleted_db id db),
      get-delete (b.delete db (k_queue id)) (k_queue_stats id) (k_queue_stats x),
      same-k_queue_stats id x,
      get-delete db (k_queue id) (k_queue_stats x),
      queue-ne-stats id x,
    ),
  )
