-- ===== src/Repository/Queues/Indexes.antt =====
-- The queues, the statistics and the indexes of the downloads.
use svc_downloader.Common.{ℕ, ◌≡◌, refl, false, [], ◌∷◌, ◌==◌, arith, inl, inr, Bool-cases}
use svc_downloader.Common.Bytes.{Bytes, same}
use svc_downloader.Models.{Time, Queue, QueueStats}
use svc_downloader.Errors.{Context, live, cancelled}
use svc_downloader.Store.{Badger, Value, queue, stats}
use svc_downloader.Repository.Keys.{k_queue, k_queue_stats, k_download}
use svc_downloader.Repository.Indexed.{IsIndexed}
use svc_downloader.Repository.Frame.{SameDownloads, SameDownloads-IsIndexed}
use svc_downloader.Repository.Queues.{saved, save_queue, delete_queue, save_queue_stats}
use svc_downloader.Repository.Queues.Laws.{other-ne-index, other-ne-download, saved_db}

module _ (b : Badger) where
  open b use {Db, get, get-set, get-delete}

  pub set-SameDownloads :
      (c : ℕ) (rest : Bytes) (v : Value) (db : Db)
      → (c == b'd') ≡ false
      → SameDownloads b db (b.set db (c ∷ rest) v)
  set-SameDownloads c rest v db n = record {
    entries = λ id.
        ground (arith, get-set db (c ∷ rest) (k_download id) v, other-ne-download c rest id n);
    indexes = λ k i. ground (arith, get-set db (c ∷ rest) k v, other-ne-index c rest k n i);
  }

  pub delete-SameDownloads :
      (c : ℕ) (rest : Bytes) (db : Db)
      → (c == b'd') ≡ false
      → SameDownloads b db (b.delete db (c ∷ rest))
  delete-SameDownloads c rest db n = record {
    entries = λ id.
        ground (arith, get-delete db (c ∷ rest) (k_download id), other-ne-download c rest id n);
    indexes = λ k i. ground (arith, get-delete db (c ∷ rest) k, other-ne-index c rest k n i);
  }

  pub save_queue-IsIndexed :
      (ctx : Context) (now : Time) (q : Queue) (db : Db)
      → IsIndexed b db
      → IsIndexed b (save_queue b ctx now q db).1
  unfolding save_queue
  save_queue-IsIndexed cancelled now q db h = h
  save_queue-IsIndexed live now q db h = elim (Bool-cases (same q.id [])) [
    | inl empty ↦ rw empty h
    | inr named ↦ rw named (
        SameDownloads-IsIndexed b db (saved_db b now q db)
          (set-SameDownloads b'q' (b'|' ∷ q.id) (queue (saved now q)) db refl) h)
  ]

  pub delete_queue-IsIndexed :
      (ctx : Context) (id : Bytes) (db : Db)
      → IsIndexed b db
      → IsIndexed b (delete_queue b ctx id db).1
  unfolding delete_queue
  delete_queue-IsIndexed cancelled id db h = h
  delete_queue-IsIndexed live id db h =
      let db1 = b.delete db (k_queue id) in
      SameDownloads-IsIndexed b db1 (b.delete db1 (k_queue_stats id))
        (delete-SameDownloads b'q' (b's' ∷ b'|' ∷ id) db1 refl)
        (SameDownloads-IsIndexed b db db1 (delete-SameDownloads b'q' (b'|' ∷ id) db refl) h)

  pub save_queue_stats-IsIndexed :
      (ctx : Context) (s : QueueStats) (db : Db)
      → IsIndexed b db
      → IsIndexed b (save_queue_stats b ctx s db).1
  unfolding save_queue_stats
  save_queue_stats-IsIndexed cancelled s db h = h
  save_queue_stats-IsIndexed live s db h =
      SameDownloads-IsIndexed b db (b.set db (k_queue_stats s.queue_id) (stats s))
        (set-SameDownloads b'q' (b's' ∷ b'|' ∷ s.queue_id) (stats s) db refl) h

  -- Every operation that changes queues or statistics keeps the indexes of the downloads in
  -- agreement, on every branch.
  pub queues-IsIndexed :
      (ctx : Context) (now : Time) (q : Queue) (s : QueueStats) (id : Bytes) (db : Db)
      → IsIndexed b db
      → IsIndexed b (save_queue b ctx now q db).1
        × IsIndexed b (delete_queue b ctx id db).1
        × IsIndexed b (save_queue_stats b ctx s db).1
  queues-IsIndexed ctx now q s id db h = (
    save_queue-IsIndexed ctx now q db h,
    delete_queue-IsIndexed ctx id db h,
    save_queue_stats-IsIndexed ctx s db h,
  )
