-- ===== src/Repository/Segments/Indexes.antt =====
-- The segments and the indexes of the downloads.
use svc_downloader.Common.{refl, [], ◌∷◌, arith, inl, inr, Bool-cases}
use svc_downloader.Common.Bytes.{Bytes, same}
use svc_downloader.Models.{Segment}
use svc_downloader.Errors.{Context, live, cancelled}
use svc_downloader.Store.{Badger, segment}
use svc_downloader.Store.Laws.{get-delete_all}
use svc_downloader.Repository.Keys.{k_segment, k_download}
use svc_downloader.Repository.Indexed.{IsIndexed}
use svc_downloader.Repository.Frame.{SameDownloads, SameDownloads-IsIndexed}
use svc_downloader.Repository.Queues.Indexes.{set-SameDownloads}
use svc_downloader.Repository.Deletion.{segment_prefix, index-ne-segment}
use svc_downloader.Repository.Segments.{upsert_segment, delete_segments}
use svc_downloader.Repository.Segments.Laws.{
  download-ne-segment, cleared, delete_segments-ok, upserted,
}

module _ (b : Badger) where
  open b use {Db, get, keys, get-set, get-delete, member-keys}

  pub upsert_segment-IsIndexed :
      (ctx : Context) (s : Segment) (db : Db)
      → IsIndexed b db
      → IsIndexed b (upsert_segment b ctx s db).1
  unfolding upsert_segment k_segment
  upsert_segment-IsIndexed cancelled s db h = h
  upsert_segment-IsIndexed live s db h = elim (Bool-cases (same s.download_id [])) [
    | inl empty ↦ rw empty h
    | inr named ↦ rw named (
        SameDownloads-IsIndexed b db (upserted b s db)
          (set-SameDownloads b b's' _ (segment s) db refl) h)
  ]

  cleared-SameDownloads : (id : Bytes) (db : Db) → SameDownloads b db (cleared b id db)
  cleared-SameDownloads id db = record {
    entries = λ x. ground (
      arith,
      get-delete_all b db (keys db (segment_prefix b id)) (k_download x),
      member-keys db (segment_prefix b id) (k_download x),
      download-ne-segment x (b'|' ∷ b'|' ∷ id),
    );
    indexes = λ k i. ground (
      arith,
      get-delete_all b db (keys db (segment_prefix b id)) k,
      member-keys db (segment_prefix b id) k,
      index-ne-segment k (b'|' ∷ b'|' ∷ id) i,
    );
  }

  pub delete_segments-IsIndexed :
      (ctx : Context) (id : Bytes) (db : Db)
      → IsIndexed b db
      → IsIndexed b (delete_segments b ctx id db).1
  delete_segments-IsIndexed cancelled id db h = unfold delete_segments in h
  delete_segments-IsIndexed live id db h =
      rw (delete_segments-ok b id db)
        (SameDownloads-IsIndexed b db (cleared b id db) (cleared-SameDownloads id db) h)

  -- Saving and deleting segments keeps the indexes of the downloads in agreement, on every branch.
  pub segments-IsIndexed :
      (ctx : Context) (s : Segment) (id : Bytes) (db : Db)
      → IsIndexed b db
      → IsIndexed b (upsert_segment b ctx s db).1 × IsIndexed b (delete_segments b ctx id db).1
  segments-IsIndexed ctx s id db h =
      (upsert_segment-IsIndexed ctx s db h, delete_segments-IsIndexed ctx id db h)
