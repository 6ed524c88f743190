-- ===== src/Repository/Segments.antt =====
-- The segments of repository.go.
pub mod Laws
pub mod Indexes
use svc_downloader.Common.{Option, none, some, List, [], ◌∷◌, ◌++◌}
use svc_downloader.Common.Bytes.{Bytes, same}
use svc_downloader.Models.{Segment}
use svc_downloader.Errors.{
  Result, ok, err, Context, bad_json, key_not_found, segment_download_id_required,
}
use svc_downloader.Store.{
  Badger, Value, segment, Txn, Repo, ◌>>=◌, ◌>>◌, pure, require, check, guard, update, view, read,
  write,
}
use svc_downloader.Repository.Keys.{k_segment, join, p_segment}
use svc_downloader.Repository.Downloads.{delete_by_prefix}

-- json.Unmarshal into a Segment.
abbrev pub segment_of : Value → Result Segment
segment_of (segment s) = ok s
segment_of _ = err bad_json

module _ (b : Badger) where
  open b use {Db, keys}

  unfoldable pub upsert_segment : Context → Segment → Repo Db (Unit {0})
  upsert_segment ctx s = update ctx (do
    guard (same s.download_id []) segment_download_id_required
    write b (k_segment s.download_id s.index) (segment s))

  unfoldable pub update_segment : Context → Segment → Repo Db (Unit {0})
  unfolding upsert_segment
  update_segment = upsert_segment

  -- The loop of ListSegments, with the segments so far.
  unfoldable pub segments_loop : Context → List Bytes → List Segment → Txn Db (List Segment)
  segments_loop ctx [] out = pure out
  segments_loop ctx (k ∷ ks) out = do
    check ctx
    v ← read b k
    s ← require (segment_of v)
    segments_loop ctx ks (out ++ s ∷ [])

  unfoldable pub list_segments : Context → Bytes → Repo Db (List Segment)
  unfolding segments_loop
  list_segments ctx download_id =
      view ctx (λ db. segments_loop ctx (keys db (join (p_segment ∷ download_id ∷ []))) [] db)

  unfoldable pub delete_segments : Context → Bytes → Repo Db (Unit {0})
  unfolding delete_by_prefix
  delete_segments ctx download_id =
      update ctx (delete_by_prefix b ctx (join (p_segment ∷ download_id ∷ [])))
