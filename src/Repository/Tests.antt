-- ===== src/Repository/Tests.antt =====
-- Tests and instances of the repository's theorems, over a store in memory.
use svc_downloader.Repository.Bulk.Batch.{Batching}
use svc_downloader.Common.{
  ◌≤◌, leb, ◌↔◌, ◌≡◌, refl, true, [], ◌∷◌, some, none, arith, if◌then◌else◌,
}
use svc_downloader.Common.Bytes.{Bytes, starts_with, member, last_part, codes, same}
use svc_downloader.Common.Lists.{drop}
use svc_downloader.Common.Int.{pos, negsuc}
use svc_downloader.Errors.{live, ok, err, not_found}
use svc_downloader.Models.{Download}
use svc_downloader.Store.{download}
use svc_downloader.Common.Maps.{lookup, insert}
use svc_downloader.Repository.Listing.Pages.{hits, limited}
use svc_downloader.Repository.Listing.{list_downloads, order, matches}
use svc_downloader.Repository.Listing.Exact.{list_downloads-page, scan}
use svc_downloader.Repository.Listing.Complete.{list_downloads_exact}
use svc_downloader.Repository.Listing.Among.{Among}
use svc_downloader.Store.Memory.{memory, keys}
use svc_downloader.Repository.Sample.{
  d_a, d_late, one_db, empty-IsIndexed, one_db-IsIndexed, stored_a,
}
use svc_downloader.Common.{List}
use svc_downloader.Common.Lists.{length}
use svc_downloader.Models.{Queue, Segment, segment_pending}
use svc_downloader.Repository.Listing.{count_downloads}
use svc_downloader.Repository.Listing.Count.{count_downloads_lem}
use svc_downloader.Repository.Queues.{save_queue, get_queue, get_queue_stats, saved}
use svc_downloader.Repository.Queues.Laws.{get_queue-save_queue}
use svc_downloader.Repository.Segments.{upsert_segment, list_segments}
use svc_downloader.Repository.Segments.Laws.{HasSegments, Lists, list_segments-upsert_segment}
use svc_downloader.Common.{map, none, true}
use svc_downloader.Errors.{download_id_required}
use svc_downloader.Store.{view}
use svc_downloader.Repository.Bulk.Writes.{bulk_create_downloads}
use svc_downloader.Repository.Bulk.Create.{
  all_writes, all_named, create_each, bulk_create_downloads_lem,
}
use svc_downloader.Repository.Bulk.ByQueue.{queue_prefix, collect_ids}
use svc_downloader.Repository.Bulk.Reach.{collect_ids_lem}
use svc_downloader.Fixtures.{sample_queue}
use svc_downloader.Fixtures.{no_filter}
use svc_downloader.Repository.Keys.{time_to_key, k_download, index_keys, is_index_key}
use svc_downloader.Repository.Indexed.{IsIndexed}
use svc_downloader.Repository.Upkeep.{created, updated}
use svc_downloader.Repository.Downloads.{
  create_download, update_download, delete_download, get_download,
}
use svc_downloader.Repository.Invariant.{create_download-IsIndexed, update_download-IsIndexed}
use svc_downloader.Repository.Deletion.{delete_download-IsIndexed}
use svc_downloader.Repository.Reads.{
  get_download-create_download, get_download-update_download, delete_download_lem,
}

create_download-IsIndexed_example : IsIndexed memory (create_download memory live 9 d_a []).1
unfolding lookup
create_download-IsIndexed_example =
    create_download-IsIndexed memory live 9 d_a [] (omega arith) (refl, tt) refl empty-IsIndexed

update_download-IsIndexed_example :
    IsIndexed memory (update_download memory live 10 d_late one_db).1
update_download-IsIndexed_example =
    update_download-IsIndexed memory live 10 d_late one_db (omega arith) one_db-IsIndexed

delete_download-IsIndexed_example :
    IsIndexed memory (delete_download memory live 10 (codes "a") one_db).1
delete_download-IsIndexed_example =
    delete_download-IsIndexed memory live 10 (codes "a") one_db one_db-IsIndexed

get_download-create_download_example :
    (get_download memory live (codes "a") (create_download memory live 9 d_a []).1).0 ≡ (
      if same (codes "a") d_a.id
      then ok (created 9 d_a)
      else (get_download memory live (codes "a") []).0)
unfolding lookup same
get_download-create_download_example =
    get_download-create_download memory 9 d_a [] (codes "a") (omega arith) (refl, tt) refl refl

get_download-update_download_example :
    (get_download memory live (codes "a") (update_download memory live 10 d_late one_db).1).0 ≡ (
      if same (codes "a") d_late.id
      then ok (updated 10 (created 9 d_a) d_late)
      else (get_download memory live (codes "a") one_db).0)
unfolding same
get_download-update_download_example =
    get_download-update_download memory 10 d_late (created 9 d_a) one_db (codes "a")
      one_db-IsIndexed refl stored_a

delete_download_lem_example :
    let db' = (delete_download memory live 10 (codes "a") one_db).1 in
    ((x : Bytes)
      → (get_download memory live x db').0
        ≡ (if same x (codes "a") then err not_found else (get_download memory live x one_db).0))
    × ((k : Bytes) → is_index_key k ≡ true → last_part k ≡ codes "a" → memory.get db' k ≡ none)
delete_download_lem_example =
    delete_download_lem memory 10 (codes "a") (created 9 d_a) one_db one_db-IsIndexed stored_a

list_downloads-page_example : list_downloads memory live no_filter (pos 1) (pos 0) one_db ≡ (
  ok (
      order no_filter (
        limited
          (pos 1)
          (drop 0 (hits memory no_filter one_db (scan memory no_filter one_db one_db-IsIndexed))))),
  one_db,
)
list_downloads-page_example =
    list_downloads-page memory no_filter one_db one_db-IsIndexed (pos 1) (pos 0)

listed_a :
    (list_downloads memory live no_filter (negsuc 0) (pos 0) one_db).0 ≡ ok (created 9 d_a ∷ [])
unfolding create_download list_downloads matches lookup insert same index_keys order last_part keys
    starts_with member time_to_key
listed_a = refl

list_downloads_exact_example : Among (created 9 d_a) (created 9 d_a ∷ []) ↔ (
    (matches no_filter (created 9 d_a) ≡ true)
    × (memory.get one_db (k_download d_a.id) ≡ some (download (created 9 d_a))))
unfolding same
list_downloads_exact_example =
    list_downloads_exact memory no_filter one_db one_db-IsIndexed (created 9 d_a)
      (created 9 d_a ∷ []) refl refl listed_a

count_downloads_lem_example :
    (ds : List Download) × ((list_downloads memory live no_filter (negsuc 0) (pos 0) one_db).0
      ≡ ok ds)
    × (count_downloads memory live no_filter one_db ≡ (ok (pos (length ds)), one_db))
count_downloads_lem_example = count_downloads_lem memory no_filter one_db one_db-IsIndexed

abbrev q_main : Queue
q_main = sample_queue (codes "main") (pos 2)

get_queue-save_queue_example :
    let db' = (save_queue memory live 9 q_main one_db).1 in
    ((get_queue memory live (codes "main") db').0 ≡ (
      if same (codes "main") q_main.id
      then ok (saved 9 q_main)
      else (get_queue memory live (codes "main") one_db).0))
    × ((get_queue_stats memory live (codes "main") db').0
        ≡ (get_queue_stats memory live (codes "main") one_db).0)
unfolding same
get_queue-save_queue_example = get_queue-save_queue memory 9 q_main one_db (codes "main") refl

abbrev s_a : Segment
s_a = record {
  id = [];
  download_id = codes "a";
  index = pos 1;
  start = pos 0;
  end = pos 9;
  bytes_completed = pos 0;
  status = segment_pending;
  retries = pos 0;
  checksum = [];
  temp_path = [];
  created_at = 0;
  updated_at = 0;
}

empty-HasSegments : HasSegments memory []
unfolding lookup
empty-HasSegments k p here = cc (here)

list_segments-upsert_segment_example :
    let db' = (upsert_segment memory live s_a []).1 in
    HasSegments memory db'
    × ((out : List Segment) × ((list_segments memory live (codes "a") db').0 ≡ ok out)
        × Lists s_a out)
unfolding same
list_segments-upsert_segment_example =
    list_segments-upsert_segment memory s_a [] refl empty-HasSegments

-- A BadgerDB whose transactions have room for ten writes, and whose batches can be used after a flush.
abbrev roomy : Batching
roomy = record { reused = none; fits = λ ws. leb (length ws) 10 }

few_writes : length (all_writes memory roomy 9 (d_a ∷ [])) ≤ 10
unfolding index_keys same
few_writes = omega arith

bulk_create_downloads_lem_example : bulk_create_downloads memory roomy live 9 (d_a ∷ []) [] ≡ (
    if all_named (d_a ∷ [])
    then (ok tt, create_each memory roomy 9 (d_a ∷ []) [])
    else (err download_id_required, []))
bulk_create_downloads_lem_example =
    bulk_create_downloads_lem memory roomy 9 (d_a ∷ []) [] (omega arith)
      (λ ws le. ground (arith, le, few_writes))

-- The queue of the download is `main`, that of the call is `ma`.
collect_ids_lem_example :
    let ids = map last_part (memory.keys one_db (queue_prefix memory roomy (codes "ma"))) in
    (view live
        (λ s.
          collect_ids memory roomy live
            (memory.keys s (queue_prefix memory roomy (codes "ma")))
            []
            s)
        one_db
      ≡ (ok ids, one_db))
    × (member (codes "a") ids ≡ true)
unfolding same starts_with
collect_ids_lem_example =
    collect_ids_lem memory roomy (codes "ma") (codes "a") (created 9 d_a) one_db one_db-IsIndexed
      stored_a refl refl
