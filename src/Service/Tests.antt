-- ===== src/Service/Tests.antt =====
-- Instances of the theorems on the services, over a store in memory with one download.
use svc_downloader.Common.{
  inl, inr, sym, Bool-cases, ℕ, ◌≡◌, ◌+◌, refl, true, false, not, ◌&&◌, none, some, List, [], ◌∷◌,
  ◌++◌, if◌then◌else◌, arith,
}
use svc_downloader.Common.Lists.{length}
use svc_downloader.Common.Bytes.{Bytes, codes, same, same_iff, member, to_lower}
use svc_downloader.Common.Int.{pos, pos_part, ◌-ℤ◌}
use svc_downloader.Common.Maps.{lookup, insert}
use svc_downloader.Models.{
  Time, EnqueueDownloadRequest, status_running, status_paused, status_queued, enqueued, paused,
  no_data,
}
use svc_downloader.Errors.{Context, ok, live, cancelled}
use svc_downloader.Store.{Distinct}
use svc_downloader.Store.Memory.{memory}
use svc_downloader.Fixtures.{sample_queue}
use svc_downloader.Repository.Keys.{index_keys, k_download}
use svc_downloader.Repository.Sample.{d_a, one_db, one_db-IsIndexed, stored_a}
use svc_downloader.Repository.Upkeep.{created}
use svc_downloader.Repository.Downloads.{
  get_download, create_download, get_download_txn, update_download_txn,
}
use svc_downloader.Service.State.{World, Validator}
use svc_downloader.Service.Tags.{add_tags, remove_tags}
use svc_downloader.Service.Tags.Laws.{lowered, add_tags_lem, member-remove_tags}
use svc_downloader.Service.Downloads.{enqueue, pause, resume, requested, new_download}
use svc_downloader.Service.Status.{with_status, pause_lem}
use svc_downloader.Service.Orphans.{IsRegistered, StaysOrphan, is_in, pause-resume-StaysOrphan}
use svc_downloader.Service.Enqueue.{enqueue_lem}
use svc_downloader.Service.Workers.{schedule, count, concurrency_of}
use svc_downloader.Service.Workers.Bounds.{AtMost, schedule-AtMost}
use svc_downloader.Service.Workers.Indexes.{WorldIsIndexed}
use svc_downloader.Service.Calls.{
  Call, perform_all, perform_all-IsIndexed, AllHappen, CanHappen, pause_call, cancel_call,
  tick_call,
}

abbrev idle : World memory.Db
idle = record {
  db = one_db;
  cancels = [];
  runs = [];
  stopped = [];
  limiter = none;
  events = [];
  removed_files = none;
}

-- The download is running already.
abbrev running : World memory.Db
running = record idle { cancels = (codes "a", 0) ∷ []; runs = codes "a" ∷ [] }

abbrev lenient : Validator
lenient = record { validate_request = λ r. none; validate_config = λ c. none }

abbrev by_url : EnqueueDownloadRequest
by_url = record {
  url = codes "http://x/g";
  request = none;
  config = none;
  file = none;
  queue_id = [];
  priority = pos 0;
  tags = [];
}

add_tags_lem_example :
    ((added : List Bytes) × (add_tags (codes "Iso" ∷ []) (codes "iso" ∷ codes "b" ∷ [])
        ≡ codes "Iso" ∷ [] ++ added)
      × ((s : Bytes)
          → member s added ≡ true
          → (member s (codes "iso" ∷ codes "b" ∷ []) ≡ true) × (same s [] ≡ false)))
    × ((t : Bytes)
        → member t (codes "iso" ∷ codes "b" ∷ []) ≡ true
        → same t [] ≡ false
        → member (to_lower t) (lowered (add_tags (codes "Iso" ∷ []) (codes "iso" ∷ codes "b" ∷ [])))
          ≡ true)
    × (Distinct (lowered (codes "Iso" ∷ []))
        → Distinct (lowered (add_tags (codes "Iso" ∷ []) (codes "iso" ∷ codes "b" ∷ []))))
add_tags_lem_example = add_tags_lem (codes "Iso" ∷ []) (codes "iso" ∷ codes "b" ∷ [])

member-remove_tags_example :
    member (codes "b") (remove_tags (codes "Iso" ∷ codes "b" ∷ []) (codes "iso" ∷ [])) ≡ (
      member (codes "b") (codes "Iso" ∷ codes "b" ∷ [])
      && not (member (to_lower (codes "b")) (lowered (codes "iso" ∷ []))))
member-remove_tags_example =
    member-remove_tags (codes "b") (codes "Iso" ∷ codes "b" ∷ []) (codes "iso" ∷ [])

pause_lem_example :
    let w' = (pause memory live 10 (codes "a") running).1 in
    let d' = with_status 10 status_paused (created 9 d_a) in
    ((pause memory live 10 (codes "a") running).0 ≡ ok tt)
    × ((x : Bytes)
        → (get_download memory live x w'.db).0
          ≡ (if same x (codes "a") then ok d' else (get_download memory live x one_db).0))
    × (lookup (codes "a") w'.cancels ≡ none)
    × ((run : ℕ) → lookup (codes "a") running.cancels ≡ some run → w'.stopped ≡ run ∷ [])
    × (w'.events
        ≡ [] ++ record { type = paused; download = d'; timestamp = 10; event_data = no_data } ∷ [])
unfolding same
pause_lem_example =
    pause_lem memory 10 (codes "a") (created 9 d_a) running one_db-IsIndexed refl stored_a

resumed_ok : (resume memory live 10 (codes "a") running).0 ≡ ok tt
unfolding resume create_download get_download_txn update_download_txn lookup insert same index_keys
resumed_ok = refl

free_b : memory.get one_db (k_download (codes "b")) ≡ none
unfolding create_download lookup insert same index_keys
free_b = refl

running-IsRegistered : IsRegistered 0 memory (codes "a") running
unfolding lookup same is_in
running-IsRegistered = (
  omega arith,
  λ j e. elim (Bool-cases (same (codes "a") j)) [
    | inl mine ↦ sym ((same_iff (codes "a") j).0 mine)
    | inr other ↦ let none_there : none ≡ some 0 = rw other at e in cc
  ],
  refl,
)

-- Another pause and a cancellation come after the first pause.
abbrev later : List (Context × Time × Call)
later = (live, 12, pause_call (codes "a")) ∷ (live, 13, cancel_call (codes "a")) ∷ []

pause-resume-StaysOrphan_example :
    let w' = (pause memory live 11 (codes "a") (resume memory live 10 (codes "a") running).1).1 in
    (length w'.runs ≡ length running.runs + 1)
    × (w'.stopped ≡ length running.runs ∷ running.stopped)
    × (lookup (codes "a") w'.cancels ≡ none)
    × StaysOrphan 0 (perform_all memory later w')
unfolding lookup same
pause-resume-StaysOrphan_example =
    pause-resume-StaysOrphan 0 memory live live 10 11 (codes "a") running later refl
      running-IsRegistered resumed_ok

enqueue_lem_example :
    let d = new_download (codes "b") 10 (requested by_url.url by_url.request) by_url in
    let w' = (enqueue memory lenient live 10 (codes "b") by_url idle).1 in
    ((enqueue memory lenient live 10 (codes "b") by_url idle).0
      ≡ ok (record { id = codes "b"; queue_id = d.queue_id; status = status_queued }))
    × ((x : Bytes)
        → (get_download memory live x w'.db).0
          ≡ (if same x (codes "b") then ok d else (get_download memory live x one_db).0))
    × (w'.events
        ≡ [] ++ record { type = enqueued; download = d; timestamp = 10; event_data = no_data } ∷ [])
    × (w'.runs ≡ [])
unfolding same
enqueue_lem_example =
    enqueue_lem memory lenient 10 (codes "b") by_url idle (omega arith) refl (refl, tt) free_b refl
      refl

schedule-AtMost_example :
    AtMost memory
      (length idle.runs
        + pos_part (
            concurrency_of (sample_queue (codes "main") (pos 2))
            -ℤ count memory live status_running (codes "main") one_db))
      (schedule memory live 10 (sample_queue (codes "main") (pos 2)) idle)
schedule-AtMost_example =
    schedule-AtMost memory live 10 (sample_queue (codes "main") (pos 2)) idle one_db-IsIndexed

abbrev two_calls : List (Context × Time × Call)
two_calls = (live, 10, pause_call (codes "a")) ∷ (cancelled, 11, tick_call (pos 60)) ∷ []

two_calls-AllHappen : AllHappen memory two_calls running
unfolding AllHappen CanHappen
two_calls-AllHappen = (omega arith, tt, λ v e. (omega arith, tt, λ u f. tt))

perform_all-IsIndexed_example : WorldIsIndexed memory (perform_all memory two_calls running)
perform_all-IsIndexed_example =
    perform_all-IsIndexed memory two_calls running two_calls-AllHappen one_db-IsIndexed
