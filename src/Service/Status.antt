-- ===== src/Service/Status.antt =====
-- What a change of the status of a stored download does.
use svc_downloader.Common.{
  ℕ, ◌≡◌, refl, sym, ap, ◌∙◌, subst, false, none, some, [], ◌∷◌, ◌++◌, if◌then◌else◌, inl, inr,
  Option-cases, arith,
}
use svc_downloader.Common.Bytes.{Bytes, same, same_refl}
use svc_downloader.Common.Maps.{lookup, lookup-remove}
use svc_downloader.Models.{
  Time, Download, DownloadStatus, DownloadEvent, status_paused, no_data, paused,
}
use svc_downloader.Errors.{ok, live}
use svc_downloader.Store.{Badger, download}
use svc_downloader.Repository.Keys.{k_download}
use svc_downloader.Repository.Indexed.{IsIndexed}
use svc_downloader.Repository.Downloads.{get_download, update_download}
use svc_downloader.Repository.Upkeep.{updated, update_download-ok, updated_db}
use svc_downloader.Repository.Reads.{get_download-reply, get_download-update_download}
use svc_downloader.Service.State.{World, publish, map_status_to_event}
use svc_downloader.Service.Downloads.{update_status, pause, stop_run}
use svc_downloader.Service.Indexes.{modify_lem}

-- The download with its new status.
abbrev pub with_status : Time → DownloadStatus → Download → Download
with_status now status d = record d { status = status; updated_at = now }

module _ (b : Badger) where
  open b use {Db, get}

  module _ (now : Time) (id : Bytes) (status : DownloadStatus) (d : Download) (w : World Db)
      (h : IsIndexed b w.db) (named : same id [] ≡ false)
      (found : get w.db (k_download id) ≡ some (download d)) where
    abbrev pub changed_db : Db
    changed_db = updated_db b now (with_status now status d) w.db d

    stored_id : d.id ≡ id
    stored_id = (h.storable id d found).own_id

    found_own : get w.db (k_download d.id) ≡ some (download d)
    found_own = subst (λ i. get w.db (k_download i) ≡ some (download d)) (sym stored_id) found

    named_own : same d.id [] ≡ false
    named_own = subst (λ i. same i [] ≡ false) (sym stored_id) named

    same_update : updated now d (with_status now status d) ≡ with_status now status d
    same_update = rw (h.storable id d found).dated

    update_changed :
        update_download b live now (with_status now status d) w.db
        ≡ (ok (with_status now status d), changed_db)
    update_changed =
        let dated = (h.storable id d found).dated in
        subst (λ x. update_download b live now (with_status now status d) w.db ≡ (ok x, changed_db))
          same_update
          (update_download-ok b now (with_status now status d) w.db d named_own found_own dated
            (rw dated dated))

    read_found : (get_download b live id w.db).0 ≡ ok d
    read_found = get_download-reply b id w.db ∙ rw found

    pub update_status-ok : update_status b live now id status (λ x. x) w ≡ (
      ok tt,
      publish now
          (map_status_to_event status)
          (with_status now status d)
          no_data
          (record w { db = changed_db }),
    )
    unfolding update_status
    update_status-ok =
        rw (modify_lem b live now id (λ x. with_status now status x) w.db)
          (rw read_found (rw update_changed))

    pub get_download-changed :
        (x : Bytes)
        → (get_download b live x changed_db).0
          ≡ (if same x id then ok (with_status now status d) else (get_download b live x w.db).0)
    get_download-changed x =
        let before = (get_download b live x w.db).0 in
        ap (λ r. (get_download b live x r.1).0) (sym update_changed)
        ∙ get_download-update_download b now (with_status now status d) d w.db x h named_own
            found_own
        ∙ ap (λ y. if same x d.id then ok y else before) same_update
        ∙ ap (λ i. if same x i then ok (with_status now status d) else before) stored_id

  pub lookup-stop_run : (id : Bytes) (w : World Db) → lookup id (stop_run id w).cancels ≡ none
  unfolding stop_run
  lookup-stop_run id w = elim (Option-cases (lookup id w.cancels)) [
    | inl e ↦ rw e e
    | inr (run, e) ↦ rw e (lookup-remove id id w.cancels ∙ rw (same_refl id))
  ]

  pub stop_run-rest :
      (id : Bytes) (w : World Db)
      → ((stop_run id w).db ≡ w.db)
        × ((stop_run id w).events ≡ w.events)
        × ((run : ℕ) → lookup id w.cancels ≡ some run → (stop_run id w).stopped ≡ run ∷ w.stopped)
  unfolding stop_run
  stop_run-rest id w = elim (Option-cases (lookup id w.cancels)) [
    | inl e ↦ rw e (refl, refl, λ run f. cc)
    | inr (r, e) ↦
        rw e (refl, refl, λ run f. let one : r ≡ run = ground arith in ap (λ n. n ∷ w.stopped) one)
  ]

  abbrev event_of : Time → Download → DownloadEvent
  event_of now d = record { type = paused; download = d; timestamp = now; event_data = no_data }

  module _ (now : Time) (id : Bytes) (d : Download) (w : World Db) (h : IsIndexed b w.db)
      (named : same id [] ≡ false) (found : get w.db (k_download id) ≡ some (download d)) where
    abbrev halted : World Db
    halted = stop_run id w

    halted-IsIndexed : IsIndexed b halted.db
    halted-IsIndexed = subst (IsIndexed b) (sym (stop_run-rest id w).0) h

    found_halted : get halted.db (k_download id) ≡ some (download d)
    found_halted =
        subst (λ s. get s (k_download id) ≡ some (download d)) (sym (stop_run-rest id w).0) found

    abbrev paused_download : Download
    paused_download = with_status now status_paused d

    abbrev paused_db : Db
    paused_db = changed_db now id status_paused d halted halted-IsIndexed named found_halted

    pause-ok : pause b live now id w ≡ (
      ok tt,
      record halted { db = paused_db; events = halted.events ++ event_of now paused_download ∷ [] },
    )
    unfolding pause map_status_to_event same
    pause-ok = update_status-ok now id status_paused d halted halted-IsIndexed named found_halted

    -- Over an indexed store, pausing a stored download whose id is not empty succeeds: it reads back
    -- as paused, every other download as before, its run is stopped and no longer registered, and
    -- one event is published, of the paused download.
    pub pause_lem :
        let w' = (pause b live now id w).1 in
        ((pause b live now id w).0 ≡ ok tt)
        × ((x : Bytes)
            → (get_download b live x w'.db).0 ≡ (
                if same x id
                then ok (with_status now status_paused d)
                else (get_download b live x w.db).0))
        × (lookup id w'.cancels ≡ none)
        × ((run : ℕ) → lookup id w.cancels ≡ some run → w'.stopped ≡ run ∷ w.stopped)
        × (w'.events
            ≡ w.events
              ++ record {
                type = paused;
                download = with_status now status_paused d;
                timestamp = now;
                event_data = no_data;
              }
                ∷ [])
    pause_lem =
        let (same_db, same_events, stops) = stop_run-rest id w in
        rw pause-ok (
          refl,
          λ x.
              get_download-changed now id status_paused d halted halted-IsIndexed named found_halted
                x
              ∙ ap (λ s. if same x id then ok paused_download else (get_download b live x s).0)
                  same_db,
          lookup-stop_run id w,
          stops,
          ap (λ es. es ++ event_of now paused_download ∷ []) same_events,
        )
