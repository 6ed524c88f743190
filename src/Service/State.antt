-- ===== src/Service/State.antt =====
-- The state behind the services: the store, the running downloads, the limiter and what was published.
-- The publisher is that of internal/events, whose Publish never fails.
use svc_downloader.Common.{ℕ, Option, List, [], ◌∷◌, ◌++◌, if◌then◌else◌}
use svc_downloader.Common.Bytes.{Bytes, same}
use svc_downloader.Common.Maps.{Map}
use svc_downloader.Models.{
  Time, Download, DownloadStatus, DownloadEvent, DownloadEventType, EventData, RequestOptions,
  DownloadConfig, status_queued, status_running, status_paused, status_completed, status_failed,
  status_cancelled, enqueued, started, progress, paused, completed, failed, cancelled,
}
use svc_downloader.Errors.{Error, Result, ok, err}
use svc_downloader.RateLimit.{Limiter}

-- `cancels` names the run of a download that its cancel function belongs to. Runs are numbered in
-- the order in which they start; `stopped` are the runs whose cancel function was called.
pub record World (D : Type 0) : Type 0 where
  pub db : D
  pub cancels : Map ℕ
  pub runs : List Bytes
  pub stopped : List ℕ
  pub limiter : Option Limiter
  pub events : List DownloadEvent
  -- the calls of RemoveDownloadFiles; `none` if there is no file store
  pub removed_files : Option (List Download)

-- The validator: the error of a request or of a configuration, if it has one.
pub record Validator : Type 0 where
  pub validate_request : RequestOptions → Option Error
  pub validate_config : DownloadConfig → Option Error

-- The result of a method, and what it leaves.
abbrev pub Outcome : Type 0 → Type 0 → Type 0
Outcome D A = Result A × World D

-- What a method does after a transaction that succeeded, with its result.
abbrev pub after :
    {D A : Type 0} → Result A × D → (A → World D → World D) → World D → Outcome D (Unit {0})
after (ok a, db) f w = (ok tt, f a (record w { db = db }))
after (err e, db) f w = (err e, record w { db = db })

abbrev pub on_success : {D A : Type 0} → Outcome D A → (World D → World D) → Outcome D A
on_success (ok a, w) f = (ok a, f w)
on_success (err e, w) f = (err e, w)

-- mapStatusToEvent
unfoldable pub map_status_to_event : DownloadStatus → DownloadEventType
map_status_to_event st =
    if same st status_queued
    then enqueued
    else if same st status_running
    then started
    else if same st status_paused
    then paused
    else if same st status_completed
    then completed
    else if same st status_failed
    then failed
    else if same st status_cancelled
    then cancelled
    else progress

-- publish
abbrev pub publish :
    {D : Type 0} → Time → DownloadEventType → Download → EventData → World D → World D
publish now typ d event_data w = record w {
  events =
      w.events
      ++ record { type = typ; download = d; timestamp = now; event_data = event_data } ∷ [];
}
