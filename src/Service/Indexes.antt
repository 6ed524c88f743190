-- ===== src/Service/Indexes.antt =====
-- The methods that start, stop and remove downloads, and the indexes.
use svc_downloader.Common.{
  Option-cases, Bool, ap, sym, arith, ◌≡◌, ◌<◌, refl, Option, none, some, inl, inr, Bool-cases,
  is_some,
}
use svc_downloader.Common.Bytes.{Bytes}
use svc_downloader.Common.Maps.{lookup}
use svc_downloader.Models.{
  Time, Download, DownloadStatus, status_running, status_paused, status_cancelled,
}
use svc_downloader.Errors.{Result, ok, err, Context, live, cancelled}
use svc_downloader.Store.{Badger, Value, nil, download, segment, queue, stats}
use svc_downloader.Repository.Keys.{k_download}
use svc_downloader.Repository.Indexed.{IsIndexed}
use svc_downloader.Repository.Downloads.{get_download, update_download}
use svc_downloader.Repository.Invariant.{update_download-IsIndexed}
use svc_downloader.Repository.Deletion.{delete_download-IsIndexed}
use svc_downloader.RateLimit.{Limiter}
use svc_downloader.Service.State.{World, Outcome, after, on_success}
use svc_downloader.Service.Downloads.{
  start_limited, set_started, limited_to, limit_read, limit_by, remove_read, modify, update_status,
  start, pause, resume, cancel, remove_download, change, stop_run, spawn,
}

module _ (b : Badger) where
  open b use {Db, get}

  -- What a change of a download comes to: an update of what the read returns, or the read's error.
  abbrev pub modified :
      Context → Time → (Download → Download) → Result Download → Db → Result Download × Db
  modified ctx now f (ok d) db = update_download b ctx now (f d) db
  modified ctx now f (err e) db = (err e, db)

  modify_read :
      (now : Time) (id : Bytes) (f : Download → Download) (db : Db) (o : Option Value)
      → get db (k_download id) ≡ o
      → modify b live now id f db ≡ modified live now f (get_download b live id db).0 db
  unfolding modify get_download update_download
  modify_read now id f db none e = rw e
  modify_read now id f db (some (download d)) e = rw e
  modify_read now id f db (some nil) e = rw e
  modify_read now id f db (some (segment s)) e = rw e
  modify_read now id f db (some (queue q)) e = rw e
  modify_read now id f db (some (stats s)) e = rw e

  pub modify_lem :
      (ctx : Context) (now : Time) (id : Bytes) (f : Download → Download) (db : Db)
      → modify b ctx now id f db ≡ modified ctx now f (get_download b ctx id db).0 db
  modify_lem cancelled now id f db = unfold modify get_download in refl
  modify_lem live now id f db = modify_read now id f db (get db (k_download id)) refl

  modified-IsIndexed :
      (ctx : Context) (now : Time) (f : Download → Download) (r : Result Download) (db : Db)
      → 0 < now
      → IsIndexed b db
      → IsIndexed b (modified ctx now f r db).1
  modified-IsIndexed ctx now f (ok d) db p h = update_download-IsIndexed b ctx now (f d) db p h
  modified-IsIndexed ctx now f (err e) db p h = h

  modify-IsIndexed :
      (ctx : Context) (now : Time) (id : Bytes) (f : Download → Download) (db : Db)
      → 0 < now
      → IsIndexed b db
      → IsIndexed b (modify b ctx now id f db).1
  modify-IsIndexed ctx now id f db p h =
      rw (modify_lem ctx now id f db)
        (modified-IsIndexed ctx now f (get_download b ctx id db).0 db p h)

  after-IsIndexed :
      {A : Type 0} (r : Result A × Db) (f : A → World Db → World Db) (w : World Db)
      → ((a : A) (v : World Db) → (f a v).db ≡ v.db)
      → IsIndexed b r.1
      → IsIndexed b (after r f w).1.db
  after-IsIndexed (ok a, db) f w same_db h = rw (same_db a (record w { db = db })) h
  after-IsIndexed (err e, db) f w same_db h = h

  on_success-IsIndexed :
      {A : Type 0} (r : Outcome Db A) (f : World Db → World Db)
      → ((v : World Db) → (f v).db ≡ v.db)
      → IsIndexed b r.1.db
      → IsIndexed b (on_success r f).1.db
  on_success-IsIndexed (ok a, w) f same_db h = rw (same_db w) h
  on_success-IsIndexed (err e, w) f same_db h = h

  db-stop_run : (id : Bytes) (w : World Db) → (stop_run id w).db ≡ w.db
  unfolding stop_run
  db-stop_run id w = elim (Option-cases (lookup id w.cancels)) [
    | inl e ↦ rw e
    | inr (run, e) ↦ rw e
  ]

  update_status-IsIndexed :
      (ctx : Context) (now : Time) (id : Bytes) (status : DownloadStatus) (f : Download → Download)
      (w : World Db)
      → 0 < now
      → IsIndexed b w.db
      → IsIndexed b (update_status b ctx now id status f w).1.db
  unfolding update_status
  update_status-IsIndexed ctx now id status f w p h =
      after-IsIndexed _ _ w (λ a v. refl) (modify-IsIndexed ctx now id _ w.db p h)

  stopped-IsIndexed :
      (ctx : Context) (now : Time) (id : Bytes) (status : DownloadStatus) (w : World Db)
      → 0 < now
      → IsIndexed b w.db
      → IsIndexed b (update_status b ctx now id status (λ d. d) (stop_run id w)).1.db
  stopped-IsIndexed ctx now id status w p h =
      update_status-IsIndexed ctx now id status (λ d. d) (stop_run id w) p (rw (db-stop_run id w) h)

  pub change-IsIndexed :
      (ctx : Context) (now : Time) (id : Bytes) (f : Download → Download) (w : World Db)
      → 0 < now
      → IsIndexed b w.db
      → IsIndexed b (change b ctx now id f w).1.db
  unfolding change
  change-IsIndexed ctx now id f w p h =
      after-IsIndexed _ _ w (λ a v. refl) (modify-IsIndexed ctx now id f w.db p h)

  pub pause-IsIndexed :
      (ctx : Context) (now : Time) (id : Bytes) (w : World Db)
      → 0 < now
      → IsIndexed b w.db
      → IsIndexed b (pause b ctx now id w).1.db
  unfolding pause
  pause-IsIndexed ctx now id w p h = stopped-IsIndexed ctx now id status_paused w p h

  pub cancel-IsIndexed :
      (ctx : Context) (now : Time) (id : Bytes) (w : World Db)
      → 0 < now
      → IsIndexed b w.db
      → IsIndexed b (cancel b ctx now id w).1.db
  unfolding cancel
  cancel-IsIndexed ctx now id w p h = stopped-IsIndexed ctx now id status_cancelled w p h

  pub resume-IsIndexed :
      (ctx : Context) (now : Time) (id : Bytes) (w : World Db)
      → 0 < now
      → IsIndexed b w.db
      → IsIndexed b (resume b ctx now id w).1.db
  unfolding resume
  resume-IsIndexed ctx now id w p h =
      on_success-IsIndexed (update_status b ctx now id status_running (λ d. d) w) (spawn id)
        (λ v. unfold spawn in refl)
        (update_status-IsIndexed ctx now id status_running (λ d. d) w p h)

  -- A store behind the outcome of a method that may panic.
  abbrev pub OutcomeIsIndexed : Option (Outcome Db (Unit {0})) → Type 0
  OutcomeIsIndexed none = Unit
  OutcomeIsIndexed (some r) = IsIndexed b r.1.db

  start_limited-IsIndexed :
      (ctx : Context) (now : Time) (id : Bytes) (o : Option (World Db))
      → 0 < now
      → ((v : World Db) → o ≡ some v → IsIndexed b v.db)
      → OutcomeIsIndexed (start_limited b ctx now id o)
  start_limited-IsIndexed ctx now id none p h = tt
  start_limited-IsIndexed ctx now id (some v) p h =
      on_success-IsIndexed (update_status b ctx now id status_running (set_started b now) v)
        (spawn id) (λ u. unfold spawn in refl)
        (update_status-IsIndexed ctx now id status_running (set_started b now) v p (h v refl))

  db-limited_to : (w v : World Db) (o : Option Limiter) → limited_to w o ≡ some v → v.db ≡ w.db
  db-limited_to w v none e = cc
  db-limited_to w v (some l) e =
      let same_world : record w { limiter = some l } ≡ v = ground arith in
      ap (λ (x : World Db). x.db) (sym same_world)

  db-limit_read :
      (now : Time) (id : Bytes) (l : Option Limiter) (r : Result Download) (w v : World Db)
      → limit_read now id l r w ≡ some v
      → v.db ≡ w.db
  db-limit_read now id none r w v e =
      let one : w ≡ v = ground arith in ap (λ (x : World Db). x.db) (sym one)
  db-limit_read now id (some l) (err x) w v e =
      let one : w ≡ v = ground arith in ap (λ (x : World Db). x.db) (sym one)
  db-limit_read now id (some l) (ok d) w v e = db-limited_to w v (limit_by now id d.config l) e

  pub start-IsIndexed :
      (ctx : Context) (now : Time) (id : Bytes) (w : World Db)
      → 0 < now
      → IsIndexed b w.db
      → OutcomeIsIndexed (start b ctx now id w)
  unfolding start
  start-IsIndexed ctx now id w p h = elim (Bool-cases (is_some (lookup id w.cancels))) [
    | inl running ↦ rw running h
    | inr idle ↦
        let r = (get_download b ctx id w.db).0 in
        rw idle (
          start_limited-IsIndexed ctx now id (limit_read now id w.limiter r w) p
            (λ v e. rw (db-limit_read now id w.limiter r w v e) h))
  ]

  remove_read-IsIndexed :
      (ctx : Context) (now : Time) (id : Bytes) (files : Bool) (r : Result Download) (w : World Db)
      → IsIndexed b w.db
      → IsIndexed b (remove_read b ctx now id files r w).1.db
  remove_read-IsIndexed ctx now id files (err e) w h = h
  remove_read-IsIndexed ctx now id files (ok d) w h =
      after-IsIndexed _ _ w (λ a v. refl) (delete_download-IsIndexed b ctx now id w.db h)

  pub remove_download-IsIndexed :
      (ctx : Context) (now : Time) (id : Bytes) (files : Bool) (w : World Db)
      → IsIndexed b w.db
      → IsIndexed b (remove_download b ctx now id files w).1.db
  unfolding remove_download
  remove_download-IsIndexed ctx now id files w h =
      remove_read-IsIndexed ctx now id files (get_download b ctx id w.db).0 w h
