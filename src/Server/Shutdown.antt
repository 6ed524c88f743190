-- ===== src/Server/Shutdown.antt =====
-- The set-up of a server and its shutdown.
use svc_downloader.Common.{◌≡◌, ◌<◌, refl, none, some, List, [], ◌∷◌, if◌then◌else◌}
use svc_downloader.Common.Bytes.{same, same_refl}
use svc_downloader.Common.Int.{ℤ, pos, ltb_ℤ}
use svc_downloader.Models.{Time, Download, Queue, default_queue_name, status_paused, status_running}
use svc_downloader.Errors.{Result, ok, err, Context, live, cancelled, context_canceled}
use svc_downloader.Store.{Badger}
use svc_downloader.RateLimit.{zero_limiter, set_limit}
use svc_downloader.Repository.Indexed.{IsIndexed}
use svc_downloader.Repository.Downloads.{update_download}
use svc_downloader.Repository.Invariant.{update_download-IsIndexed}
use svc_downloader.Repository.Listing.{list_downloads}
use svc_downloader.Repository.Queues.{get_queue, saved}
use svc_downloader.Repository.Queues.Laws.{get_queue-save_queue}
use svc_downloader.Repository.Queues.Indexes.{save_queue-IsIndexed}
use svc_downloader.Server.{
  default_queue, ensured, ensure_default_queue, new_limiter, pause_each, pause_listed,
  pause_running_downloads, shut_down,
}
use svc_downloader.Service.Workers.{with_status}

module _ (b : Badger) where
  open b use {Db}

  -- The shutdown changes nothing: the listing of the running downloads fails, because its context is
  -- the one whose end started the shutdown.
  shut_down_lem :
      (now : Time) (db : Db)
      → (pause_running_downloads b cancelled now db ≡ (err context_canceled, db))
        × (shut_down b now db ≡ db)
  unfolding shut_down list_downloads
  shut_down_lem now db = (refl, refl)

  pause_each-IsIndexed :
      (ctx : Context) (now : Time) (ds : List Download) (db : Db)
      → 0 < now
      → IsIndexed b db
      → IsIndexed b (pause_each b ctx now ds db)
  unfolding pause_each
  pause_each-IsIndexed ctx now [] db p h = h
  pause_each-IsIndexed ctx now (d ∷ ds) db p h =
      let d' = record d { status = status_paused; updated_at = now } in
      pause_each-IsIndexed ctx now ds (update_download b ctx now d' db).1 p
        (update_download-IsIndexed b ctx now d' db p h)

  pause_listed-IsIndexed :
      (ctx : Context) (now : Time) (r : Result (List Download)) (db : Db)
      → 0 < now
      → IsIndexed b db
      → IsIndexed b (pause_listed b ctx now r db).1
  pause_listed-IsIndexed ctx now (err e) db p h = h
  pause_listed-IsIndexed ctx now (ok ds) db p h = pause_each-IsIndexed ctx now ds db p h

  ensured_read :
      (now : Time) (db : Db) (r : Result Queue)
      → (get_queue b live default_queue_name db).0 ≡ r
      → (q : Queue) × ((get_queue b live default_queue_name (ensured b now r db)).0 ≡ ok q)
  ensured_read now db (ok q) e = (q, e)
  ensured_read now db (err x) e =
      let (read, _) =
        get_queue-save_queue b now default_queue db default_queue_name (unfold same in refl) in
      (saved now default_queue, rw (same_refl default_queue_name) at read)

  -- After the set-up the default queue can be read, whatever the store held under its name; a
  -- configured global limit makes the set-up of the limiter panic, and without one it does not.
  pub new_lem :
      (now : Time) (global_bps : ℤ) (db : Db)
      → ((q : Queue) × ((get_queue b live default_queue_name (ensure_default_queue b now db)).0
            ≡ ok q))
        × (new_limiter now global_bps
            ≡ (if ltb_ℤ (pos 0) global_bps then none else some zero_limiter))
  unfolding ensure_default_queue new_limiter set_limit
  new_lem now global_bps db =
      (ensured_read now db (get_queue b live default_queue_name db).0 refl, refl)

  ensured-IsIndexed :
      (now : Time) (r : Result Queue) (db : Db) → IsIndexed b db → IsIndexed b (ensured b now r db)
  ensured-IsIndexed now (ok q) db h = h
  ensured-IsIndexed now (err e) db h = save_queue-IsIndexed b live now default_queue db h

  -- The set-up and the pause of the running downloads keep the indexes in agreement.
  pub server-IsIndexed :
      (ctx : Context) (now : Time) (db : Db)
      → 0 < now
      → IsIndexed b db
      → IsIndexed b (ensure_default_queue b now db)
        × IsIndexed b (pause_running_downloads b ctx now db).1
  unfolding ensure_default_queue pause_running_downloads
  server-IsIndexed ctx now db p h = (
    ensured-IsIndexed now (get_queue b live default_queue_name db).0 db h,
    pause_listed-IsIndexed ctx now
        (list_downloads b ctx (with_status status_running []) (pos 1000) (pos 0) db).0 db p h,
  )
