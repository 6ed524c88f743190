-- ===== src/Service/Enqueue.antt =====
-- What Enqueue stores, answers and publishes.
use svc_downloader.Common.{
  ◌≡◌, ◌<◌, refl, sym, ap, ◌∙◌, subst, false, none, [], ◌∷◌, ◌++◌, if◌then◌else◌, arith,
}
use svc_downloader.Common.Bytes.{Bytes, same, LacksBar}
use svc_downloader.Models.{
  Time, is_zero, Download, EnqueueDownloadRequest, status_queued, enqueued, no_data,
}
use svc_downloader.Errors.{ok, live}
use svc_downloader.Store.{Badger}
use svc_downloader.Repository.Keys.{k_download}
use svc_downloader.Repository.Downloads.{get_download, create_download}
use svc_downloader.Repository.Upkeep.{created, created_db, create_download-ok}
use svc_downloader.Repository.Reads.{get_download-create_download}
use svc_downloader.Service.State.{World, Validator, publish}
use svc_downloader.Service.Downloads.{enqueue, lacks_url, requested, new_download}

module _ (b : Badger) (v : Validator) (now : Time) (id : Bytes) (req : EnqueueDownloadRequest)
    (w : World b.Db) (p : 0 < now) (named : same id [] ≡ false) (plain : LacksBar id)
    (fresh : b.get w.db (k_download id) ≡ none) (given : lacks_url req.url req.request ≡ false)
    (valid : v.validate_request (requested req.url req.request) ≡ none) where
  open b use {Db, get}

  abbrev download_of : Download
  download_of = new_download id now (requested req.url req.request) req

  dated : is_zero now ≡ false
  dated = ground arith

  create_new :
      create_download b live now download_of w.db
      ≡ (ok download_of, created_db b now download_of w.db)
  create_new =
      let same_one : created now download_of ≡ download_of = rw dated in
      subst
        (λ x.
          create_download b live now download_of w.db ≡ (ok x, created_db b now download_of w.db))
        same_one (create_download-ok b now download_of w.db named (rw dated dated))

  enqueue-ok : enqueue b v live now id req w ≡ (
    ok (record { id = id; queue_id = download_of.queue_id; status = status_queued }),
    publish now enqueued download_of no_data (record w { db = created_db b now download_of w.db }),
  )
  unfolding enqueue
  enqueue-ok = rw given (rw valid (rw create_new))

  -- At a time after 0, a valid request with a URL is accepted under a fresh identifier that is not
  -- empty and has no bar: the answer names it, the queue (the default one if none is given) and the
  -- status; GetDownload then returns the queued download of the request, and every other download as
  -- before; one event is published, and no run started.
  pub enqueue_lem :
      let d = new_download id now (requested req.url req.request) req in
      let w' = (enqueue b v live now id req w).1 in
      ((enqueue b v live now id req w).0
        ≡ ok (record { id = id; queue_id = d.queue_id; status = status_queued }))
      × ((x : Bytes)
          → (get_download b live x w'.db).0
            ≡ (if same x id then ok d else (get_download b live x w.db).0))
      × (w'.events
          ≡ w.events
            ++ record { type = enqueued; download = d; timestamp = now; event_data = no_data } ∷ [])
      × (w'.runs ≡ w.runs)
  enqueue_lem = rw enqueue-ok (
    refl,
    λ x.
        let same_one : created now download_of ≡ download_of = rw dated in
        ap (λ r. (get_download b live x r.1).0) (sym create_new)
        ∙ get_download-create_download b now download_of w.db x p plain named fresh
        ∙ ap (λ d. if same x id then ok d else (get_download b live x w.db).0) same_one,
    refl,
    refl,
  )
