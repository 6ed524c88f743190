-- ===== src/Service/Updated.antt =====
-- The methods that change fields of a download, the enqueueing of a new one, and the indexes.
use svc_downloader.Common.{List, ◌≡◌, ◌<◌, Option, none, some, inl, inr, Bool-cases}
use svc_downloader.Common.Bytes.{Bytes, LacksBar}
use svc_downloader.Common.Int.{ℤ}
use svc_downloader.Models.{Time, Download, DownloadConfig, RequestOptions, EnqueueDownloadRequest}
use svc_downloader.Errors.{Error, Result, ok, err, Context}
use svc_downloader.Store.{Badger}
use svc_downloader.Repository.Keys.{k_download}
use svc_downloader.Repository.Indexed.{IsIndexed}
use svc_downloader.Repository.Downloads.{create_download}
use svc_downloader.Repository.Invariant.{create_download-IsIndexed}
use svc_downloader.Service.State.{World, Validator, Outcome}
use svc_downloader.Service.Downloads.{
  valid, enqueue_created, enqueue_valid, lacks_url, requested, new_download, enqueue, update_config,
  update_request, set_priority, add_download_tags, remove_download_tags, assign_queue,
}
use svc_downloader.Service.Indexes.{change-IsIndexed}

module _ (b : Badger) where
  open b use {Db, get}

  valid-IsIndexed :
      (o : Option Error) (w : World Db) (r : Outcome Db (Unit {0}))
      → IsIndexed b w.db
      → IsIndexed b r.1.db
      → IsIndexed b (valid b o w r).1.db
  valid-IsIndexed (some e) w r h h' = h
  valid-IsIndexed none w r h h' = h'

  pub update_config-IsIndexed :
      (v : Validator) (ctx : Context) (now : Time) (id : Bytes) (cfg : DownloadConfig)
      (w : World Db)
      → 0 < now
      → IsIndexed b w.db
      → IsIndexed b (update_config b v ctx now id cfg w).1.db
  unfolding update_config
  update_config-IsIndexed v ctx now id cfg w p h =
      valid-IsIndexed (v.validate_config cfg) w _ h (change-IsIndexed b ctx now id _ w p h)

  pub update_request-IsIndexed :
      (v : Validator) (ctx : Context) (now : Time) (id : Bytes) (req : RequestOptions)
      (w : World Db)
      → 0 < now
      → IsIndexed b w.db
      → IsIndexed b (update_request b v ctx now id req w).1.db
  unfolding update_request
  update_request-IsIndexed v ctx now id req w p h =
      valid-IsIndexed (v.validate_request req) w _ h (change-IsIndexed b ctx now id _ w p h)

  pub set_priority-IsIndexed :
      (ctx : Context) (now : Time) (id : Bytes) (priority : ℤ) (w : World Db)
      → 0 < now
      → IsIndexed b w.db
      → IsIndexed b (set_priority b ctx now id priority w).1.db
  unfolding set_priority
  set_priority-IsIndexed ctx now id priority w p h = change-IsIndexed b ctx now id _ w p h

  pub add_download_tags-IsIndexed :
      (ctx : Context) (now : Time) (id : Bytes) (tags : List Bytes) (w : World Db)
      → 0 < now
      → IsIndexed b w.db
      → IsIndexed b (add_download_tags b ctx now id tags w).1.db
  unfolding add_download_tags
  add_download_tags-IsIndexed ctx now id tags w p h = change-IsIndexed b ctx now id _ w p h

  pub remove_download_tags-IsIndexed :
      (ctx : Context) (now : Time) (id : Bytes) (tags : List Bytes) (w : World Db)
      → 0 < now
      → IsIndexed b w.db
      → IsIndexed b (remove_download_tags b ctx now id tags w).1.db
  unfolding remove_download_tags
  remove_download_tags-IsIndexed ctx now id tags w p h = change-IsIndexed b ctx now id _ w p h

  pub assign_queue-IsIndexed :
      (ctx : Context) (now : Time) (id : Bytes) (queue_id : Bytes) (w : World Db)
      → 0 < now
      → IsIndexed b w.db
      → IsIndexed b (assign_queue b ctx now id queue_id w).1.db
  unfolding assign_queue
  assign_queue-IsIndexed ctx now id queue_id w p h = change-IsIndexed b ctx now id _ w p h

  created-IsIndexed :
      (now : Time) (d : Download) (r : Result Download × Db) (w : World Db)
      → IsIndexed b r.1
      → IsIndexed b (enqueue_created b now d r w).1.db
  created-IsIndexed now d (ok x, db) w h = h
  created-IsIndexed now d (err e, db) w h = h

  enqueue_valid-IsIndexed :
      (o : Option Error) (ctx : Context) (now : Time) (d : Download) (w : World Db)
      → 0 < now
      → LacksBar d.id
      → get w.db (k_download d.id) ≡ none
      → IsIndexed b w.db
      → IsIndexed b (enqueue_valid b o ctx now d w).1.db
  enqueue_valid-IsIndexed (some e) ctx now d w p plain fresh h = h
  enqueue_valid-IsIndexed none ctx now d w p plain fresh h =
      created-IsIndexed now d (create_download b ctx now d w.db) w
        (create_download-IsIndexed b ctx now d w.db p plain fresh h)

  pub enqueue-IsIndexed :
      (v : Validator) (ctx : Context) (now : Time) (id : Bytes) (req : EnqueueDownloadRequest)
      (w : World Db)
      → 0 < now
      → LacksBar id
      → get w.db (k_download id) ≡ none
      → IsIndexed b w.db
      → IsIndexed b (enqueue b v ctx now id req w).1.db
  unfolding enqueue
  enqueue-IsIndexed v ctx now id req w p plain fresh h =
      elim (Bool-cases (lacks_url req.url req.request)) [
        | inl empty ↦ rw empty h
        | inr full ↦
            let r = requested req.url req.request in
            rw full (
              enqueue_valid-IsIndexed (v.validate_request r) ctx now (new_download id now r req) w p
                plain fresh h)
      ]
