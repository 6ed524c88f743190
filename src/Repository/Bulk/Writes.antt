-- ===== src/Repository/Bulk/Writes.antt =====
-- BulkCreateDownloads, BulkUpdateDownloads and BulkDeleteDownloads of repository.go.
use svc_downloader.Common.{ℕ, zero, suc, Option, none, some, List, [], ◌∷◌, ◌++◌, if◌then◌else◌}
use svc_downloader.Common.Lists.{length, take, drop}
use svc_downloader.Common.Bytes.{Bytes, same}
use svc_downloader.Common.Maps.{Map, lookup, insert}
use svc_downloader.Models.{Time, Download}
use svc_downloader.Errors.{Result, ok, err, Context, download_id_required}
use svc_downloader.Store.{
  Badger, Txn, Repo, ◌>>=◌, ◌>>◌, pure, require, check, guard, commit, view, read,
}
use svc_downloader.Repository.Keys.{k_download, join, p_segment}
use svc_downloader.Repository.Downloads.{download_of, unindex_download, delete_by_prefix}
use svc_downloader.Repository.Bulk.Batch.{
  Batching, new_batch, download_writes, created_in, updated_in, apply, hold, finish, go_on, live_or,
  live_unit, drop_key, Batch,
}

module _ (b : Badger) (rules : Batching) where
  open b use {Db, keys}

  unfoldable pub create_loop : Context → Time → List Download → Batch → Db → Result Batch × Db
  create_loop ctx now [] w db = (ok w, db)
  create_loop ctx now (d ∷ ds) w db =
      let d' = created_in now d in
      live_or b rules ctx db (
        if same d.id []
        then (err download_id_required, db)
        else go_on b rules (hold b rules (download_writes now d') w db) (create_loop ctx now ds))

  -- BulkCreateDownloads
  unfoldable pub bulk_create_downloads : Context → Time → List Download → Repo Db (Unit {0})
  unfolding create_loop apply
  bulk_create_downloads ctx now ds db =
      live_unit b rules ctx db (finish b rules (create_loop ctx now ds new_batch db))

  -- The first view of BulkUpdateDownloads: the map of the stored downloads.
  unfoldable pub read_olds : Context → List Download → Map Download → Txn Db (Map Download)
  read_olds ctx [] olds = pure olds
  read_olds ctx (d ∷ ds) olds = do
    check ctx
    guard (same d.id []) download_id_required
    v ← read b (k_download d.id)
    old ← require (download_of v)
    read_olds ctx ds (insert d.id old olds)

  -- A download that the map lacks is the zero Download, which has no index keys.
  abbrev pub unindex_old : Time → Option Download → Txn Db (Unit {0})
  unindex_old now none = pure tt
  unindex_old now (some old) = unindex_download b now old

  unfoldable pub unindex_olds : Context → Time → Map Download → List Download → Txn Db (Unit {0})
  unindex_olds ctx now olds [] = pure tt
  unindex_olds ctx now olds (d ∷ ds) = do
    check ctx
    unindex_old now (lookup d.id olds)
    unindex_olds ctx now olds ds

  abbrev pub next_chunk :
      Result (Unit {0}) × Db → (Db → Result (Unit {0}) × Db) → Result (Unit {0}) × Db
  next_chunk (ok u, db) f = f db
  next_chunk (err e, db) f = (err e, db)

  -- The transactions over chunks of 1000 elements; the number of elements is enough fuel.
  unfoldable pub chunks :
      {A : Type 0} → ℕ → (List A → Txn Db (Unit {0})) → List A → Repo Db (Unit {0})
  chunks zero f xs db = (ok tt, db)
  chunks (suc fuel) f [] db = (ok tt, db)
  chunks (suc fuel) f (x ∷ xs) db =
      next_chunk (commit db (f (take 1000 (x ∷ xs)) db)) (chunks fuel f (drop 1000 (x ∷ xs)))

  unfoldable pub update_loop :
      Context → Time → Map Download → List Download → Batch → Db → Result Batch × Db
  update_loop ctx now olds [] w db = (ok w, db)
  update_loop ctx now olds (d ∷ ds) w db =
      let d' = updated_in now (lookup d.id olds) d in
      live_or b rules ctx db
        (go_on b rules (hold b rules (download_writes now d') w db) (update_loop ctx now olds ds))

  abbrev pub with_olds :
      Context → Time → List Download → Result (Map Download) × Db → Result (Unit {0}) × Db
  with_olds ctx now ds (err e, db) = (err e, db)
  with_olds ctx now ds (ok olds, db) =
      next_chunk (chunks (length ds) (unindex_olds ctx now olds) ds db)
        (λ db'. finish b rules (update_loop ctx now olds ds new_batch db'))

  -- BulkUpdateDownloads
  unfoldable pub bulk_update_downloads : Context → Time → List Download → Repo Db (Unit {0})
  unfolding read_olds chunks unindex_olds update_loop apply
  bulk_update_downloads ctx now [] db = live_unit b rules ctx db (ok tt, db)
  bulk_update_downloads ctx now (d ∷ ds) db =
      live_unit b rules ctx db
        (with_olds ctx now (d ∷ ds) (view ctx (read_olds ctx (d ∷ ds) []) db))

  -- The first view of BulkDeleteDownloads.
  unfoldable pub read_each : Context → List Bytes → List Download → Txn Db (List Download)
  read_each ctx [] out = pure out
  read_each ctx (id ∷ ids) out = do
    check ctx
    guard (same id []) download_id_required
    v ← read b (k_download id)
    d ← require (download_of v)
    read_each ctx ids (out ++ d ∷ [])

  unfoldable pub unindex_deleted : Context → Time → List Download → Txn Db (Unit {0})
  unindex_deleted ctx now [] = pure tt
  unindex_deleted ctx now (d ∷ ds) = do
    check ctx
    unindex_download b now d
    delete_by_prefix b ctx (join (p_segment ∷ d.id ∷ []))
    unindex_deleted ctx now ds

  unfoldable pub delete_loop : Context → List Download → Batch → Db → Result Batch × Db
  delete_loop ctx [] w db = (ok w, db)
  delete_loop ctx (d ∷ ds) w db =
      live_or b rules ctx db
        (go_on b rules (hold b rules (drop_key (k_download d.id) ∷ []) w db) (delete_loop ctx ds))

  abbrev pub with_deleted : Context → Time → Result (List Download) × Db → Result (Unit {0}) × Db
  with_deleted ctx now (err e, db) = (err e, db)
  with_deleted ctx now (ok ds, db) =
      next_chunk (chunks (length ds) (unindex_deleted ctx now) ds db)
        (λ db'. finish b rules (delete_loop ctx ds new_batch db'))

  -- BulkDeleteDownloads
  unfoldable pub bulk_delete_downloads : Context → Time → List Bytes → Repo Db (Unit {0})
  unfolding read_each chunks unindex_deleted delete_loop apply
  bulk_delete_downloads ctx now [] db = live_unit b rules ctx db (ok tt, db)
  bulk_delete_downloads ctx now (id ∷ ids) db =
      live_unit b rules ctx db (with_deleted ctx now (view ctx (read_each ctx (id ∷ ids) []) db))
