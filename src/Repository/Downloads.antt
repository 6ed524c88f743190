-- ===== src/Repository/Downloads.antt =====
-- The single-download methods of repository.go: create, update, get and delete, with the upkeep of
-- the indexes. A method reads the clock once, `now`, and the caller's download is returned with the
-- fields that the method sets through the pointer.
use svc_downloader.Common.{List, [], ◌∷◌, if◌then◌else◌}
use svc_downloader.Common.Bytes.{Bytes, same}
use svc_downloader.Models.{Time, is_zero, Download}
use svc_downloader.Errors.{
  Result, ok, err, Context, not_found, key_not_found, bad_json, download_id_required,
}
use svc_downloader.Store.{
  Badger, Value, nil, download, Txn, Repo, ◌>>=◌, ◌>>◌, pure, require, check, guard, update, view,
  read, write, erase, set_all, delete_all,
}
use svc_downloader.Repository.Keys.{index_keys, time_to_key, k_download, join, p_segment}

-- json.Unmarshal into a Download.
abbrev pub download_of : Value → Result Download
download_of (download d) = ok d
download_of _ = err bad_json

-- if err == badger.ErrKeyNotFound { return errs.ErrNotFound }
abbrev pub missing : {A : Type 0} → Result A → Result A
missing (ok r) = ok r
missing (err key_not_found) = err not_found
missing (err e) = err e

abbrev pub or_not_found : {D A : Type 0} → Txn D A → Txn D A
or_not_found m db = missing (m db)

module _ (b : Badger) where
  open b use {Db, keys}

  -- indexDownload
  unfoldable pub index_download : Time → Download → Txn Db (Unit {0})
  index_download now d db = ok (tt, set_all b db (index_keys (time_to_key now d.created_at) d) nil)

  -- unindexDownload
  unfoldable pub unindex_download : Time → Download → Txn Db (Unit {0})
  unindex_download now d db =
      if is_zero d.created_at
      then ok (tt, db)
      else ok (tt, delete_all b db (index_keys (time_to_key now d.created_at) d))

  unfoldable pub delete_each : Context → List Bytes → Txn Db (Unit {0})
  delete_each ctx [] = pure tt
  delete_each ctx (k ∷ ks) = do check ctx; erase b k; delete_each ctx ks

  -- deleteByPrefix
  unfoldable pub delete_by_prefix : Context → Bytes → Txn Db (Unit {0})
  unfolding delete_each
  delete_by_prefix ctx prefix db = delete_each ctx (keys db prefix) db

  unfoldable pub create_download_txn : Context → Time → Download → Txn Db Download
  unfolding index_download
  create_download_txn ctx now d =
      let created = record d {
        created_at = if is_zero d.created_at then now else d.created_at;
        updated_at = now;
      } in
      do
        check ctx
        guard (same d.id []) download_id_required
        write b (k_download d.id) (download created)
        index_download now created
        pure created

  unfoldable pub update_download_txn : Context → Time → Download → Txn Db Download
  unfolding index_download unindex_download
  update_download_txn ctx now d = do
    check ctx
    guard (same d.id []) download_id_required
    v ← read b (k_download d.id)
    old ← require (download_of v)
    unindex_download now old
    let updated = record d {
      created_at = if is_zero d.created_at then old.created_at else d.created_at;
      updated_at = now;
    }
    write b (k_download d.id) (download updated)
    index_download now updated
    pure updated

  -- GetDownload of txRepo.
  unfoldable pub get_download_txn : Context → Bytes → Txn Db Download
  get_download_txn ctx id = do
    check ctx
    v ← or_not_found (read b (k_download id))
    require (download_of v)

  -- The body of DeleteDownload.
  unfoldable pub delete_download_txn : Context → Time → Bytes → Txn Db (Unit {0})
  unfolding unindex_download delete_by_prefix
  delete_download_txn ctx now id = do
    v ← or_not_found (read b (k_download id))
    d ← require (download_of v)
    erase b (k_download id)
    unindex_download now d
    delete_by_prefix ctx (join (p_segment ∷ d.id ∷ []))

  unfoldable pub create_download : Context → Time → Download → Repo Db Download
  unfolding create_download_txn
  create_download ctx now d = update ctx (create_download_txn ctx now d)

  unfoldable pub update_download : Context → Time → Download → Repo Db Download
  unfolding update_download_txn
  update_download ctx now d = update ctx (update_download_txn ctx now d)

  unfoldable pub get_download : Context → Bytes → Repo Db Download
  unfolding get_download_txn
  get_download ctx id = view ctx (get_download_txn ctx id)

  unfoldable pub delete_download : Context → Time → Bytes → Repo Db (Unit {0})
  unfolding delete_download_txn
  delete_download ctx now id = update ctx (delete_download_txn ctx now id)
