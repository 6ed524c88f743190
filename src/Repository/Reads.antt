-- ===== src/Repository/Reads.antt =====
-- What GetDownload returns after a create, an update or a delete.
use svc_downloader.Common.{
  ◌<◌, true, false, ◌≡◌, refl, subst, Option, none, some, List, [], if◌then◌else◌, arith, inl, inr,
  Option-cases,
}
use svc_downloader.Common.Bytes.{Bytes, same, same_refl, member, last_part, LacksBar}
use svc_downloader.Models.{Time, is_zero, Download}
use svc_downloader.Errors.{Result, ok, err, live, not_found}
use svc_downloader.Store.{Badger, Value, nil, download, segment, queue, stats}
use svc_downloader.Repository.Keys.{is_index_key, k_download}
use svc_downloader.Repository.Indexed.{
  stored_keys, entry_value, IsIndexed, Replaces, replaced-IsIndexed,
}
use svc_downloader.Repository.Downloads.{
  download_of, get_download, create_download, update_download, delete_download,
}
use svc_downloader.Repository.Upkeep.{
  created, updated, created_db, updated_db, create_download-ok, update_download-ok,
  written-Replaces, updated-Replaces,
}
use svc_downloader.Repository.Deletion.{delete_download-ok, deleted_db, deleted-Replaces}

-- The reply of GetDownload for what stands under a key.
abbrev pub reply : Option Value → Result Download
reply none = err not_found
reply (some v) = download_of v

module _ (b : Badger) where
  open b use {Db, get}

  reads :
      (id : Bytes) (db : Db) (o : Option Value)
      → get db (k_download id) ≡ o
      → (get_download b live id db).0 ≡ reply o
  unfolding get_download
  reads id db none e = rw e
  reads id db (some (download d)) e = rw e
  reads id db (some nil) e = rw e
  reads id db (some (segment s)) e = rw e
  reads id db (some (queue q)) e = rw e
  reads id db (some (stats s)) e = rw e

  pub get_download-reply :
      (id : Bytes) (db : Db) → (get_download b live id db).0 ≡ reply (get db (k_download id))
  get_download-reply id db = reads id db (get db (k_download id)) refl

  read_replaced :
      (id x : Bytes) (entry : Option Download) (erased : List Bytes) (db db' : Db)
      → Replaces b id entry erased db db'
      → (get_download b live x db').0
        ≡ (if same x id then reply (entry_value entry) else (get_download b live x db).0)
  read_replaced id x entry erased db db' r =
      ground (arith, get_download-reply x db', get_download-reply x db, r.primary x)

  -- After a creation at a time after 0, under a fresh id that is not empty and has no bar,
  -- GetDownload returns the created download under its id, and under every other id what it returned
  -- before.
  pub get_download-create_download :
      (now : Time) (d : Download) (db : Db) (x : Bytes)
      → 0 < now
      → LacksBar d.id
      → same d.id [] ≡ false
      → get db (k_download d.id) ≡ none
      → (get_download b live x (create_download b live now d db).1).0
        ≡ (if same x d.id then ok (created now d) else (get_download b live x db).0)
  get_download-create_download now d db x p plain named fresh =
      let dated : is_zero (created now d).created_at ≡ false = ground arith in
      rw (create_download-ok b now d db named dated) (
        read_replaced d.id x (some (created now d)) [] db (created_db b now d db) (
          written-Replaces b d.id now (created now d) [] db db
            (record { own_id = refl; plain = plain; dated = dated }) (λ k m. unfold member in cc m)
            (λ old k e m. cc (e, fresh)) (λ k. unfold member in refl)))

  -- Over an indexed store, after an update of a stored download whose id is not empty, GetDownload
  -- returns the updated one under its id, with the old creation time if it was given none, and under
  -- every other id what it returned before.
  pub get_download-update_download :
      (now : Time) (d old : Download) (db : Db) (x : Bytes)
      → IsIndexed b db
      → same d.id [] ≡ false
      → get db (k_download d.id) ≡ some (download old)
      → (get_download b live x (update_download b live now d db).1).0
        ≡ (if same x d.id then ok (updated now old d) else (get_download b live x db).0)
  get_download-update_download now d old db x h named found =
      let stored = h.storable d.id old found in
      let dated : is_zero (updated now old d).created_at ≡ false = ground (arith, stored.dated) in
      rw (update_download-ok b now d db old named found stored.dated dated) (
        read_replaced d.id x (some (updated now old d)) (stored_keys old) db
          (updated_db b now d db old) (updated-Replaces b now d db old h found dated))

  -- Without its entry a download has no index key.
  no_key :
      (id k : Bytes) (db : Db)
      → IsIndexed b db
      → is_index_key k ≡ true
      → last_part k ≡ id
      → get db (k_download id) ≡ none
      → get db k ≡ none
  no_key id k db h i e gone = elim (Option-cases (get db k)) [
    | inl absent ↦ absent
    | inr (v, here) ↦
        let (d, at, m) = h.sound k i (rw here) in
        let at' : get db (k_download id) ≡ some (download d) =
          subst (λ x. get db (k_download x) ≡ some (download d)) e at in
        cc (at', gone)
  ]

  -- Over an indexed store, after the deletion of a stored download, GetDownload reports it as not
  -- found and returns under every other id what it returned before, and no index key of it is left.
  pub delete_download_lem :
      (now : Time) (id : Bytes) (d : Download) (db : Db)
      → IsIndexed b db
      → get db (k_download id) ≡ some (download d)
      → let db' = (delete_download b live now id db).1 in
        ((x : Bytes)
          → (get_download b live x db').0
            ≡ (if same x id then err not_found else (get_download b live x db).0))
        × ((k : Bytes) → is_index_key k ≡ true → last_part k ≡ id → get db' k ≡ none)
  delete_download_lem now id d db h found =
      let stored = h.storable id d found in
      let r = deleted-Replaces b now id d db found stored in
      let after = replaced-IsIndexed b id none (stored_keys d) db (deleted_db b now id d db) h r in
      rw (delete_download-ok b now id d db found stored.dated) (
        λ x. read_replaced id x none (stored_keys d) db (deleted_db b now id d db) r,
        λ k i e.
            no_key id k (deleted_db b now id d db) after i e
              (rw (r.primary id) (rw (same_refl id))),
      )
