-- ===== src/Repository/Invariant.antt =====
-- The creation and the update of a download and the agreement of the indexes with the entries.
use svc_downloader.Common.{
  ◌<◌, true, false, ◌≡◌, ◌≢◌, refl, Option, none, some, [], arith, inl, inr, Bool-cases,
}
use svc_downloader.Common.Bytes.{same, member, LacksBar}
use svc_downloader.Models.{Time, is_zero, Download}
use svc_downloader.Errors.{err, Context, live, cancelled, download_id_required}
use svc_downloader.Store.{Badger, Value, nil, download, segment, queue, stats}
use svc_downloader.Repository.Keys.{k_download}
use svc_downloader.Repository.Indexed.{stored_keys, IsIndexed, replaced-IsIndexed}
use svc_downloader.Repository.Downloads.{create_download, update_download}
use svc_downloader.Repository.Upkeep.{
  created, updated, created_db, updated_db, create_download-ok, update_download-ok,
  written-Replaces, updated-Replaces,
}

module _ (b : Badger) where
  open b use {Db, get, keys}

  create_download-unnamed :
      (now : Time) (d : Download) (db : Db)
      → same d.id [] ≡ true
      → create_download b live now d db ≡ (err download_id_required, db)
  unfolding create_download
  create_download-unnamed now d db h = rw h

  -- A creation under a fresh id without a bar, at a time after 0, keeps the indexes in agreement,
  -- whether it succeeds, is refused or finds its context cancelled.
  pub create_download-IsIndexed :
      (ctx : Context) (now : Time) (d : Download) (db : Db)
      → 0 < now
      → LacksBar d.id
      → get db (k_download d.id) ≡ none
      → IsIndexed b db
      → IsIndexed b (create_download b ctx now d db).1
  create_download-IsIndexed cancelled now d db p plain fresh h = unfold create_download in h
  create_download-IsIndexed live now d db p plain fresh h = elim (Bool-cases (same d.id [])) [
    | inl empty ↦ rw (create_download-unnamed now d db empty) h
    | inr named ↦
        let dated : is_zero (created now d).created_at ≡ false = ground arith in
        rw (create_download-ok b now d db named dated) (
          replaced-IsIndexed b d.id (some (created now d)) [] db (created_db b now d db) h (
            written-Replaces b d.id now (created now d) [] db db
              (record { own_id = refl; plain = plain; dated = dated })
              (λ k m. unfold member in cc m) (λ old k e m. cc (e, fresh))
              (λ k. unfold member in refl)))
  ]

  -- Without an id, an entry, or a download in the entry, an update changes nothing.
  update_download-unnamed :
      (now : Time) (d : Download) (db : Db)
      → same d.id [] ≡ true
      → update_download b live now d db ≡ (err download_id_required, db)
  unfolding update_download
  update_download-unnamed now d db h = rw h

  update_download-refused :
      (now : Time) (d : Download) (db : Db) (o : Option Value)
      → same d.id [] ≡ false
      → get db (k_download d.id) ≡ o
      → ((old : Download) → o ≢ some (download old))
      → (update_download b live now d db).1 ≡ db
  unfolding update_download
  update_download-refused now d db none n e h = rw n (rw e)
  update_download-refused now d db (some nil) n e h = rw n (rw e)
  update_download-refused now d db (some (segment s)) n e h = rw n (rw e)
  update_download-refused now d db (some (queue q)) n e h = rw n (rw e)
  update_download-refused now d db (some (stats s)) n e h = rw n (rw e)
  update_download-refused now d db (some (download old)) n e h = absurd (h old refl)

  updated-IsIndexed :
      (now : Time) (d old : Download) (db : Db)
      → 0 < now
      → same d.id [] ≡ false
      → get db (k_download d.id) ≡ some (download old)
      → IsIndexed b db
      → IsIndexed b (update_download b live now d db).1
  updated-IsIndexed now d old db p named found h =
      let ok_old = h.storable d.id old found in
      let dated : is_zero (updated now old d).created_at ≡ false = ground (arith, ok_old.dated) in
      rw (update_download-ok b now d db old named found ok_old.dated dated) (
        replaced-IsIndexed b d.id (some (updated now old d)) (stored_keys old) db
          (updated_db b now d db old) h (updated-Replaces b now d db old h found dated))

  -- An update at a time after 0 keeps the indexes in agreement, whatever the download that it is
  -- given.
  pub update_download-IsIndexed :
      (ctx : Context) (now : Time) (d : Download) (db : Db)
      → 0 < now
      → IsIndexed b db
      → IsIndexed b (update_download b ctx now d db).1
  update_download-IsIndexed cancelled now d db p h = unfold update_download in h
  update_download-IsIndexed live now d db p h = elim (Bool-cases (same d.id [])) [
    | inl empty ↦ rw (update_download-unnamed now d db empty) h
    | inr named ↦ on_entry (get db (k_download d.id)) refl named
  ]
    where
      refused :
          (o : Option Value)
          → get db (k_download d.id) ≡ o
          → same d.id [] ≡ false
          → ((old : Download) → o ≢ some (download old))
          → IsIndexed b (update_download b live now d db).1
      refused o e n ne = rw (update_download-refused now d db o n e ne) h

      on_entry :
          (o : Option Value)
          → get db (k_download d.id) ≡ o
          → same d.id [] ≡ false
          → IsIndexed b (update_download b live now d db).1
      on_entry (some (download old)) e n = updated-IsIndexed now d old db p n e h
      on_entry none e n = refused none e n (λ old q. cc)
      on_entry (some nil) e n = refused (some nil) e n (λ old q. cc)
      on_entry (some (segment s)) e n = refused (some (segment s)) e n (λ old q. cc)
      on_entry (some (queue s)) e n = refused (some (queue s)) e n (λ old q. cc)
      on_entry (some (stats s)) e n = refused (some (stats s)) e n (λ old q. cc)
