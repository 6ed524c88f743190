-- ===== src/Repository/Deletion.antt =====
-- The deletion of a download and the agreement of the indexes with the entries.
use svc_downloader.Common.{
  true, false, ◌≡◌, ◌≢◌, refl, subst, Option, none, some, List, [], ◌∷◌, if◌then◌else◌, arith,
}
use svc_downloader.Common.Bytes.{Bytes, same, member, starts_with}
use svc_downloader.Models.{Time, is_zero, Download}
use svc_downloader.Errors.{ok, Context, live, cancelled}
use svc_downloader.Store.{Badger, Value, nil, download, segment, queue, stats, delete_all}
use svc_downloader.Store.Laws.{get-delete_all}
use svc_downloader.Repository.Keys.{time_to_key, is_index_key, k_download, p_segment, join}
use svc_downloader.Repository.Keys.Owner.{BelongsTo, index_keys-BelongsTo}
use svc_downloader.Repository.Indexed.{
  stored_keys, IsStorable, IsIndexed, Replaces, replaced-IsIndexed,
}
use svc_downloader.Repository.Downloads.{delete_download, delete_each}
use svc_downloader.Repository.Upkeep.{
  same-k_download, dated_key, k_download-not-member, index-ne-k_download,
}

pub index-ne-segment :
    (k rest : Bytes) → is_index_key k ≡ true → starts_with k (b's' ∷ rest) ≡ false
unfolding is_index_key
index-ne-segment [] rest i = refl
index-ne-segment (c ∷ k) rest i = ground arith

module _ (b : Badger) where
  open b use {Db, get, keys, get-delete, member-keys}

  pub delete_each-live :
      (ks : List Bytes) (db : Db) → delete_each b live ks db ≡ ok (tt, delete_all b db ks)
  unfolding delete_each
  delete_each-live [] db = refl
  delete_each-live (k ∷ ks) db = delete_each-live ks (b.delete db k)

  abbrev pub segment_prefix : Bytes → Bytes
  segment_prefix id = join (p_segment ∷ id ∷ [])

  module _ (now : Time) (id : Bytes) (d : Download) (db : Db) where
    abbrev unindexed : Db
    unindexed = delete_all b (b.delete db (k_download id)) (stored_keys d)

    abbrev pub deleted_db : Db
    deleted_db = delete_all b unindexed (keys unindexed (segment_prefix d.id))

    pub delete_download-ok :
        get db (k_download id) ≡ some (download d)
        → is_zero d.created_at ≡ false
        → delete_download b live now id db ≡ (ok tt, deleted_db)
    unfolding delete_download
    delete_download-ok found dated = rw found (
        rw dated (
          rw (dated_key now d dated)
            (rw (delete_each-live (keys unindexed (segment_prefix d.id)) unindexed))))

    get-deleted_db :
        (k : Bytes)
        → starts_with k (segment_prefix d.id) ≡ false
        → get deleted_db k ≡ (
            if member k (stored_keys d)
            then none
            else if same (k_download id) k
            then none
            else get db k)
    get-deleted_db k other =
        let segments = keys unindexed (segment_prefix d.id) in
        let spared : member k segments ≡ false =
          rw (member-keys unindexed (segment_prefix d.id) k, other) in
        ground (
          arith,
          spared,
          get-delete_all b unindexed segments k,
          get-delete_all b (b.delete db (k_download id)) (stored_keys d) k,
          get-delete db (k_download id) k,
        )

    pub deleted-Replaces :
        get db (k_download id) ≡ some (download d)
        → IsStorable id d
        → Replaces b id none (stored_keys d) db deleted_db
    unfolding member starts_with
    deleted-Replaces found storable =
        let own : (k : Bytes) → member k (stored_keys d) ≡ true → BelongsTo id k = λ k m.
          subst (λ i. BelongsTo i k) storable.own_id
            (index_keys-BelongsTo (time_to_key 0 d.created_at) d k storable.plain m) in
        record {
          primary = λ x. ground (
            arith,
            get-deleted_db (k_download x) refl,
            same-k_download id x,
            k_download-not-member id x (stored_keys d) own,
          );
          index = λ k i. ground (
            arith,
            get-deleted_db k (index-ne-segment k (b'|' ∷ b'|' ∷ d.id) i),
            index-ne-k_download id k i,
          );
          entry_ok = tt;
          own = own;
          covers = λ other k e m.
              let one : other ≡ d = ground (arith, found, e) in
              subst (λ (x : Download). member k (stored_keys x) ≡ true) one m;
        }

  delete_download-refused :
      (now : Time) (id : Bytes) (db : Db) (o : Option Value)
      → get db (k_download id) ≡ o
      → ((d : Download) → o ≢ some (download d))
      → (delete_download b live now id db).1 ≡ db
  unfolding delete_download
  delete_download-refused now id db none e h = rw e
  delete_download-refused now id db (some nil) e h = rw e
  delete_download-refused now id db (some (segment s)) e h = rw e
  delete_download-refused now id db (some (queue q)) e h = rw e
  delete_download-refused now id db (some (stats s)) e h = rw e
  delete_download-refused now id db (some (download d)) e h = absurd (h d refl)

  -- A deletion keeps the indexes in agreement, whether it succeeds, finds no download or finds its
  -- context cancelled.
  pub delete_download-IsIndexed :
      (ctx : Context) (now : Time) (id : Bytes) (db : Db)
      → IsIndexed b db
      → IsIndexed b (delete_download b ctx now id db).1
  delete_download-IsIndexed cancelled now id db h = unfold delete_download in h
  delete_download-IsIndexed live now id db h = on_entry (get db (k_download id)) refl
    where
      refused :
          (o : Option Value)
          → get db (k_download id) ≡ o
          → ((d : Download) → o ≢ some (download d))
          → IsIndexed b (delete_download b live now id db).1
      refused o e ne = rw (delete_download-refused now id db o e ne) h

      on_entry :
          (o : Option Value)
          → get db (k_download id) ≡ o
          → IsIndexed b (delete_download b live now id db).1
      on_entry (some (download d)) e =
          let storable = h.storable id d e in
          rw (delete_download-ok now id d db e storable.dated) (
            replaced-IsIndexed b id none (stored_keys d) db (deleted_db now id d db) h
              (deleted-Replaces now id d db e storable))
      on_entry none e = refused none e (λ old q. cc)
      on_entry (some nil) e = refused (some nil) e (λ old q. cc)
      on_entry (some (segment s)) e = refused (some (segment s)) e (λ old q. cc)
      on_entry (some (queue s)) e = refused (some (queue s)) e (λ old q. cc)
      on_entry (some (stats s)) e = refused (some (stats s)) e (λ old q. cc)
