-- ===== src/Repository/Bulk/Reach.antt =====
-- Which downloads the bulk methods on a queue reach.
use svc_downloader.Repository.Bulk.Batch.{Batching}
use svc_downloader.Common.{
  ◌≡◌, sym, ap, ◌∙◌, subst, true, false, ◌||◌, some, List, [], ◌∷◌, ◌++◌, append_assoc, append-nil,
  map, is_some, arith, inl, inr, Bool-cases,
}
use svc_downloader.Common.Lists.{length, drop}
use svc_downloader.Common.Bytes.{
  Bytes, same, same_sound, same_refl, member, last_part, starts_with, starts_with-append,
  starts_with_sound,
}
use svc_downloader.Models.{Download}
use svc_downloader.Errors.{ok, live}
use svc_downloader.Store.{Badger, download, view}
use svc_downloader.Repository.Keys.{
  k_download, k_download_by_queue, time_to_key, p_download_by_queue,
}
use svc_downloader.Repository.Keys.Owner.{index_keys-BelongsTo}
use svc_downloader.Repository.Keys.Members.{member-by_queue}
use svc_downloader.Repository.Indexed.{IsIndexed, stored_keys}
use svc_downloader.Repository.Bulk.ByQueue.{queue_prefix, collect_ids}

starts_with_longer : (s p r : Bytes) → starts_with s p ≡ true → starts_with (s ++ r) p ≡ true
starts_with_longer s p r h =
    let e : p ++ (drop (length p) s ++ r) ≡ s ++ r =
      sym (append_assoc p (drop (length p) s) r)
      ∙ ap (λ x. x ++ r) (sym (starts_with_sound s p h)) in
    subst (λ x. starts_with x p ≡ true) e (starts_with-append p (drop (length p) s ++ r))

member-map :
    (k : Bytes) (ks : List Bytes)
    → member k ks ≡ true
    → member (last_part k) (map last_part ks) ≡ true
unfolding member
member-map k [] m = cc
member-map k (j ∷ ks) m = elim (Bool-cases (same k j)) [
  | inl eq ↦
      subst
        (λ i. (same (last_part k) (last_part i) || member (last_part k) (map last_part ks)) ≡ true)
        (same_sound k j eq) (rw (same_refl (last_part k)))
  | inr ne ↦ ground (arith, member-map k ks, m, ne)
]

module _ (b : Badger) (rules : Batching) where
  open b use {Db, get, keys, member-keys}

  collect_ids-live :
      (ks ids : List Bytes) (db : Db)
      → collect_ids b rules live ks ids db ≡ ok (ids ++ map last_part ks, db)
  unfolding collect_ids
  collect_ids-live [] ids db = rw append-nil
  collect_ids-live (k ∷ ks) ids db =
      collect_ids-live ks (ids ++ last_part k ∷ []) db
      ∙ ap (λ (x : List Bytes). ok (x, db)) (append_assoc ids (last_part k ∷ []) (map last_part ks))

  -- The identifiers that BulkDeleteDownloadsByQueueID collects contain that of every stored download whose
  -- queue's identifier only begins with the given one, because the prefix of the iterator does not
  -- end with a separator.
  pub collect_ids_lem :
      (queue_id id : Bytes) (d : Download) (db : Db)
      → IsIndexed b db
      → get db (k_download id) ≡ some (download d)
      → same d.queue_id [] ≡ false
      → starts_with d.queue_id queue_id ≡ true
      → let ids = map last_part (keys db (queue_prefix b rules queue_id)) in
        (view live (λ s. collect_ids b rules live (keys s (queue_prefix b rules queue_id)) [] s) db
          ≡ (ok ids, db))
        × (member id ids ≡ true)
  collect_ids_lem queue_id id d db h found queued begins =
      let created = time_to_key 0 d.created_at in
      let k = k_download_by_queue d.queue_id created d.id in
      let stored = h.storable id d found in
      let m : member k (stored_keys d) ≡ true = member-by_queue created d queued in
      let here : is_some (get db k) ≡ true = h.complete id d k found m in
      let owned = index_keys-BelongsTo created d k stored.plain m in
      let walked : starts_with k (queue_prefix b rules queue_id) ≡ true =
        under d.queue_id (b'|' ∷ (created ++ b'|' ∷ d.id)) begins in
      let listed : member k (keys db (queue_prefix b rules queue_id)) ≡ true =
        ground (arith, member-keys db (queue_prefix b rules queue_id) k, here, walked) in
      (
        rw (collect_ids-live (keys db (queue_prefix b rules queue_id)) [] db),
        subst (λ i. member i (map last_part (keys db (queue_prefix b rules queue_id))) ≡ true)
            (owned.owner ∙ stored.own_id)
            (member-map k (keys db (queue_prefix b rules queue_id)) listed),
      )
    where
      under :
          (q rest : Bytes)
          → starts_with q queue_id ≡ true
          → starts_with (p_download_by_queue ++ b'|' ∷ (q ++ rest)) (queue_prefix b rules queue_id)
            ≡ true
      under q rest begins' =
          unfold queue_prefix starts_with in starts_with_longer q queue_id rest begins'
