-- ===== src/Repository/Keys/Members.antt =====
-- Which keys are among the index keys of a download.
use svc_downloader.Common.{Bool, true, false, ◌≡◌, List, [], ◌∷◌, ◌++◌, ◌||◌, if◌then◌else◌, arith}
use svc_downloader.Common.Bytes.{Bytes, same, same_refl, member, member-append}
use svc_downloader.Models.{Download}
use svc_downloader.Repository.Keys.{
  index_keys, tag_keys, k_download_by_created_at, k_download_by_status, k_download_by_queue,
}

grouped :
    (k x : Bytes) (xs ys zs : List Bytes)
    → (member k xs || member k ys) ≡ true
    → member k (x ∷ (xs ++ (ys ++ zs))) ≡ true
unfolding member
grouped k x xs ys zs h = ground (arith, member-append k xs (ys ++ zs), member-append k ys zs)

or_right : (p q : Bool) → q ≡ true → (p || q) ≡ true
or_right p q h = ground arith

-- The three groups of keys that stand in front of those of the tags.
module _ (created : Bytes) (d : Download) where
  abbrev status_keys : List Bytes
  status_keys = if same d.status [] then [] else k_download_by_status d.status created d.id ∷ []

  abbrev queue_keys : List Bytes
  queue_keys = if same d.queue_id [] then [] else k_download_by_queue d.queue_id created d.id ∷ []

  pub member-by_created_at :
      member (k_download_by_created_at created d.id) (index_keys created d) ≡ true
  unfolding index_keys member
  member-by_created_at = rw (same_refl (k_download_by_created_at created d.id))

  in_groups :
      (k : Bytes)
      → (member k status_keys || member k queue_keys) ≡ true
      → member k (index_keys created d) ≡ true
  unfolding index_keys
  in_groups k h =
      grouped k (k_download_by_created_at created d.id) status_keys queue_keys
        (tag_keys d.tags created d.id) h

  pub member-by_status :
      same d.status [] ≡ false
      → member (k_download_by_status d.status created d.id) (index_keys created d) ≡ true
  member-by_status named =
      in_groups (k_download_by_status d.status created d.id)
        (rw named (unfold member in rw (same_refl (k_download_by_status d.status created d.id))))

  pub member-by_queue :
      same d.queue_id [] ≡ false
      → member (k_download_by_queue d.queue_id created d.id) (index_keys created d) ≡ true
  member-by_queue named = in_groups (k_download_by_queue d.queue_id created d.id) (
      rw named (
        or_right (member (k_download_by_queue d.queue_id created d.id) status_keys) _
          (unfold member in rw (same_refl (k_download_by_queue d.queue_id created d.id)))))
