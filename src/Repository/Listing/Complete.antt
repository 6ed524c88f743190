-- ===== src/Repository/Listing/Complete.antt =====
-- Which stored downloads a listing without a limit and an offset contains.
use svc_downloader.Common.{true, false, ◌↔◌, ◌≡◌, sym, ◌∙◌, subst, some, List, [], ◌∷◌, ◌++◌, arith}
use svc_downloader.Common.Bytes.{
  Bytes, same, same_sound, member, last_part, starts_with, starts_with-append,
}
use svc_downloader.Common.Int.{pos, negsuc}
use svc_downloader.Models.{Download, ListDownloadsOptions}
use svc_downloader.Errors.{ok, live}
use svc_downloader.Store.{Badger, download}
use svc_downloader.Repository.Keys.{
  time_to_key, k_download, k_download_by_queue, k_download_by_status, k_download_by_created_at,
  p_download_by_queue, p_download_by_status, p_download_by_created_at,
}
use svc_downloader.Repository.Keys.Owner.{index_keys-BelongsTo}
use svc_downloader.Repository.Keys.Members.{member-by_created_at, member-by_status, member-by_queue}
use svc_downloader.Repository.Indexed.{IsIndexed, stored_keys}
use svc_downloader.Repository.Listing.{
  matches, one_of, order, list_prefix, queue_prefix, status_prefix, list_downloads,
}
use svc_downloader.Repository.Listing.Among.{Among, Among-order}
use svc_downloader.Repository.Listing.Pages.{hits}
use svc_downloader.Repository.Listing.Exact.{
  list_downloads-page, list_downloads_sound, hits_complete, scan, member-directed,
}

-- A listing by one value walks the keys that begin with the value.
one_of-single : (v w : Bytes) → one_of (v ∷ []) w ≡ true → w ≡ v
unfolding member
one_of-single v w h = same_sound w v (ground arith)

under_queue :
    (q created id : Bytes)
    → starts_with (k_download_by_queue q created id) (p_download_by_queue ++ b'|' ∷ q) ≡ true
unfolding starts_with
under_queue q created id = starts_with-append q (b'|' ∷ (created ++ b'|' ∷ id))

under_status :
    (s created id : Bytes)
    → starts_with (k_download_by_status s created id) (p_download_by_status ++ b'|' ∷ s) ≡ true
unfolding starts_with
under_status s created id = starts_with-append s (b'|' ∷ (created ++ b'|' ∷ id))

under_created_at :
    (created id : Bytes)
    → starts_with (k_download_by_created_at created id) p_download_by_created_at ≡ true
unfolding starts_with
under_created_at created id = starts_with-append [] (created ++ b'|' ∷ id)

-- A key of the download that the listing walks over.
abbrev Walked : Bytes → Download → Type 0
Walked prefix d = (k : Bytes) × (member k (stored_keys d) ≡ true) × (starts_with k prefix ≡ true)

module _ (d : Download) (in_queue : same d.queue_id [] ≡ false)
    (has_status : same d.status [] ≡ false) where
  abbrev created : Bytes
  created = time_to_key 0 d.created_at

  status_prefix-Walked : (ss : List Bytes) → one_of ss d.status ≡ true → Walked (status_prefix ss) d
  status_prefix-Walked [] on = (
    k_download_by_created_at created d.id,
    member-by_created_at created d,
    under_created_at created d.id,
  )
  status_prefix-Walked (s ∷ t ∷ ss) on = (
    k_download_by_created_at created d.id,
    member-by_created_at created d,
    under_created_at created d.id,
  )
  status_prefix-Walked (s ∷ []) on =
      subst (λ v. Walked (status_prefix (v ∷ [])) d) (one_of-single s d.status on)
        (
          k_download_by_status d.status created d.id,
          member-by_status created d has_status,
          under_status d.status created d.id,
        )

  queue_prefix-Walked :
      (qs ss : List Bytes)
      → one_of qs d.queue_id ≡ true
      → one_of ss d.status ≡ true
      → Walked (queue_prefix qs ss) d
  queue_prefix-Walked [] ss on on' = status_prefix-Walked ss on'
  queue_prefix-Walked (q ∷ r ∷ qs) ss on on' = status_prefix-Walked ss on'
  queue_prefix-Walked (q ∷ []) ss on on' =
      subst (λ v. Walked (queue_prefix (v ∷ []) ss) d) (one_of-single q d.queue_id on)
        (
          k_download_by_queue d.queue_id created d.id,
          member-by_queue created d in_queue,
          under_queue d.queue_id created d.id,
        )

  walked :
      (options : ListDownloadsOptions) → matches options d ≡ true → Walked (list_prefix options) d
  unfolding matches list_prefix
  walked options on =
      queue_prefix-Walked options.queue_ids options.statuses (ground arith) (ground arith)

module _ (b : Badger) (options : ListDownloadsOptions) (db : b.Db) (h : IsIndexed b db) where
  open b use {get, keys, member-keys}

  -- A stored download that has a queue and a status and that passes the filters is in the listing
  -- without a limit, whichever index is walked and whatever the order.
  list_downloads_complete :
      (id : Bytes) (d : Download) (ds : List Download)
      → get db (k_download id) ≡ some (download d)
      → same d.queue_id [] ≡ false
      → same d.status [] ≡ false
      → matches options d ≡ true
      → (list_downloads b live options (negsuc 0) (pos 0) db).0 ≡ ok ds
      → Among d ds
  list_downloads_complete id d ds at queued named on e =
      let all = hits b options db (scan b options db h) in
      let this : ds ≡ order options all =
        ground (arith, list_downloads-page b options db h (negsuc 0) (pos 0), e) in
      let storable = h.storable id d at in
      let (k, mine, under) = walked d queued named options on in
      let belongs = index_keys-BelongsTo (time_to_key 0 d.created_at) d k storable.plain mine in
      let visited : member k (keys db (list_prefix options)) ≡ true =
        ground (arith, member-keys db (list_prefix options) k, h.complete id d k at mine) in
      let in_scan : member k (scan b options db h) ≡ true =
        member-directed k options.order_desc (keys db (list_prefix options)) ∙ visited in
      let at' : get db (k_download (last_part k)) ≡ some (download d) =
        subst (λ i. get db (k_download i) ≡ some (download d))
          (sym (belongs.owner ∙ storable.own_id)) at in
      let found : Among d all =
        hits_complete b options db h (scan b options db h) k d in_scan at' on in
      subst (Among d) (sym this) ((Among-order options d all).1 found)

  -- Over an indexed store, a listing without a limit and an offset contains, of the downloads with a
  -- queue and a status, exactly those that are stored under their id and pass the filters.
  pub list_downloads_exact :
      (d : Download) (ds : List Download)
      → same d.queue_id [] ≡ false
      → same d.status [] ≡ false
      → (list_downloads b live options (negsuc 0) (pos 0) db).0 ≡ ok ds
      → (Among d ds ↔ ((matches options d ≡ true) × (get db (k_download d.id) ≡ some (download d))))
  list_downloads_exact d ds queued named e = (
    list_downloads_sound b options db h (negsuc 0) (pos 0) ds d e,
    λ x. list_downloads_complete d.id d ds x.1 queued named x.0 e,
  )
