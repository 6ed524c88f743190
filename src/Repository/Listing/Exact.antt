-- ===== src/Repository/Listing/Exact.antt =====
-- Which downloads a listing returns, and how many a count counts.
use svc_downloader.Common.{
  Bool, true, false, ◌≡◌, refl, sym, ap, subst, Option, none, some, List, [], ◌∷◌, arith, inl, inr,
  Bool-cases,
}
use svc_downloader.Common.Lists.{drop}
use svc_downloader.Common.Bytes.{
  Bytes, same, same_sound, member, last_part, starts_with, starts_with_shorter, AllTexts,
  AllTexts-of-member, AllTexts-reverse, member-reverse,
}
use svc_downloader.Common.Int.{ℤ, pos_part}
use svc_downloader.Models.{Download, ListDownloadsOptions}
use svc_downloader.Errors.{ok, live}
use svc_downloader.Store.{Badger, Value, nil, download, segment, queue, stats}
use svc_downloader.Repository.Keys.{
  is_index_key, k_download, p_download_by_queue, p_download_by_status, p_download_by_created_at,
}
use svc_downloader.Repository.Indexed.{IsIndexed}
use svc_downloader.Repository.Listing.{
  directed, matches, order, list_prefix, queue_prefix, status_prefix, list_downloads,
}
use svc_downloader.Repository.Listing.Among.{
  Among, Among-append_left, Among-append_right, Among-cases, Among-drop, Among-limited, Among-order,
}
use svc_downloader.Repository.Listing.Pages.{
  hits, hit, AllReadable, IsReadable, limited, list_loop-page,
}

in_created : (k : Bytes) → starts_with k p_download_by_created_at ≡ true → is_index_key k ≡ true
unfolding is_index_key
in_created k h = ground arith

in_status : (k : Bytes) → starts_with k p_download_by_status ≡ true → is_index_key k ≡ true
unfolding is_index_key
in_status k h = ground arith

in_queue : (k : Bytes) → starts_with k p_download_by_queue ≡ true → is_index_key k ≡ true
unfolding is_index_key
in_queue k h = ground arith

-- Every listing walks an index.
list_prefix-index :
    (options : ListDownloadsOptions) (k : Bytes)
    → starts_with k (list_prefix options) ≡ true
    → is_index_key k ≡ true
unfolding list_prefix
list_prefix-index options k h = by_queue options.queue_ids options.statuses h
  where
    by_status : (ss : List Bytes) → starts_with k (status_prefix ss) ≡ true → is_index_key k ≡ true
    by_status [] e = in_created k e
    by_status (s ∷ []) e = in_status k (starts_with_shorter k p_download_by_status (b'|' ∷ s) e)
    by_status (s ∷ t ∷ ss) e = in_created k e

    by_queue :
        (qs ss : List Bytes) → starts_with k (queue_prefix qs ss) ≡ true → is_index_key k ≡ true
    by_queue [] ss e = by_status ss e
    by_queue (q ∷ []) ss e = in_queue k (starts_with_shorter k p_download_by_queue (b'|' ∷ q) e)
    by_queue (q ∷ r ∷ qs) ss e = by_status ss e

AllTexts-directed :
    (P : Bytes → Type 0) (desc : Bool) (ks : List Bytes)
    → AllTexts P ks
    → AllTexts P (directed desc ks)
AllTexts-directed P true ks h = AllTexts-reverse P ks h
AllTexts-directed P false ks h = h

pub member-directed :
    (k : Bytes) (desc : Bool) (ks : List Bytes) → member k (directed desc ks) ≡ member k ks
member-directed k true ks = member-reverse k ks
member-directed k false ks = refl

hit_sound :
    (options : ListDownloadsOptions) (o : Option Value) (d : Download)
    → Among d (hit options o)
    → (matches options d ≡ true) × (o ≡ some (download d))
hit_sound options (some (download e)) d a = elim (Bool-cases (matches options e)) [
  | inr off ↦ absurd (rw off at a)
  | inl on ↦
      let a' : Among d (e ∷ []) = rw on at a in
      elim a' [
        | inl q ↦ (subst (λ x. matches options x ≡ true) q on, ap (λ x. some (download x)) q)
        | inr none_left ↦ absurd none_left
      ]
]
hit_sound options none d a = absurd a
hit_sound options (some nil) d a = absurd a
hit_sound options (some (segment s)) d a = absurd a
hit_sound options (some (queue q)) d a = absurd a
hit_sound options (some (stats s)) d a = absurd a

module _ (b : Badger) (options : ListDownloadsOptions) (db : b.Db) (h : IsIndexed b db) where
  open b use {get, keys, member-keys}

  -- The keys in the order of the iterator.
  abbrev pub scan : List Bytes
  scan = directed options.order_desc (keys db (list_prefix options))

  stored_at :
      (k : Bytes)
      → member k (keys db (list_prefix options)) ≡ true
      → (d : Download) × (get db (k_download (last_part k)) ≡ some (download d))
  stored_at k m =
      let e = member-keys db (list_prefix options) k in
      let walked : starts_with k (list_prefix options) ≡ true = ground (arith, e) in
      let (d, at, _) = h.sound k (list_prefix-index options k walked) (ground (arith, e)) in (d, at)

  stored_at-IsReadable :
      (k : Bytes)
      → member k (keys db (list_prefix options)) ≡ true
      → IsReadable (get db (k_download (last_part k)))
  stored_at-IsReadable k m = let (d, at) = stored_at k m in rw at tt

  keys-AllReadable : AllReadable b options db (keys db (list_prefix options))
  keys-AllReadable =
      AllTexts-of-member (λ k. IsReadable (get db (k_download (last_part k))))
        (keys db (list_prefix options)) stored_at-IsReadable

  scan-AllReadable : AllReadable b options db scan
  scan-AllReadable =
      AllTexts-directed _ options.order_desc (keys db (list_prefix options)) keys-AllReadable

  -- Over an indexed store a listing succeeds and changes nothing. It returns, in the order asked for,
  -- a page of the stored downloads that pass the filters, taken in the order of the iterator: `offset`
  -- of them are passed over, and of the rest as many are kept as the limit says. A negative limit
  -- keeps all, and the limit 0 keeps one, as the limit 1 does.
  pub list_downloads-page :
      (limit offset : ℤ)
      → list_downloads b live options limit offset db
        ≡ (ok (order options (limited limit (drop (pos_part offset) (hits b options db scan)))), db)
  unfolding list_downloads
  list_downloads-page limit offset = rw (
      list_loop-page b options db scan (record { discard = offset; collect = limit; result = [] })
        scan-AllReadable)

  hits_sound :
      (ks : List Bytes) (d : Download)
      → Among d (hits b options db ks)
      → (matches options d ≡ true) × ((k : Bytes) × (get db (k_download k) ≡ some (download d)))
  hits_sound [] d a = absurd a
  hits_sound (k ∷ ks) d a =
      elim (Among-cases d (hit options (get db (k_download (last_part k)))) (hits b options db ks)
        a) [
          | inr later ↦ hits_sound ks d later
          | inl here ↦
              let (on, at) = hit_sound options (get db (k_download (last_part k))) d here in
              (on, (last_part k, at))
        ]

  pub hits_complete :
      (ks : List Bytes) (k : Bytes) (d : Download)
      → member k ks ≡ true
      → get db (k_download (last_part k)) ≡ some (download d)
      → matches options d ≡ true
      → Among d (hits b options db ks)
  unfolding member
  hits_complete [] k d m at on = cc
  hits_complete (j ∷ ks) k d m at on = elim (Bool-cases (same k j)) [
    | inl eq ↦
        let one : k ≡ j = same_sound k j eq in
        Among-append_left d _ (hits b options db ks) (
          subst (λ i. Among d (hit options (get db (k_download (last_part i))))) one
            (rw at (rw on (inl refl))))
    | inr ne ↦
        Among-append_right d (hit options (get db (k_download (last_part j))))
          (hits b options db ks) (hits_complete ks k d (ground arith) at on)
  ]

  own_entry :
      (id : Bytes) (d : Download)
      → get db (k_download id) ≡ some (download d)
      → get db (k_download d.id) ≡ some (download d)
  own_entry id d at =
      subst (λ i. get db (k_download i) ≡ some (download d)) (sym (h.storable id d at).own_id) at

  -- Whatever the page and the order, each download that a listing returns passes the filters, and
  -- it is what the store holds under its id.
  pub list_downloads_sound :
      (limit offset : ℤ) (ds : List Download) (d : Download)
      → (list_downloads b live options limit offset db).0 ≡ ok ds
      → Among d ds
      → (matches options d ≡ true) × (get db (k_download d.id) ≡ some (download d))
  list_downloads_sound limit offset ds d e a =
      let page = limited limit (drop (pos_part offset) (hits b options db scan)) in
      let this : ds ≡ order options page = ground (arith, list_downloads-page limit offset, e) in
      let in_page : Among d page = (Among-order options d page).0 (subst (Among d) this a) in
      let (on, (k, at)) =
        hits_sound scan d (Among-drop d (pos_part offset) _ (Among-limited d limit _ in_page)) in
      (on, own_entry k d at)
