-- ===== src/Repository/Listing.antt =====
-- ListDownloads and CountDownloads of repository.go: the iterator over an index, the filters, the page
-- and the order. sort.Slice is an insertion sort, which leaves ties in the order of the iterator.
pub mod Pages
pub mod Among
pub mod Exact
pub mod Complete
pub mod Count
use svc_downloader.Common.{
  ℕ, Bool, true, false, not, ◌&&◌, ◌||◌, Option, none, some, List, [], ◌∷◌, ◌++◌, if◌then◌else◌,
  ltb,
}
use mathlib.Core.List.{reverse}
use svc_downloader.Common.Bytes.{
  Bytes, codes, same, member, to_lower, equal_fold, contains, last_part,
}
use svc_downloader.Common.Int.{ℤ, pos, ◌+ℤ◌, ◌-ℤ◌, ltb_ℤ, eq_ℤ}
use svc_downloader.Models.{Time, Download, FileOptions, ListDownloadsOptions}
use svc_downloader.Errors.{
  Result, ok, err, Error, Context, live, cancelled, context_canceled, key_not_found,
}
use svc_downloader.Store.{Badger, Value, download, Txn, Repo, view}
use svc_downloader.Repository.Keys.{
  join, p_download_by_queue, p_download_by_status, p_download_by_created_at, k_download,
}
use svc_downloader.Repository.Downloads.{download_of}

-- The prefix of the iterator: the separator that bytes.Join puts last is cut off again.
abbrev pub status_prefix : List Bytes → Bytes
status_prefix (s ∷ []) = join (p_download_by_status ∷ s ∷ [])
status_prefix _ = p_download_by_created_at

abbrev pub queue_prefix : List Bytes → List Bytes → Bytes
queue_prefix (q ∷ []) statuses = join (p_download_by_queue ∷ q ∷ [])
queue_prefix _ statuses = status_prefix statuses

unfoldable pub list_prefix : ListDownloadsOptions → Bytes
list_prefix options = queue_prefix options.queue_ids options.statuses

-- A filter by a list of values, which is off if the list is empty.
abbrev pub one_of : List Bytes → Bytes → Bool
one_of [] v = true
one_of (w ∷ ws) v = member v (w ∷ ws)

any_fold : Bytes → List Bytes → Bool
any_fold t [] = false
any_fold t (dt ∷ tags) = equal_fold dt t || any_fold t tags

any_tag : List Bytes → List Bytes → Bool
unfolding any_fold
any_tag [] tags = false
any_tag (t ∷ ts) tags = any_fold t tags || any_tag ts tags

tag_filter : List Bytes → List Bytes → Bool
unfolding any_tag
tag_filter [] tags = true
tag_filter (t ∷ ts) tags = any_tag (t ∷ ts) tags

candidate : Bytes → Option FileOptions → Bytes
candidate url none = url
candidate url (some file) = url ++ b'|' ∷ file.filename

search_filter : Bytes → Download → Bool
unfolding candidate
search_filter search d =
    same search [] || contains (to_lower (candidate d.url d.file)) (to_lower search)

after_filter : Option Time → Time → Bool
after_filter none t = true
after_filter (some after) t = not (ltb t after)

before_filter : Option Time → Time → Bool
before_filter none t = true
before_filter (some before) t = not (ltb before t)

-- The in-memory filters of `fetch`.
unfoldable pub matches : ListDownloadsOptions → Download → Bool
unfolding tag_filter search_filter after_filter before_filter
matches options d =
    one_of options.queue_ids d.queue_id
    && (one_of options.statuses d.status
        && (tag_filter options.tags d.tags
            && (search_filter options.search d
                && (after_filter options.created_after d.created_at
                    && before_filter options.created_before d.created_at))))

-- sort.Slice
unfoldable pub insert_by : (Download → Download → Bool) → Download → List Download → List Download
insert_by less d [] = d ∷ []
insert_by less d (e ∷ es) = if less e d then e ∷ insert_by less d es else d ∷ e ∷ es

unfoldable pub sort_slice : (Download → Download → Bool) → List Download → List Download
unfolding insert_by
sort_slice less [] = []
sort_slice less (d ∷ ds) = insert_by less d (sort_slice less ds)

unfoldable pub created_less : Bool → Download → Download → Bool
created_less desc a c =
    if desc then ltb c.created_at a.created_at else ltb a.created_at c.created_at

unfoldable pub priority_less : Bool → Download → Download → Bool
unfolding created_less
priority_less desc a c =
    if eq_ℤ a.priority c.priority
    then created_less desc a c
    else if desc
    then ltb_ℤ c.priority a.priority
    else ltb_ℤ a.priority c.priority

unfoldable pub order : ListDownloadsOptions → List Download → List Download
unfolding sort_slice priority_less
order options ds =
    if same options.order_by (codes "created_at") || same options.order_by []
    then sort_slice (created_less options.order_desc) ds
    else if same options.order_by (codes "priority")
    then sort_slice (priority_less options.order_desc) ds
    else ds

-- The counters `discard` and `collect`, and what is collected so far.
pub record Page : Type 0 where
  pub discard : ℤ
  pub collect : ℤ
  pub result : List Download

-- How a round of the loop ends.
pub data Round : Type 0 where
  next : Page → Round
  break : List Download → Round
  failed : Error → Round

abbrev pub collected : Download → Page → Round
collected d p =
    let left = if ltb_ℤ (pos 0) p.collect then p.collect -ℤ pos 1 else p.collect in
    let result = p.result ++ d ∷ [] in
    if eq_ℤ left (pos 0) then break result else next (record p { collect = left; result = result })

abbrev pub offered : Download → Page → Round
offered d p =
    if ltb_ℤ (pos 0) p.discard
    then next (record p { discard = p.discard -ℤ pos 1 })
    else collected d p

abbrev pub fetched : ListDownloadsOptions → Page → Option Value → Round
fetched options p none = next p
fetched options p (some (download d)) = if matches options d then offered d p else next p
fetched options p (some v) = elim (download_of v) [ ok d ↦ next p | err e ↦ failed e ]

-- The order of the iterator: it.Seek to the end of the prefix and a reverse walk, or it.Rewind.
abbrev pub directed : Bool → List Bytes → List Bytes
directed true ks = reverse ks
directed false ks = ks

module _ (b : Badger) where
  open b use {Db, get, keys}

  round : ListDownloadsOptions → Context → Bytes → Page → Db → Round
  round options cancelled k p db = failed context_canceled
  round options live k p db = fetched options p (get db (k_download (last_part k)))

  unfoldable pub list_loop :
      ListDownloadsOptions → Context → List Bytes → Page → Db → Result (List Download)
  unfolding round
  list_loop options ctx [] p db = ok p.result
  list_loop options ctx (k ∷ ks) p db = elim (round options ctx k p db) [
    | next p' ↦ list_loop options ctx ks p' db
    | break result ↦ ok result
    | failed e ↦ err e
  ]

  -- listDownloadsTxn
  abbrev ordered : ListDownloadsOptions → Db → Result (List Download) → Result (List Download × Db)
  ordered options db (ok ds) = ok (order options ds, db)
  ordered options db (err e) = err e

  unfoldable pub list_downloads_txn :
      Context → ListDownloadsOptions → ℤ → ℤ → Txn Db (List Download)
  unfolding list_loop list_prefix
  list_downloads_txn ctx options limit offset db =
      let ks = keys db (list_prefix options) in
      ordered options db (
        list_loop options ctx (directed options.order_desc ks)
          (record { discard = offset; collect = limit; result = [] }) db)

  unfoldable pub list_downloads : Context → ListDownloadsOptions → ℤ → ℤ → Repo Db (List Download)
  unfolding list_downloads_txn
  list_downloads ctx options limit offset = view ctx (list_downloads_txn ctx options limit offset)

  -- CountDownloads: an entry that is missing or no download is passed over.
  abbrev counted : ListDownloadsOptions → Option Value → ℤ → ℤ
  counted options (some (download d)) n = if matches options d then n +ℤ pos 1 else n
  counted options _ n = n

  unfoldable pub count_loop : ListDownloadsOptions → Context → List Bytes → ℤ → Txn Db ℤ
  count_loop options ctx [] n db = ok (n, db)
  count_loop options cancelled (k ∷ ks) n db = err context_canceled
  count_loop options live (k ∷ ks) n db =
      count_loop options live ks (counted options (get db (k_download (last_part k))) n) db

  unfoldable pub count_downloads : Context → ListDownloadsOptions → Repo Db ℤ
  unfolding count_loop list_prefix
  count_downloads ctx options db =
      view ctx (λ d. count_loop options ctx (keys d (list_prefix options)) (pos 0) d) db
