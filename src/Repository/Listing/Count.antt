-- ===== src/Repository/Listing/Count.antt =====
-- The loop of a count against that of a listing.
use svc_downloader.Common.{
  ℕ, ◌+◌, Bool, ◌≡◌, refl, ap, ◌∙◌, true, false, Option, none, some, List, [], ◌∷◌, ◌++◌, arith,
  inl, inr, Bool-cases,
}
use mathlib.Core.List.{reverse, reverse-append}
use svc_downloader.Common.Lists.{length, length-append}
use svc_downloader.Common.Bytes.{Bytes, last_part}
use svc_downloader.Common.Int.{pos, negsuc, ◌+ℤ◌}
use svc_downloader.Models.{Download, ListDownloadsOptions}
use svc_downloader.Errors.{ok, live}
use svc_downloader.Store.{Badger, Value, nil, download, segment, queue, stats}
use svc_downloader.Repository.Keys.{k_download}
use svc_downloader.Repository.Indexed.{IsIndexed}
use svc_downloader.Repository.Listing.{
  matches, order, sort_slice, insert_by, created_less, priority_less, directed, list_prefix,
  list_downloads, counted, count_loop, count_downloads,
}
use svc_downloader.Repository.Listing.Pages.{hit, hits}
use svc_downloader.Repository.Listing.Exact.{list_downloads-page, scan}

module _ (less : Download → Download → Bool) where
  length-insert_by :
      (d : Download) (es : List Download) → length (insert_by less d es) ≡ 1 + length es
  unfolding insert_by
  length-insert_by d [] = refl
  length-insert_by d (e ∷ es) = ground (arith, length-insert_by d es)

  length-sort_slice : (ds : List Download) → length (sort_slice less ds) ≡ length ds
  unfolding sort_slice
  length-sort_slice [] = refl
  length-sort_slice (d ∷ ds) =
      omega (arith, length-insert_by d (sort_slice less ds), length-sort_slice ds)

pub length-order :
    (options : ListDownloadsOptions) (ds : List Download) → length (order options ds) ≡ length ds
unfolding order
length-order options ds = ground (
  arith,
  length-sort_slice (created_less options.order_desc) ds,
  length-sort_slice (priority_less options.order_desc) ds,
)

counted-hit :
    (b : Badger) (options : ListDownloadsOptions) (o : Option Value) (n : ℕ)
    → counted b options o (pos n) ≡ pos (n + length (hit options o))
unfolding ◌+ℤ◌
counted-hit b options none n = ground arith
counted-hit b options (some nil) n = ground arith
counted-hit b options (some (segment s)) n = ground arith
counted-hit b options (some (queue q)) n = ground arith
counted-hit b options (some (stats s)) n = ground arith
counted-hit b options (some (download d)) n = elim (Bool-cases (matches options d)) [
  | inl on ↦ rw on (ground arith)
  | inr off ↦ rw off (ground arith)
]

module _ (b : Badger) (options : ListDownloadsOptions) (db : b.Db) where
  open b use {get, keys}

  count_loop-hits :
      (ks : List Bytes) (n : ℕ)
      → count_loop b options live ks (pos n) db ≡ ok (pos (n + length (hits b options db ks)), db)
  unfolding count_loop
  count_loop-hits [] n = ground arith
  count_loop-hits (k ∷ ks) n =
      let o = get db (k_download (last_part k)) in
      rw (counted-hit b options o n) (
        count_loop-hits ks (n + length (hit options o))
        ∙ ap (λ m. ok (pos m, db))
            (omega (arith, length-append (hit options o) (hits b options db ks))))

  length-hits-append :
      (ks js : List Bytes)
      → length (hits b options db (ks ++ js))
        ≡ length (hits b options db ks) + length (hits b options db js)
  length-hits-append [] js = omega arith
  length-hits-append (k ∷ ks) js =
      let o = get db (k_download (last_part k)) in
      omega (
        arith,
        length-append (hit options o) (hits b options db (ks ++ js)),
        length-append (hit options o) (hits b options db ks),
        length-hits-append ks js,
      )

  length-hits-reverse :
      (ks : List Bytes) → length (hits b options db (reverse ks)) ≡ length (hits b options db ks)
  length-hits-reverse [] = refl
  length-hits-reverse (k ∷ ks) = rw (reverse-append (k ∷ []) ks) (
      omega (
        arith,
        length-hits-append (reverse ks) (k ∷ []),
        length-hits-append (k ∷ []) ks,
        length-hits-reverse ks,
      ))

  length-hits-directed :
      (desc : Bool) (ks : List Bytes)
      → length (hits b options db (directed desc ks)) ≡ length (hits b options db ks)
  length-hits-directed true ks = length-hits-reverse ks
  length-hits-directed false ks = refl

  -- Over an indexed store CountDownloads succeeds and gives the length of the listing without a limit.
  pub count_downloads_lem :
      IsIndexed b db
      → (ds : List Download) × ((list_downloads b live options (negsuc 0) (pos 0) db).0 ≡ ok ds)
        × (count_downloads b live options db ≡ (ok (pos (length ds)), db))
  unfolding count_downloads
  count_downloads_lem h =
      let found = hits b options db (scan b options db h) in
      (
        order options found,
        ap (λ r. r.0) (list_downloads-page b options db h (negsuc 0) (pos 0)),
        rw (count_loop-hits (keys db (list_prefix options)) 0) (
            ap (λ n. (ok (pos n), db))
              (omega (
                arith,
                length-order options found,
                length-hits-directed options.order_desc (keys db (list_prefix options)),
              ))),
      )
