-- ===== src/Api/Laws.antt =====
-- The handler listDownloads of routes.go without a limit.
use svc_downloader.Common.{◌≤◌, ◌≡◌, refl, ap, ◌∙◌, some, List, [], ◌∷◌, arith}
use svc_downloader.Common.Lists.{length, take, drop}
use svc_downloader.Common.Bytes.{same_refl}
use svc_downloader.Common.Int.{ℤ, pos, pos_part}
use svc_downloader.Models.{Download}
use svc_downloader.Errors.{live}
use svc_downloader.Store.{Badger}
use svc_downloader.Repository.Indexed.{IsIndexed}
use svc_downloader.Repository.Listing.{order}
use svc_downloader.Repository.Listing.Pages.{hits, limited}
use svc_downloader.Repository.Listing.Exact.{scan, list_downloads-page}
use svc_downloader.Repository.Listing.Count.{length-order}
use svc_downloader.Api.{body, Query, list_options, number, list_handler}

length-take-one : (ds : List Download) → length (take 1 ds) ≤ 1
length-take-one [] = omega arith
length-take-one (d ∷ ds) = omega arith

module _ (b : Badger) (q : Query) (db : b.Db) (h : IsIndexed b db) (offset : ℤ)
    (numbered : number q.offset ≡ some offset) where
  -- Over an indexed store, a query with an offset that is a number or empty, and without a limit, is
  -- answered by a body with at most one download, however many match, and nothing is changed.
  pub list_handler_limitless :
      q.limit ≡ []
      → (ds : List Download) × (list_handler b live q db ≡ (body ds, db)) × (length ds ≤ 1)
  unfolding list_handler
  list_handler_limitless unlimited =
      let options = list_options q in
      let page =
        limited (pos 0) (drop (pos_part offset) (hits b options db (scan b options db h))) in
      let zeroth : number q.limit ≡ some (pos 0) = ap number unlimited ∙ rw (same_refl []) refl in
      (
        order options page,
        rw (zeroth, numbered, list_downloads-page b options db h (pos 0) offset) refl,
        omega (
          arith,
          length-order options page,
          length-take-one (drop (pos_part offset) (hits b options db (scan b options db h))),
        ),
      )
