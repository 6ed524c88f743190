-- ===== src/Api.antt =====
-- internal/api/routes/routes.go: what the handlers that read downloads make of a query, and of the errors
-- of the service. The other handlers call one method of a service with the values that huma has read.
pub mod Laws
pub mod Routes
mod Tests
use svc_downloader.Common.{
  Bool, true, false, not, Option, none, some, List, [], ◌∷◌, if◌then◌else◌, map,
}
use svc_downloader.Common.Lists.{filter}
use svc_downloader.Common.Bytes.{Bytes, codes, same}
use svc_downloader.Common.Int.{ℤ, pos}
use svc_downloader.Common.Scan.{parse_int, split, trim_space}
use svc_downloader.Models.{Download, ListDownloadsOptions}
use svc_downloader.Errors.{Error, not_found, Result, ok, err, Context}
use svc_downloader.Store.{Badger}
use svc_downloader.Repository.Downloads.{get_download}
use svc_downloader.Repository.Listing.{list_downloads, count_downloads}

-- A body, a status with a message, or an error that huma turns into a status.
pub data Reply (A : Type 0) : Type 0 where
  body : A → Reply A
  status_400 status_404 : Bytes → Reply A
  failure : Error → Reply A

abbrev pub reply : {A : Type 0} → Result A → Reply A
reply (ok a) = body a
reply (err e) = failure e

-- The parameters of a query.
pub record Query : Type 0 where
  pub status : Bytes
  pub queue : Bytes
  pub tags : Bytes
  pub search : Bytes
  pub limit : Bytes
  pub offset : Bytes
  pub order : Bytes
  pub desc : Bool

abbrev pub one_of : Bytes → List Bytes
one_of s = if same s [] then [] else s ∷ []

-- The loop over the parts between commas.
unfoldable pub tags_of : Bytes → List Bytes
unfolding split trim_space
tags_of s = if same s [] then [] else filter (λ t. not (same t [])) (map trim_space (split b',' s))

abbrev pub count_options : Query → ListDownloadsOptions
count_options q = record {
  statuses = one_of q.status;
  queue_ids = one_of q.queue;
  tags = tags_of q.tags;
  search = q.search;
  created_after = none;
  created_before = none;
  order_by = [];
  order_desc = false;
}

abbrev pub list_options : Query → ListDownloadsOptions
list_options q = record (count_options q) { order_by = q.order; order_desc = q.desc }

-- strconv.Atoi of a parameter, where an empty one stands for 0.
abbrev pub number : Bytes → Option ℤ
number s = if same s [] then some (pos 0) else parse_int s

module _ (b : Badger) where
  open b use {Db}

  abbrev pub got : Result Download × Db → Reply Download × Db
  got (err not_found, db) = (status_404 (codes "download not found"), db)
  got (r, db) = (reply r, db)

  -- The handler getDownload
  unfoldable pub get_handler : Context → Bytes → Db → Reply Download × Db
  unfolding get_download
  get_handler ctx id db = got (get_download b ctx id db)

  abbrev pub listed : Context → Query → Option ℤ → Option ℤ → Db → Reply (List Download) × Db
  listed ctx q none offset db = (status_400 (codes "invalid limit parameter"), db)
  listed ctx q (some limit) none db = (status_400 (codes "invalid offset parameter"), db)
  listed ctx q (some limit) (some offset) db =
      let (r, db') = list_downloads b ctx (list_options q) limit offset db in (reply r, db')

  -- The handler listDownloads
  unfoldable pub list_handler : Context → Query → Db → Reply (List Download) × Db
  unfolding list_downloads tags_of parse_int
  list_handler ctx q db = listed ctx q (number q.limit) (number q.offset) db

  -- The handler countDownloads
  unfoldable pub count_handler : Context → Query → Db → Reply ℤ × Db
  unfolding count_downloads tags_of
  count_handler ctx q db =
      let (r, db') = count_downloads b ctx (count_options q) db in (reply r, db')
