-- ===== src/Api/Tests.antt =====
-- A query without a limit, over a store of two downloads, and the tags of a query.
use svc_downloader.Common.{◌≤◌, ◌≡◌, refl, false, List, [], ◌∷◌, arith}
use svc_downloader.Common.Lists.{length}
use svc_downloader.Common.Bytes.{codes, same}
use svc_downloader.Common.Int.{pos}
use svc_downloader.Common.Scan.{split, trim_space, trim_left}
use svc_downloader.Models.{Download}
use svc_downloader.Errors.{live}
use svc_downloader.Store.Memory.{memory}
use svc_downloader.Repository.Downloads.{create_download}
use svc_downloader.Repository.Invariant.{create_download-IsIndexed}
use svc_downloader.Repository.Indexed.{IsIndexed}
use svc_downloader.Api.{Query, body, list_handler, tags_of}
use svc_downloader.Api.Laws.{list_handler_limitless}
use svc_downloader.Fixtures.{sample_download}
use svc_downloader.Common.Maps.{lookup, insert}
use svc_downloader.Repository.Keys.{index_keys}
use svc_downloader.Repository.Sample.{one_db, one_db-IsIndexed}

abbrev everything : Query
everything = record {
  status = [];
  queue = [];
  tags = [];
  search = [];
  limit = [];
  offset = [];
  order = [];
  desc = false;
}

sample-tags_of : tags_of (codes " a,, b c ,") ≡ codes "a" ∷ codes "b c" ∷ []
unfolding tags_of split trim_space trim_left same
sample-tags_of = refl

abbrev two_db : memory.Db
two_db = (create_download memory live 10 sample_download one_db).1

two_db-IsIndexed : IsIndexed memory two_db
unfolding same lookup create_download index_keys insert
two_db-IsIndexed =
    create_download-IsIndexed memory live 10 sample_download one_db (omega arith) (refl, (refl, tt))
      refl one_db-IsIndexed

list_handler_limitless_example :
    (ds : List Download) × (list_handler memory live everything two_db ≡ (body ds, two_db))
    × (length ds ≤ 1)
unfolding same
list_handler_limitless_example =
    list_handler_limitless memory everything two_db two_db-IsIndexed (pos 0) refl refl
