-- ===== src/Repository/Sample.antt =====
-- A store in memory with one download, for the tests.
use svc_downloader.Common.{◌≡◌, refl, [], some, arith}
use svc_downloader.Common.Bytes.{codes, same}
use svc_downloader.Common.Int.{pos}
use svc_downloader.Errors.{live}
use svc_downloader.Models.{Download}
use svc_downloader.Store.{download}
use svc_downloader.Common.Maps.{lookup, insert}
use svc_downloader.Store.Memory.{memory}
use svc_downloader.Fixtures.{sample}
use svc_downloader.Repository.Keys.{k_download, index_keys}
use svc_downloader.Repository.Indexed.{IsIndexed}
use svc_downloader.Repository.Upkeep.{created}
use svc_downloader.Repository.Downloads.{create_download}
use svc_downloader.Repository.Invariant.{create_download-IsIndexed}

abbrev pub d_a : Download
d_a = sample (codes "a") (codes "main") (pos 0)

abbrev pub d_late : Download
d_late = record d_a { created_at = 8; priority = pos 4 }

abbrev pub one_db : memory.Db
one_db = (create_download memory live 9 d_a []).1

pub empty-IsIndexed : IsIndexed memory []
unfolding lookup
empty-IsIndexed = record {
  storable = λ id d e. cc;
  complete = λ id d k e m. cc;
  sound = λ k i s. cc;
}

pub one_db-IsIndexed : IsIndexed memory one_db
unfolding lookup
one_db-IsIndexed =
    create_download-IsIndexed memory live 9 d_a [] (omega arith) (refl, tt) refl empty-IsIndexed

pub stored_a : memory.get one_db (k_download d_a.id) ≡ some (download (created 9 d_a))
unfolding create_download lookup insert same index_keys
stored_a = refl
