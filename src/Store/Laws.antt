-- ===== src/Store/Laws.antt =====
-- Reads after writes and deletions of several keys, and the wrappers of transactions.
use svc_downloader.Common.{◌≡◌, refl, none, some, List, [], ◌∷◌, if◌then◌else◌, arith}
use svc_downloader.Common.Bytes.{Bytes, same_iff, member}
use svc_downloader.Store.{Badger, Value, set_all, delete_all}

module _ (b : Badger) where
  open b use {Db, get, get-set, get-delete}

  pub get-set_all :
      (db : Db) (ks : List Bytes) (v : Value) (j : Bytes)
      → get (set_all b db ks v) j ≡ (if member j ks then some v else get db j)
  unfolding member
  get-set_all db [] v j = refl
  get-set_all db (k ∷ ks) v j =
      ground
        (arith, get-set_all (b.set db k v) ks v j, get-set db k j v, same_iff k j, same_iff j k)

  pub get-delete_all :
      (db : Db) (ks : List Bytes) (j : Bytes)
      → get (delete_all b db ks) j ≡ (if member j ks then none else get db j)
  unfolding member
  get-delete_all db [] j = refl
  get-delete_all db (k ∷ ks) j =
      ground
        (arith, get-delete_all (b.delete db k) ks j, get-delete db k j, same_iff k j, same_iff j k)
