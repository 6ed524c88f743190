-- ===== src/Store.antt =====
-- The key-value store under internal/repository. BadgerDB is not part of the repository: it is the
-- record `Badger` of the operations that the code calls, with the behaviour that its documentation
-- promises. A value is what json.Marshal wrote, or the nil value of an index entry; a read of a key
-- back into its type gives what was written.
pub mod Memory
pub mod Laws
use svc_downloader.Common.{
  ℕ, Bool, true, false, ◌&&◌, ◌≡◌, Option, none, some, List, [], ◌∷◌, if◌then◌else◌, is_some,
}
use svc_downloader.Common.Bytes.{Bytes, same, starts_with, member}
use svc_downloader.Models.{Download, Segment, Queue, QueueStats}
use svc_downloader.Errors.{
  Error, Result, ok, err, Context, live, cancelled, context_canceled, key_not_found,
}

pub data Value : Type 0 where
  nil : Value
  download : Download → Value
  segment : Segment → Value
  queue : Queue → Value
  stats : QueueStats → Value

-- No key twice.
abbrev pub Distinct : List Bytes → Type 0
Distinct [] = Unit
Distinct (k ∷ ks) = (member k ks ≡ false) × Distinct ks

pub record Badger : Type 1 where
  pub Db : Type 0
  pub get : Db → Bytes → Option Value
  pub set : Db → Bytes → Value → Db
  pub delete : Db → Bytes → Db
  -- the keys that an iterator with a prefix visits, in ascending order
  pub keys : Db → Bytes → List Bytes
  pub get-set :
      (db : Db) (k j : Bytes) (v : Value)
      → get (set db k v) j ≡ (if same k j then some v else get db j)
  pub get-delete :
      (db : Db) (k j : Bytes) → get (delete db k) j ≡ (if same k j then none else get db j)
  pub member-keys :
      (db : Db) (p k : Bytes) → member k (keys db p) ≡ (starts_with k p && is_some (get db k))
  pub keys-Distinct : (db : Db) (p : Bytes) → Distinct (keys db p)

-- The body of a transaction: an error aborts it.
abbrev pub Txn : Type 0 → Type 0 → Type 0
Txn D A = D → Result (A × D)

-- A method of the repository: its result, and the committed store.
abbrev pub Repo : Type 0 → Type 0 → Type 0
Repo D A = D → Result A × D

abbrev pub continue : {D A B : Type 0} → Result (A × D) → (A → Txn D B) → Result (B × D)
continue (ok (a, db)) f = f a db
continue (err e) f = err e

infixl 5 ◌>>=◌ ◌>>◌
abbrev pub ◌>>=◌ : {D A B : Type 0} → Txn D A → (A → Txn D B) → Txn D B
◌>>=◌ m f db = continue (m db) f

abbrev pub ◌>>◌ : {D B : Type 0} → Txn D (Unit {0}) → Txn D B → Txn D B
m >> k = m >>= λ _. k

abbrev pub pure : {D A : Type 0} → A → Txn D A
pure a db = ok (a, db)

abbrev pub fail : {D A : Type 0} → Error → Txn D A
fail e db = err e

abbrev pub require : {D A : Type 0} → Result A → Txn D A
require (ok a) db = ok (a, db)
require (err e) db = err e

-- if err := ctx.Err(); err != nil { return err }
abbrev pub check : {D : Type 0} → Context → Txn D (Unit {0})
check live db = ok (tt, db)
check cancelled db = err context_canceled

abbrev pub guard : {D : Type 0} → Bool → Error → Txn D (Unit {0})
guard true e db = err e
guard false e db = ok (tt, db)

-- db.Update: the changes are kept if the body returns no error.
abbrev pub commit : {D A : Type 0} → D → Result (A × D) → Result A × D
commit db (ok (a, db')) = (ok a, db')
commit db (err e) = (err e, db)

abbrev pub discard : {D A : Type 0} → D → Result (A × D) → Result A × D
discard db (ok (a, db')) = (ok a, db)
discard db (err e) = (err e, db)

-- RunInTx and update of BadgerRepository.
abbrev pub update : {D A : Type 0} → Context → Txn D A → Repo D A
update ctx f db = commit db ((check ctx >> f) db)

-- view of BadgerRepository: a read-only transaction.
abbrev pub view : {D A : Type 0} → Context → Txn D A → Repo D A
view ctx f db = discard db ((check ctx >> f) db)

abbrev pub read_value : {D : Type 0} → Option Value → Txn D Value
read_value none db = err key_not_found
read_value (some v) db = ok (v, db)

module _ (b : Badger) where
  open b use {Db, get, set, delete}

  -- txn.Get
  abbrev pub read : Bytes → Txn Db Value
  read k db = read_value (get db k) db

  abbrev pub write : Bytes → Value → Txn Db (Unit {0})
  write k v db = ok (tt, set db k v)

  abbrev pub erase : Bytes → Txn Db (Unit {0})
  erase k db = ok (tt, delete db k)

  abbrev pub set_all : Db → List Bytes → Value → Db
  set_all db [] v = db
  set_all db (k ∷ ks) v = set_all (set db k v) ks v

  abbrev pub delete_all : Db → List Bytes → Db
  delete_all db [] = db
  delete_all db (k ∷ ks) = delete_all (delete db k) ks
