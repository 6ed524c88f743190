-- ===== src/Store/Memory.antt =====
-- A store in memory, which shows that the behaviour asked of `Badger` can be met.
use svc_downloader.Common.{
  Bool, true, false, ◌&&◌, ◌||◌, ◌≡◌, refl, List, [], ◌∷◌, if◌then◌else◌, is_some, ltb, arith, inl,
  inr, Bool-cases, ◌==◌,
}
use svc_downloader.Common.Bytes.{Bytes, same, same_iff, starts_with, member}
use svc_downloader.Common.Maps.{Map, lookup, insert, remove, lookup-insert, lookup-remove}
use svc_downloader.Store.{Value, Badger, Distinct}

-- The order of keys as texts.
less : Bytes → Bytes → Bool
less s [] = false
less [] (b ∷ t) = true
less (a ∷ s) (b ∷ t) = if a == b then less s t else ltb a b

insert_sorted : Bytes → List Bytes → List Bytes
unfolding less
insert_sorted k [] = k ∷ []
insert_sorted k (j ∷ ks) = if less k j then k ∷ j ∷ ks else j ∷ insert_sorted k ks

add_key : Bytes → List Bytes → List Bytes
unfolding insert_sorted
add_key k ks = if member k ks then ks else insert_sorted k ks

unfoldable pub keys : Map Value → Bytes → List Bytes
unfolding add_key
keys [] p = []
keys ((k, v) ∷ m) p = let rest = keys m p in if starts_with k p then add_key k rest else rest

member-insert_sorted :
    (j k : Bytes) (ks : List Bytes) → member j (insert_sorted k ks) ≡ (same j k || member j ks)
unfolding insert_sorted member
member-insert_sorted j k [] = refl
member-insert_sorted j k (i ∷ ks) = ground (arith, member-insert_sorted j k ks)

Distinct-insert_sorted :
    (k : Bytes) (ks : List Bytes)
    → member k ks ≡ false
    → Distinct ks
    → Distinct (insert_sorted k ks)
unfolding insert_sorted member
Distinct-insert_sorted k [] out d = (refl, tt)
Distinct-insert_sorted k (j ∷ ks) out (out_j, d) = elim (Bool-cases (less k j)) [
  | inl lt ↦ rw lt (out, (out_j, d))
  | inr ge ↦ rw ge (
    rw (member-insert_sorted j k ks) (ground (arith, same_iff k j, same_iff j k)),
    Distinct-insert_sorted k ks (ground arith) d,
  )
]

member-add_key :
    (j k : Bytes) (ks : List Bytes) → member j (add_key k ks) ≡ (same j k || member j ks)
unfolding add_key
member-add_key j k ks = ground (arith, member-insert_sorted j k ks, same_iff j k, same_iff k j)

pub member-keys :
    (m : Map Value) (p k : Bytes) → member k (keys m p) ≡ (starts_with k p && is_some (lookup k m))
unfolding keys lookup member
member-keys [] p k = ground arith
member-keys ((j, v) ∷ m) p k =
    ground (arith, member-keys m p k, member-add_key k j (keys m p), same_iff j k, same_iff k j)

pub keys-Distinct : (m : Map Value) (p : Bytes) → Distinct (keys m p)
unfolding keys
keys-Distinct [] p = tt
keys-Distinct ((j, v) ∷ m) p = elim (Bool-cases (starts_with j p)) [
  | inr out ↦ rw out (keys-Distinct m p)
  | inl within ↦ elim (Bool-cases (member j (keys m p))) [
    | inl old ↦ rw (within, old) (keys-Distinct m p)
    | inr new ↦ rw (within, new) (Distinct-insert_sorted j (keys m p) new (keys-Distinct m p))
  ]
]

abbrev pub memory : Badger
memory = record {
  Db = Map Value;
  get = λ m k. lookup k m;
  set = λ m k v. insert k v m;
  delete = λ m k. remove k m;
  keys = keys;
  get-set = λ m k j v. lookup-insert k j v m;
  get-delete = λ m k j. lookup-remove k j m;
  member-keys = member-keys;
  keys-Distinct = keys-Distinct;
}
