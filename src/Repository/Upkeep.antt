-- ===== src/Repository/Upkeep.antt =====
-- The index keys that create, update and delete write and remove.
use svc_downloader.Common.{
  true, false, ◌≡◌, refl, subst, none, some, List, [], if◌then◌else◌, arith, inl, inr, Bool-cases,
}
use svc_downloader.Common.Bytes.{Bytes, same, same_iff, same_sound, member, LacksBar}
use svc_downloader.Models.{Time, is_zero, Download}
use svc_downloader.Errors.{ok, live}
use svc_downloader.Store.{Badger, nil, download, set_all, delete_all}
use svc_downloader.Store.Laws.{get-set_all, get-delete_all}
use svc_downloader.Repository.Keys.{index_keys, time_to_key, is_index_key, k_download}
use svc_downloader.Repository.Keys.Owner.{BelongsTo, index_keys-BelongsTo, is_index_key-k_download}
use svc_downloader.Repository.Indexed.{stored_keys, IsStorable, IsIndexed, Replaces}
use svc_downloader.Repository.Downloads.{create_download, update_download}

pub same-k_download : (s t : Bytes) → same (k_download s) (k_download t) ≡ same t s
unfolding same
same-k_download s t = ground (arith, same_iff s t, same_iff t s)

-- A date that is set does not ask the clock.
pub dated_key :
    (now : Time) (d : Download)
    → is_zero d.created_at ≡ false
    → index_keys (time_to_key now d.created_at) d ≡ stored_keys d
unfolding time_to_key
dated_key now d h = rw h

pub k_download-not-member :
    (id x : Bytes) (ks : List Bytes)
    → ((k : Bytes) → member k ks ≡ true → BelongsTo id k)
    → member (k_download x) ks ≡ false
k_download-not-member id x ks own = elim (Bool-cases (member (k_download x) ks)) [
  | inr out ↦ out
  | inl within ↦ cc ((own (k_download x) within).index, is_index_key-k_download x)
]

pub index-ne-k_download : (id k : Bytes) → is_index_key k ≡ true → same (k_download id) k ≡ false
index-ne-k_download id k i = elim (Bool-cases (same (k_download id) k)) [
  | inr miss ↦ miss
  | inl hit ↦
      let e : is_index_key (k_download id) ≡ true = rw (same_sound (k_download id) k hit) i in
      cc (e, is_index_key-k_download id)
]

module _ (b : Badger) (id : Bytes) (now : Time) (d : Download) (erased : List Bytes) (db db1 : b.Db)
    (ok : IsStorable id d) (own : (k : Bytes) → member k erased ≡ true → BelongsTo id k)
    (covers : (old : Download) (k : Bytes)
      → b.get db (k_download id) ≡ some (download old)
      → member k (stored_keys old) ≡ true
      → member k erased ≡ true)
    (after : (k : Bytes) → b.get db1 k ≡ (if member k erased then none else b.get db k)) where
  open b use {get, get-set}

  own_keys : (k : Bytes) → member k (stored_keys d) ≡ true → BelongsTo id k
  own_keys k m =
      subst (λ i. BelongsTo i k) ok.own_id
        (index_keys-BelongsTo (time_to_key 0 d.created_at) d k ok.plain m)

  abbrev pub written : b.Db
  written = set_all b (b.set db1 (k_download id) (download d)) (stored_keys d) nil

  written-primary :
      (x : Bytes)
      → get written (k_download x)
        ≡ (if same x id then some (download d) else get db (k_download x))
  written-primary x = ground (
    arith,
    get-set_all b (b.set db1 (k_download id) (download d)) (stored_keys d) nil (k_download x),
    k_download-not-member id x (stored_keys d) own_keys,
    get-set db1 (k_download id) (k_download x) (download d),
    same-k_download id x,
    after (k_download x),
    k_download-not-member id x erased own,
  )

  written-index :
      (k : Bytes)
      → is_index_key k ≡ true
      → get written k ≡ (
          if member k (stored_keys d) then some nil else if member k erased then none else get db k)
  written-index k i = ground (
    arith,
    get-set_all b (b.set db1 (k_download id) (download d)) (stored_keys d) nil k,
    get-set db1 (k_download id) k (download d),
    index-ne-k_download id k i,
    after k,
  )

  pub written-Replaces : Replaces b id (some d) erased db written
  written-Replaces = record {
    primary = written-primary;
    index = written-index;
    entry_ok = ok;
    own = own;
    covers = covers;
  }

-- What createDownloadTxn writes.
abbrev pub created : Time → Download → Download
created now d = record d {
  created_at = if is_zero d.created_at then now else d.created_at;
  updated_at = now;
}

abbrev pub updated : Time → Download → Download → Download
updated now old d = record d {
  created_at = if is_zero d.created_at then old.created_at else d.created_at;
  updated_at = now;
}

module _ (b : Badger) (now : Time) (d : Download) (db : b.Db) where
  open b use {get}

  abbrev pub created_db : b.Db
  created_db =
      set_all b (b.set db (k_download d.id) (download (created now d)))
        (stored_keys (created now d)) nil

  pub create_download-ok :
      same d.id [] ≡ false
      → is_zero (created now d).created_at ≡ false
      → create_download b live now d db ≡ (ok (created now d), created_db)
  unfolding create_download
  create_download-ok named dated = rw (named, dated_key now (created now d) dated)

  abbrev pub updated_db : Download → b.Db
  updated_db old =
      set_all b
        (b.set (delete_all b db (stored_keys old)) (k_download d.id) (download (updated now old d)))
        (stored_keys (updated now old d)) nil

  pub update_download-ok :
      (old : Download)
      → same d.id [] ≡ false
      → get db (k_download d.id) ≡ some (download old)
      → is_zero old.created_at ≡ false
      → is_zero (updated now old d).created_at ≡ false
      → update_download b live now d db ≡ (ok (updated now old d), updated_db old)
  unfolding update_download
  update_download-ok old named found dated dated' = rw named (
      rw found
        (rw dated (rw (dated_key now old dated) (rw (dated_key now (updated now old d) dated')))))

  pub updated-Replaces :
      (old : Download)
      → IsIndexed b db
      → get db (k_download d.id) ≡ some (download old)
      → is_zero (updated now old d).created_at ≡ false
      → Replaces b d.id (some (updated now old d)) (stored_keys old) db (updated_db old)
  updated-Replaces old h found dated =
      let stored = h.storable d.id old found in
      written-Replaces b d.id now (updated now old d) (stored_keys old) db
        (delete_all b db (stored_keys old))
        (record { own_id = refl; plain = subst LacksBar stored.own_id stored.plain; dated = dated })
        (λ k m.
          subst (λ i. BelongsTo i k) stored.own_id
            (index_keys-BelongsTo (time_to_key 0 old.created_at) old k stored.plain m))
        (λ other k e m.
          let one : other ≡ old = ground (arith, found, e) in
          subst (λ (x : Download). member k (stored_keys x) ≡ true) one m)
        (λ k. get-delete_all b db (stored_keys old) k)
