-- ===== src/Repository/Indexed.antt =====
-- The indexes agree with the primary entries: the invariant, and the lemma by which an operation on
-- one download keeps it.
use svc_downloader.Common.{
  true, false, ◌≡◌, refl, sym, ◌∙◌, ap, subst, Option, none, some, List, [], if◌then◌else◌, is_some,
  arith, inl, inr, Bool-cases,
}
use svc_downloader.Common.Bytes.{
  Bytes, same, same_iff, same_refl, same_sound, member, last_part, LacksBar,
}
use svc_downloader.Models.{is_zero, Download}
use svc_downloader.Store.{Badger, Value, nil, download}
use svc_downloader.Repository.Keys.{index_keys, time_to_key, is_index_key, k_download}
use svc_downloader.Repository.Keys.Owner.{BelongsTo, index_keys-BelongsTo}

-- The index keys of a stored download, which has a creation time.
abbrev pub stored_keys : Download → List Bytes
stored_keys d = index_keys (time_to_key 0 d.created_at) d

-- A download that may stand under an id.
pub record IsStorable (id : Bytes) (d : Download) : Type 0 where
  pub own_id : d.id ≡ id
  pub plain : LacksBar d.id
  pub dated : is_zero d.created_at ≡ false

module _ (b : Badger) where
  open b use {Db, get}

  -- Every stored download has all its index keys, and every index key belongs to a stored download.
  pub record IsIndexed (db : Db) : Type 0 where
    pub storable :
        (id : Bytes) (d : Download) → get db (k_download id) ≡ some (download d) → IsStorable id d
    pub complete :
        (id : Bytes) (d : Download) (k : Bytes)
        → get db (k_download id) ≡ some (download d)
        → member k (stored_keys d) ≡ true
        → is_some (get db k) ≡ true
    pub sound :
        (k : Bytes)
        → is_index_key k ≡ true
        → is_some (get db k) ≡ true
        → (d : Download) × (get db (k_download (last_part k)) ≡ some (download d))
          × (member k (stored_keys d) ≡ true)

abbrev pub entry_value : Option Download → Option Value
entry_value none = none
entry_value (some d) = some (download d)

abbrev pub entry_keys : Option Download → List Bytes
entry_keys none = []
entry_keys (some d) = stored_keys d

abbrev pub EntryIsStorable : Bytes → Option Download → Type 0
EntryIsStorable id none = Unit
EntryIsStorable id (some d) = IsStorable id d

pub same_sym_false : (s t : Bytes) → same s t ≡ false → same t s ≡ false
same_sym_false s t h = ground (arith, same_iff s t, same_iff t s)

-- The change that an operation makes to the entry of `id`: the entry that is left, and the index
-- keys that are erased before those of the entry are set.
module _ (b : Badger) (id : Bytes) (entry : Option Download) (erased : List Bytes) where
  open b use {Db, get}

  pub record Replaces (db db' : Db) : Type 0 where
    pub primary :
        (x : Bytes)
        → get db' (k_download x) ≡ (if same x id then entry_value entry else get db (k_download x))
    pub index :
        (k : Bytes)
        → is_index_key k ≡ true
        → get db' k ≡ (
            if member k (entry_keys entry)
            then some nil
            else if member k erased
            then none
            else get db k)
    pub entry_ok : EntryIsStorable id entry
    pub own : (k : Bytes) → member k erased ≡ true → BelongsTo id k
    pub covers :
        (old : Download) (k : Bytes)
        → get db (k_download id) ≡ some (download old)
        → member k (stored_keys old) ≡ true
        → member k erased ≡ true

entry-of-id :
    (id : Bytes) (entry : Option Download) (d : Download)
    → EntryIsStorable id entry
    → entry_value entry ≡ some (download d)
    → IsStorable id d × ((k : Bytes) → member k (stored_keys d) ≡ member k (entry_keys entry))
entry-of-id id none d h e = cc
entry-of-id id (some x) d h e =
    let same_one : x ≡ d = ground arith in
    (
      subst (IsStorable id) same_one h,
      λ k. ap (λ (y : Download). member k (stored_keys y)) (sym same_one),
    )

entry-of-key :
    (id k : Bytes) (entry : Option Download)
    → EntryIsStorable id entry
    → member k (entry_keys entry) ≡ true
    → BelongsTo id k
      × ((d : Download) × (entry_value entry ≡ some (download d))
          × (member k (stored_keys d) ≡ true))
entry-of-key id k none h m = unfold member in cc (m)
entry-of-key id k (some x) h m = (
  subst (λ i. BelongsTo i k) h.own_id
      (index_keys-BelongsTo (time_to_key 0 x.created_at) x k h.plain m),
  (x, refl, m),
)

module _ (b : Badger) (id : Bytes) (entry : Option Download) (erased : List Bytes) (db db' : b.Db)
    (h : IsIndexed b db) (r : Replaces b id entry erased db db') where
  open b use {get}

  hit_entry : (x : Bytes) → same x id ≡ true → get db' (k_download x) ≡ entry_value entry
  hit_entry x hit = rw hit at (r.primary x)

  replaced-IsStorable :
      (x : Bytes) (d : Download) → get db' (k_download x) ≡ some (download d) → IsStorable x d
  replaced-IsStorable x d e = elim (Bool-cases (same x id)) [
    | inl hit ↦
        subst (λ i. IsStorable i d) (sym (same_sound x id hit))
          (entry-of-id id entry d r.entry_ok (sym (hit_entry x hit) ∙ e)).0
    | inr miss ↦ h.storable x d (ground (arith, r.primary x))
  ]

  -- The keys of the other downloads are not erased.
  spared :
      (x : Bytes) (d : Download) (k : Bytes)
      → same x id ≡ false
      → IsStorable x d
      → member k (stored_keys d) ≡ true
      → (is_index_key k ≡ true) × (member k erased ≡ false)
  spared x d k miss ok m =
      let owner = index_keys-BelongsTo (time_to_key 0 d.created_at) d k ok.plain m in
      elim (Bool-cases (member k erased)) [
        | inr kept ↦ (owner.index, kept)
        | inl gone ↦
            let e : x ≡ id = sym ok.own_id ∙ sym owner.owner ∙ (r.own k gone).owner in
            absurd (ground (arith, same_iff x id))
      ]

  replaced_complete :
      (x : Bytes) (d : Download) (k : Bytes)
      → get db' (k_download x) ≡ some (download d)
      → member k (stored_keys d) ≡ true
      → is_some (get db' k) ≡ true
  replaced_complete x d k e m = elim (Bool-cases (same x id)) [
    | inl hit ↦
        let (_, keys) = entry-of-id id entry d r.entry_ok (sym (hit_entry x hit) ∙ e) in
        let set : member k (entry_keys entry) ≡ true = sym (keys k) ∙ m in
        let i = (entry-of-key id k entry r.entry_ok set).0.index in rw (r.index k i) (rw set)
    | inr miss ↦
        let e' : get db (k_download x) ≡ some (download d) = ground (arith, r.primary x) in
        let (i, kept) = spared x d k miss (h.storable x d e') m in
        ground (arith, r.index k i, h.complete x d k e' m)
  ]

  old_key :
      (k : Bytes)
      → is_index_key k ≡ true
      → member k erased ≡ false
      → is_some (get db k) ≡ true
      → (d : Download) × (get db' (k_download (last_part k)) ≡ some (download d))
        × (member k (stored_keys d) ≡ true)
  old_key k i kept e =
      let (d, at, m) = h.sound k i e in
      elim (Bool-cases (same (last_part k) id)) [
        | inr miss ↦ (d, rw (r.primary (last_part k)) (rw miss at), m)
        | inl hit ↦
            let at' : get db (k_download id) ≡ some (download d) =
              subst (λ x. get db (k_download x) ≡ some (download d))
                (same_sound (last_part k) id hit) at in
            absurd (ground (arith, r.covers d k at' m))
      ]

  replaced_sound :
      (k : Bytes)
      → is_index_key k ≡ true
      → is_some (get db' k) ≡ true
      → (d : Download) × (get db' (k_download (last_part k)) ≡ some (download d))
        × (member k (stored_keys d) ≡ true)
  replaced_sound k i e = elim (Bool-cases (member k (entry_keys entry))) [
    | inl set ↦
        let (belongs, (d, at, m)) = entry-of-key id k entry r.entry_ok set in
        (d, hit_entry (last_part k) (rw belongs.owner (same_refl id)) ∙ at, m)
    | inr unset ↦ elim (Bool-cases (member k erased)) [
      | inl gone ↦ absurd (ground (arith, r.index k i))
      | inr kept ↦ old_key k i kept (ground (arith, r.index k i))
    ]
  ]

  -- An operation that replaces one entry with its index keys keeps the indexes in agreement.
  pub replaced-IsIndexed : IsIndexed b db'
  replaced-IsIndexed = record {
    storable = replaced-IsStorable;
    complete = replaced_complete;
    sound = replaced_sound;
  }
