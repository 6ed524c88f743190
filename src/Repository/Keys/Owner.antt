-- ===== src/Repository/Keys/Owner.antt =====
-- Which download an index key belongs to.
use svc_downloader.Common.{
  true, false, ◌≡◌, refl, ap, sym, ◌∙◌, List, [], ◌∷◌, ◌++◌, append_assoc, if◌then◌else◌, inl, inr,
  Bool-cases,
}
use svc_downloader.Common.Bytes.{
  Bytes, same, member, last_part, last_part_lem, LacksBar, AllTexts, AllTexts-append,
  AllTexts-member, to_lower,
}
use svc_downloader.Models.{Download}
use svc_downloader.Repository.Keys.{
  index_keys, tag_keys, is_index_key, k_download, k_download_by_status, k_download_by_queue,
  p_download_by_created_at, p_download_by_status, p_download_by_queue, p_download_by_tag,
}

-- An index key whose last part is the given id.
pub record BelongsTo (id k : Bytes) : Type 0 where
  pub index : is_index_key k ≡ true
  pub owner : last_part k ≡ id

module _ (id created : Bytes) (plain : LacksBar id) where
  -- The last separator of a key stands in front of its last part.
  last_part-join3 : (front middle : Bytes) → last_part (front ++ b'|' ∷ (middle ++ b'|' ∷ id)) ≡ id
  last_part-join3 front middle =
      ap last_part (sym (append_assoc front (b'|' ∷ middle) (b'|' ∷ id)))
      ∙ last_part_lem (front ++ b'|' ∷ middle) id plain

  last_part-join4 :
      (front middle : Bytes)
      → last_part (front ++ b'|' ∷ (middle ++ b'|' ∷ (created ++ b'|' ∷ id))) ≡ id
  last_part-join4 front middle =
      ap last_part (sym (append_assoc front (b'|' ∷ middle) (b'|' ∷ (created ++ b'|' ∷ id))))
      ∙ last_part-join3 (front ++ b'|' ∷ middle) created

  tag_keys-BelongsTo : (tags : List Bytes) → AllTexts (BelongsTo id) (tag_keys tags created id)
  unfolding tag_keys is_index_key
  tag_keys-BelongsTo [] = tt
  tag_keys-BelongsTo (tag ∷ tags) = elim (Bool-cases (same tag [])) [
    | inl empty ↦ rw empty (tag_keys-BelongsTo tags)
    | inr full ↦ rw full (
      record { index = refl; owner = last_part-join4 p_download_by_tag (to_lower tag) },
      tag_keys-BelongsTo tags,
    )
  ]

  status_keys-BelongsTo :
      (status : Bytes)
      → AllTexts
          (BelongsTo id)
          (if same status [] then [] else k_download_by_status status created id ∷ [])
  unfolding is_index_key
  status_keys-BelongsTo status = elim (Bool-cases (same status [])) [
    | inl empty ↦ rw empty tt
    | inr full ↦
        rw full (record { index = refl; owner = last_part-join4 p_download_by_status status }, tt)
  ]

  queue_keys-BelongsTo :
      (queue_id : Bytes)
      → AllTexts
          (BelongsTo id)
          (if same queue_id [] then [] else k_download_by_queue queue_id created id ∷ [])
  unfolding is_index_key
  queue_keys-BelongsTo queue_id = elim (Bool-cases (same queue_id [])) [
    | inl empty ↦ rw empty tt
    | inr full ↦
        rw full (record { index = refl; owner = last_part-join4 p_download_by_queue queue_id }, tt)
  ]

index_keys-all :
    (created : Bytes) (d : Download)
    → LacksBar d.id
    → AllTexts (BelongsTo d.id) (index_keys created d)
unfolding index_keys is_index_key
index_keys-all created d plain = (
  record {
    index = refl;
    owner = last_part-join3 d.id created plain p_download_by_created_at created;
  },
  AllTexts-append (BelongsTo d.id) _ _ (status_keys-BelongsTo d.id created plain d.status) (
      AllTexts-append (BelongsTo d.id) _ _ (queue_keys-BelongsTo d.id created plain d.queue_id)
        (tag_keys-BelongsTo d.id created plain d.tags)),
)

-- Each index key of a download lies under an index prefix, and its last part is the download's id.
pub index_keys-BelongsTo :
    (created : Bytes) (d : Download) (k : Bytes)
    → LacksBar d.id
    → member k (index_keys created d) ≡ true
    → BelongsTo d.id k
index_keys-BelongsTo created d k plain m =
    AllTexts-member (BelongsTo d.id) k (index_keys created d) (index_keys-all created d plain) m

-- No primary key is an index key.
pub is_index_key-k_download : (id : Bytes) → is_index_key (k_download id) ≡ false
unfolding is_index_key
is_index_key-k_download id = refl
