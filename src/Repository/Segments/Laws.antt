-- ===== src/Repository/Segments/Laws.antt =====
-- The list of the segments of a download after one was saved, or all were deleted.
use svc_downloader.Common.{
  ◌≡◌, refl, sym, ap, ◌∙◌, subst, true, false, Option, some, List, [], ◌∷◌, ◌++◌, append_assoc,
  append-nil, ◌⊎◌, is_some, arith, inl, inr, Bool-cases,
}
use svc_downloader.Common.Bytes.{
  Bytes, same, same_refl, same_sound, member, starts_with, starts_with-append, starts_with_shorter,
  AllTexts, AllTexts-of-member,
}
use svc_downloader.Models.{Segment}
use svc_downloader.Errors.{ok, live}
use svc_downloader.Store.{Badger, Value, segment, delete_all}
use svc_downloader.Store.Laws.{get-delete_all}
use svc_downloader.Repository.Keys.{k_segment, k_download}
use svc_downloader.Repository.Deletion.{delete_each-live, segment_prefix}
use svc_downloader.Repository.Segments.{
  upsert_segment, list_segments, segments_loop, delete_segments,
}

empty-of-member : (ks : List Bytes) → ((k : Bytes) → member k ks ≡ false) → ks ≡ []
unfolding member
empty-of-member [] h = refl
empty-of-member (k ∷ ks) h = ground (arith, h k, same_refl k)

pub download-ne-segment : (id rest : Bytes) → starts_with (k_download id) (b's' ∷ rest) ≡ false
unfolding starts_with
download-ne-segment id rest = refl

segment_of_value : Option Value → List Segment
segment_of_value (some (segment s)) = s ∷ []
segment_of_value _ = []

abbrev pub IsSegment : Option Value → Type 0
IsSegment o = (s : Segment) × (o ≡ some (segment s))

-- A segment is an element of a list.
abbrev pub Lists : Segment → List Segment → Type 0
Lists s [] = ⊥
Lists s (t ∷ ts) = (t ≡ s) ⊎ Lists s ts

Lists-append_left : (s : Segment) (xs ys : List Segment) → Lists s xs → Lists s (xs ++ ys)
Lists-append_left s [] ys h = absurd h
Lists-append_left s (x ∷ xs) ys (inl e) = inl e
Lists-append_left s (x ∷ xs) ys (inr h) = inr (Lists-append_left s xs ys h)

Lists-append_right : (s : Segment) (xs ys : List Segment) → Lists s ys → Lists s (xs ++ ys)
Lists-append_right s [] ys h = h
Lists-append_right s (x ∷ xs) ys h = inr (Lists-append_right s xs ys h)

module _ (b : Badger) where
  open b use {Db, get, keys, get-set, get-delete, member-keys}

  abbrev pub cleared : Bytes → Db → Db
  cleared id db = delete_all b db (keys db (segment_prefix b id))

  pub delete_segments-ok :
      (id : Bytes) (db : Db) → delete_segments b live id db ≡ (ok tt, cleared id db)
  unfolding delete_segments
  delete_segments-ok id db = rw (delete_each-live b (keys db (segment_prefix b id)) db)

  no_keys : (id : Bytes) (db : Db) → keys (cleared id db) (segment_prefix b id) ≡ []
  no_keys id db = empty-of-member (keys (cleared id db) (segment_prefix b id)) (λ k. ground (
    arith,
    member-keys (cleared id db) (segment_prefix b id) k,
    member-keys db (segment_prefix b id) k,
    get-delete_all b db (keys db (segment_prefix b id)) k,
  ))

  -- After DeleteSegments of a download ListSegments finds none of it, and no key that begins
  -- with another text than the prefix of its segments is lost.
  pub list_segments-delete_segments :
      (id k : Bytes) (db : Db)
      → let db' = (delete_segments b live id db).1 in
        ((list_segments b live id db').0 ≡ ok [])
        × (starts_with k (segment_prefix b id) ≡ false → get db' k ≡ get db k)
  unfolding list_segments
  list_segments-delete_segments id k db = rw (delete_segments-ok id db) (
    rw (no_keys id db),
    λ out. ground (
      arith,
      get-delete_all b db (keys db (segment_prefix b id)) k,
      member-keys db (segment_prefix b id) k,
    ),
  )

  -- What stands under the prefix of segments is a segment.
  abbrev pub HasSegments : Db → Type 0
  HasSegments db =
      (k : Bytes)
      → starts_with k (b's' ∷ b'|' ∷ []) ≡ true
      → is_some (get db k) ≡ true
      → IsSegment (get db k)

  stored_segments : Db → List Bytes → List Segment
  unfolding segment_of_value
  stored_segments db [] = []
  stored_segments db (k ∷ ks) = segment_of_value (get db k) ++ stored_segments db ks

  segments_loop-stored :
      (ks : List Bytes) (out : List Segment) (db : Db)
      → AllTexts (λ k. IsSegment (get db k)) ks
      → segments_loop b live ks out db ≡ ok (out ++ stored_segments db ks, db)
  unfolding segments_loop stored_segments segment_of_value
  segments_loop-stored [] out db h = rw append-nil
  segments_loop-stored (k ∷ ks) out db ((s, e), rest) = rw e (
      segments_loop-stored ks (out ++ s ∷ []) db rest
      ∙ ap (λ (x : List Segment). ok (x, db)) (append_assoc out (s ∷ []) (stored_segments db ks)))

  walked-IsSegment :
      (id k : Bytes) (db : Db)
      → HasSegments db
      → member k (keys db (segment_prefix b id)) ≡ true
      → IsSegment (get db k)
  walked-IsSegment id k db h m =
      let e = member-keys db (segment_prefix b id) k in
      h k (starts_with_shorter k (b's' ∷ b'|' ∷ []) (b'|' ∷ id) (ground (arith, e)))
        (ground (arith, e))

  list_segments-stored :
      (id : Bytes) (db : Db)
      → HasSegments db
      → (list_segments b live id db).0 ≡ ok (stored_segments db (keys db (segment_prefix b id)))
  unfolding list_segments
  list_segments-stored id db h = rw (
      segments_loop-stored (keys db (segment_prefix b id)) [] db (
        AllTexts-of-member (λ k. IsSegment (get db k)) (keys db (segment_prefix b id))
          (λ k m. walked-IsSegment id k db h m)))

  stored_segments-member :
      (ks : List Bytes) (k : Bytes) (s : Segment) (db : Db)
      → member k ks ≡ true
      → get db k ≡ some (segment s)
      → Lists s (stored_segments db ks)
  unfolding member stored_segments segment_of_value
  stored_segments-member [] k s db m e = cc
  stored_segments-member (j ∷ ks) k s db m e = elim (Bool-cases (same k j)) [
    | inl eq ↦
        let at : get db j ≡ some (segment s) =
          subst (λ i. get db i ≡ some (segment s)) (same_sound k j eq) e in
        rw at (inl refl)
    | inr ne ↦
        Lists-append_right s (segment_of_value (get db j)) (stored_segments db ks)
          (stored_segments-member ks k s db (ground arith) e)
  ]

  abbrev key_of : Segment → Bytes
  key_of s = k_segment s.download_id s.index

  abbrev pub upserted : Segment → Db → Db
  upserted s db = b.set db (key_of s) (segment s)

  upsert_segment-ok :
      (s : Segment) (db : Db)
      → same s.download_id [] ≡ false
      → upsert_segment b live s db ≡ (ok tt, upserted s db)
  unfolding upsert_segment
  upsert_segment-ok s db named = rw named

  upserted-HasSegments : (s : Segment) (db : Db) → HasSegments db → HasSegments (upserted s db)
  upserted-HasSegments s db h k p here = elim (Bool-cases (same (key_of s) k)) [
    | inl eq ↦ (s, rw eq at (get-set db (key_of s) k (segment s)))
    | inr ne ↦
        let old : get (upserted s db) k ≡ get db k =
          ground (arith, get-set db (key_of s) k (segment s)) in
        let (t, e) = h k p (ap is_some (sym old) ∙ here) in (t, old ∙ e)
  ]

  starts_with-key_of :
      (s : Segment) → starts_with (key_of s) (segment_prefix b s.download_id) ≡ true
  unfolding k_segment
  starts_with-key_of s = starts_with-append (b's' ∷ b'|' ∷ b'|' ∷ s.download_id) _

  -- Over a store where only segments stand under the prefix of segments, a saved segment of a named
  -- download is listed, and the store stays such.
  pub list_segments-upsert_segment :
      (s : Segment) (db : Db)
      → same s.download_id [] ≡ false
      → HasSegments db
      → let db' = (upsert_segment b live s db).1 in
        HasSegments db'
        × ((out : List Segment) × ((list_segments b live s.download_id db').0 ≡ ok out)
            × Lists s out)
  list_segments-upsert_segment s db named h =
      let h' = upserted-HasSegments s db h in
      let saved : get (upserted s db) (key_of s) ≡ some (segment s) =
        rw (same_refl (key_of s)) at (get-set db (key_of s) (key_of s) (segment s)) in
      let listed : member (key_of s) (keys (upserted s db) (segment_prefix b s.download_id))
          ≡ true =
        ground (
          arith,
          member-keys (upserted s db) (segment_prefix b s.download_id) (key_of s),
          starts_with-key_of s,
          saved,
        ) in
      rw (upsert_segment-ok s db named) (
        h',
        (
          stored_segments (upserted s db) (keys (upserted s db) (segment_prefix b s.download_id)),
          list_segments-stored s.download_id (upserted s db) h',
          stored_segments-member _ (key_of s) s (upserted s db) listed saved,
        ),
      )
