-- ===== src/Service/Tags/Laws.antt =====
-- What becomes of the tags of a download.
use svc_downloader.Common.{
  ◌≡◌, refl, sym, ap, ◌∙◌, subst, true, false, not, ◌&&◌, ◌||◌, List, [], ◌∷◌, ◌++◌, append_assoc,
  append-nil, map, arith, inl, inr, Bool-cases,
}
use mathlib.Core.List.{map-append}
use svc_downloader.Common.Bytes.{Bytes, same, same_iff, same_refl, member, member-append, to_lower}
use svc_downloader.Store.{Distinct}
use svc_downloader.Service.Tags.{add_loop, add_tags, remove_tags}

-- The lower-case forms of the tags.
abbrev pub lowered : List Bytes → List Bytes
lowered = map to_lower

member-lowered-append :
    (s t : Bytes) (tags : List Bytes)
    → member s (lowered (tags ++ t ∷ [])) ≡ (member s (lowered tags) || same s (to_lower t))
unfolding member
member-lowered-append s t tags =
    rw (map-append to_lower tags (t ∷ []))
      (rw (member-append s (lowered tags) (to_lower t ∷ [])) (ground arith))

-- The lower-case forms that the loop knows are those of the tags so far.
abbrev Knows : List Bytes → List Bytes → Type 0
Knows tags existing = (s : Bytes) → member s existing ≡ member s (lowered tags)

Knows-append :
    (t : Bytes) (tags existing : List Bytes)
    → Knows tags existing
    → Knows (tags ++ t ∷ []) (to_lower t ∷ existing)
unfolding member
Knows-append t tags existing h s = ground (arith, h s, member-lowered-append s t tags)

Distinct-append :
    (t : Bytes) (ts : List Bytes) → Distinct ts → member t ts ≡ false → Distinct (ts ++ t ∷ [])
unfolding member
Distinct-append t [] d m = (refl, tt)
Distinct-append t (s ∷ ts) (out, d) m = (
  rw (member-append s ts (t ∷ [])) (ground (arith, out, m, same_iff s t, same_iff t s)),
  Distinct-append t ts d (ground (arith, m)),
)

-- What a round leaves holds of the result: an induction over the loop.
module _ (P : List Bytes → Type 0) where
  loop_keeps :
      ((t : Bytes) (tags : List Bytes)
        → P tags
        → same t [] ≡ false
        → member (to_lower t) (lowered tags) ≡ false
        → P (tags ++ t ∷ []))
      → (ts tags existing : List Bytes) → Knows tags existing
      → P tags
      → P (add_loop ts tags existing)
  unfolding add_loop
  loop_keeps step [] tags existing k h = h
  loop_keeps step (t ∷ ts) tags existing k h =
      elim (Bool-cases (same t [] || member (to_lower t) existing)) [
        | inl skip ↦ rw skip (loop_keeps step ts tags existing k h)
        | inr new ↦ rw new (
            loop_keeps step ts (tags ++ t ∷ []) (to_lower t ∷ existing)
              (Knows-append t tags existing k)
              (step t tags h (ground (arith, new)) (ground (arith, new, k (to_lower t)))))
      ]

loop_remembers :
    (s : Bytes) (ts tags existing : List Bytes)
    → Knows tags existing
    → member s (lowered tags) ≡ true
    → member s (lowered (add_loop ts tags existing)) ≡ true
loop_remembers s =
    loop_keeps (λ tags. member s (lowered tags) ≡ true)
      (λ t tags h named new. rw (member-lowered-append s t tags) (rw h))

loop_covers :
    (t : Bytes) (ts tags existing : List Bytes)
    → Knows tags existing
    → member t ts ≡ true
    → same t [] ≡ false
    → member (to_lower t) (lowered (add_loop ts tags existing)) ≡ true
unfolding add_loop member
loop_covers t [] tags existing k m n = cc
loop_covers t (u ∷ ts) tags existing k m n = elim (Bool-cases (same t u)) [
  | inl eq ↦
      let e : t ≡ u = ground (arith, same_iff t u) in
      let named : same u [] ≡ false = subst (λ x. same x [] ≡ false) e n in
      let held : member (to_lower u) (lowered (add_loop (u ∷ ts) tags existing)) ≡ true =
        at_head named in
      subst (λ x. member (to_lower x) (lowered (add_loop (u ∷ ts) tags existing)) ≡ true) (sym e)
        held
  | inr ne ↦
      let m' : member t ts ≡ true = ground (arith, m, ne) in
      in_tail (λ acc known h. loop_covers t ts acc known h m' n)
]
  where
    tags' : List Bytes
    tags' = tags ++ u ∷ []

    k' : Knows tags' (to_lower u ∷ existing)
    k' = Knows-append u tags existing k

    at_head :
        same u [] ≡ false → member (to_lower u) (lowered (add_loop (u ∷ ts) tags existing)) ≡ true
    at_head named = elim (Bool-cases (member (to_lower u) existing)) [
      | inl old ↦
          rw (named, old)
            (loop_remembers (to_lower u) ts tags existing k (sym (k (to_lower u)) ∙ old))
      | inr new ↦
          rw (named, new)
            (loop_remembers (to_lower u) ts tags' (to_lower u ∷ existing) k' (
              rw (member-lowered-append (to_lower u) u tags)
                (ground (arith, same_refl (to_lower u)))))
    ]

    in_tail :
        ((acc known : List Bytes)
          → Knows acc known
          → member (to_lower t) (lowered (add_loop ts acc known)) ≡ true)
        → member (to_lower t) (lowered (add_loop (u ∷ ts) tags existing)) ≡ true
    in_tail rest = elim (Bool-cases (same u [] || member (to_lower u) existing)) [
      | inl skip ↦ rw skip (rest tags existing k)
      | inr new ↦ rw new (rest tags' (to_lower u ∷ existing) k')
    ]

loop_extends :
    (ts tags existing : List Bytes)
    → (added : List Bytes) × (add_loop ts tags existing ≡ tags ++ added)
      × ((s : Bytes) → member s added ≡ true → (member s ts ≡ true) × (same s [] ≡ false))
unfolding add_loop member
loop_extends [] tags existing = ([], sym (append-nil tags), λ s m. cc (m))
loop_extends (t ∷ ts) tags existing =
    elim (Bool-cases (same t [] || member (to_lower t) existing)) [
      | inl skip ↦
          let (added, e, from) = loop_extends ts tags existing in
          rw skip (added, e, λ s m. (ground (arith, from s m), (from s m).1))
      | inr new ↦
          let (added, e, from) = loop_extends ts (tags ++ t ∷ []) (to_lower t ∷ existing) in
          rw new (
            t ∷ added,
            e ∙ append_assoc tags (t ∷ []) added,
            λ s m. from_head s added from (ground (arith, new)) m,
          )
    ]
  where
    from_head :
        (s : Bytes) (added : List Bytes)
        → ((r : Bytes) → member r added ≡ true → (member r ts ≡ true) × (same r [] ≡ false))
        → same t [] ≡ false
        → (same s t || member s added) ≡ true
        → ((same s t || member s ts) ≡ true) × (same s [] ≡ false)
    from_head s added from named m = elim (Bool-cases (same s t)) [
      | inl eq ↦ (
        rw eq,
        let e : s ≡ t = ground (arith, same_iff s t) in
            subst (λ x. same x [] ≡ false) (sym e) named,
      )
      | inr ne ↦ let (i, n) = from s (ground (arith, m, ne)) in (rw (ne, i), n)
    ]

-- AddTags keeps the old tags in their order and appends only given tags that are not empty. Of every
-- given tag that is not empty there is one in the result, up to the case of its letters, and if no
-- two of the old tags were the same up to case, no two of the result are.
pub add_tags_lem :
    (old new : List Bytes)
    → ((added : List Bytes) × (add_tags old new ≡ old ++ added)
        × ((s : Bytes) → member s added ≡ true → (member s new ≡ true) × (same s [] ≡ false)))
      × ((t : Bytes)
          → member t new ≡ true
          → same t [] ≡ false
          → member (to_lower t) (lowered (add_tags old new)) ≡ true)
      × (Distinct (lowered old) → Distinct (lowered (add_tags old new)))
unfolding add_tags
add_tags_lem old new = (
  loop_extends new old (lowered old),
  λ t m n. loop_covers t new old (lowered old) (λ s. refl) m n,
  loop_keeps (λ tags. Distinct (lowered tags))
      (λ t tags d named fresh.
        rw (map-append to_lower tags (t ∷ []))
          (Distinct-append (to_lower t) (lowered tags) d fresh))
      new old (lowered old) (λ s. refl),
)

-- RemoveTags keeps exactly the tags that differ from every given one in more than case.
pub member-remove_tags :
    (s : Bytes) (old tags : List Bytes)
    → member s (remove_tags old tags) ≡ (member s old && not (member (to_lower s) (lowered tags)))
unfolding remove_tags member
member-remove_tags s [] tags = refl
member-remove_tags s (t ∷ old) tags =
    let ih = member-remove_tags s old tags in
    let same_form : same s t ≡ true
        → member (to_lower s) (lowered tags) ≡ member (to_lower t) (lowered tags) =
      λ eq. ap (λ x. member (to_lower x) (lowered tags)) ((same_iff s t).0 eq) in
    elim (Bool-cases (member (to_lower t) (lowered tags))) [
      | inl out ↦ rw out (ground (arith, ih, same_form, out))
      | inr kept ↦ rw kept (ground (arith, ih, same_form, kept))
    ]
