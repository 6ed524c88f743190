-- ===== src/Events/Subscriptions.antt =====
-- A subscription and its cancellation.
use svc_downloader.Common.{
  ℕ, ◌+◌, ◌-◌, ◌≤◌, ◌==◌, true, false, ◌≡◌, refl, ap, subst, some, List, [], ◌∷◌, ◌++◌,
  if◌then◌else◌, ltb, arith, inl, inr, Bool-cases,
}
use svc_downloader.Common.Lists.{length}
use svc_downloader.Models.{DownloadEventType}
use svc_downloader.Events.{
  Channel, Publisher, same_type, channel_at, set_channel, at_type, add_to, subscribe, cut, cut_from,
  cancel,
}
use svc_downloader.Events.Laws.{
  occurs, types_in, is_open, IsSound, channel_at-set_channel, channel_at-append, channel_at-beyond,
}

occurs-append :
    (m n : ℕ) (ns : List ℕ) → occurs m (ns ++ n ∷ []) ≡ occurs m ns + (if m == n then 1 else 0)
unfolding occurs
occurs-append m n [] = ground arith
occurs-append m n (k ∷ ns) = ground (arith, occurs-append m n ns)

occurs-cut : (m n : ℕ) (ns : List ℕ) → occurs m (cut n ns) ≡ occurs m ns - (if m == n then 1 else 0)
unfolding occurs cut
occurs-cut m n [] = ground arith
occurs-cut m n (k ∷ ns) = ground (arith, occurs-cut m n ns)

occurs-add_to :
    (m n : ℕ) (types : List DownloadEventType) (subs : DownloadEventType → List ℕ)
    (t : DownloadEventType)
    → occurs m (add_to n types subs t)
      ≡ occurs m (subs t) + (if m == n then types_in t types else 0)
unfolding add_to types_in
occurs-add_to m n [] subs t = ground arith
occurs-add_to m n (u ∷ us) subs t =
    let ih = occurs-add_to m n us (at_type u (λ ns. ns ++ n ∷ []) subs) t in
    elim (Bool-cases (same_type u t)) [
      | inl eq ↦
          let ih' : occurs m (add_to n us (at_type u (λ ns. ns ++ n ∷ []) subs) t)
              ≡ occurs m (subs t ++ n ∷ []) + (if m == n then types_in t us else 0) =
            rw eq at ih in
          rw eq (ground (arith, ih', occurs-append m n (subs t)))
      | inr ne ↦ rw ne (rw ne at ih)
    ]

occurs-cut_from :
    (m n : ℕ) (types : List DownloadEventType) (subs : DownloadEventType → List ℕ)
    (t : DownloadEventType)
    → occurs m (cut_from n types subs t)
      ≡ occurs m (subs t) - (if m == n then types_in t types else 0)
unfolding cut_from types_in
occurs-cut_from m n [] subs t = ground arith
occurs-cut_from m n (u ∷ us) subs t =
    let ih = occurs-cut_from m n us (at_type u (cut n) subs) t in
    elim (Bool-cases (same_type u t)) [
      | inl eq ↦
          let ih' : occurs m (cut_from n us (at_type u (cut n) subs) t)
              ≡ occurs m (cut n (subs t)) - (if m == n then types_in t us else 0) =
            rw eq at ih in
          rw eq (ground (arith, ih', occurs-cut m n (subs t)))
      | inr ne ↦ rw ne (rw ne at ih)
    ]

-- The channels of sound subscribers were made before.
occurs-beyond :
    (p : Publisher) (t : DownloadEventType) (n : ℕ)
    → IsSound p
    → length p.channels ≤ n
    → occurs n (p.subs t) ≡ 0
occurs-beyond p t n h far = elim (Bool-cases (ltb 0 (occurs n (p.subs t)))) [
  | inr never ↦ ground (arith, never)
  | inl more ↦
      let up = h.open_ones t n (ground (arith, more)) in
      cc (up, ap is_open (channel_at-beyond p.channels n far))
]

module _ (types : List DownloadEventType) (p : Publisher) (h : IsSound p) where
  abbrev number : ℕ
  number = length p.channels

  subscribed : Publisher
  unfolding subscribe
  subscribed = (subscribe types p).1

  subscribed_at :
      (m : ℕ)
      → channel_at subscribed.channels m ≡ (
          if m == number
          then some (record { buffer = []; closed = false })
          else channel_at p.channels m)
  unfolding subscribed
  subscribed_at m = channel_at-append p.channels (record { buffer = []; closed = false }) m

  occurs-subscribed :
      (m : ℕ) (t : DownloadEventType)
      → occurs m (subscribed.subs t)
        ≡ occurs m (p.subs t) + (if m == number then types_in t types else 0)
  unfolding subscribed
  occurs-subscribed m t = occurs-add_to m number types p.subs t

  subscribed-IsSound : IsSound subscribed
  subscribed-IsSound = record {
    open_ones = λ t m more. elim (Bool-cases (m == number)) [
      | inl eq ↦ rw (subscribed_at m) (rw eq)
      | inr ne ↦
          rw (subscribed_at m)
            (rw ne (h.open_ones t m (ground (arith, more, ne, occurs-subscribed m t))))
    ];
    bounded = λ m. elim (Bool-cases (m == number)) [
      | inl eq ↦ rw (subscribed_at m) (rw eq (ground arith))
      | inr ne ↦ rw (subscribed_at m) (rw ne (h.bounded m))
    ];
  }

module _ (n : ℕ) (types : List DownloadEventType) (p : Publisher) (h : IsSound p) (c : Channel)
    (at : channel_at p.channels n ≡ some c) (open_c : c.closed ≡ false)
    (few : (t : DownloadEventType) → occurs n (p.subs t) ≤ types_in t types) where
  left : Publisher
  left = record {
    subs = cut_from n types p.subs;
    channels = set_channel p.channels n (record c { closed = true });
  }

  cancel-ok : cancel n types p ≡ some left
  unfolding cancel left
  cancel-ok = rw (at, open_c)

  occurs-left :
      (m : ℕ) (t : DownloadEventType)
      → occurs m (left.subs t) ≡ (if m == n then 0 else occurs m (p.subs t))
  unfolding left
  occurs-left m t = elim (Bool-cases (m == n)) [
    | inl eq ↦
        let one : n ≡ m = ground (arith, eq) in
        let few_m = subst (λ i. occurs i (p.subs t) ≤ types_in t types) one (few t) in
        ground (arith, eq, occurs-cut_from m n types p.subs t, few_m)
    | inr ne ↦ ground (arith, ne, occurs-cut_from m n types p.subs t)
  ]

  left_at :
      (m : ℕ)
      → channel_at left.channels m
        ≡ (if m == n then some (record c { closed = true }) else channel_at p.channels m)
  unfolding left
  left_at m = rw (channel_at-set_channel p.channels n m (record c { closed = true })) (rw at)

  left-IsSound : IsSound left
  left-IsSound = record {
    open_ones = λ t m more. elim (Bool-cases (m == n)) [
      | inl eq ↦ absurd (ground (arith, eq, more, occurs-left m t))
      | inr ne ↦
          rw (left_at m) (rw ne (h.open_ones t m (ground (arith, more, ne, occurs-left m t))))
    ];
    bounded = λ m. elim (Bool-cases (m == n)) [
      | inl eq ↦
          let full : length c.buffer ≤ 64 = rw at at (h.bounded n) in rw (left_at m) (rw eq full)
      | inr ne ↦ rw (left_at m) (rw ne (h.bounded m))
    ];
  }

-- A subscription among sound subscribers leaves them sound, with a new, empty channel that stands
-- under each type as often as the type was asked for. Its cancellation, if it comes next, does not
-- panic, leaves the subscribers sound, and every channel stands under each type as often as before
-- the subscription.
pub cancel-subscribe :
    (types : List DownloadEventType) (p : Publisher)
    → IsSound p
    → let (n, p1) = subscribe types p in
      IsSound p1
      × (channel_at p1.channels n ≡ some (record { buffer = []; closed = false }))
      × ((t : DownloadEventType) → occurs n (p1.subs t) ≡ types_in t types)
      × ((p2 : Publisher) × (cancel n types p1 ≡ some p2)
          × IsSound p2
          × ((t : DownloadEventType) (m : ℕ) → occurs m (p2.subs t) ≡ occurs m (p.subs t)))
unfolding subscribe subscribed
cancel-subscribe types p h =
    let n = length p.channels in
    let p1 = subscribed types p h in
    let h1 = subscribed-IsSound types p h in
    let at : channel_at p1.channels n ≡ some (record { buffer = []; closed = false }) =
      ground (arith, subscribed_at types p h n) in
    let now_in : (t : DownloadEventType) → occurs n (p1.subs t) ≡ types_in t types =
      λ t. ground (arith, occurs-subscribed types p h n t, occurs-beyond p t n h) in
    let few : (t : DownloadEventType) → occurs n (p1.subs t) ≤ types_in t types =
      λ t. omega (arith, now_in t) in
    let c : Channel = record { buffer = []; closed = false } in
    (
      h1,
      at,
      now_in,
      (
        left n types p1 h1 c at refl few,
        cancel-ok n types p1 h1 c at refl few,
        left-IsSound n types p1 h1 c at refl few,
        λ t m. ground (
          arith,
          occurs-left n types p1 h1 c at refl few m t,
          occurs-subscribed types p h m t,
          occurs-beyond p t n h,
        ),
      ),
    )
