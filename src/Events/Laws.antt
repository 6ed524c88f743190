-- ===== src/Events/Laws.antt =====
-- Sound subscribers, and what each of them receives from a publication.
use svc_downloader.Common.{
  ℕ, zero, suc, ◌≤◌, ◌<◌, ◌==◌, Bool, true, false, not, ◌≡◌, refl, ap, ◌∙◌, subst, Option, none,
  some, List, [], ◌∷◌, ◌++◌, is_some, if◌then◌else◌, ltb, arith, inl, inr, Bool-cases,
}
use svc_downloader.Common.Lists.{length, length-append}
use svc_downloader.Models.{DownloadEvent, DownloadEventType}
use svc_downloader.Events.{
  Channel, Publisher, same_type, channel_at, set_channel, sent, send, send_all, publish, new,
}

-- How often a number, and a type, occurs.
unfoldable pub occurs : ℕ → List ℕ → ℕ
occurs n [] = 0
occurs n (m ∷ ms) = let rest = occurs n ms in if n == m then suc rest else rest

unfoldable pub types_in : DownloadEventType → List DownloadEventType → ℕ
types_in t [] = 0
types_in t (u ∷ us) = let rest = types_in t us in if same_type u t then suc rest else rest

abbrev pub is_open : Option Channel → Bool
is_open none = false
is_open (some c) = not c.closed

-- What a channel holds after so many sends of an event.
unfoldable pub sent_times : ℕ → DownloadEvent → Channel → Channel
sent_times zero e c = c
sent_times (suc k) e c = sent_times k e (sent e c)

unfoldable pub sent_to : ℕ → DownloadEvent → Option Channel → Option Channel
unfolding sent_times
sent_to k e none = none
sent_to k e (some c) = some (sent_times k e c)

abbrev pub Bounded : Option Channel → Type 0
Bounded none = Unit
Bounded (some c) = length c.buffer ≤ 64

-- Every subscriber's channel is open, and no buffer holds more than 64 events.
pub record IsSound (p : Publisher) : Type 0 where
  pub open_ones :
      (t : DownloadEventType) (n : ℕ)
      → 0 < occurs n (p.subs t)
      → is_open (channel_at p.channels n) ≡ true
  pub bounded : (n : ℕ) → Bounded (channel_at p.channels n)

pub new-IsSound : IsSound new
unfolding occurs channel_at
new-IsSound = record { open_ones = λ t n more. absurd (ground arith); bounded = λ n. tt }

pub channel_at-set_channel :
    (cs : List Channel) (n m : ℕ) (c : Channel)
    → channel_at (set_channel cs n c) m
      ≡ (if m == n then (if is_some (channel_at cs n) then some c else none) else channel_at cs m)
unfolding channel_at set_channel
channel_at-set_channel [] n m c = ground arith
channel_at-set_channel (d ∷ cs) zero zero c = refl
channel_at-set_channel (d ∷ cs) zero (suc m) c = ground arith
channel_at-set_channel (d ∷ cs) (suc n) zero c = ground arith
channel_at-set_channel (d ∷ cs) (suc n) (suc m) c = ground (arith, channel_at-set_channel cs n m c)

pub channel_at-append :
    (cs : List Channel) (c : Channel) (m : ℕ)
    → channel_at (cs ++ c ∷ []) m ≡ (if m == length cs then some c else channel_at cs m)
unfolding channel_at
channel_at-append [] c zero = refl
channel_at-append [] c (suc m) = ground arith
channel_at-append (d ∷ cs) c zero = ground arith
channel_at-append (d ∷ cs) c (suc m) = ground (arith, channel_at-append cs c m)

pub channel_at-beyond : (cs : List Channel) (n : ℕ) → length cs ≤ n → channel_at cs n ≡ none
unfolding channel_at
channel_at-beyond [] n h = refl
channel_at-beyond (c ∷ cs) zero h = absurd (ground arith)
channel_at-beyond (c ∷ cs) (suc n) h = channel_at-beyond cs n (ground arith)

closed-sent : (e : DownloadEvent) (c : Channel) → (sent e c).closed ≡ c.closed
closed-sent e c = elim (Bool-cases (ltb (length c.buffer) 64)) [
  | inl room ↦ rw room
  | inr full ↦ rw full
]

sent_bound :
    (e : DownloadEvent) (c : Channel) → length c.buffer ≤ 64 → length (sent e c).buffer ≤ 64
sent_bound e c h = elim (Bool-cases (ltb (length c.buffer) 64)) [
  | inl room ↦ rw room (ground (arith, length-append c.buffer (e ∷ []), room))
  | inr full ↦ rw full h
]

sent_times_bound :
    (k : ℕ) (e : DownloadEvent) (c : Channel)
    → length c.buffer ≤ 64
    → length (sent_times k e c).buffer ≤ 64
unfolding sent_times
sent_times_bound zero e c h = h
sent_times_bound (suc k) e c h = sent_times_bound k e (sent e c) (sent_bound e c h)

closed-sent_times : (k : ℕ) (e : DownloadEvent) (c : Channel) → (sent_times k e c).closed ≡ c.closed
unfolding sent_times
closed-sent_times zero e c = refl
closed-sent_times (suc k) e c = closed-sent_times k e (sent e c) ∙ closed-sent e c

is_open-sent_to :
    (k : ℕ) (e : DownloadEvent) (o : Option Channel) → is_open (sent_to k e o) ≡ is_open o
unfolding sent_to
is_open-sent_to k e none = refl
is_open-sent_to k e (some c) = ap not (closed-sent_times k e c)

sent_to_bound :
    (k : ℕ) (e : DownloadEvent) (o : Option Channel) → Bounded o → Bounded (sent_to k e o)
unfolding sent_to
sent_to_bound k e none h = tt
sent_to_bound k e (some c) h = sent_times_bound k e c h

sent_to_zero : (e : DownloadEvent) (o : Option Channel) → o ≡ sent_to 0 e o
unfolding sent_to
sent_to_zero e none = refl
sent_to_zero e (some c) = refl

AllOpen : List ℕ → List Channel → Type 0
AllOpen ns cs = (n : ℕ) → 0 < occurs n ns → is_open (channel_at cs n) ≡ true

abbrev Delivered : DownloadEvent → List ℕ → List Channel → List Channel → Type 0
Delivered e ns cs cs' = (m : ℕ) → channel_at cs' m ≡ sent_to (occurs m ns) e (channel_at cs m)

open_channel :
    (o : Option Channel) → is_open o ≡ true → (c : Channel) × (o ≡ some c) × (c.closed ≡ false)
open_channel none h = cc (h)
open_channel (some c) h = (c, refl, ground (arith, h))

module _ (e : DownloadEvent) (n : ℕ) (ns : List ℕ) (cs : List Channel) (c : Channel)
    (at : channel_at cs n ≡ some c) (open_c : c.closed ≡ false) where
  sent_cs : List Channel
  sent_cs = set_channel cs n (sent e c)

  sent_first : send e cs n (channel_at cs n) ≡ some sent_cs
  unfolding sent_cs
  sent_first = rw (at, open_c)

  channel_at-sent_cs :
      (m : ℕ) → channel_at sent_cs m ≡ (if m == n then some (sent e c) else channel_at cs m)
  unfolding sent_cs
  channel_at-sent_cs m = rw (channel_at-set_channel cs n m (sent e c)) (rw at)

  sent_cs-AllOpen : AllOpen (n ∷ ns) cs → AllOpen ns sent_cs
  unfolding AllOpen occurs
  sent_cs-AllOpen h m more = elim (Bool-cases (m == n)) [
    | inl eq ↦ rw (channel_at-sent_cs m) (rw eq (ap not (closed-sent e c) ∙ ap not open_c))
    | inr ne ↦ rw (channel_at-sent_cs m) (rw ne (h m (ground (arith, more))))
  ]

  sent_cs-Delivered :
      (cs' : List Channel) → Delivered e ns sent_cs cs' → Delivered e (n ∷ ns) cs cs'
  unfolding occurs sent_to sent_times
  sent_cs-Delivered cs' d m = elim (Bool-cases (m == n)) [
    | inl eq ↦
        let one : n ≡ m = ground (arith, eq) in
        let at_m : channel_at cs m ≡ some c = subst (λ i. channel_at cs i ≡ some c) one at in
        rw eq (rw at_m (rw eq at (d m ∙ ap (sent_to (occurs m ns) e) (channel_at-sent_cs m))))
    | inr ne ↦ rw ne (rw ne at (d m ∙ ap (sent_to (occurs m ns) e) (channel_at-sent_cs m)))
  ]

send_all_lem :
    (e : DownloadEvent) (ns : List ℕ) (cs : List Channel)
    → AllOpen ns cs
    → (cs' : List Channel) × (send_all e ns cs ≡ some cs') × Delivered e ns cs cs'
unfolding send_all
send_all_lem e [] cs h = (cs, refl, λ m. unfold occurs in sent_to_zero e (channel_at cs m))
send_all_lem e (n ∷ ns) cs h =
    let first : is_open (channel_at cs n) ≡ true = unfold AllOpen occurs in h n (ground arith) in
    let (c, at, open_c) = open_channel (channel_at cs n) first in
    let sent_now = sent_cs e n ns cs c at open_c in
    let (cs', done, delivered) =
      send_all_lem e ns sent_now (sent_cs-AllOpen e n ns cs c at open_c h) in
    (
      cs',
      rw (sent_first e n ns cs c at open_c) done,
      sent_cs-Delivered e n ns cs c at open_c cs' delivered,
    )

-- A publication among sound subscribers does not panic and leaves them sound. Each channel receives
-- the event as often as its number stands under the event's type, as long as it has room, and no
-- subscription changes.
pub publish_lem :
    (e : DownloadEvent) (p : Publisher)
    → IsSound p
    → (p' : Publisher) × (publish e p ≡ some p')
      × IsSound p'
      × (p'.subs ≡ p.subs)
      × ((n : ℕ)
          → channel_at p'.channels n
            ≡ sent_to (occurs n (p.subs e.type)) e (channel_at p.channels n))
unfolding publish
publish_lem e p h =
    let (cs, done, delivered) =
      send_all_lem e (p.subs e.type) p.channels (unfold AllOpen in h.open_ones e.type) in
    (
      record p { channels = cs },
      rw done,
      record {
        open_ones = λ t n more.
            ap is_open (delivered n)
            ∙ is_open-sent_to (occurs n (p.subs e.type)) e (channel_at p.channels n)
            ∙ h.open_ones t n more;
        bounded = λ n.
            rw (delivered n)
              (sent_to_bound (occurs n (p.subs e.type)) e (channel_at p.channels n) (h.bounded n));
      },
      refl,
      delivered,
    )
