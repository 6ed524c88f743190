-- ===== src/Events.antt =====
-- internal/events/publisher.go: subscribers are buffered channels, numbered in the order in which
-- they are made. Each method holds the lock for the whole of its work on `subs`. `none` is a panic:
-- of a send on a closed channel, or of a channel that is closed twice.
pub mod Laws
pub mod Subscriptions
mod Tests
use svc_downloader.Common.{
  ℕ, zero, suc, ◌+◌, ◌==◌, Bool, true, false, Option, none, some, List, [], ◌∷◌, ◌++◌,
  if◌then◌else◌, ltb,
}
use svc_downloader.Common.Lists.{length}
use svc_downloader.Models.{
  DownloadEvent, DownloadEventType, enqueued, started, progress, paused, resumed, completed, failed,
  cancelled,
}

-- t == event.Type
abbrev code : DownloadEventType → ℕ
code enqueued = 0
code started = 1
code progress = 2
code paused = 3
code resumed = 4
code completed = 5
code failed = 6
code cancelled = 7

unfoldable pub same_type : DownloadEventType → DownloadEventType → Bool
same_type s t = code s == code t

-- A channel with room for 64 events.
pub record Channel : Type 0 where
  pub buffer : List DownloadEvent
  pub closed : Bool

-- The map `subs`, a type without an entry having no subscriber, and the channels made so far.
pub record Publisher : Type 0 where
  pub subs : DownloadEventType → List ℕ
  pub channels : List Channel

-- NewInMemoryPublisher
abbrev pub new : Publisher
new = record { subs = λ t. []; channels = [] }

-- The channel with a number, and the channels with that one changed.
unfoldable pub channel_at : List Channel → ℕ → Option Channel
channel_at [] n = none
channel_at (c ∷ cs) zero = some c
channel_at (c ∷ cs) (suc n) = channel_at cs n

unfoldable pub set_channel : List Channel → ℕ → Channel → List Channel
set_channel [] n c' = []
set_channel (c ∷ cs) zero c' = c' ∷ cs
set_channel (c ∷ cs) (suc n) c' = c ∷ set_channel cs n c'

-- select { case ch <- event: default: }
abbrev pub sent : DownloadEvent → Channel → Channel
sent e c = if ltb (length c.buffer) 64 then record c { buffer = c.buffer ++ e ∷ [] } else c

abbrev pub send : DownloadEvent → List Channel → ℕ → Option Channel → Option (List Channel)
send e cs n none = none
send e cs n (some c) = if c.closed then none else some (set_channel cs n (sent e c))

abbrev pub then_send :
    Option (List Channel) → (List Channel → Option (List Channel)) → Option (List Channel)
then_send none f = none
then_send (some cs) f = f cs

-- The loop over the subscribers of the type.
unfoldable pub send_all : DownloadEvent → List ℕ → List Channel → Option (List Channel)
unfolding channel_at set_channel
send_all e [] cs = some cs
send_all e (n ∷ ns) cs = then_send (send e cs n (channel_at cs n)) (send_all e ns)

abbrev pub with_channels : Publisher → Option (List Channel) → Option Publisher
with_channels p none = none
with_channels p (some cs) = some (record p { channels = cs })

-- Publish
unfoldable pub publish : DownloadEvent → Publisher → Option Publisher
unfolding send_all
publish e p = with_channels p (send_all e (p.subs e.type) p.channels)

-- The entry of a type is replaced by a function of it.
abbrev pub at_type :
    DownloadEventType
    → (List ℕ → List ℕ)
    → (DownloadEventType → List ℕ)
    → DownloadEventType
    → List ℕ
at_type t f subs u = if same_type t u then f (subs u) else subs u

unfoldable pub add_to :
    ℕ → List DownloadEventType → (DownloadEventType → List ℕ) → DownloadEventType → List ℕ
unfolding same_type
add_to n [] subs = subs
add_to n (t ∷ ts) subs = add_to n ts (at_type t (λ ns. ns ++ n ∷ []) subs)

-- Subscribe: the number of the channel, which is the next one.
unfoldable pub subscribe : List DownloadEventType → Publisher → ℕ × Publisher
unfolding add_to
subscribe types p =
    let n = length p.channels in
    (
      n,
      record {
        subs = add_to n types p.subs;
        channels = p.channels ++ record { buffer = []; closed = false } ∷ [];
      },
    )

-- The first occurrence is cut out.
unfoldable pub cut : ℕ → List ℕ → List ℕ
cut n [] = []
cut n (m ∷ ms) = let rest = cut n ms in if m == n then ms else m ∷ rest

unfoldable pub cut_from :
    ℕ → List DownloadEventType → (DownloadEventType → List ℕ) → DownloadEventType → List ℕ
unfolding cut same_type
cut_from n [] subs = subs
cut_from n (t ∷ ts) subs = cut_from n ts (at_type t (cut n) subs)

abbrev pub close : List Channel → ℕ → Option Channel → Option (List Channel)
close cs n none = none
close cs n (some c) =
    if c.closed then none else some (set_channel cs n (record c { closed = true }))

-- The function that Subscribe returns, for its channel and its types.
unfoldable pub cancel : ℕ → List DownloadEventType → Publisher → Option Publisher
unfolding cut_from channel_at set_channel
cancel n types p =
    with_channels (record p { subs = cut_from n types p.subs })
      (close p.channels n (channel_at p.channels n))

-- A receive from a channel takes its first event.
unfoldable pub receive : ℕ → Publisher → Publisher
unfolding channel_at set_channel
receive n p = elim (channel_at p.channels n) [
  | none ↦ p
  | some c ↦ elim c.buffer [
    | [] ↦ p
    | e ∷ es ↦ record p { channels = set_channel p.channels n (record c { buffer = es }) }
  ]
]
