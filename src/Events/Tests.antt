-- ===== src/Events/Tests.antt =====
-- Instances of the theorems on the publisher.
use svc_downloader.Common.{ℕ, ◌≡◌, [], ◌∷◌, false, some}
use svc_downloader.Common.Bytes.{codes}
use svc_downloader.Common.Int.{pos}
use svc_downloader.Fixtures.{sample}
use svc_downloader.Models.{DownloadEvent, DownloadEventType, started, paused, no_data}
use svc_downloader.Events.{Publisher, new, subscribe, publish, cancel, channel_at}
use svc_downloader.Events.Laws.{IsSound, new-IsSound, publish_lem, occurs, types_in, sent_to}
use svc_downloader.Events.Subscriptions.{cancel-subscribe}

abbrev an_event : DownloadEvent
an_event = record {
  type = paused;
  download = sample (codes "a") (codes "main") (pos 0);
  timestamp = 9;
  event_data = no_data;
}

abbrev listened : Publisher
listened = (subscribe (started ∷ paused ∷ []) new).1

listened-IsSound : IsSound listened
listened-IsSound = (cancel-subscribe (started ∷ paused ∷ []) new new-IsSound).0

publish_lem_example :
    (p' : Publisher) × (publish an_event listened ≡ some p')
    × IsSound p'
    × (p'.subs ≡ listened.subs)
    × ((n : ℕ)
        → channel_at p'.channels n
          ≡ sent_to (occurs n (listened.subs paused)) an_event (channel_at listened.channels n))
publish_lem_example = publish_lem an_event listened listened-IsSound

cancel-subscribe_example :
    let (n, p1) = subscribe (started ∷ []) listened in
    IsSound p1
    × (channel_at p1.channels n ≡ some (record { buffer = []; closed = false }))
    × ((t : DownloadEventType) → occurs n (p1.subs t) ≡ types_in t (started ∷ []))
    × ((p2 : Publisher) × (cancel n (started ∷ []) p1 ≡ some p2)
        × IsSound p2
        × ((t : DownloadEventType) (m : ℕ) → occurs m (p2.subs t) ≡ occurs m (listened.subs t)))
cancel-subscribe_example = cancel-subscribe (started ∷ []) listened listened-IsSound
