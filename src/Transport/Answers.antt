-- ===== src/Transport/Answers.antt =====
-- Where the answer of GetRange comes from.
use svc_downloader.Common.{
  ℕ, ◌≡◌, refl, false, Option, none, some, List, [], ◌∷◌, inl, inr, arith, Bool-cases, leb,
}
use svc_downloader.Common.Bytes.{Bytes, codes}
use svc_downloader.Common.Int.{ℤ}
use svc_downloader.Models.{RequestOptions, DownloadConfig}
use svc_downloader.Errors.{Error}
use svc_downloader.Transport.{Web, Wire, Response, Header, Request, set_header, with_mirrors}
use svc_downloader.Transport.Headers.{add_query}
use svc_downloader.Transport.Client.{client_for}
use svc_downloader.Transport.Fetch.{
  Ranged, got, failed, made_request, range_value, get_range, range_from, range_answer, ask,
}

-- The request that GetRange makes of one mirror.
abbrev pub range_request : Web → ℤ → RequestOptions → DownloadConfig → ℤ → ℤ → Bytes → Request
range_request web timeout req cfg start end u =
    made_request web timeout req cfg (codes "GET") u
      (set_header (codes "Range") (range_value start end) [])

-- An answer of the network to a request for a range.
abbrev pub Heard : Web → ℤ → RequestOptions → DownloadConfig → ℤ → ℤ → Response → Type 0
Heard web timeout req cfg start end r =
    (n : ℕ) × (u : Bytes) × ((web.send n (client_for timeout cfg)
        (range_request web timeout req cfg start end u)).response
      ≡ some r)

module _ (web : Web) (timeout : ℤ) (req : RequestOptions) (cfg : DownloadConfig)
    (start end : ℤ) where
  -- A response comes from the network and is below 400; without one there is an error.
  abbrev pub Answered : Ranged → Type 0
  Answered (failed status none) = ⊥
  Answered (failed status (some e)) = Unit
  Answered (got r) = Heard web timeout req cfg start end r × (leb 400 r.status ≡ false)

  abbrev range_header : Header
  range_header = set_header (codes "Range") (range_value start end) []

  ask-Heard :
      (u : Bytes) (w : Wire) (r : Response)
      → (ask web timeout req cfg (codes "GET") u range_header w).0 ≡ some r
      → Heard web timeout req cfg start end r
  unfolding ask
  ask-Heard u w r h = elim (Bool-cases (web.accepts (add_query web u req.extra))) [
    | inl fine ↦ (w.sent, u, ground (arith, h, fine))
    | inr bad ↦ absurd (ground (arith, h, bad))
  ]

  range_answer-Answered :
      (rest : ℕ → Option Error → Wire → Ranged × Wire) (status : ℕ) (x : Option Response × Wire)
      → ((s : ℕ) (e : Error) (w : Wire) → Answered (rest s (some e) w).0)
      → ((r : Response) → x.0 ≡ some r → Heard web timeout req cfg start end r)
      → Answered (range_answer web timeout req cfg rest status x).0
  range_answer-Answered rest status (none, w) more h = more status _ w
  range_answer-Answered rest status (some r, w) more h = elim (Bool-cases (leb 400 r.status)) [
    | inl bad ↦ rw bad (more r.status _ w)
    | inr fine ↦ rw fine (h r refl, fine)
  ]

  range_from-Answered :
      (us : List Bytes) (status : ℕ) (e : Error) (w : Wire)
      → Answered (range_from web timeout req cfg range_header us status (some e) w).0
  unfolding range_from
  range_from-Answered [] status e w = tt
  range_from-Answered (u ∷ us) status e w =
      range_answer-Answered (range_from web timeout req cfg range_header us) status
        (ask web timeout req cfg (codes "GET") u range_header w) (range_from-Answered us)
        (ask-Heard u w)

  -- GetRange returns a response only if the network gave it to a request for the range and its status is
  -- below 400; if it returns none, it returns an error.
  pub get_range-Answered : (w : Wire) → Answered (get_range web timeout req cfg start end w).0
  unfolding get_range range_from with_mirrors
  get_range-Answered w =
      range_answer-Answered (range_from web timeout req cfg range_header _) 0
        (ask web timeout req cfg (codes "GET") req.url range_header w) (range_from-Answered _)
        (ask-Heard req.url w)
