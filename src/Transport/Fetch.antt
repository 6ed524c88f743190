-- ===== src/Transport/Fetch.antt =====
-- Head, GetRange and headFallback of httpclient.go: the mirrors are asked one after the other. A round
-- trip counts, and sets the clock to the time of its answer.
use svc_downloader.Common.{ℕ, suc, Option, none, some, List, [], ◌∷◌, ◌++◌, if◌then◌else◌, leb}
use svc_downloader.Common.Bytes.{Bytes, codes}
use svc_downloader.Common.Int.{ℤ, pos, ltb_ℤ}
use svc_downloader.Models.{RequestOptions, DownloadConfig, ResponseMetadata}
use svc_downloader.Errors.{Error, Result, ok, err, request_failed, get_range_failed, head_failed}
use svc_downloader.Repository.Keys.{padded}
use svc_downloader.Transport.{
  Header, Request, Response, Web, Wire, set_header, with_mirrors, parse_meta, with_total,
}
use svc_downloader.Transport.Headers.{apply_headers, add_query}
use svc_downloader.Transport.Client.{client_for}

-- The value of the Range header.
unfoldable pub range_value : ℤ → ℤ → Bytes
unfolding padded
range_value start end =
    codes "bytes=" ++ (padded 0 start ++ b'-' ∷ (if ltb_ℤ end (pos 0) then [] else padded 0 end))

-- What GetRange returns: the response, or the last status and the last error.
pub data Ranged : Type 0 where
  got : Response → Ranged
  failed : ℕ → Option Error → Ranged

module _ (web : Web) (timeout : ℤ) (req : RequestOptions) (cfg : DownloadConfig) where
  -- client.Do
  abbrev pub do_request : Request → Wire → Option Response × Wire
  do_request r w =
      let answer = web.send w.sent (client_for timeout cfg) r in
      (answer.response, record { sent = suc w.sent; now = answer.at })

  abbrev pub made_request : Bytes → Bytes → Header → Request
  made_request method u h = record {
    method = method;
    url = add_query web u req.extra;
    headers = apply_headers web req cfg h;
  }

  -- One mirror: none if http.NewRequest or the round trip fails.
  unfoldable pub ask : Bytes → Bytes → Header → Wire → Option Response × Wire
  unfolding client_for apply_headers add_query
  ask method u h w =
      if web.accepts (add_query web u req.extra)
      then do_request (made_request method u h) w
      else (none, w)

  -- The loop of GetRange.
  abbrev pub range_answer :
      (ℕ → Option Error → Wire → Ranged × Wire) → ℕ → Option Response × Wire → Ranged × Wire
  range_answer rest status (none, w) = rest status (some request_failed) w
  range_answer rest status (some r, w) =
      if leb 400 r.status
      then rest r.status (some (get_range_failed r.status_text)) w
      else (got r, w)

  unfoldable pub range_from : Header → List Bytes → ℕ → Option Error → Wire → Ranged × Wire
  unfolding ask
  range_from h [] status e w = (failed status e, w)
  range_from h (u ∷ us) status e w = range_answer (range_from h us) status (ask (codes "GET") u h w)

  unfoldable pub get_range : ℤ → ℤ → Wire → Ranged × Wire
  unfolding range_from with_mirrors range_value set_header
  get_range start end w =
      range_from (set_header (codes "Range") (range_value start end) []) (with_mirrors req) 0 none w

  -- headFallback
  abbrev pub fallback_answer :
      (Option Error → Wire → Result ResponseMetadata × Wire)
      → Option Response × Wire
      → Result ResponseMetadata × Wire
  fallback_answer rest (none, w) = rest (some request_failed) w
  fallback_answer rest (some r, w) =
      if leb 400 r.status
      then rest (some (head_failed r.status_text)) w
      else (ok (with_total r (parse_meta r)), w)

  -- The error of the last mirror; there is one, as the first URL is never left out.
  abbrev pub last_error : Option Error → Error
  last_error none = request_failed
  last_error (some e) = e

  unfoldable pub fallback_from : List Bytes → Option Error → Wire → Result ResponseMetadata × Wire
  unfolding ask parse_meta with_total set_header
  fallback_from [] e w = (err (last_error e), w)
  fallback_from (u ∷ us) e w =
      fallback_answer (fallback_from us)
        (ask (codes "GET") u (set_header (codes "Range") (codes "bytes=0-") []) w)

  unfoldable pub head_fallback : Wire → Result ResponseMetadata × Wire
  unfolding fallback_from with_mirrors
  head_fallback w = fallback_from (with_mirrors req) none w

  -- The loop of Head.
  abbrev pub head_answer :
      (Wire → Result ResponseMetadata × Wire)
      → Option Response × Wire
      → Result ResponseMetadata × Wire
  head_answer rest (none, w) = rest w
  head_answer rest (some r, w) = if leb 400 r.status then rest w else (ok (parse_meta r), w)

  unfoldable pub head_from : List Bytes → Wire → Result ResponseMetadata × Wire
  unfolding ask parse_meta head_fallback
  head_from [] w = head_fallback w
  head_from (u ∷ us) w = head_answer (head_from us) (ask (codes "HEAD") u [] w)

  unfoldable pub head : Wire → Result ResponseMetadata × Wire
  unfolding head_from head_fallback with_mirrors
  head w = if cfg.disable_head then head_fallback w else head_from (with_mirrors req) w
