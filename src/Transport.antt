-- ===== src/Transport.antt =====
-- internal/transport/httpclient.go: requests with headers and mirrors, and what their answers say. The
-- parts of net/http and net/url behind a request are the record `Web`: a round trip is a function of
-- the number of requests that were sent before, so that a network may answer each of them in any way.
pub mod Headers
pub mod Client
pub mod Fetch
pub mod Answers
use svc_downloader.Common.{
  ℕ, suc, Bool, Option, none, some, List, [], ◌∷◌, ◌++◌, map, ◌&&◌, ◌||◌, leb, ltb, ◌==◌,
  if◌then◌else◌, true, false, not, ◌+◌, ◌-◌,
}
use svc_downloader.Common.Bytes.{Bytes, codes, same, member}
use svc_downloader.Common.Int.{ℤ, pos, negsuc}
use svc_downloader.Common.Maps.{Map, lookup, insert}
use svc_downloader.Common.Scan.{parse_int, behind_last}
use svc_downloader.Models.{Time, StringMap, RequestOptions, RequestExtra, ResponseMetadata}

-- http.Header, under canonical keys
abbrev pub Header : Type 0
Header = Map (List Bytes)

-- textproto.CanonicalMIMEHeaderKey: `upper` at the start and behind a `-`.
abbrev pub is_lower : ℕ → Bool
is_lower c = leb b'a' c && leb c b'z'

abbrev pub is_upper : ℕ → Bool
is_upper c = leb b'A' c && leb c b'Z'

abbrev pub cased : Bool → ℕ → ℕ
cased true c = if is_lower c then c - 32 else c
cased false c = if is_upper c then c + 32 else c

abbrev pub is_token : ℕ → Bool
is_token c =
    is_lower c
    || is_upper c
    || leb b'0' c && leb c b'9'
    || member (c ∷ []) (map (λ b. b ∷ []) (codes "!#$%&'*+-.^_`|~"))

unfoldable pub all_tokens : Bytes → Bool
all_tokens [] = true
all_tokens (c ∷ s) = is_token c && all_tokens s

unfoldable pub title : Bool → Bytes → Bytes
title upper [] = []
title upper (c ∷ s) = cased upper c ∷ title (c == b'-') s

unfoldable pub canonical : Bytes → Bytes
unfolding all_tokens title
canonical s = if all_tokens s then title true s else s

abbrev pub first_value : Option (List Bytes) → Bytes
first_value none = []
first_value (some []) = []
first_value (some (v ∷ vs)) = v

-- h.Get(key) and h.Set(key, value)
unfoldable pub get_header : Bytes → Header → Bytes
unfolding canonical
get_header key h = first_value (lookup (canonical key) h)

unfoldable pub set_header : Bytes → Bytes → Header → Header
unfolding canonical
set_header key value h = insert (canonical key) (value ∷ []) h

pub record Request : Type 0 where
  pub method : Bytes
  pub url : Bytes
  pub headers : Header

-- `fault` tells that a read of the body fails behind its last byte.
pub record Response : Type 0 where
  pub status : ℕ
  pub status_text : Bytes
  pub headers : Header
  pub body : Bytes
  pub fault : Bool

-- What clientFor makes of a configuration.
pub record HttpClient : Type 0 where
  pub insecure_skip_verify : Bool
  pub server_name : Bytes
  pub min_version : ℕ
  pub max_version : ℕ
  -- the host and port of the proxy, and its user with the password
  pub proxy : Option (Bytes × Option (Bytes × Bytes))
  pub follow : Bool
  pub limit : ℤ
  pub timeout : ℤ

-- An answer arrives at a time; `none` is an error of the round trip.
pub record Answer : Type 0 where
  pub at : Time
  pub response : Option Response

pub record Web : Type 0 where
  pub send : ℕ → HttpClient → Request → Answer
  -- http.NewRequest accepts the URL
  pub accepts : Bytes → Bool
  -- the URL with some query parameters set; `none` if url.Parse refuses it
  pub set_query : Bytes → StringMap → Option Bytes
  -- the scheme and the host of a URL that url.Parse reads
  pub origin : Bytes → Option Bytes
  -- the Cookie header with one more cookie
  pub add_cookie : Bytes → Bytes → Bytes → Bytes
  -- the value of the Authorization header that SetBasicAuth sets
  pub basic : Bytes → Bytes → Bytes

-- The requests that were sent, and the time.
pub record Wire : Type 0 where
  pub sent : ℕ
  pub now : Time

-- withMirrors
unfoldable pub mirrors_of : List Bytes → List Bytes
mirrors_of [] = []
mirrors_of (m ∷ ms) = let rest = mirrors_of ms in if same m [] then rest else m ∷ rest

unfoldable pub with_mirrors : RequestOptions → List Bytes
unfolding mirrors_of
with_mirrors req = req.url ∷ mirrors_of req.mirror_urls

-- The number that a header gives, or what there is already.
abbrev pub or_length : ℤ → Option ℤ → ℤ
or_length n none = n
or_length n (some m) = m

-- parseMeta
unfoldable pub parse_meta : Response → ResponseMetadata
unfolding get_header parse_int
parse_meta r =
    let cl = get_header (codes "Content-Length") r.headers in
    record {
      etag = get_header (codes "ETag") r.headers;
      last_modified = get_header (codes "Last-Modified") r.headers;
      accept_ranges =
          same (get_header (codes "Accept-Ranges") r.headers) (codes "bytes")
          || not (same (get_header (codes "Content-Range") r.headers) []);
      content_type = get_header (codes "Content-Type") r.headers;
      content_length = if same cl [] then pos 0 else or_length (pos 0) (parse_int cl);
    }

-- The length behind the last `/` of a Content-Range; lastSlash
abbrev pub total_of : ℤ → Option Bytes → ℤ
total_of n none = n
total_of n (some s) = or_length n (parse_int s)

unfoldable pub with_total : Response → ResponseMetadata → ResponseMetadata
unfolding behind_last get_header parse_int
with_total r md = record md {
  content_length =
      total_of md.content_length (behind_last b'/' (get_header (codes "Content-Range") r.headers));
}
