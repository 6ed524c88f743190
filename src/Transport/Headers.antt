-- ===== src/Transport/Headers.antt =====
-- applyHeaders and addQuery of httpclient.go. A map of headers or cookies is taken in the order of its
-- list of pairs.
use svc_downloader.Common.{Option, none, some, [], ◌∷◌, ◌++◌, if◌then◌else◌}
use svc_downloader.Common.Bytes.{Bytes, codes, same}
use svc_downloader.Models.{StringMap, RequestOptions, RequestExtra, DownloadConfig, Auth}
use svc_downloader.Transport.{Header, get_header, set_header, Web}

-- if r.Header.Get(key) == "" { r.Header.Set(key, value) }
unfoldable pub default_header : Bytes → Bytes → Header → Header
unfolding get_header set_header
default_header key value h = if same (get_header key h) [] then set_header key value h else h

unfoldable pub defaults : Header → Header
unfolding default_header
defaults h =
    default_header (codes "sec-ch-ua")
      (codes "\"Chromium\";v=\"140\", \"Not=A?Brand\";v=\"24\", \"Google Chrome\";v=\"140\"")
      (default_header (codes "DNT") (codes "1") (
        default_header (codes "Connection") (codes "keep-alive") (
          default_header (codes "Accept-Language") (codes "en-GB,en-US;q=0.9,en;q=0.8,bn;q=0.7") (
            default_header (codes "Accept") (codes "*/*") (
              default_header (codes "User-Agent")
                (codes
                  "Mozilla/5.0 (Macintosh; Intel Mac OS X 10_15_7) AppleWebKit/537.36 (KHTML, like Gecko) Chrome/140.0.0.0 Safari/537.36")
                h)))))

unfoldable pub set_headers : StringMap → Header → Header
unfolding set_header
set_headers [] h = h
set_headers ((k, v) ∷ m) h = set_headers m (set_header k v h)

module _ (web : Web) where
  -- r.AddCookie
  unfoldable pub add_cookies : StringMap → Header → Header
  unfolding get_header set_header
  add_cookies [] h = h
  add_cookies ((k, v) ∷ m) h =
      add_cookies m
        (set_header (codes "Cookie") (web.add_cookie (get_header (codes "Cookie") h) k v) h)

  abbrev pub with_origin : Option Bytes → Header → Header
  with_origin none h = h
  with_origin (some o) h = set_header (codes "Referer") o h

  unfoldable pub with_referer : Bytes → Header → Header
  unfolding get_header set_header
  with_referer url h =
      if same (get_header (codes "Referer") h) []
      then (if same url [] then h else with_origin (web.origin url) h)
      else h

  abbrev pub with_extra : RequestOptions → Option RequestExtra → Header → Header
  with_extra req none h = h
  with_extra req (some extra) h =
      with_referer req.url (add_cookies extra.cookies (set_headers extra.headers h))

  abbrev pub with_auth : Option Auth → Header → Header
  with_auth none h = h
  with_auth (some auth) h =
      if same auth.bearer_token []
      then (if same auth.username []
          then h
          else set_header (codes "Authorization") (web.basic auth.username auth.password) h)
      else set_header (codes "Authorization") (codes "Bearer " ++ auth.bearer_token) h

  -- applyHeaders
  unfoldable pub apply_headers : RequestOptions → DownloadConfig → Header → Header
  unfolding defaults set_headers add_cookies with_referer set_header
  apply_headers req cfg h =
      with_auth cfg.auth
        (with_extra req req.extra (add_cookies cfg.cookies (set_headers cfg.headers (defaults h))))

  abbrev pub queried : Bytes → Option Bytes → Bytes
  queried u none = u
  queried u (some v) = v

  abbrev pub with_params : Bytes → StringMap → Bytes
  with_params u [] = u
  with_params u (p ∷ ps) = queried u (web.set_query u (p ∷ ps))

  -- addQuery
  unfoldable pub add_query : Bytes → Option RequestExtra → Bytes
  add_query u none = u
  add_query u (some extra) = with_params u extra.query_params
