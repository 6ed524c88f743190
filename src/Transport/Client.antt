-- ===== src/Transport/Client.antt =====
-- NewHTTPClient and clientFor of httpclient.go. `timeout` is that of the client that NewHTTPClient makes.
use svc_downloader.Common.{
  ℕ, Bool, ◌||◌, ◌&&◌, not, Option, none, some, [], ◌∷◌, ◌++◌, if◌then◌else◌,
}
use svc_downloader.Common.Bytes.{Bytes, same}
use svc_downloader.Common.Int.{ℤ, pos, ltb_ℤ, leb_ℤ, eq_ℤ}
use svc_downloader.Models.{DownloadConfig, TlsOptions, Proxy}
use svc_downloader.Repository.Keys.{padded}
use svc_downloader.Transport.{HttpClient}

-- The timeout of NewHTTPClient: 30 minutes if none is given.
unfoldable pub client_timeout : ℤ → ℤ
client_timeout t = if eq_ℤ t (pos 0) then pos 1_800_000_000_000 else t

abbrev pub tls_insecure : Bool → Option TlsOptions → Bool
tls_insecure b none = b
tls_insecure b (some t) = t.insecure_skip_verify || b

abbrev pub tls_name : Option TlsOptions → Bytes
tls_name none = []
tls_name (some t) = t.server_name

-- A version that is not 0; 0 is also what a tls.Config starts with.
abbrev pub tls_min : Option TlsOptions → ℕ
tls_min none = 0
tls_min (some t) = t.min_version

abbrev pub tls_max : Option TlsOptions → ℕ
tls_max none = 0
tls_max (some t) = t.max_version

abbrev pub proxy_user : Proxy → Option (Bytes × Bytes)
proxy_user p = if same p.username [] then none else some (p.username, p.password)

unfoldable pub proxy_of : Option Proxy → Option (Bytes × Option (Bytes × Bytes))
unfolding padded
proxy_of none = none
proxy_of (some p) =
    if same p.ip [] || eq_ℤ p.port (pos 0)
    then none
    else some (p.ip ++ b':' ∷ padded 0 p.port, proxy_user p)

-- clientFor
unfoldable pub client_for : ℤ → DownloadConfig → HttpClient
unfolding proxy_of
client_for timeout cfg = record {
  insecure_skip_verify = tls_insecure cfg.allow_insecure_tls cfg.tls;
  server_name = tls_name cfg.tls;
  min_version = tls_min cfg.tls;
  max_version = tls_max cfg.tls;
  proxy = proxy_of cfg.proxy;
  follow = cfg.follow_redirects;
  limit = cfg.redirects_limit;
  timeout = if ltb_ℤ (pos 0) cfg.timeout then cfg.timeout else timeout;
}

-- What client.CheckRedirect says of a redirect behind `via` requests.
pub data Redirect : Type 0 where
  follow use_last too_many : Redirect

unfoldable pub check_redirect : HttpClient → ℕ → Redirect
check_redirect c via =
    if not c.follow
    then use_last
    else if ltb_ℤ (pos 0) c.limit && leb_ℤ c.limit (pos via)
    then too_many
    else follow
