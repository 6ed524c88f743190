-- ===== src/Auth.antt =====
-- internal/auth/auth.go: the middleware that checks API keys. A request is its path and the value of
-- its Authorization header, empty if there is none.
use svc_downloader.Common.{
  Bool, true, false, not, ◌||◌, ◌≡◌, ap, ◌∙◌, ◌↔◌, [], ◌++◌, arith, if◌then◌else◌,
}
use svc_downloader.Common.Lists.{length, drop}
use svc_downloader.Common.Bytes.{
  Bytes, codes, same, same_iff, same_refl, starts_with, starts_with_sound,
}

pub data Reply : Type 0 where
  served : Reply
  -- with the value that the context carries for "api_key"
  served_as : Bytes → Reply
  unauthorized : Bytes → Reply

abbrev pub bearer : Bytes
bearer = codes "Bearer "

-- The paths that need no key.
unfoldable pub is_open : Bytes → Bool
is_open path =
    same path (codes "/health")
    || same path (codes "/openapi.yaml")
    || same path (codes "/openapi.json")

-- strings.TrimPrefix
pub trim_prefix : Bytes → Bytes → Bytes
trim_prefix s p = if starts_with s p then drop (length p) s else s

-- Middleware, of the configured key, the path and the header.
pub middleware : Bytes → Bytes → Bytes → Reply
unfolding trim_prefix
middleware api_key path header =
    let key = trim_prefix header bearer in
    if is_open path
    then served
    else if same header []
    then unauthorized (codes "Missing Authorization header")
    else if not (starts_with header bearer)
    then unauthorized (codes "Invalid Authorization header format")
    else if not (same key api_key)
    then unauthorized (codes "Invalid API key")
    else served_as key

bearer_token :
    (header key : Bytes)
    → starts_with header bearer ≡ true
    → same (trim_prefix header bearer) key ≡ true
    → header ≡ bearer ++ key
unfolding trim_prefix
bearer_token header key h k =
    let e : drop (length bearer) header ≡ key =
      ground (arith, same_iff (drop (length bearer) header) key) in
    starts_with_sound header bearer h ∙ ap (λ t. bearer ++ t) e

middleware-append :
    (key path : Bytes) → is_open path ≡ false → middleware key path (bearer ++ key) ≡ served_as key
unfolding middleware same starts_with
middleware-append key path h = rw (h, same_refl key)

middleware-served :
    (key path header : Bytes) → (middleware key path header ≡ served) ↔ (is_open path ≡ true)
unfolding middleware
middleware-served key path header = ground arith

middleware-served_as :
    (key path header text : Bytes)
    → middleware key path header ≡ served_as text
    → (is_open path ≡ false) × (text ≡ key) × (header ≡ bearer ++ key)
unfolding middleware
middleware-served_as key path header text e =
    let known : same (trim_prefix header bearer) key ≡ true = ground arith in
    let prefixed : starts_with header bearer ≡ true = ground arith in
    (
      ground arith,
      ground (arith, same_iff (trim_prefix header bearer) key),
      bearer_token header key prefixed known,
    )

-- The middleware lets a request through to a protected path exactly if its header is "Bearer "
-- followed by the configured key, and passes that key on; an open path is always served, without
-- one; every other request is answered as unauthorized.
pub middleware_exact :
    (key path header : Bytes)
    → ((middleware key path header ≡ served) ↔ (is_open path ≡ true))
      × ((middleware key path header ≡ served_as key)
          ↔ ((is_open path ≡ false) × (header ≡ bearer ++ key)))
      × ((text : Bytes) → middleware key path header ≡ served_as text → text ≡ key)
middleware_exact key path header = (
  middleware-served key path header,
  (
    λ e. let (closed, _, h) = middleware-served_as key path header key e in (closed, h),
    λ (closed, h). rw h (middleware-append key path closed),
  ),
  λ text e. (middleware-served_as key path header text e).1,
)
