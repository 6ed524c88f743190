-- ===== src/Server/Guard.antt =====
-- internal/server/server.go: the handler that New puts together, with the API key check in front of the
-- routes if one is configured.
use svc_downloader.Repository.Bulk.Batch.{Batching}
use svc_downloader.Common.{
  true, false, not, ◌&&◌, ◌≡◌, ◌≢◌, refl, sym, ap, ◌∙◌, ◌⊎◌, [], ◌++◌, inl, inr, arith, Bool-cases,
  if◌then◌else◌,
}
use svc_downloader.Common.Bytes.{Bytes, same, same_iff}
use svc_downloader.Common.Int.{ℤ, pos, eq_ℤ}
use svc_downloader.Models.{Time}
use svc_downloader.Errors.{Context}
use svc_downloader.Store.{Badger}
use svc_downloader.Auth
use svc_downloader.Auth.{
  middleware, middleware_exact, is_open, bearer, served, served_as, unauthorized,
}
use svc_downloader.Cli.Options.{Options, Config, to_config, apply_dynamic_defaults}
use svc_downloader.Cli.Laws.{enable_auth_lem}
use svc_downloader.Service.State.{World, Validator}
use svc_downloader.Api.Routes.{Route, enqueue_route, Answer, path_of, handle}

-- resolvePort
unfoldable pub resolve_port : Config → ℤ
resolve_port cfg = if eq_ℤ cfg.http_port (pos 0) then pos 8089 else cfg.http_port

-- What a client gets: the status 401 with a message, or the answer of a handler; `none` is a panic.
pub data Served (D : Type 0) : Type 0 where
  refused : Bytes → World D → Served D
  answered : Answer D → Served D

module _ (b : Badger) (v : Validator) (rules : Batching) where
  open b use {Db}

  abbrev pub guarded : Auth.Reply → World Db → Answer Db → Served Db
  guarded served w a = answered a
  guarded (served_as key) w a = answered a
  guarded (unauthorized text) w a = refused text w

  -- The handler of the server, for a request with an Authorization header.
  unfoldable pub serve : Config → Context → Time → Bytes → Route → Bytes → World Db → Served Db
  serve cfg ctx now new r header w =
      let a = handle b v rules ctx now new r w in
      if cfg.enable_auth && not (same cfg.api_key [])
      then guarded (middleware cfg.api_key (path_of r) header) w a
      else answered a

-- No route is one of the paths that need no key.
path_of-is_open : (r : Route) → is_open (path_of r) ≡ false
unfolding is_open path_of same
path_of-is_open (enqueue_route q) = refl
path_of-is_open r = refl

module _ (b : Badger) (v : Validator) (rules : Batching) where
  open b use {Db}

  -- What a service with a key, or without one, serves.
  abbrev pub Guards : Bytes → Bytes → World Db → Answer Db → Served Db → Type 0
  Guards key header w a s =
      ((key ≡ []) × (s ≡ answered a))
      ⊎ ((key ≢ [])
          × (((header ≡ bearer ++ key) × (s ≡ answered a))
              ⊎ ((header ≢ bearer ++ key) × ((text : Bytes) × (s ≡ refused text w)))))

  guarded-Guards :
      (key header path : Bytes) (w : World Db) (a : Answer Db)
      → key ≢ []
      → is_open path ≡ false
      → (x : Auth.Reply) → middleware key path header ≡ x
      → Guards key header w a (guarded b v rules x w a)
  guarded-Guards key header path w a ne closed served e =
      let (open', exact, same_key) = middleware_exact key path header in
      let bad : false ≡ true = sym closed ∙ open'.0 e in cc
  guarded-Guards key header path w a ne closed (served_as text) e =
      let (open', exact, same_key) = middleware_exact key path header in
      let known = exact.0 (e ∙ ap served_as (same_key text e)) in inr (ne, inl (known.1, refl))
  guarded-Guards key header path w a ne closed (unauthorized text) e =
      let (open', exact, same_key) = middleware_exact key path header in
      inr (
        ne,
        inr (
          λ h. let bad : unauthorized text ≡ served_as key = sym e ∙ exact.1 (closed, h) in cc,
          (text, refl),
        ),
      )

  key_kept :
      (env : Bytes → Bytes) (o : Options)
      → (to_config (apply_dynamic_defaults env o)).api_key ≡ o.api_key
  unfolding to_config apply_dynamic_defaults
  key_kept env o = ground (arith, same_iff o.api_key [])

  -- A service with an API key in its options serves a request for a route exactly if its Authorization
  -- header is "Bearer " followed by the key, and answers any other one with an error and changes nothing.
  -- Without a key in its options it serves every request, whether or not they tell it to ask for one.
  -- This holds for all options, routes and headers.
  pub serve-Guards :
      (env : Bytes → Bytes) (o : Options) (ctx : Context) (now : Time) (new : Bytes) (r : Route)
      (header : Bytes) (w : World Db)
      → Guards o.api_key header w
          (handle b v rules ctx now new r w)
          (serve b v rules (to_config (apply_dynamic_defaults env o)) ctx now new r header w)
  unfolding serve
  serve-Guards env o ctx now new r header w = elim (Bool-cases (same o.api_key [])) [
    | inl empty ↦
        rw (enable_auth_lem env o, key_kept env o, empty)
          (inl ((same_iff o.api_key []).0 empty, refl))
    | inr keyed ↦
        rw (enable_auth_lem env o, key_kept env o, keyed)
          (guarded-Guards o.api_key header (path_of r) w (handle b v rules ctx now new r w)
            (λ e. let bad : false ≡ true = sym keyed ∙ (same_iff o.api_key []).1 e in cc)
            (path_of-is_open r) (middleware o.api_key (path_of r) header) refl)
  ]
