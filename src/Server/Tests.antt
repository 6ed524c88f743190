-- ===== src/Server/Tests.antt =====
-- Instances of the theorems on the server.
use svc_downloader.Repository.Bulk.Batch.{Batching}
use svc_downloader.Common.{true, ◌≡◌, [], some, none, false, if◌then◌else◌}
use svc_downloader.Common.Bytes.{codes}
use svc_downloader.Cli.Options.{Options, to_config, apply_dynamic_defaults}
use svc_downloader.Service.State.{World, Validator}
use svc_downloader.Api.Routes.{pause_route, handle}
use svc_downloader.Server.Guard.{Guards, serve, serve-Guards}
use svc_downloader.Common.Int.{pos, ltb_ℤ}
use svc_downloader.Models.{Queue, default_queue_name}
use svc_downloader.Errors.{ok, live}
use svc_downloader.Store.Memory.{memory}
use svc_downloader.RateLimit.{zero_limiter}
use svc_downloader.Repository.Queues.{get_queue}
use svc_downloader.Server.{ensure_default_queue, new_limiter}
use svc_downloader.Server.Shutdown.{new_lem}

new_lem_example :
    ((q : Queue) × ((get_queue memory live default_queue_name (ensure_default_queue memory 9 [])).0
        ≡ ok q))
    × (new_limiter 9 (pos 1000) ≡ (if ltb_ℤ (pos 0) (pos 1000) then none else some zero_limiter))
new_lem_example = new_lem memory 9 (pos 1000) []

abbrev keyed : Options
keyed = record {
  port = pos 80;
  data_dir = [];
  badger_dir = [];
  max_body_bytes = pos 0;
  default_queue_id = [];
  graceful_shutdown_secs = pos 0;
  global_rate_limit_bps = pos 0;
  daemonize = false;
  pid_file = [];
  log_file = [];
  api_key = codes "secret";
  enable_auth = false;
  worker_tick_interval = pos 0;
  stale_download_timeout = pos 0;
}

abbrev idle : World memory.Db
idle = record {
  db = [];
  cancels = [];
  runs = [];
  stopped = [];
  limiter = none;
  events = [];
  removed_files = none;
}

abbrev no_validator : Validator
no_validator = record { validate_request = λ r. none; validate_config = λ c. none }

-- A request to pause a download, with another key.
-- A BadgerDB whose transactions have room for all writes.
abbrev roomy : Batching
roomy = record { reused = none; fits = λ ws. true }

serve-Guards_example :
    Guards memory no_validator roomy keyed.api_key
      (codes "Bearer other")
      idle
      (handle memory no_validator roomy live 9 [] (pause_route (codes "a1")) idle)
      (serve memory no_validator roomy
        (to_config (apply_dynamic_defaults (λ name. []) keyed))
        live
        9
        []
        (pause_route (codes "a1"))
        (codes "Bearer other")
        idle)
serve-Guards_example =
    serve-Guards memory no_validator roomy (λ name. []) keyed live 9 [] (pause_route (codes "a1"))
      (codes "Bearer other") idle
