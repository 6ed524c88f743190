-- ===== src/Server.antt =====
-- internal/server/server.go: what New sets up in the store and in the limiter, and the pause of the
-- running downloads at shutdown. RunForeground pauses them after its context is done.
pub mod Shutdown
pub mod Guard
mod Tests
use svc_downloader.Common.{Bool, true, false, Option, none, some, List, [], ◌∷◌, if◌then◌else◌}
use svc_downloader.Common.Bytes.{Bytes, codes}
use svc_downloader.Common.Int.{ℤ, pos, ltb_ℤ}
use svc_downloader.Models.{
  Time, Download, DownloadConfig, RetryPolicy, Queue, ListDownloadsOptions, default_queue_name,
  status_running, status_paused,
}
use svc_downloader.Errors.{Result, ok, err, Context, live, cancelled}
use svc_downloader.Store.{Badger, Repo}
use svc_downloader.RateLimit.{Limiter, zero_limiter, set_limit}
use svc_downloader.Repository.Downloads.{update_download}
use svc_downloader.Repository.Listing.{list_downloads}
use svc_downloader.Repository.Queues.{get_queue, save_queue}
use svc_downloader.Service.Workers.{with_status}

abbrev no_retry : RetryPolicy
no_retry = record { max_retries = pos 0; retry_delay = pos 0; backoff_factor = 0; jitter = pos 0 }

abbrev no_config : DownloadConfig
no_config = record {
  max_connections = pos 0;
  buffer_size = pos 0;
  proxy = none;
  timeout = pos 0;
  follow_redirects = false;
  redirects_limit = pos 0;
  allow_insecure_tls = false;
  tls = none;
  auth = none;
  accept_ranges = false;
  resume = false;
  retries = pos 0;
  retry_delay = pos 0;
  retry_jitter = pos 0;
  backoff_factor = 0;
  retry = no_retry;
  rate_limit = pos 0;
  global_rate_limit = false;
  only_on_unmetered = false;
  verify_content_type = false;
  mime = [];
  headers = [];
  cookies = [];
  disable_head = false;
  segment_checksum_type = [];
}

-- The queue that New saves: the fields that are not named there have Go's zero values.
abbrev pub default_queue : Queue
default_queue = record {
  id = default_queue_name;
  name = default_queue_name;
  concurrency = pos 32;
  rate_limit = pos 0;
  default = true;
  paused = false;
  retry_policy = no_retry;
  config = no_config;
  created_at = 0;
  updated_at = 0;
}

-- The limiter that New builds, with the global limit if one is configured; `none` is a panic.
unfoldable pub new_limiter : Time → ℤ → Option Limiter
new_limiter now global_bps =
    if ltb_ℤ (pos 0) global_bps
    then set_limit now (codes "global") global_bps zero_limiter
    else some zero_limiter

module _ (b : Badger) where
  open b use {Db}

  abbrev pub ensured : Time → Result Queue → Db → Db
  ensured now (ok q) db = db
  ensured now (err e) db = (save_queue b live now default_queue db).1

  -- Ensure that the default queue exists.
  unfoldable pub ensure_default_queue : Time → Db → Db
  ensure_default_queue now db = ensured now (get_queue b live default_queue_name db).0 db

  -- The loop over the running downloads; an error is logged.
  unfoldable pub pause_each : Context → Time → List Download → Db → Db
  pause_each ctx now [] db = db
  pause_each ctx now (d ∷ ds) db =
      pause_each ctx now ds
        (update_download b ctx now (record d { status = status_paused; updated_at = now }) db).1

  abbrev pub pause_listed : Context → Time → Result (List Download) → Repo Db (Unit {0})
  pause_listed ctx now (err e) db = (err e, db)
  pause_listed ctx now (ok ds) db = (ok tt, pause_each ctx now ds db)

  unfoldable pub pause_running_downloads : Context → Time → Repo Db (Unit {0})
  unfolding pause_each
  pause_running_downloads ctx now db =
      pause_listed ctx now
        (list_downloads b ctx (with_status status_running []) (pos 1000) (pos 0) db).0 db

  -- RunForeground behind `<-ctx.Done()`: the pause is called with the context that is done.
  unfoldable pub shut_down : Time → Db → Db
  unfolding pause_running_downloads
  shut_down now db = (pause_running_downloads cancelled now db).1
