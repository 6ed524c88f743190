-- ===== src/Runner.antt =====
-- internal/service/runner.go: one run of a download. `Env` is what a run is given: the system, the
-- network, and the functions whose floating-point arithmetic or random numbers the model leaves open.
-- A result `none` is a panic: a read through a nil pointer. The goroutines of a run share the `Job`.
pub mod Segments
pub mod Loop
pub mod Pool
pub mod Finish
pub mod Settings
pub mod Throttle
pub mod Rounds
pub mod Files
pub mod Served
pub mod Filled
pub mod Fits
pub mod Opened
pub mod Fair
pub mod Fitting
pub mod Whole
pub mod Progress
pub mod Collected
pub mod Begun
pub mod Ready
pub mod Ended
pub mod Delivered
pub mod Endless
pub mod Resumed
pub mod Verified
mod Sample
mod Tests
mod DeliveredTests
mod ResumedTests
use svc_downloader.Common.{
  ℕ, suc, ◌+◌, Bool, true, false, ◌&&◌, ◌||◌, not, Option, none, some, List, [], ◌∷◌, ◌++◌,
  if◌then◌else◌, leb, ltb,
}
use svc_downloader.Common.Bytes.{Bytes, codes, same}
use svc_downloader.Common.Int.{ℤ, pos, pos_part, ◌+ℤ◌, ◌-ℤ◌, ltb_ℤ, eq_ℤ}
use svc_downloader.Models.{
  Time, Float64, Download, DownloadConfig, RequestOptions, ResponseMetadata, Segment, EventData,
  DownloadEventType, status_failed, failed, error_text,
}
use svc_downloader.Errors.{Error, Result, ok, err, Context, unexpected_content_type}
use svc_downloader.Store.{Badger}
use svc_downloader.Repository.Downloads.{update_download}
use svc_downloader.Service.State.{World, publish}
use svc_downloader.Disk.{Disk}
use svc_downloader.FileStore.{prepare}
use svc_downloader.FileStore.Checksum.{Hashes}
use svc_downloader.Transport.{Web, Wire}
use svc_downloader.Transport.Fetch.{head}
use svc_downloader.Planner.{plan}

pub record Env : Type 0 where
  pub home : Option Bytes
  pub web : Web
  pub timeout : ℤ
  pub hashes : Hashes
  -- the conversions of the rate limiter
  pub refill : ℤ → ℕ → ℤ
  pub delay : ℤ → ℤ → ℤ
  -- time.Duration(float64(base) * pow(factor, float64(n)))
  pub backoff : ℤ → Float64 → ℕ → ℤ
  -- float64(completed) / float64(total)
  pub ratio : ℤ → ℤ → Float64
  -- rand.Int63n, by the number of sleeps before
  pub random : ℕ → ℤ → ℤ
  -- err.Error()
  pub text : Error → Bytes
  -- the context of the run, at each time
  pub ctx : Time → Context

-- `slept` are the durations that time.Sleep was called with, the last one first; `channel` holds the
-- progress that was sent and not yet received.
pub record Job (D : Type 0) : Type 0 where
  pub world : World D
  pub disk : Disk
  pub wire : Wire
  pub slept : List ℤ
  pub d : Download
  pub channel : List ℤ

-- A part of a run that may fail or panic.
abbrev pub Stage : Type 0 → Type 0 → Type 0
Stage D A = Option (Result A × Job D)

abbrev pub stage_then : {D A B : Type 0} → Stage D A → (A → Job D → Stage D B) → Stage D B
stage_then none f = none
stage_then (some (err e, job)) f = some (err e, job)
stage_then (some (ok a, job)) f = f a job

-- pickCfg: the zero value if there is none.
abbrev pub zero_config : DownloadConfig
zero_config = record {
  max_connections = pos 0;
  buffer_size = pos 0;
  proxy = none;
  timeout = pos 0;
  follow_redirects = false;
  redirects_limit = pos 0;
  allow_insecure_tls = false;
  tls = none;
  auth = none;
  accept_ranges = false;
  resume = false;
  retries = pos 0;
  retry_delay = pos 0;
  retry_jitter = pos 0;
  backoff_factor = 0;
  retry = record { max_retries = pos 0; retry_delay = pos 0; backoff_factor = 0; jitter = pos 0 };
  rate_limit = pos 0;
  global_rate_limit = false;
  only_on_unmetered = false;
  verify_content_type = false;
  mime = [];
  headers = [];
  cookies = [];
  disable_head = false;
  segment_checksum_type = [];
}

abbrev pub pick_cfg : Option DownloadConfig → DownloadConfig
pick_cfg none = zero_config
pick_cfg (some c) = c

-- The content type that the configuration asks for is another one than the server's.
abbrev pub wrong_type : Option DownloadConfig → Bytes → Bool
wrong_type none t = false
wrong_type (some c) t =
    c.verify_content_type && not (same c.mime []) && not (same t []) && not (same t c.mime)

abbrev pub refuses_ranges : Option DownloadConfig → Bool
refuses_ranges none = false
refuses_ranges (some c) = not c.accept_ranges

-- What the runner learns from the metadata.
abbrev pub with_response : ResponseMetadata → Download → Download
with_response md d = record d {
  response = some md;
  bytes_total =
      if eq_ℤ d.bytes_total (pos 0) && ltb_ℤ (pos 0) md.content_length
      then md.content_length
      else d.bytes_total;
}

module _ (b : Badger) (env : Env) where
  open b use {Db}

  -- time.Sleep
  abbrev pub sleep : ℤ → Job Db → Job Db
  sleep t job = record job {
    slept = t ∷ job.slept;
    wire = record job.wire { now = job.wire.now + pos_part t };
  }

  -- r.deps.Repo.UpdateDownload(ctx, d), which sets fields of d if it succeeds.
  abbrev pub saved : Result Download × Db → Job Db → Job Db
  saved (ok d, db) job = record job { world = record job.world { db = db }; d = d }
  saved (err e, db) job = record job { world = record job.world { db = db } }

  unfoldable pub save : Job Db → Job Db
  save job =
      let now = job.wire.now in saved (update_download b (env.ctx now) now job.d job.world.db) job

  abbrev pub announce : DownloadEventType → EventData → Job Db → Job Db
  announce typ event_data job = record job {
    world = publish job.wire.now typ job.d event_data job.world;
  }

  -- fail
  unfoldable pub fail : Error → Job Db → Job Db
  unfolding save
  fail e job =
      let d = record job.d {
        status = status_failed;
        error = env.text e;
        updated_at = job.wire.now;
      } in
      announce failed (error_text (env.text e)) (save (record job { d = d }))

  abbrev pub prepared : Option (Result (Unit {0}) × Disk) → Job Db → Stage Db (Unit {0})
  prepared none job = none
  prepared (some (r, disk)) job = some (r, record job { disk = disk })

  abbrev pub headed : Result ResponseMetadata × Wire → Job Db → Stage Db ResponseMetadata
  headed (r, wire) job = some (r, record job { wire = wire })

  -- *d.Request is a panic if there is none.
  abbrev pub ask_head : Option RequestOptions → Job Db → Stage Db ResponseMetadata
  ask_head none job = none
  ask_head (some req) job =
      headed (head env.web env.timeout req (pick_cfg job.d.config) job.wire) job

  -- The update of the download, whose error ends the run, and the plan.
  abbrev pub planned : ResponseMetadata → Result Download × Db → Job Db → Stage Db (List Segment)
  planned md (err e, db) job = some (err e, record job { world = record job.world { db = db } })
  planned md (ok d, db) job = some (
    ok (plan d md.content_length (md.accept_ranges && not (refuses_ranges d.config))),
    record job { world = record job.world { db = db }; d = d },
  )

  abbrev pub learned : ResponseMetadata → Job Db → Stage Db (List Segment)
  learned md job =
      let now = job.wire.now in
      let d = with_response md job.d in
      if wrong_type job.d.config md.content_type
      then some (err (unexpected_content_type md.content_type), job)
      else planned md (update_download b (env.ctx now) now d job.world.db) (record job { d = d })

  -- prepareDownload
  unfoldable pub prepare_download : Job Db → Stage Db (List Segment)
  unfolding prepare head plan
  prepare_download job =
      stage_then (prepared (prepare env.home job.d job.disk) job)
        λ u j. stage_then (ask_head j.d.request j) learned
