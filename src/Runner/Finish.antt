-- ===== src/Runner/Finish.antt =====
-- finalizeDownload and Run of runner.go.
use svc_downloader.Common.{Bool, true, false, Option, none, some, List, [], if◌then◌else◌}
use svc_downloader.Common.Bytes.{Bytes}
use svc_downloader.Common.Int.{pos}
use svc_downloader.Models.{Download, Segment, status_completed, status_failed, completed, no_data}
use svc_downloader.Errors.{Error, Result, ok, err, unexpected_eof}
use svc_downloader.Store.{Badger}
use svc_downloader.Repository.Downloads.{get_download}
use svc_downloader.Service.State.{World}
use svc_downloader.Disk.{Disk}
use svc_downloader.FileStore.Merge.{Merged, merge_segments}
use svc_downloader.FileStore.Checksum.{verify_checksum}
use svc_downloader.Transport.{Wire}
use svc_downloader.Runner.{Env, Job, save, announce, fail, prepare_download}
use svc_downloader.Runner.Pool.{Turn, Pool, all_finished, first_error, started, run_turns}

-- What a run was left in: it may still wait for its goroutines.
pub data Outcome (D : Type 0) : Type 0 where
  panicked : Outcome D
  waiting : Pool D → Outcome D
  over : Job D → Outcome D

module _ (b : Badger) (env : Env) where
  open b use {Db}

  -- The last part of finalizeDownload.
  abbrev pub completed_job : Job Db → Job Db
  completed_job job =
      let now = job.wire.now in
      let d = record job.d {
        status = status_completed;
        completed_at = some now;
        updated_at = now;
      } in
      announce b env completed no_data (save b env (record job { d = d }))

  abbrev pub verified : Result Bool → Job Db → Job Db
  verified (err e) job = fail b env e job
  verified (ok false) job = fail b env unexpected_eof job
  verified (ok true) job = completed_job job

  abbrev pub merged : Merged → Job Db → Outcome Db
  merged none job = panicked
  merged (some (err e, d, disk)) job = over (fail b env e (record job { d = d; disk = disk }))
  merged (some (ok u, d, disk)) job =
      over (verified (verify_checksum env.hashes d disk) (record job { d = d; disk = disk }))

  unfoldable pub finalize_download : Job Db → Outcome Db
  unfolding save fail merge_segments verify_checksum
  finalize_download job =
      let d = record job.d { error = []; updated_at = job.wire.now } in
      let j = save b env (record job { d = d }) in merged (merge_segments env.home j.d j.disk) j

  -- The end of downloadSegments, when the goroutines have ended.
  abbrev pub downloaded : Result (Unit {0}) → Job Db → Outcome Db
  downloaded (err e) job = over (fail b env e job)
  downloaded (ok u) job = finalize_download job

  abbrev pub waited : Option (Pool Db) → Outcome Db
  waited none = panicked
  waited (some p) =
      if all_finished p.workers then downloaded (first_error p.errors) p.job else waiting p

  abbrev pub with_segments : List Turn → Option (Result (List Segment) × Job Db) → Outcome Db
  with_segments turns none = panicked
  with_segments turns (some (err e, job)) = over (fail b env e job)
  with_segments turns (some (ok segs, job)) =
      waited (run_turns b env turns (started b env segs job))

  -- The download that stands for one that could not be read.
  abbrev pub unknown_download : Bytes → Error → Download
  unknown_download id e = record {
    id = id;
    url = [];
    queue_id = [];
    priority = pos 0;
    tags = [];
    request = none;
    config = none;
    file = none;
    status = status_failed;
    error = env.text e;
    retries_attempted = pos 0;
    bytes_total = pos 0;
    bytes_completed = pos 0;
    progress = 0;
    avg_speed = pos 0;
    current_speed = pos 0;
    segments = [];
    response = none;
    created_at = 0;
    updated_at = 0;
    requested_at = none;
    started_at = none;
    completed_at = none;
  }

  abbrev pub new_job : Download → Db → World Db → Disk → Wire → Job Db
  new_job d db w disk wire = record {
    world = record w { db = db };
    disk = disk;
    wire = wire;
    slept = [];
    d = d;
    channel = [];
  }

  abbrev pub run_read :
      Bytes → List Turn → Result Download × Db → World Db → Disk → Wire → Outcome Db
  run_read id turns (err e, db) w disk wire =
      over (fail b env e (new_job (unknown_download id e) db w disk wire))
  run_read id turns (ok d, db) w disk wire =
      with_segments turns (prepare_download b env (new_job d db w disk wire))

  -- Run, by a schedule of its goroutines until downloadSegments returns. Messages that the monitor has
  -- not taken by then stay in the channel.
  unfoldable pub run : Bytes → List Turn → World Db → Disk → Wire → Outcome Db
  unfolding prepare_download run_turns finalize_download get_download fail
  run id turns w disk wire =
      run_read id turns (get_download b (env.ctx wire.now) id w.db) w disk wire
