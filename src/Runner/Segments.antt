-- ===== src/Runner/Segments.antt =====
-- downloadSegment of runner.go. `attempt` is one round of its loop: it ends the segment, or calls for
-- another round with a count of attempts.
pub mod Ranges
pub mod Readers
unfoldable pub use svc_downloader.Runner.Segments.Readers.{
  limit_reader, discard, body_reader, checksum_of,
}
pub use svc_downloader.Runner.Segments.Readers.{
  Reader, bounded, cut_reader, capped, checksum_type_of,
}
use svc_downloader.Common.{
  ℕ, zero, suc, ◌+◌, ◌*◌, ◌-◌, Bool, true, false, ◌&&◌, ◌||◌, not, Option, none, some, List, [],
  ◌∷◌, ◌++◌, if◌then◌else◌, leb, ltb, ◌==◌,
}
use svc_downloader.Common.Lists.{length, take, drop}
use svc_downloader.Common.Bytes.{Bytes, codes, same, to_lower}
use svc_downloader.Common.Int.{ℤ, pos, negsuc, pos_part, ◌+ℤ◌, ◌-ℤ◌, ltb_ℤ, leb_ℤ, eq_ℤ}
use svc_downloader.Models.{
  Time, Float64, Download, DownloadConfig, FileOptions, RequestOptions, Segment, segment_completed,
}
use svc_downloader.Errors.{
  Error, Result, ok, err, Context, live, cancelled, context_canceled, eof, unexpected_eof,
  broken_body,
}
use svc_downloader.Store.{Badger}
use svc_downloader.RateLimit.{Limiter, reserve}
use svc_downloader.Repository.Segments.{upsert_segment}
use svc_downloader.Disk.{Disk}
use svc_downloader.FileStore.{open_segment_writer, write_segment}
use svc_downloader.FileStore.Checksum.{Hashes}
use svc_downloader.Transport.{Response, Wire}
use svc_downloader.Transport.Fetch.{Ranged, got, failed, get_range}
use svc_downloader.Runner.{Env, Job, pick_cfg, sleep, save}
use svc_downloader.Runner.Segments.Ranges.{content_range, is_expected}

-- safeSpan
unfoldable pub safe_span : ℤ → ℤ → ℤ
safe_span end start =
    let size = end -ℤ start +ℤ pos 1 in
    if ltb_ℤ end (pos 0) then pos 1_048_576 else if ltb_ℤ size (pos 0) then pos 0 else size

-- A second, in nanoseconds.
abbrev pub second : ℕ
second = 1_000_000_000

abbrev pub max_retries_of : Option DownloadConfig → ℕ
max_retries_of none = 3
max_retries_of (some c) =
    if ltb_ℤ (pos 0) c.retry.max_retries then pos_part c.retry.max_retries else 3

abbrev pub base_delay_of : Option DownloadConfig → ℤ
base_delay_of none = pos second
base_delay_of (some c) =
    if ltb_ℤ (pos 0) c.retry.retry_delay then c.retry.retry_delay else pos second

-- f > 0, and 1.5, by the bits of a float64.
abbrev pub positive_float : Float64 → Bool
positive_float f = ltb 0 f && leb f 0x7ff0_0000_0000_0000

abbrev pub factor_of : Option DownloadConfig → Float64
factor_of none = 0x3ff8_0000_0000_0000
factor_of (some c) =
    if positive_float c.backoff_factor then c.backoff_factor else 0x3ff8_0000_0000_0000

abbrev pub jitter_of : Option DownloadConfig → ℤ
jitter_of none = pos 0
jitter_of (some c) = c.retry.jitter

-- What a round leads to.
pub data Round (D : Type 0) : Type 0 where
  panic : Round D
  again : ℕ → Job D → Round D
  done : Result (Unit {0}) → Job D → Round D

-- The segment, where its missing bytes start, and how many its file has.
pub record Task : Type 0 where
  pub segment : Segment
  pub start : ℤ
  pub existing : ℕ

module _ (b : Badger) (env : Env) where
  open b use {Db}

  abbrev pub waited : ℤ × Limiter → Job Db → Job Db
  waited (wait, l) job =
      let j = record job { world = record job.world { limiter = some l } } in
      if ltb_ℤ (pos 0) wait then sleep b env wait j else j

  abbrev pub reserve_for : Bytes → ℤ → Option Limiter → Job Db → Job Db
  reserve_for key span none job = job
  reserve_for key span (some l) job =
      waited (reserve env.refill env.delay job.wire.now key span l) job

  -- The three reservations.
  abbrev pub reserve_global : ℤ → Job Db → Job Db
  reserve_global span job = reserve_for (codes "global") span job.world.limiter job

  abbrev pub reserve_queue : ℤ → Job Db → Job Db
  reserve_queue span job =
      if same job.d.queue_id [] then job else reserve_for job.d.queue_id span job.world.limiter job

  abbrev pub reserve_own : ℤ → Job Db → Job Db
  reserve_own span job = reserve_for job.d.id span job.world.limiter job

  unfoldable pub throttle : ℤ → Job Db → Job Db
  unfolding reserve
  throttle span job = reserve_own span (reserve_queue span (reserve_global span job))

  -- attempts++; if attempts > maxRetries { return e }; time.Sleep(t)
  abbrev pub retry : Result (Unit {0}) → ℤ → ℕ → Job Db → Round Db
  retry r t attempts job =
      if ltb (max_retries_of job.d.config) (suc attempts)
      then done r job
      else again (suc attempts) (sleep b env t job)

  abbrev pub jittered : ℤ → ℤ → Job Db → ℤ
  jittered delay jitter job =
      if ltb_ℤ (pos 0) jitter then delay +ℤ env.random (length job.slept) jitter else delay

  abbrev pub back_off : Result (Unit {0}) → ℕ → Job Db → Round Db
  back_off r attempts job =
      let delay = env.backoff (base_delay_of job.d.config) (factor_of job.d.config) attempts in
      retry r (jittered delay (jitter_of job.d.config) job) attempts job

  abbrev pub counted : ℕ → Job Db → Job Db
  counted attempts job = record job { d = record job.d { retries_attempted = pos (suc attempts) } }

  -- A request that failed, or a status other than 200 and 206; `r` is what GetRange returned as its
  -- error, which is nil for a status.
  unfoldable pub refetch : Result (Unit {0}) → ℕ → Job Db → Round Db
  unfolding save
  refetch r attempts job = back_off r attempts (save b env (counted attempts job))

  -- The end of a segment: the progress is sent, and the segment is stored, its error ignored.
  unfoldable pub complete : Task → Bytes → Job Db → Round Db
  unfolding upsert_segment checksum_of
  complete t content job =
      let now = job.wire.now in
      let seg = record t.segment {
        checksum =
            checksum_of env.hashes (checksum_type_of job.d.config) t.segment.checksum content;
        bytes_completed = pos (t.existing + length content);
        status = segment_completed;
        updated_at = now;
      } in
      done (ok tt) (record job {
        channel = job.channel ++ pos (length content) ∷ [];
        world = record job.world { db = (upsert_segment b (env.ctx now) seg job.world.db).1 };
      })

  -- The test of the number of bytes, where it is known.
  abbrev pub check_total : Task → ℕ → Bytes → Job Db → Round Db
  check_total t attempts content job =
      if ltb_ℤ t.segment.end (pos 0)
        || eq_ℤ (pos (t.existing + length content)) (t.segment.end -ℤ t.segment.start +ℤ pos 1)
      then complete t content job
      else retry (err unexpected_eof) (pos second) attempts job

  abbrev pub copied : Task → ℕ → Bytes → Reader → Job Db → Round Db
  copied t attempts old (content, fault) job =
      let j = record job {
        disk = write_segment env.home job.d t.segment (old ++ content) job.disk;
      } in
      if fault
      then retry (err broken_body) (pos (suc attempts * second)) attempts j
      else check_total t attempts content j

  abbrev pub read_body : Task → ℕ → Bytes → Result Reader → Job Db → Round Db
  read_body t attempts old (err e) job = retry (err e) (pos (suc attempts * second)) attempts job
  read_body t attempts old (ok r) job =
      copied t attempts old (capped job.d.file job.d.bytes_completed r) job

  -- The writer is opened at the end of what the file holds.
  abbrev pub writer_opened : Task → ℕ → Response → Option (Result Bytes × Disk) → Job Db → Round Db
  writer_opened t attempts r none job = panic
  writer_opened t attempts r (some (err e, disk)) job = done (err e) (record job { disk = disk })
  writer_opened t attempts r (some (ok old, disk)) job =
      read_body t attempts old (body_reader t.start t.segment.end r) (record job { disk = disk })

  -- A Content-Range other than the one that was asked for calls for another round, at any count.
  abbrev pub received : Task → ℕ → Response → Job Db → Round Db
  received t attempts r job =
      if r.status == 206 && not (is_expected t.start t.segment.end (content_range r))
      then again (suc attempts) (sleep b env (pos second) job)
      else writer_opened t attempts r (open_segment_writer env.home job.d t.segment job.disk) job

  abbrev pub failed_with : Option Error → Result (Unit {0})
  failed_with none = ok tt
  failed_with (some e) = err e

  abbrev pub fetched : Task → ℕ → Ranged × Wire → Job Db → Round Db
  fetched t attempts (failed status e, wire) job =
      refetch (failed_with e) attempts (record job { wire = wire })
  fetched t attempts (got r, wire) job =
      if r.status == 200 || r.status == 206
      then received t attempts r (record job { wire = wire })
      else refetch (ok tt) attempts (record job { wire = wire })

  abbrev pub fetch : Task → ℕ → Option RequestOptions → Job Db → Round Db
  fetch t attempts none job = panic
  fetch t attempts (some req) job =
      fetched t attempts
        (get_range env.web env.timeout req (pick_cfg job.d.config) t.start t.segment.end job.wire)
        job

  abbrev pub unless_done : Context → Task → ℕ → Job Db → Round Db
  unless_done cancelled t attempts job = done (err context_canceled) job
  unless_done live t attempts job =
      let j = throttle (safe_span t.segment.end t.start) job in fetch t attempts j.d.request j

  -- One round of the loop.
  unfoldable pub attempt : Task → ℕ → Job Db → Round Db
  unfolding throttle safe_span get_range open_segment_writer write_segment body_reader complete
      refetch is_expected content_range limit_reader
  attempt t attempts job = unless_done (env.ctx job.wire.now) t attempts job
