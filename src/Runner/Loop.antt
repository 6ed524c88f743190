-- ===== src/Runner/Loop.antt =====
-- downloadSegment of internal/service/runner.go: the probe of the part file and the loop of the rounds.
use svc_downloader.Common.{ℕ, zero, suc, Option, none, some}
use svc_downloader.Common.Lists.{length}
use svc_downloader.Common.Bytes.{Bytes}
use svc_downloader.Common.Int.{pos, ◌+ℤ◌}
use svc_downloader.Models.{Segment}
use svc_downloader.Errors.{Result, ok, err}
use svc_downloader.Store.{Badger}
use svc_downloader.Disk.{Disk}
use svc_downloader.FileStore.{open_segment_writer}
use svc_downloader.Runner.{Env, Job}
use svc_downloader.Runner.Segments.{Round, panic, again, done, Task, attempt}

module _ (b : Badger) (env : Env) where
  open b use {Db}

  abbrev pub next_round : (ℕ → Job Db → Round Db) → Round Db → Round Db
  next_round rest panic = panic
  next_round rest (done r job) = done r job
  next_round rest (again attempts job) = rest attempts job

  -- The loop, of at most so many rounds.
  unfoldable pub rounds : ℕ → Task → ℕ → Job Db → Round Db
  unfolding attempt
  rounds zero t attempts job = again attempts job
  rounds (suc fuel) t attempts job = next_round (rounds fuel t) (attempt b env t attempts job)

  -- The start of a segment: its file tells how much is there.
  abbrev pub probed :
      Segment → Option (Result Bytes × Disk) → Job Db → Option (Result Task × Job Db)
  probed s none job = none
  probed s (some (err e, disk)) job = some (err e, record job { disk = disk })
  probed s (some (ok old, disk)) job = some (
    ok (record { segment = s; start = s.start +ℤ pos (length old); existing = length old }),
    record job { disk = disk },
  )

  unfoldable pub probe : Segment → Job Db → Option (Result Task × Job Db)
  unfolding open_segment_writer
  probe s job = probed s (open_segment_writer env.home job.d s job.disk) job

  abbrev pub looped : ℕ → Option (Result Task × Job Db) → Round Db
  looped fuel none = panic
  looped fuel (some (err e, job)) = done (err e) job
  looped fuel (some (ok t, job)) = rounds fuel t 0 job

  -- downloadSegment: the part file is probed once, before the rounds of the loop.
  unfoldable pub download_segment : ℕ → Segment → Job Db → Round Db
  unfolding probe rounds
  download_segment fuel s job = looped fuel (probe s job)
