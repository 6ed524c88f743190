-- ===== src/Runner/Pool.antt =====
-- downloadSegments and monitorProgress of runner.go: the goroutines of a run, interleaved. A turn of the
-- schedule lets one worker make its next round, or lets the monitor take one message. The rounds of a
-- worker are its own; what they share is the job.
use svc_downloader.Common.{
  ℕ, zero, suc, Bool, true, false, ◌&&◌, Option, none, some, List, [], ◌∷◌, ◌++◌, map,
  if◌then◌else◌,
}
use svc_downloader.Common.Int.{ℤ, pos, ◌+ℤ◌, ltb_ℤ}
use svc_downloader.Models.{Segment, progress, bytes}
use svc_downloader.Errors.{Error, Result, ok, err}
use svc_downloader.Store.{Badger}
use svc_downloader.Runner.{Env, Job, save, announce}
use svc_downloader.Runner.Segments.{Task, Round, panic, again, done, attempt}
use svc_downloader.Runner.Loop.{probe}

-- A goroutine of downloadSegments: before its probe, in its loop, or ended.
pub data Phase : Type 0 where
  fresh : Phase
  trying : Task → ℕ → Phase
  finished : Result (Unit {0}) → Phase

pub record Worker : Type 0 where
  pub segment : Segment
  pub phase : Phase

-- `errors` is the channel errCh.
pub record Pool (D : Type 0) : Type 0 where
  pub workers : List Worker
  pub errors : List Error
  pub job : Job D

pub data Turn : Type 0 where
  work : ℕ → Turn
  report : Turn

abbrev pub worker_at : ℕ → List Worker → Option Worker
worker_at i [] = none
worker_at zero (w ∷ ws) = some w
worker_at (suc i) (w ∷ ws) = worker_at i ws

abbrev pub set_phase : ℕ → Phase → List Worker → List Worker
set_phase i ph [] = []
set_phase zero ph (w ∷ ws) = record w { phase = ph } ∷ ws
set_phase (suc i) ph (w ∷ ws) = w ∷ set_phase i ph ws

abbrev pub error_of : Result (Unit {0}) → List Error
error_of (ok u) = []
error_of (err e) = e ∷ []

-- A worker whose goroutine ended by `r`.
abbrev pub ended : {D : Type 0} → ℕ → Result (Unit {0}) → Job D → Pool D → Pool D
ended i r job p = record {
  workers = set_phase i (finished r) p.workers;
  errors = p.errors ++ error_of r;
  job = job;
}

abbrev pub moved : {D : Type 0} → ℕ → Phase → Job D → Pool D → Pool D
moved i ph job p = record p { workers = set_phase i ph p.workers; job = job }

abbrev pub after_probe : {D : Type 0} → ℕ → Option (Result Task × Job D) → Pool D → Option (Pool D)
after_probe i none p = none
after_probe i (some (err e, job)) p = some (ended i (err e) job p)
after_probe i (some (ok t, job)) p = some (moved i (trying t 0) job p)

abbrev pub after_round : {D : Type 0} → ℕ → Task → Round D → Pool D → Option (Pool D)
after_round i t panic p = none
after_round i t (again attempts job) p = some (moved i (trying t attempts) job p)
after_round i t (done r job) p = some (ended i r job p)

abbrev pub is_finished : Phase → Bool
is_finished (finished r) = true
is_finished _ = false

-- wg.Wait returns.
abbrev pub all_finished : List Worker → Bool
all_finished [] = true
all_finished (w ∷ ws) = is_finished w.phase && all_finished ws

-- The first error of errCh
abbrev pub first_error : List Error → Result (Unit {0})
first_error [] = ok tt
first_error (e ∷ es) = err e

abbrev pub new_workers : List Segment → List Worker
new_workers = map λ s. record { segment = s; phase = fresh }

module _ (b : Badger) (env : Env) where
  open b use {Db}

  abbrev pub in_phase : ℕ → Segment → Phase → Pool Db → Option (Pool Db)
  in_phase i s fresh p = after_probe i (probe b env s p.job) p
  in_phase i s (trying t attempts) p = after_round i t (attempt b env t attempts p.job) p
  in_phase i s (finished r) p = some p

  abbrev pub by_worker : ℕ → Option Worker → Pool Db → Option (Pool Db)
  by_worker i none p = some p
  by_worker i (some w) p = in_phase i w.segment w.phase p

  abbrev pub with_progress : ℤ → Job Db → Job Db
  with_progress written job =
      let completed = job.d.bytes_completed +ℤ written in
      record job {
        d = record job.d {
          bytes_completed = completed;
          progress =
              if ltb_ℤ (pos 0) job.d.bytes_total
              then env.ratio completed job.d.bytes_total
              else job.d.progress;
          updated_at = job.wire.now;
        };
      }

  -- One round of monitorProgress.
  abbrev pub monitored : List ℤ → Job Db → Job Db
  monitored [] job = job
  monitored (written ∷ channel) job =
      announce b env progress (bytes written)
        (save b env (with_progress written (record job { channel = channel })))

  unfoldable pub monitor : Job Db → Job Db
  unfolding save
  monitor job = monitored job.channel job

  unfoldable pub turn : Turn → Pool Db → Option (Pool Db)
  unfolding probe attempt monitor
  turn (work i) p = by_worker i (worker_at i p.workers) p
  turn report p = some (record p { job = monitor p.job })

  abbrev pub turn_then : Option (Pool Db) → (Pool Db → Option (Pool Db)) → Option (Pool Db)
  turn_then none f = none
  turn_then (some p) f = f p

  unfoldable pub run_turns : List Turn → Pool Db → Option (Pool Db)
  unfolding turn
  run_turns [] p = some p
  run_turns (t ∷ ts) p = turn_then (turn t p) (run_turns ts)

  abbrev pub started : List Segment → Job Db → Pool Db
  started segs job = record { workers = new_workers segs; errors = []; job = job }
