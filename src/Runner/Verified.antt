-- ===== src/Runner/Verified.antt =====
-- How a run ends.
use svc_downloader.Common.{
  [], ◌≡◌, refl, sym, ap, ◌∙◌, ◌⊎◌, Bool, true, false, Option, none, some, List, inl, inr,
  Bool-cases,
}
use svc_downloader.Common.Bytes.{Bytes}
use svc_downloader.Models.{Download, Segment, status_failed, status_completed}
use svc_downloader.Errors.{Error, Result, ok, err}
use svc_downloader.Store.{Badger}
use svc_downloader.Repository.Downloads.{get_download}
use svc_downloader.Service.State.{World}
use svc_downloader.Disk.{Disk}
use svc_downloader.FileStore.Merge.{Merged, merge_segments}
use svc_downloader.FileStore.Checksum.{verify_checksum, verify_file}
use svc_downloader.Transport.{Wire}
use svc_downloader.Runner.{Env, Job, save, fail, prepare_download}
use svc_downloader.Runner.Settings.{save-Saves}
use svc_downloader.Runner.Pool.{Turn, Pool, all_finished, first_error, run_turns, started}
use svc_downloader.Runner.Finish.{
  Outcome, panicked, waiting, over, completed_job, verified, merged, finalize_download, downloaded,
  waited, with_segments, run_read, run, new_job,
}

module _ (b : Badger) (env : Env) where
  open b use {Db}

  -- A job that is completed, with a file that has the checksum asked for.
  abbrev pub IsChecked : Job Db → Type 0
  IsChecked job =
      (job.d.status ≡ status_completed) × (verify_checksum env.hashes job.d job.disk ≡ ok true)

  -- The disk is the one that a successful MergeSegments has left.
  abbrev pub IsMerged : Job Db → Type 0
  IsMerged job =
      (d d' : Download) × (disk : Disk) × (merge_segments env.home d disk
        ≡ some (ok tt, d', job.disk))

  abbrev pub EndsSettled : Outcome Db → Type 0
  EndsSettled panicked = Unit
  EndsSettled (waiting p) = Unit
  EndsSettled (over job) = (job.d.status ≡ status_failed) ⊎ (IsChecked job × IsMerged job)

  failed_lem : (e : Error) (job : Job Db) → (fail b env e job).d.status ≡ status_failed
  unfolding fail
  failed_lem e job = (save-Saves b env _).status_same

  pub completed_job-IsChecked :
      (job : Job Db)
      → verify_checksum env.hashes job.d job.disk ≡ ok true
      → IsChecked (completed_job b env job)
  unfolding verify_checksum
  completed_job-IsChecked job h =
      let now = job.wire.now in
      let before = record job {
        d = record job.d { status = status_completed; completed_at = some now; updated_at = now };
      } in
      let after = save b env before in
      let saves = save-Saves b env before in
      let same_file : verify_file env.hashes after.d.id after.d.file after.disk
          ≡ verify_file env.hashes job.d.id job.d.file after.disk =
        ap (λ x. verify_file env.hashes x.id x.file after.disk) saves.settings_same in
      let same_disk : verify_file env.hashes job.d.id job.d.file after.disk
          ≡ verify_file env.hashes job.d.id job.d.file job.disk =
        ap (verify_file env.hashes job.d.id job.d.file) saves.disk_same in
      (saves.status_same, same_file ∙ same_disk ∙ h)

  verified-EndsSettled :
      (r : Result Bool) (job : Job Db)
      → verify_checksum env.hashes job.d job.disk ≡ r
      → IsMerged job
      → EndsSettled (over (verified b env r job))
  verified-EndsSettled (err e) job h m = inl (failed_lem e job)
  verified-EndsSettled (ok false) job h m = inl (failed_lem _ job)
  verified-EndsSettled (ok true) job h (d, d', disk, e) =
      let kept : (completed_job b env job).disk ≡ job.disk = (save-Saves b env _).disk_same in
      inr
        (completed_job-IsChecked job h, (d, d', disk, e ∙ ap (λ x. some (ok tt, d', x)) (sym kept)))

  merged-EndsSettled :
      (m : Merged) (job : Job Db)
      → merge_segments env.home job.d job.disk ≡ m
      → EndsSettled (merged b env m job)
  merged-EndsSettled none job h = tt
  merged-EndsSettled (some (err e, d, disk)) job h = inl (failed_lem e _)
  merged-EndsSettled (some (ok u, d, disk)) job h =
      verified-EndsSettled _ _ refl (job.d, d, job.disk, h)

  downloaded-EndsSettled :
      (r : Result (Unit {0})) (job : Job Db) → EndsSettled (downloaded b env r job)
  unfolding finalize_download
  downloaded-EndsSettled (err e) job = inl (failed_lem e job)
  downloaded-EndsSettled (ok u) job =
      let j = record job.d { error = []; updated_at = job.wire.now } in
      merged-EndsSettled _ (save b env (record job { d = j })) refl

  waited-EndsSettled : (o : Option (Pool Db)) → EndsSettled (waited b env o)
  waited-EndsSettled none = tt
  waited-EndsSettled (some p) = elim (Bool-cases (all_finished p.workers)) [
    | inl all ↦ rw all (downloaded-EndsSettled (first_error p.errors) p.job)
    | inr some' ↦ rw some' tt
  ]

  with_segments-EndsSettled :
      (turns : List Turn) (o : Option (Result (List Segment) × Job Db))
      → EndsSettled (with_segments b env turns o)
  with_segments-EndsSettled turns none = tt
  with_segments-EndsSettled turns (some (err e, job)) = inl (failed_lem e job)
  with_segments-EndsSettled turns (some (ok segs, job)) =
      waited-EndsSettled (run_turns b env turns (started b env segs job))

  run_read-EndsSettled :
      (id : Bytes) (turns : List Turn) (x : Result Download × Db) (w : World Db) (disk : Disk)
      (wire : Wire)
      → EndsSettled (run_read b env id turns x w disk wire)
  run_read-EndsSettled id turns (err e, db) w disk wire = inl (failed_lem e _)
  run_read-EndsSettled id turns (ok d, db) w disk wire =
      with_segments-EndsSettled turns (prepare_download b env (new_job b env d db w disk wire))

  -- A run of any schedule that ends leaves the download, as it holds it in memory, failed, or completed.
  -- Completed it is only with the disk that a successful MergeSegments has left, on which its final file
  -- has the checksum asked for, if one was asked for.
  pub run-EndsSettled :
      (id : Bytes) (turns : List Turn) (w : World Db) (disk : Disk) (wire : Wire)
      → EndsSettled (run b env id turns w disk wire)
  unfolding run
  run-EndsSettled id turns w disk wire =
      run_read-EndsSettled id turns (get_download b (env.ctx wire.now) id w.db) w disk wire
