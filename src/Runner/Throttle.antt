-- ===== src/Runner/Throttle.antt =====
-- The rate limiter of a run, and the download and the disk of the job.
use svc_downloader.Common.{◌≡◌, refl, ap, ◌∙◌, Option, none, some, [], inl, inr, Bool-cases}
use svc_downloader.Common.Bytes.{Bytes, codes, same}
use svc_downloader.Common.Int.{ℤ, pos, ltb_ℤ}
use svc_downloader.Models.{Download}
use svc_downloader.Store.{Badger}
use svc_downloader.RateLimit.{Limiter}
use svc_downloader.Disk.{Disk}
use svc_downloader.Runner.{Env, Job}
use svc_downloader.Runner.Segments.{throttle, waited, reserve_for, reserve_global, reserve_queue}

module _ (b : Badger) (env : Env) where
  open b use {Db}

  abbrev kept : Job Db → Download × Disk
  kept job = (job.d, job.disk)

  waited_kept : (x : ℤ × Limiter) (job : Job Db) → kept (waited b env x job) ≡ kept job
  waited_kept (wait, l) job = elim (Bool-cases (ltb_ℤ (pos 0) wait)) [
    | inl long ↦ rw long refl
    | inr none' ↦ rw none' refl
  ]

  reserve_for_kept :
      (key : Bytes) (span : ℤ) (l : Option Limiter) (job : Job Db)
      → kept (reserve_for b env key span l job) ≡ kept job
  reserve_for_kept key span none job = refl
  reserve_for_kept key span (some l) job = waited_kept _ job

  reserve_queue_kept : (span : ℤ) (job : Job Db) → kept (reserve_queue b env span job) ≡ kept job
  reserve_queue_kept span job = elim (Bool-cases (same job.d.queue_id [])) [
    | inl none' ↦ rw none' refl
    | inr named ↦ rw named (reserve_for_kept job.d.queue_id span job.world.limiter job)
  ]

  throttle_kept : (span : ℤ) (job : Job Db) → kept (throttle b env span job) ≡ kept job
  unfolding throttle
  throttle_kept span job =
      let j = reserve_global b env span job in
      let k = reserve_queue b env span j in
      reserve_for_kept k.d.id span k.world.limiter k
      ∙ reserve_queue_kept span j
      ∙ reserve_for_kept (codes "global") span job.world.limiter job

  pub throttle_d : (span : ℤ) (job : Job Db) → (throttle b env span job).d ≡ job.d
  throttle_d span job = ap (λ x. x.0) (throttle_kept span job)

  pub throttle_disk : (span : ℤ) (job : Job Db) → (throttle b env span job).disk ≡ job.disk
  throttle_disk span job = ap (λ x. x.1) (throttle_kept span job)
