-- ===== src/Runner/Ended.antt =====
-- The end of a run whose parts are whole: their merge, and the check of the final file.
use mathlib.Core.List.{Permᴰ}
use svc_downloader.Common.{
  ℕ, zero, suc, ◌<◌, ◌≡◌, refl, sym, ap, ◌∙◌, ◌⊎◌, subst, Bool, true, false, Option, none, some,
  List, [], ◌∷◌, inl, inr, arith, Bool-cases,
}
use svc_downloader.Common.Lists.{length}
use svc_downloader.Common.Bytes.{Bytes, same}
use svc_downloader.Common.Int.{pos}
use svc_downloader.Models.{Download, FileOptions, Segment}
use svc_downloader.Errors.{Result, ok, err}
use svc_downloader.Store.{Badger}
use svc_downloader.Paths.{FilePath}
use svc_downloader.Disk.{Disk, find, is_dir, exists, under, names_in}
use svc_downloader.Disk.Files.{same_path_refl}
use svc_downloader.FileStore.{part_name, chosen_temp, temp_dir, final_path}
use svc_downloader.FileStore.Target.{target}
use svc_downloader.FileStore.Order.{part_names_from}
use svc_downloader.FileStore.Merge.{merge_segments}
use svc_downloader.FileStore.Copied.{gathered}
use svc_downloader.FileStore.Merged.{IsMergeable}
use svc_downloader.FileStore.Listed.{merge_segments-merged_file}
use svc_downloader.Runner.{Env, Job, save, fail}
use svc_downloader.Runner.Settings.{settings, save-Saves}
use svc_downloader.FileStore.Checksum.{verify_checksum}
use svc_downloader.Runner.Pool.{Pool, Worker, all_finished}
use svc_downloader.Runner.Files.{IsOpen}
use svc_downloader.Runner.Fits.{AllFit}
use svc_downloader.Runner.Fitting.{IsFitting, StaysFitting, IsOpen-same, job-IsFitting}
use svc_downloader.Runner.Collected.{list_parts_lem, present-AllFit, gathered-AllFit}
use svc_downloader.Runner.Finish.{waited, finalize_download, merged, verified}
use svc_downloader.Runner.Verified.{completed_job-IsChecked}
use svc_downloader.Runner.Ready.{IsReady, IsDone, Delivers, EndsDelivered, EndsDelivered-Delivers}

module _ (b : Badger) (env : Env) (d : Download) (file : FileOptions) (tmp : FilePath)
    (base : Bytes) (dir : FilePath) (content : Bytes) (had : ℕ → ℕ) (segs : List Segment)
    (options : d.file ≡ some file) (temp : temp_dir env.home d ≡ some tmp)
    (final : final_path d.id file ≡ base ∷ dir) (some_bytes : 0 < length content) (disk0 : Disk)
    (ready : IsReady tmp base dir content segs disk0) where
  open b use {Db}

  verified-disk : (r : Result Bool) (j : Job Db) → (verified b env r j).disk ≡ j.disk
  unfolding fail
  verified-disk (err e) j = (save-Saves b env _).disk_same
  verified-disk (ok false) j = (save-Saves b env _).disk_same
  verified-disk (ok true) j = (save-Saves b env _).disk_same

  result-IsDone :
      (r : Result Bool) (j : Job Db)
      → verify_checksum env.hashes j.d j.disk ≡ r
      → (r ≡ ok true) ⊎ (same file.checksum [] ≡ false)
      → IsDone b env file (base ∷ dir) content (verified b env r j)
  unfolding fail
  result-IsDone (ok true) j h u = inl (completed_job-IsChecked b env j h)
  result-IsDone (ok false) j h (inl bad) = cc
  result-IsDone (ok false) j h (inr sum) = inr ((save-Saves b env _).status_same, sum)
  result-IsDone (err e) j h (inl bad) = cc
  result-IsDone (err e) j h (inr sum) = inr ((save-Saves b env _).status_same, sum)

  verified-IsDone :
      (j : Job Db)
      → j.d.file ≡ some file
      → IsDone b env file
          (base ∷ dir)
          content
          (verified b env (verify_checksum env.hashes j.d j.disk) j)
  unfolding verify_checksum
  verified-IsDone j e =
      result-IsDone (verify_checksum env.hashes j.d j.disk) j refl
        (elim (Bool-cases (same file.checksum [])) [
          | inl unchecked ↦ inl (rw (e, unchecked) refl)
          | inr sum ↦ inr sum
        ])

  not_under : under tmp (base ∷ dir) ≡ false
  unfolding under
  not_under = rw (ready.mergeable.outside, ready.mergeable.outside_out) refl

  module _ (p : Pool Db) (h : IsFitting b env (settings d) tmp content had disk0 p) where
    now-IsMergeable : IsMergeable tmp base dir p.job.disk
    unfolding is_dir
    now-IsMergeable =
        let m = ready.mergeable in
        record {
          plain = m.plain;
          dir_there = rw h.dirs m.dir_there;
          outside = m.outside;
          outside_out = m.outside_out;
          outside_beside = m.outside_beside;
          free = rw h.dirs m.free;
          free_beside = rw h.dirs m.free_beside;
          allowed = λ q. ap (λ f. f q) h.refused ∙ m.allowed q;
        }

    now_target : target p.job.d.id file p.job.disk ≡ some (ok file)
    unfolding target exists
    now_target =
        let same_id = ap (λ x. final_path x file) (ap (λ x. x.id) h.kept) ∙ final in
        let missing = h.outside (base ∷ dir) not_under ∙ ready.new_file in
        rw (same_id, missing, now-IsMergeable.free) refl

    now_final : final_path p.job.d.id file ≡ base ∷ dir
    now_final = ap (λ x. final_path x.id file) h.kept ∙ final

    now_options : p.job.d.file ≡ some file
    now_options = ap (λ x. x.file) h.kept ∙ options

    now_temp : temp_dir env.home p.job.d ≡ some tmp
    unfolding temp_dir
    now_temp = ap (λ x. chosen_temp env.home x.id x.file) h.kept ∙ temp

    now_open : IsOpen tmp p.job.disk
    now_open = IsOpen-same tmp disk0 p.job.disk h.dirs h.refused ready.open'

    now_there : is_dir p.job.disk tmp ≡ true
    now_there = now_open.there

    some_workers : 0 < length p.workers
    some_workers = by_workers p.workers h.fits
      where
        by_workers : (ws : List Worker) → AllFit tmp content had 0 0 ws p.job.disk → 0 < length ws
        by_workers [] fits = absurd (omega (arith, fits, some_bytes))
        by_workers (w ∷ ws) fits = omega arith

    some_name :
        (k : ℕ)
        → 0 < k
        → (name : Bytes) × (names : List Bytes) × (part_names_from 0 k ≡ name ∷ names)
    some_name zero pos' = absurd (omega arith)
    some_name (suc k) pos' = (part_name (pos 0), part_names_from 1 k, refl)

    -- The parts of a run whose goroutines have ended are merged to the content.
    ended-EndsDelivered :
        all_finished p.workers ≡ true
        → EndsDelivered b env file
            (base ∷ dir)
            content
            (merged b env (merge_segments env.home p.job.d p.job.disk) p.job)
    ended-EndsDelivered all =
        let (name, names, some') = some_name (length p.workers) some_workers in
        let parts =
          list_parts_lem tmp (length p.workers) p.job.disk now_there (now_open.allowed tmp) h.few (
            subst (Permᴰ (names_in tmp p.job.disk.files))
              (present-AllFit tmp content had 0 0 p.workers p.job.disk h.fits all) h.names)
          ∙ ap ok some' in
        let whole : gathered tmp (name ∷ names) p.job.disk ≡ content =
          ap (λ x. gathered tmp x p.job.disk) (sym some')
          ∙ gathered-AllFit tmp content had 0 0 p.workers p.job.disk h.fits all in
        let (disk', e, reads) =
          merge_segments-merged_file env.home p.job.d file file tmp p.job.disk name names base dir
            now_temp now_options parts now_target now_final now-IsMergeable in
        let d' = record p.job.d { file = some file } in
        let done' = record p.job { d = d'; disk = disk' } in
        let read : find (base ∷ dir) disk'.files ≡ some content =
          reads (base ∷ dir) ∙ rw (same_path_refl (base ∷ dir)) (ap some whole) in
        subst (λ m. EndsDelivered b env file (base ∷ dir) content (merged b env m p.job)) (sym e)
          (
            ap (λ x. find (base ∷ dir) x.files)
                  (verified-disk (verify_checksum env.hashes d' disk') done')
                ∙ read,
            verified-IsDone done' refl,
          )

  pub saved-EndsDelivered :
      (p : Pool Db)
      → IsFitting b env (settings d) tmp content had disk0 p
      → all_finished p.workers ≡ true
      → EndsDelivered b env file (base ∷ dir) content (waited b env (some p))
  unfolding finalize_download
  saved-EndsDelivered p h all =
      let before = record p.job {
        d = record p.job.d { error = []; updated_at = p.job.wire.now };
      } in
      let saves = save-Saves b env before in
      let h' =
        job-IsFitting b env (settings d) tmp content had disk0 p (save b env before) h
          saves.settings_same saves.disk_same in
      rw (all, h.no_errors) (ended-EndsDelivered (record p { job = save b env before }) h' all)

  pub waited-Delivers :
      (o : Option (Pool Db))
      → StaysFitting b env (settings d) tmp content had disk0 o
      → Delivers b env file (base ∷ dir) content (waited b env o)
  waited-Delivers none h = h
  waited-Delivers (some p) h = elim (Bool-cases (all_finished p.workers)) [
    | inr some' ↦ rw some' tt
    | inl all ↦
        EndsDelivered-Delivers b env file (base ∷ dir) content (waited b env (some p))
          (saved-EndsDelivered p h all)
  ]
