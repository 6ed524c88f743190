-- ===== src/Runner/Fitting.antt =====
-- The part files of a run in progress, and the phases of their workers.
use mathlib.Core.List.{Permᴰ}
use svc_downloader.Common.{
  ℕ, zero, suc, ◌+◌, ◌≤◌, ◌^◌, ◌≡◌, refl, sym, ap, ◌∙◌, subst, false, Option, none, some, List, [],
  ◌∷◌, arith,
}
use svc_downloader.Common.Lists.{length}
use svc_downloader.Common.Bytes.{Bytes}
use svc_downloader.Common.Int.{ℤ, pos}
use svc_downloader.Errors.{Error}
use svc_downloader.Store.{Badger}
use svc_downloader.Paths.{FilePath}
use svc_downloader.Disk.{Disk, find, is_dir, under, names_in}
use svc_downloader.Disk.Files.{inside_ne, under_child}
use svc_downloader.FileStore.{part_name}
use svc_downloader.FileStore.Copied.{Agrees}
use svc_downloader.Runner.{Env, Job}
use svc_downloader.Runner.Settings.{Settings, settings, save-Saves}
use svc_downloader.Runner.Files.{IsOpen}
use svc_downloader.Runner.Pool.{Pool, Worker, Phase, worker_at, set_phase, monitored, with_progress}
use svc_downloader.Runner.Fits.{part, PhaseFits, AllFit, AllFit-set_phase}
use svc_downloader.Runner.Opened.{present}

pub IsOpen-same :
    (tmp : FilePath) (disk disk' : Disk)
    → disk'.dirs ≡ disk.dirs
    → disk'.refused ≡ disk.refused
    → IsOpen tmp disk
    → IsOpen tmp disk'
unfolding is_dir
IsOpen-same tmp disk disk' dirs refused h = record {
  allowed = λ q. ap (λ f. f q) refused ∙ h.allowed q;
  there = rw dirs h.there;
  free = λ n. rw dirs (h.free n);
}

pub zero-add : (k : ℕ) → k ≡ 0 + k
zero-add k = omega arith

length-set_phase : (k : ℕ) (ph : Phase) (ws : List Worker) → length (set_phase k ph ws) ≡ length ws
length-set_phase k ph [] = refl
length-set_phase zero ph (w ∷ ws) = refl
length-set_phase (suc k) ph (w ∷ ws) = omega (arith, length-set_phase k ph ws)

module _ (b : Badger) (env : Env) (s : Settings) (tmp : FilePath) (content : Bytes) (had : ℕ → ℕ)
    (disk0 : Disk) where
  open b use {Db}

  -- The parts of a run so far, over the disk that it began with.
  pub record IsFitting (p : Pool Db) : Type 0 where
    pub kept : settings p.job.d ≡ s
    pub fits : AllFit tmp content had 0 0 p.workers p.job.disk
    pub names : Permᴰ (names_in tmp p.job.disk.files) (present tmp 0 (length p.workers) p.job.disk)
    pub few : length p.workers ≤ 10 ^ 9
    pub no_errors : p.errors ≡ []
    pub dirs : p.job.disk.dirs ≡ disk0.dirs
    pub refused : p.job.disk.refused ≡ disk0.refused
    pub outside :
        (q : FilePath) → under tmp q ≡ false → find q p.job.disk.files ≡ find q disk0.files

  abbrev pub StaysFitting : Option (Pool Db) → Type 0
  StaysFitting none = ⊥
  StaysFitting (some p) = IsFitting p

  -- A step that keeps the settings and the disk.
  pub job-IsFitting :
      (p : Pool Db) (job : Job Db)
      → IsFitting p
      → settings job.d ≡ settings p.job.d
      → job.disk ≡ p.job.disk
      → IsFitting (record p { job = job })
  job-IsFitting p job h k on = record {
    kept = k ∙ h.kept;
    fits = subst (AllFit tmp content had 0 0 p.workers) (sym on) h.fits;
    names =
        subst (λ x. Permᴰ (names_in tmp x.files) (present tmp 0 (length p.workers) x)) (sym on)
          h.names;
    few = h.few;
    no_errors = h.no_errors;
    dirs = ap (λ x. x.dirs) on ∙ h.dirs;
    refused = ap (λ x. x.refused) on ∙ h.refused;
    outside = λ q out. ap (λ x. find q x.files) on ∙ h.outside q out;
  }

  -- A worker writes its part and changes its phase.
  pub part-IsFitting :
      (k : ℕ) (w : Worker) (ph : Phase) (p : Pool Db) (job : Job Db) (errors : List Error)
      → IsFitting p
      → worker_at k p.workers ≡ some w
      → settings job.d ≡ s
      → Agrees (part tmp k) p.job.disk job.disk
      → PhaseFits tmp content had k w.segment ph job.disk
      → Permᴰ (names_in tmp job.disk.files) (present tmp 0 (length p.workers) job.disk)
      → errors ≡ []
      → IsFitting (record { workers = set_phase k ph p.workers; errors = errors; job = job })
  part-IsFitting k w ph p job errors h e kept agrees fits names none' = record {
    kept = kept;
    fits =
        AllFit-set_phase tmp content had k 0 0 p.workers w ph p.job.disk job.disk
          (omega (arith, h.few)) h.fits e
          (subst (λ x. Agrees (part tmp x) p.job.disk job.disk) (zero-add k) agrees)
          (subst (λ x. PhaseFits tmp content had x w.segment ph job.disk) (zero-add k) fits);
    names =
        subst (λ n. Permᴰ (names_in tmp job.disk.files) (present tmp 0 n job.disk))
          (sym (length-set_phase k ph p.workers)) names;
    few = omega (arith, length-set_phase k ph p.workers, h.few);
    no_errors = none';
    dirs = agrees.dirs ∙ h.dirs;
    refused = agrees.refused ∙ h.refused;
    outside = λ q out.
        agrees.files q (inside_ne tmp (part tmp k) q (under_child (part_name (pos k)) tmp) out)
        ∙ h.outside q out;
  }

  -- The monitor.
  pub monitored-IsFitting :
      (p : Pool Db) (channel : List ℤ)
      → IsFitting p
      → IsFitting (record p { job = monitored b env channel p.job })
  monitored-IsFitting p [] h = h
  monitored-IsFitting p (written ∷ channel) h =
      let job = with_progress b env written (record p.job { channel = channel }) in
      let saves = save-Saves b env job in
      job-IsFitting p (monitored b env (written ∷ channel) p.job) h saves.settings_same
        saves.disk_same
