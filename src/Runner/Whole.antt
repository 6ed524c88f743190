-- ===== src/Runner/Whole.antt =====
-- The schedules of a run against a server that serves a content.
use mathlib.Core.List.{Permᴰ}
use svc_downloader.Common.{
  ℕ, ◌+◌, arith, ◌≤◌, ◌<◌, ◌≡◌, refl, sym, ap, ◌∙◌, subst, true, Option, none, some, List, [], ◌∷◌,
  ◌++◌, inl, inr, Option-cases,
}
use svc_downloader.Common.Lists.{length, take, drop, length-drop}
use svc_downloader.Common.Bytes.{Bytes}
use svc_downloader.Common.Int.{pos, pos_part, ◌+ℤ◌}
use svc_downloader.Models.{Time, RequestOptions, Segment}
use svc_downloader.Errors.{ok, err, live}
use svc_downloader.Store.{Badger}
use svc_downloader.Paths.{FilePath}
use svc_downloader.Disk.{Disk, find, write_file, kept_bytes, names_in}
use svc_downloader.FileStore.{chosen_temp, open_segment_writer}
use svc_downloader.FileStore.Copied.{Agrees, write_file-Agrees, Agrees-trans}
use svc_downloader.Transport.Headers.{add_query}
use svc_downloader.Runner.{Env, pick_cfg}
use svc_downloader.Runner.Settings.{Settings}
use svc_downloader.Runner.Files.{IsOpen, open_segment_writer_lem}
use svc_downloader.Runner.Segments.{Task, Round, panic, again, done, attempt}
use svc_downloader.Runner.Loop.{probe, probed}
use svc_downloader.Runner.Pool.{
  Turn, work, report, Pool, Worker, Phase, fresh, trying, finished, worker_at, turn, in_phase,
  after_probe, after_round, monitor, run_turns, turn_then,
}
use svc_downloader.Runner.Served.{slice, IsServing, is_unlimited, length-take_le}
use svc_downloader.Runner.Filled.{Fills, attempt-Fills}
use svc_downloader.Runner.Fits.{
  part, old_bytes, missing_task, PhaseFits, WorkerFits, AllFit-at, worker_at_bound,
}
use svc_downloader.Runner.Opened.{present, written_lem, written_names}
use svc_downloader.Runner.Fitting.{
  IsOpen-same, zero-add, IsFitting, StaysFitting, part-IsFitting, monitored-IsFitting,
}

module _ (b : Badger) (env : Env) (s : Settings) (tmp : FilePath) (content : Bytes) (had : ℕ → ℕ)
    (disk0 : Disk) (temp : chosen_temp env.home s.id s.file ≡ some tmp)
    (running : (now : Time) → env.ctx now ≡ live) (req : RequestOptions)
    (asked : s.request ≡ some req) (unlimited : is_unlimited s.file ≡ true)
    (accepted : env.web.accepts (add_query env.web req.url req.extra) ≡ true)
    (serving : IsServing env.web env.timeout req (pick_cfg s.config) content)
    (open0 : IsOpen tmp disk0) where
  open b use {Db}

  pub now_open : (p : Pool Db) → IsFitting b env s tmp content had disk0 p → IsOpen tmp p.job.disk
  now_open p h = IsOpen-same tmp disk0 p.job.disk h.dirs h.refused open0

  -- The bytes that were there, by the start of the range.
  pub old_bytes_lem :
      (k a : ℕ) (seg : Segment)
      → seg.start ≡ pos a
      → old_bytes tmp content had k seg ≡ take (had k) (drop a content)
  old_bytes_lem k a seg start = ap (λ x. take (had k) (drop (pos_part x) content)) start

  length-old_bytes :
      (k a : ℕ) (seg : Segment)
      → seg.start ≡ pos a
      → a + had k ≤ length content
      → length (old_bytes tmp content had k seg) ≡ had k
  length-old_bytes k a seg start le =
      ap length (old_bytes_lem k a seg start)
      ∙ length-take_le (had k) (drop a content) (omega (arith, length-drop a content))

  fresh-StaysFitting :
      (k a : ℕ) (w : Worker) (p : Pool Db)
      → IsFitting b env s tmp content had disk0 p
      → worker_at k p.workers ≡ some w
      → w.segment.index ≡ pos k
      → w.segment.start ≡ pos a
      → a + had k ≤ length content
      → kept_bytes (find (part tmp k) p.job.disk.files) ≡ old_bytes tmp content had k w.segment
      → StaysFitting b env s tmp content had disk0 (after_probe k (probe b env w.segment p.job) p)
  unfolding probe
  fresh-StaysFitting k a w p h e index start le kept =
      let mine = part tmp k in
      let old = old_bytes tmp content had k w.segment in
      let disk = write_file mine old p.job.disk in
      let found : open_segment_writer env.home p.job.d w.segment p.job.disk ≡ some (ok old, disk) =
        open_segment_writer_lem env.home s tmp temp p.job.d h.kept w.segment k index p.job.disk
          (now_open p h)
        ∙ ap (λ c. some (ok c, write_file mine c p.job.disk)) kept in
      let from : ℕ → Task =
        λ n. record { segment = w.segment; start = w.segment.start +ℤ pos n; existing = n } in
      let task : from (length old) ≡ missing_task tmp content had k w.segment =
        ap from (length-old_bytes k a w.segment start le) in
      subst
        (λ o.
          StaysFitting b env s tmp content had disk0
            (after_probe k (probed b env w.segment o p.job) p))
        (sym found)
        (part-IsFitting b env s tmp content had disk0 k w (trying (from (length old)) 0) p
          (record p.job { disk = disk }) p.errors h e h.kept (write_file-Agrees mine old p.job.disk)
          (refl, (task, written_lem mine old p.job.disk))
          (written_names tmp k (length p.workers) old p.job.disk (worker_at_bound k p.workers w e)
            h.few h.names)
          h.no_errors)

  filled-StaysFitting :
      (k a : ℕ) (w : Worker) (t : Task) (p : Pool Db)
      (h : IsFitting b env s tmp content had disk0 p)
      → worker_at k p.workers ≡ some w
      → (index : w.segment.index ≡ pos k) (start : w.segment.start ≡ pos a)
        (end : w.segment.end ≡ pos (pos_part w.segment.end))
        (le : a + had k ≤ pos_part w.segment.end) (lt : pos_part w.segment.end < length content)
        (there : find (part tmp k) p.job.disk.files ≡ some (take (had k) (drop a content)))
      → (x : Round Db)
      → Fills b env s tmp temp running req asked unlimited content accepted serving w.segment k a
          (had k)
          (pos_part w.segment.end)
          index
          start
          end
          le
          lt
          p.job.disk
          (now_open p h)
          there
          x
      → StaysFitting b env s tmp content had disk0 (after_round k t x p)
  unfolding Fills
  filled-StaysFitting k a w t p h e index start end le lt there panic f = absurd f
  filled-StaysFitting k a w t p h e index start end le lt there (again n job) f = absurd f
  filled-StaysFitting k a w t p h e index start end le lt there (done (err x) job) f = absurd f
  filled-StaysFitting k a w t p h e index start end le lt there (done (ok u) job) (kept, on) =
      let mine = part tmp k in
      let old = take (had k) (drop a content) in
      let bytes = slice content a (pos_part w.segment.end) in
      let touched = write_file mine old p.job.disk in
      let bound = worker_at_bound k p.workers w e in
      part-IsFitting b env s tmp content had disk0 k w (finished (ok u)) p job (p.errors ++ []) h e
        kept
        (subst (Agrees mine p.job.disk) (sym on) (
          Agrees-trans mine (write_file-Agrees mine old p.job.disk)
            (write_file-Agrees mine bytes touched)))
        (ap (λ x. find mine x.files) on
          ∙ written_lem mine bytes touched
          ∙ ap (λ x. some (slice content x (pos_part w.segment.end))) (sym (ap pos_part start)))
        (subst (λ x. Permᴰ (names_in tmp x.files) (present tmp 0 (length p.workers) x)) (sym on)
          (written_names tmp k (length p.workers) bytes touched bound h.few
            (written_names tmp k (length p.workers) old p.job.disk bound h.few h.names)))
        (ap (λ x. x ++ []) h.no_errors)

  -- A worker of any phase.
  phase-StaysFitting :
      (k a : ℕ) (w : Worker) (p : Pool Db)
      → IsFitting b env s tmp content had disk0 p
      → worker_at k p.workers ≡ some w
      → WorkerFits tmp content had k a w p.job.disk
      → pos_part w.segment.end < length content
      → (ph : Phase) → w.phase ≡ ph
      → StaysFitting b env s tmp content had disk0 (in_phase b env k w.segment ph p)
  phase-StaysFitting k a w p h e fits lt fresh is =
      let kept : kept_bytes (find (part tmp k) p.job.disk.files)
          ≡ old_bytes tmp content had k w.segment =
        subst (λ x. PhaseFits tmp content had k w.segment x p.job.disk) is fits.phase in
      fresh-StaysFitting k a w p h e fits.index fits.start (omega (arith, fits.missing, lt)) kept
  phase-StaysFitting k a w p h e fits lt (trying t n) is =
      let (zeroth, (task, there)) =
        subst (λ x. PhaseFits tmp content had k w.segment x p.job.disk) is fits.phase in
      let there' = there ∙ ap some (old_bytes_lem k a w.segment fits.start) in
      subst
        (λ x.
          StaysFitting b env s tmp content had disk0 (after_round k t (attempt b env t x p.job) p))
        (sym zeroth)
        (subst
          (λ x.
            StaysFitting b env s tmp content had disk0
              (after_round k t (attempt b env x 0 p.job) p))
          (sym task)
          (filled-StaysFitting k a w t p h e fits.index fits.start fits.end fits.missing lt there'
            (attempt b env (missing_task tmp content had k w.segment) 0 p.job)
            (attempt-Fills b env s tmp temp running req asked unlimited content accepted serving
              w.segment k a (had k) (pos_part w.segment.end) fits.index fits.start fits.end
              fits.missing lt p.job.disk (now_open p h) there' p.job h.kept refl)))
  phase-StaysFitting k a w p h e fits lt (finished r) is = h

  pub turn-StaysFitting :
      (t : Turn) (p : Pool Db)
      → IsFitting b env s tmp content had disk0 p
      → StaysFitting b env s tmp content had disk0 (turn b env t p)
  unfolding turn monitor
  turn-StaysFitting report p h = monitored-IsFitting b env s tmp content had disk0 p p.job.channel h
  turn-StaysFitting (work k) p h = elim (Option-cases (worker_at k p.workers)) [
    | inl none' ↦ rw none' h
    | inr (w, e) ↦
        let (a, fits, lt) = AllFit-at tmp content had k 0 0 p.workers w p.job.disk h.fits e in
        rw e (
          phase-StaysFitting k a w p h e
            (subst (λ x. WorkerFits tmp content had x a w p.job.disk) (sym (zero-add k)) fits) lt
            w.phase refl)
  ]

  turn_then-StaysFitting :
      (o : Option (Pool Db)) (f : Pool Db → Option (Pool Db))
      → StaysFitting b env s tmp content had disk0 o
      → ((p : Pool Db)
          → IsFitting b env s tmp content had disk0 p
          → StaysFitting b env s tmp content had disk0 (f p))
      → StaysFitting b env s tmp content had disk0 (turn_then b env o f)
  turn_then-StaysFitting none f h more = h
  turn_then-StaysFitting (some p) f h more = more p h

  -- Every schedule keeps the invariant: no goroutine panics or fails.
  pub run_turns-StaysFitting :
      (turns : List Turn) (p : Pool Db)
      → IsFitting b env s tmp content had disk0 p
      → StaysFitting b env s tmp content had disk0 (run_turns b env turns p)
  unfolding run_turns
  run_turns-StaysFitting [] p h = h
  run_turns-StaysFitting (t ∷ ts) p h =
      turn_then-StaysFitting (turn b env t p) (run_turns b env ts) (turn-StaysFitting t p h)
        (run_turns-StaysFitting ts)
