-- ===== src/Runner/Progress.antt =====
-- How many turns a run needs, against a server that serves a content.
use svc_downloader.Common.{
  ℕ, zero, suc, ◌+◌, ◌-◌, ◌≤◌, ◌<◌, ◌≡◌, refl, sym, ap, ◌∙◌, subst, true, Option, none, some, List,
  [], ◌∷◌, arith, inl, inr, Option-cases, Bool-cases, ◌==◌,
}
use svc_downloader.Common.Lists.{length, take, drop}
use svc_downloader.Common.Bytes.{Bytes}
use svc_downloader.Common.Int.{pos, pos_part}
use svc_downloader.Models.{Time, RequestOptions}
use svc_downloader.Errors.{live}
use svc_downloader.Store.{Badger}
use svc_downloader.Paths.{FilePath}
use svc_downloader.Disk.{Disk, find}
use svc_downloader.FileStore.{chosen_temp}
use svc_downloader.Transport.Headers.{add_query}
use svc_downloader.Runner.{Env, pick_cfg}
use svc_downloader.Runner.Settings.{Settings}
use svc_downloader.Runner.Files.{IsOpen}
use svc_downloader.Runner.Segments.{Task, Round, panic, again, done, attempt}
use svc_downloader.Runner.Loop.{probe}
use svc_downloader.Runner.Pool.{
  Turn, work, report, Pool, Worker, Phase, fresh, trying, finished, worker_at, turn, in_phase,
  after_round, run_turns, turn_then,
}
use svc_downloader.Runner.Served.{IsServing, is_unlimited}
use svc_downloader.Runner.Filled.{Fills, attempt-Fills}
use svc_downloader.Runner.Fits.{part, missing_task, PhaseFits, WorkerFits, AllFit-at}
use svc_downloader.Runner.Fitting.{zero-add, IsFitting, StaysFitting}
use svc_downloader.Runner.Whole.{now_open, old_bytes_lem, turn-StaysFitting}
use svc_downloader.Runner.Fair.{
  rank, rank_at, turns_of, HasAdvanced, Advances, after_probe-Advances, done-Advances,
}

rank_at-worker :
    (k : ℕ) (ws : List Worker) (w : Worker) → worker_at k ws ≡ some w → rank_at k ws ≡ rank w.phase
rank_at-worker k [] w e = cc
rank_at-worker zero (v ∷ ws) w e = let v_eq : v ≡ w = cc in ap (λ x. rank x.phase) v_eq
rank_at-worker (suc k) (v ∷ ws) w e = rank_at-worker k ws w e

rank_at-none : (k : ℕ) (ws : List Worker) → worker_at k ws ≡ none → rank_at k ws ≡ 0
rank_at-none k [] e = refl
rank_at-none zero (v ∷ ws) e = cc
rank_at-none (suc k) (v ∷ ws) e = rank_at-none k ws e

idle-HasAdvanced : (k : ℕ) (ws : List Worker) → rank_at k ws ≡ 0 → HasAdvanced k ws ws
idle-HasAdvanced k ws e = ((λ j. omega arith), omega (arith, e))

module _ (b : Badger) (env : Env) (s : Settings) (tmp : FilePath) (content : Bytes) (had : ℕ → ℕ)
    (disk0 : Disk) (temp : chosen_temp env.home s.id s.file ≡ some tmp)
    (running : (now : Time) → env.ctx now ≡ live) (req : RequestOptions)
    (asked : s.request ≡ some req) (unlimited : is_unlimited s.file ≡ true)
    (accepted : env.web.accepts (add_query env.web req.url req.extra) ≡ true)
    (serving : IsServing env.web env.timeout req (pick_cfg s.config) content)
    (open0 : IsOpen tmp disk0) where
  open b use {Db}

  filled-Advances :
      (k a : ℕ) (w : Worker) (t : Task) (p : Pool Db)
      (h : IsFitting b env s tmp content had disk0 p)
      → worker_at k p.workers ≡ some w
      → (index : w.segment.index ≡ pos k) (start : w.segment.start ≡ pos a)
        (end : w.segment.end ≡ pos (pos_part w.segment.end))
        (le : a + had k ≤ pos_part w.segment.end) (lt : pos_part w.segment.end < length content)
        (there : find (part tmp k) p.job.disk.files ≡ some (take (had k) (drop a content)))
      → (x : Round Db)
      → Fills b env s tmp temp running req asked unlimited content accepted serving w.segment k a
          (had k)
          (pos_part w.segment.end)
          index
          start
          end
          le
          lt
          p.job.disk
          (now_open b env s tmp content had disk0 temp running req asked unlimited accepted serving
            open0 p h)
          there
          x
      → Advances k p (after_round k t x p)
  unfolding Fills
  filled-Advances k a w t p h e index start end le lt there panic f = absurd f
  filled-Advances k a w t p h e index start end le lt there (again n job) f = absurd f
  filled-Advances k a w t p h e index start end le lt there (done r job) f =
      done-Advances k w r job p e

  phase-Advances :
      (k a : ℕ) (w : Worker) (p : Pool Db)
      → IsFitting b env s tmp content had disk0 p
      → worker_at k p.workers ≡ some w
      → WorkerFits tmp content had k a w p.job.disk
      → pos_part w.segment.end < length content
      → (ph : Phase) → w.phase ≡ ph
      → Advances k p (in_phase b env k w.segment ph p)
  phase-Advances k a w p h e fits lt fresh is =
      after_probe-Advances k w (probe b env w.segment p.job) p e is
  phase-Advances k a w p h e fits lt (trying t n) is =
      let (zeroth, (task, there)) =
        subst (λ x. PhaseFits tmp content had k w.segment x p.job.disk) is fits.phase in
      let there' =
        there
        ∙ ap some (
            old_bytes_lem b env s tmp content had disk0 temp running req asked unlimited accepted
              serving open0 k a w.segment fits.start) in
      subst (λ x. Advances k p (after_round k t (attempt b env t x p.job) p)) (sym zeroth)
        (subst (λ x. Advances k p (after_round k t (attempt b env x 0 p.job) p)) (sym task)
          (filled-Advances k a w t p h e fits.index fits.start fits.end fits.missing lt there'
            (attempt b env (missing_task tmp content had k w.segment) 0 p.job)
            (attempt-Fills b env s tmp temp running req asked unlimited content accepted serving
              w.segment k a (had k) (pos_part w.segment.end) fits.index fits.start fits.end
              fits.missing lt p.job.disk
              (now_open b env s tmp content had disk0 temp running req asked unlimited accepted
                serving open0 p h)
              there' p.job h.kept refl)))
  phase-Advances k a w p h e fits lt (finished r) is =
      idle-HasAdvanced k p.workers (rank_at-worker k p.workers w e ∙ ap rank is)

  work-Advances :
      (k : ℕ) (p : Pool Db)
      → IsFitting b env s tmp content had disk0 p
      → Advances k p (turn b env (work k) p)
  unfolding turn
  work-Advances k p h = elim (Option-cases (worker_at k p.workers)) [
    | inl none' ↦ rw none' (idle-HasAdvanced k p.workers (rank_at-none k p.workers none'))
    | inr (w, e) ↦
        let (a, fits, lt) = AllFit-at tmp content had k 0 0 p.workers w p.job.disk h.fits e in
        rw e (
          phase-Advances k a w p h e
            (subst (λ x. WorkerFits tmp content had x a w p.job.disk) (sym (zero-add k)) fits) lt
            w.phase refl)
  ]

  -- What a schedule leaves to a goroutine.
  abbrev pub Left : ℕ → ℕ → Option (Pool Db) → Type 0
  Left j n none = Unit
  Left j n (some p) = rank_at j p.workers ≤ n

  Left-mono : (j n m : ℕ) (o : Option (Pool Db)) → n ≤ m → Left j n o → Left j m o
  Left-mono j n m none le h = tt
  Left-mono j n m (some p) le h = omega (arith, le, h)

  advanced-Left :
      (k j : ℕ) (p : Pool Db) (o : Option (Pool Db))
      → Advances k p o
      → Left j (rank_at j p.workers - turns_of j (work k ∷ [])) o
  advanced-Left k j p none h = tt
  advanced-Left k j p (some p') (le, less) = elim (Bool-cases (k == j)) [
    | inl here ↦
        let k_eq : k ≡ j = ground (arith, here) in
        let own = subst (λ x. rank_at x p'.workers ≤ rank_at x p.workers - 1) k_eq less in
        rw here (omega (arith, own))
    | inr other ↦ rw other (omega (arith, le j))
  ]

  turn-Left :
      (t : Turn) (j : ℕ) (p : Pool Db)
      → IsFitting b env s tmp content had disk0 p
      → Left j (rank_at j p.workers - turns_of j (t ∷ [])) (turn b env t p)
  unfolding turn
  turn-Left report j p h = omega arith
  turn-Left (work k) j p h = advanced-Left k j p (turn b env (work k) p) (work-Advances k p h)

  turn_then-Left :
      (j n m : ℕ) (ts : List Turn) (o : Option (Pool Db))
      → StaysFitting b env s tmp content had disk0 o
      → Left j n o
      → n - turns_of j ts ≤ m
      → ((p : Pool Db)
          → IsFitting b env s tmp content had disk0 p
          → Left j (rank_at j p.workers - turns_of j ts) (run_turns b env ts p))
      → Left j m (turn_then b env o (run_turns b env ts))
  turn_then-Left j n m ts none h left le more = tt
  turn_then-Left j n m ts (some p) h left le more =
      Left-mono j (rank_at j p.workers - turns_of j ts) m (run_turns b env ts p)
        (omega (arith, left, le)) (more p h)

  turns_of-cons :
      (j : ℕ) (t : Turn) (ts : List Turn)
      → turns_of j (t ∷ ts) ≡ turns_of j (t ∷ []) + turns_of j ts
  turns_of-cons j report ts = omega arith
  turns_of-cons j (work k) ts = ground arith

  pub run_turns-Left :
      (turns : List Turn) (j : ℕ) (p : Pool Db)
      → IsFitting b env s tmp content had disk0 p
      → Left j (rank_at j p.workers - turns_of j turns) (run_turns b env turns p)
  unfolding run_turns
  run_turns-Left [] j p h = omega arith
  run_turns-Left (t ∷ ts) j p h =
      turn_then-Left j (rank_at j p.workers - turns_of j (t ∷ []))
        (rank_at j p.workers - turns_of j (t ∷ ts)) ts (turn b env t p)
        (turn-StaysFitting b env s tmp content had disk0 temp running req asked unlimited accepted
          serving open0 t p h)
        (turn-Left t j p h) (omega (arith, turns_of-cons j t ts)) (λ q h'. run_turns-Left ts j q h')
