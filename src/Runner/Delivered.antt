-- ===== src/Runner/Delivered.antt =====
-- The end of a run against a server that serves a content.
use mathlib.Core.List.{Permᴰ}
use svc_downloader.Common.{
  ℕ, zero, suc, ◌≤◌, ◌<◌, ◌^◌, ◌≡◌, refl, sym, ap, ◌⊎◌, subst, true, Option, none, some, List, [],
  ◌∷◌, inl, inr, arith, Bool-cases, ltb, ◌-◌,
}
use svc_downloader.Common.Lists.{length}
use svc_downloader.Common.Bytes.{Bytes}
use svc_downloader.Models.{Time, Download, FileOptions, RequestOptions, Segment}
use svc_downloader.Errors.{live}
use svc_downloader.Store.{Badger}
use svc_downloader.Planner.{max_conns}
use svc_downloader.Planner.Cover.{plan-Tiles, max_conns_pos}
use svc_downloader.Planner.Bounds.{plan_shape}
use svc_downloader.Paths.{FilePath}
use svc_downloader.Disk.{names_in}
use svc_downloader.FileStore.{chosen_temp, temp_dir, final_path}
use svc_downloader.Transport.Headers.{add_query}
use svc_downloader.Runner.{Env, Job, pick_cfg}
use svc_downloader.Runner.Settings.{settings}
use svc_downloader.Runner.Pool.{Turn, Pool, Worker, started, run_turns}
use svc_downloader.Runner.Served.{IsServing, is_unlimited}
use svc_downloader.Runner.Opened.{present}
use svc_downloader.Runner.Whole.{run_turns-StaysFitting}
use svc_downloader.Runner.Fitting.{IsFitting, StaysFitting}
use svc_downloader.Runner.Finish.{waited}
use svc_downloader.Runner.Progress.{Left, run_turns-Left}
use svc_downloader.Runner.Fair.{rank_at, turns_of, ranks-all_finished, rank_bound, two_turns}
use svc_downloader.Runner.Begun.{found, new_workers-AllFit, length-new_workers}
use svc_downloader.Runner.Ready.{IsReady, Delivers, EndsDelivered, segments_of}
use svc_downloader.Runner.Ended.{saved-EndsDelivered, waited-Delivers}

module _ (b : Badger) (env : Env) (d : Download) (file : FileOptions) (req : RequestOptions)
    (tmp : FilePath) (base : Bytes) (dir : FilePath) (content : Bytes)
    (options : d.file ≡ some file) (asked : d.request ≡ some req)
    (temp : temp_dir env.home d ≡ some tmp) (final : final_path d.id file ≡ base ∷ dir)
    (unlimited : is_unlimited d.file ≡ true) (running : (now : Time) → env.ctx now ≡ live)
    (accepted : env.web.accepts (add_query env.web req.url req.extra) ≡ true)
    (serving : IsServing env.web env.timeout req (pick_cfg d.config) content)
    (enough : max_conns d ≤ length content) (few : max_conns d ≤ 10 ^ 9) where
  open b use {Db}

  abbrev segs : List Segment
  segs = segments_of d content

  module _ (job : Job Db) (own : job.d ≡ d)
      (ready : IsReady tmp base dir content segs job.disk) where
    -- How much of its range each of the parts has.
    abbrev had : ℕ → ℕ
    had n = length (found tmp content job.disk n)

    some_bytes : 0 < length content
    some_bytes = omega (arith, max_conns_pos d, enough)

    start-IsFitting : IsFitting b env (settings d) tmp content had job.disk (started b env segs job)
    start-IsFitting =
        let (count, numbered, inside) = plan_shape d (length content) some_bytes in
        record {
          kept = ap settings own;
          fits =
              new_workers-AllFit tmp content job.disk d.id 0 0 segs
                (plan-Tiles d (length content) enough) numbered ready.parts;
          names =
              subst (λ n. Permᴰ (names_in tmp job.disk.files) (present tmp 0 n job.disk))
                (sym (length-new_workers segs)) ready.names;
          few = omega (arith, length-new_workers segs, count, few);
          no_errors = refl;
          dirs = refl;
          refused = refl;
          outside = λ q out. refl;
        }

    chosen : chosen_temp env.home d.id d.file ≡ some tmp
    unfolding temp_dir
    chosen = temp

    waited-EndsDelivered :
        (o : Option (Pool Db)) (n : ℕ → ℕ)
        → StaysFitting b env (settings d) tmp content had job.disk o
        → ((j : ℕ)
            → Left b env
                (settings d)
                tmp
                content
                had
                job.disk
                chosen
                running
                req
                asked
                unlimited
                accepted
                serving
                ready.open'
                j
                (n j)
                o)
        → ((j : ℕ) → n j ≡ 0)
        → EndsDelivered b env file (base ∷ dir) content (waited b env o)
    waited-EndsDelivered none n h left zeroth = h
    waited-EndsDelivered (some p) n h left zeroth =
        saved-EndsDelivered b env d file tmp base dir content had segs options temp final some_bytes
          job.disk ready p h
          (ranks-all_finished p.workers (λ j lt. omega (arith, left j, zeroth j)))

    -- Any schedule.
    any_turns-Delivers :
        (turns : List Turn)
        → Delivers b env file
            (base ∷ dir)
            content
            (waited b env (run_turns b env turns (started b env (segments_of d content) job)))
    any_turns-Delivers turns =
        waited-Delivers b env d file tmp base dir content had segs options temp final some_bytes
          job.disk ready _
          (run_turns-StaysFitting b env (settings d) tmp content had job.disk chosen running req
            asked unlimited accepted serving ready.open' turns (started b env segs job)
            start-IsFitting)

    rank_at-outside : (j : ℕ) (ws : List Worker) → length ws ≤ j → rank_at j ws ≡ 0
    rank_at-outside j [] le = refl
    rank_at-outside zero (w ∷ ws) le = absurd (omega (arith, le))
    rank_at-outside (suc j) (w ∷ ws) le = rank_at-outside j ws (omega arith)

    -- A schedule with two turns for each goroutine.
    fair_turns-EndsDelivered :
        (turns : List Turn)
        → ((j : ℕ) → j < max_conns d → 2 ≤ turns_of j turns)
        → EndsDelivered b env file
            (base ∷ dir)
            content
            (waited b env (run_turns b env turns (started b env (segments_of d content) job)))
    fair_turns-EndsDelivered turns fair =
        let first = started b env segs job in
        let (count, numbered, inside) = plan_shape d (length content) some_bytes in
        waited-EndsDelivered (run_turns b env turns first)
          (λ j. rank_at j first.workers - turns_of j turns)
          (run_turns-StaysFitting b env (settings d) tmp content had job.disk chosen running req
            asked unlimited accepted serving ready.open' turns first start-IsFitting)
          (λ j.
            run_turns-Left b env (settings d) tmp content had job.disk chosen running req asked
              unlimited accepted serving ready.open' turns j first start-IsFitting)
          (λ j. elim (Bool-cases (ltb j (max_conns d))) [
            | inl lt ↦
                let lt' : j < max_conns d = ground (arith, lt) in
                omega (arith, rank_bound j first.workers, fair j lt')
            | inr ge ↦
                let ge' : max_conns d ≤ j = ground (arith, ge) in
                omega (
                  arith,
                  rank_at-outside j first.workers
                      (omega (arith, length-new_workers segs, count, ge')),
                )
          ])

    -- Take a download with a request, file options without a limit on the size, and at least one byte
    -- for each of at most 10⁹ connections; a request that http.NewRequest accepts, and a server that
    -- answers every range of a content by 206, a Content-Range that fits and those bytes; a context
    -- that is never cancelled; a temporary directory that is there and holds nothing but part files of the
    -- run, each with a prefix of its range that is not all of it; a new final path in a directory
    -- that is there and outside of the temporary one, no directories under the names that are
    -- written, and a system that denies nothing. Then no schedule of the goroutines panics; a
    -- schedule ends the run, or it gives one of the goroutines at most one turn; and when all have
    -- ended, the final path holds the content, and the download is completed with a file that has the
    -- checksum asked for, or failed if a checksum was asked for.
    pub run_turns-Delivers :
        (turns : List Turn)
        → Delivers b env file
            (base ∷ dir)
            content
            (waited b env (run_turns b env turns (started b env (segments_of d content) job)))
          × (EndsDelivered b env file
                (base ∷ dir)
                content
                (waited b env (run_turns b env turns (started b env (segments_of d content) job)))
              ⊎ ((j : ℕ) × ((j < max_conns d) × (turns_of j turns ≤ 1))))
    run_turns-Delivers turns = (
      any_turns-Delivers turns,
      elim (two_turns turns (max_conns d)) [
        | inl fair ↦ inl (fair_turns-EndsDelivered turns fair)
        | inr few ↦ inr few
      ],
    )
