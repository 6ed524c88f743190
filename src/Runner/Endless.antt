-- ===== src/Runner/Endless.antt =====
-- The loop of downloadSegment against a server whose partial answers are for other ranges.
use svc_downloader.Common.{
  ℕ, zero, suc, ◌≡◌, sym, ap, ◌∙◌, subst, true, false, ◌||◌, ◌==◌, leb, some, arith,
}
use svc_downloader.Common.Int.{ℤ}
use svc_downloader.Models.{Time, RequestOptions, DownloadConfig}
use svc_downloader.Errors.{live}
use svc_downloader.Store.{Badger}
use svc_downloader.Transport.{Web, Wire, Response, with_mirrors}
use svc_downloader.Transport.Headers.{add_query}
use svc_downloader.Transport.Client.{client_for}
use svc_downloader.Transport.Fetch.{Ranged, got, failed, get_range, range_from, ask}
use svc_downloader.Transport.Answers.{range_request}
use svc_downloader.Runner.{Env, Job, pick_cfg}
use svc_downloader.Runner.Settings.{Settings, settings}
use svc_downloader.Runner.Segments.{
  Round, panic, again, done, Task, attempt, throttle, safe_span, fetch, fetched,
}
use svc_downloader.Runner.Loop.{rounds, next_round}
use svc_downloader.Runner.Segments.Ranges.{is_expected, content_range}
use svc_downloader.Runner.Throttle.{throttle_d}

-- A partial answer to each request for a range, for another range.
abbrev pub IsStraying : Web → ℤ → RequestOptions → DownloadConfig → ℤ → ℤ → Type 0
IsStraying web timeout req cfg start end =
    (n : ℕ)
    → (r : Response) × ((web.send n (client_for timeout cfg)
          (range_request web timeout req cfg start end req.url)).response
        ≡ some r)
      × (((r.status == 206) ≡ true) × (is_expected start end (content_range r) ≡ false))

module _ (web : Web) (timeout : ℤ) (req : RequestOptions) (cfg : DownloadConfig) (start end : ℤ)
    (accepted : web.accepts (add_query web req.url req.extra) ≡ true)
    (strays : IsStraying web timeout req cfg start end) where
  abbrev Strayed : Ranged × Wire → Type 0
  Strayed (failed status e, w) = ⊥
  Strayed (got r, w) =
      ((r.status == 206) ≡ true) × (is_expected start end (content_range r) ≡ false)

  get_range-Strayed : (w : Wire) → Strayed (get_range web timeout req cfg start end w)
  unfolding get_range range_from with_mirrors ask
  get_range-Strayed w =
      let (r, heard, (partial, other)) = strays w.sent in
      let low : leb 400 r.status ≡ false = ground (arith, partial) in
      rw (accepted, heard, low) (partial, other)

module _ (b : Badger) (env : Env) (s : Settings) (req : RequestOptions) (t : Task)
    (running : (now : Time) → env.ctx now ≡ live) (asked : s.request ≡ some req)
    (accepted : env.web.accepts (add_query env.web req.url req.extra) ≡ true)
    (strays : IsStraying env.web env.timeout req (pick_cfg s.config) t.start t.segment.end) where
  open b use {Db}

  -- Another round, with the settings as they were.
  unfoldable pub IsAgain : Round Db → Type 0
  IsAgain panic = ⊥
  IsAgain (done r job) = ⊥
  IsAgain (again n job) = settings job.d ≡ s

  fetched-IsAgain :
      (attempts : ℕ) (x : Ranged × Wire) (job : Job Db)
      → Strayed env.web env.timeout req (pick_cfg s.config) t.start t.segment.end accepted strays x
      → settings job.d ≡ s
      → IsAgain (fetched b env t attempts x job)
  unfolding IsAgain
  fetched-IsAgain attempts (failed status e, wire) job h e' = absurd h
  fetched-IsAgain attempts (got r, wire) job (partial, other) e =
      let fine : (r.status == 200 || r.status == 206) ≡ true = ground (arith, partial) in
      rw (fine, partial, other) e

  attempt-IsAgain :
      (attempts : ℕ) (job : Job Db) → settings job.d ≡ s → IsAgain (attempt b env t attempts job)
  unfolding attempt
  attempt-IsAgain attempts job e =
      let j = throttle b env (safe_span t.segment.end t.start) job in
      let e' : settings j.d ≡ s = ap settings (throttle_d b env _ job) ∙ e in
      let config : j.d.config ≡ s.config = ap (λ x. x.config) e' in
      let request : j.d.request ≡ some req = ap (λ x. x.request) e' ∙ asked in
      let answer =
        get_range env.web env.timeout req (pick_cfg j.d.config) t.start t.segment.end j.wire in
      let strayed =
        subst
          (λ c.
            Strayed env.web env.timeout req (pick_cfg s.config) t.start t.segment.end accepted
              strays (get_range env.web env.timeout req (pick_cfg c) t.start t.segment.end j.wire))
          (sym config)
          (get_range-Strayed env.web env.timeout req (pick_cfg s.config) t.start t.segment.end
            accepted strays j.wire) in
      rw (running job.wire.now) (
        subst (λ o. IsAgain (fetch b env t attempts o j)) (sym request)
          (fetched-IsAgain attempts answer j strayed e'))

  next_round-IsAgain :
      (rest : ℕ → Job Db → Round Db) (x : Round Db)
      → IsAgain x
      → ((n : ℕ) (job : Job Db) → settings job.d ≡ s → IsAgain (rest n job))
      → IsAgain (next_round b env rest x)
  unfolding IsAgain
  next_round-IsAgain rest panic h more = h
  next_round-IsAgain rest (done r job) h more = h
  next_round-IsAgain rest (again n job) h more = more n job h

  -- Against a server whose partial answers to the first mirror's requests are all for another range, in
  -- a context that is never cancelled, the loop of a segment does not end: however many rounds are made,
  -- there is another one, whatever the retries that are configured.
  pub rounds-IsAgain :
      (fuel attempts : ℕ) (job : Job Db)
      → settings job.d ≡ s
      → IsAgain (rounds b env fuel t attempts job)
  unfolding rounds IsAgain
  rounds-IsAgain zero attempts job e = e
  rounds-IsAgain (suc fuel) attempts job e =
      next_round-IsAgain (rounds b env fuel t) (attempt b env t attempts job)
        (attempt-IsAgain attempts job e) (rounds-IsAgain fuel)
