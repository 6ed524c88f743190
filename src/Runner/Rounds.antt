-- ===== src/Runner/Rounds.antt =====
-- How many rounds the loop of downloadSegment makes on an honest network, where no partial answer to a
-- request for a range says that it holds another one.
use svc_downloader.Common.{
  ℕ, zero, suc, ◌+◌, ◌*◌, ◌≤◌, ◌≡◌, refl, sym, ap, ◌∙◌, ◌⊎◌, subst, true, false, ◌&&◌, ◌||◌, not,
  Option, none, some, inl, inr, arith, Bool-cases, ltb, ◌==◌,
}
use svc_downloader.Common.Lists.{length}
use svc_downloader.Common.Bytes.{Bytes}
use svc_downloader.Common.Int.{ℤ, pos, ltb_ℤ, eq_ℤ, ◌+ℤ◌, ◌-ℤ◌}
use svc_downloader.Models.{RequestOptions, DownloadConfig}
use svc_downloader.Errors.{Result, ok, err, Context, live, cancelled, unexpected_eof, broken_body}
use svc_downloader.Store.{Badger}
use svc_downloader.Disk.{Disk}
use svc_downloader.Transport.{Web, Wire, Response}
use svc_downloader.Transport.Fetch.{Ranged, got, failed, get_range}
use svc_downloader.Transport.Answers.{Heard, Answered, get_range-Answered}
use svc_downloader.Runner.{Env, Job, pick_cfg, save}
use svc_downloader.Runner.Settings.{Settings, settings, save-Saves}
use svc_downloader.Runner.Throttle.{throttle_d}
use svc_downloader.Runner.Segments.{
  Round, panic, again, done, Task, Reader, attempt, retry, refetch, complete, check_total, copied,
  read_body, writer_opened, received, fetched, fetch, max_retries_of, back_off, counted, jittered,
  base_delay_of, factor_of, jitter_of, second,
}
use svc_downloader.Runner.Loop.{next_round, rounds}
use svc_downloader.Runner.Segments.Ranges.{is_expected, content_range}

-- No partial answer is for another range.
abbrev pub IsHonest : Web → ℤ → RequestOptions → DownloadConfig → ℤ → ℤ → Type 0
IsHonest web timeout req cfg start end =
    (r : Response)
    → Heard web timeout req cfg start end r
    → (r.status == 206 && not (is_expected start end (content_range r))) ≡ false

-- The loop was left.
abbrev pub IsOver : {D : Type 0} → Round D → Type 0
IsOver panic = Unit
IsOver (done r job) = Unit
IsOver (again n job) = ⊥

pub context_cases : (c : Context) → (c ≡ cancelled) ⊎ (c ≡ live)
context_cases cancelled = inl refl
context_cases live = inr refl

module _ (b : Badger) (env : Env) (s : Settings) where
  open b use {Db}

  -- Another round counts, stays within the retries, and finds the settings as they were.
  unfoldable Counts : ℕ → Round Db → Type 0
  Counts attempts panic = Unit
  Counts attempts (done r job) = Unit
  Counts attempts (again n job) =
      (n ≡ suc attempts) × ((n ≤ max_retries_of s.config) × (settings job.d ≡ s))

  panic-Counts : (attempts : ℕ) → Counts attempts panic
  unfolding Counts
  panic-Counts attempts = tt

  done-Counts : (attempts : ℕ) (r : Result (Unit {0})) (job : Job Db) → Counts attempts (done r job)
  unfolding Counts
  done-Counts attempts r job = tt

  retry-Counts :
      (r : Result (Unit {0})) (t : ℤ) (attempts : ℕ) (job : Job Db)
      → settings job.d ≡ s
      → Counts attempts (retry b env r t attempts job)
  unfolding Counts
  retry-Counts r t attempts job e =
      let limit : max_retries_of job.d.config ≡ max_retries_of s.config =
        ap (λ x. max_retries_of x.config) e in
      elim (Bool-cases (ltb (max_retries_of job.d.config) (suc attempts))) [
        | inl over ↦ rw over tt
        | inr more ↦ rw more (refl, (ground (arith, limit), e))
      ]

  back_off-Counts :
      (r : Result (Unit {0})) (attempts : ℕ) (job : Job Db)
      → settings job.d ≡ s
      → Counts attempts (back_off b env r attempts job)
  back_off-Counts r attempts job e =
      let delay = env.backoff (base_delay_of job.d.config) (factor_of job.d.config) attempts in
      retry-Counts r (jittered b env delay (jitter_of job.d.config) job) attempts job e

  refetch-Counts :
      (r : Result (Unit {0})) (attempts : ℕ) (job : Job Db)
      → settings job.d ≡ s
      → Counts attempts (refetch b env r attempts job)
  unfolding refetch
  refetch-Counts r attempts job e =
      back_off-Counts r attempts (save b env (counted b env attempts job))
        ((save-Saves b env (counted b env attempts job)).settings_same ∙ e)

  check_total-Counts :
      (t : Task) (attempts : ℕ) (content : Bytes) (job : Job Db)
      → settings job.d ≡ s
      → Counts attempts (check_total b env t attempts content job)
  unfolding complete
  check_total-Counts t attempts content job e =
      elim (Bool-cases (
        ltb_ℤ t.segment.end (pos 0)
        || eq_ℤ (pos (t.existing + length content)) (t.segment.end -ℤ t.segment.start +ℤ pos 1))) [
          | inl full ↦ rw full (done-Counts attempts _ _)
          | inr short ↦ rw short (retry-Counts (err unexpected_eof) (pos second) attempts job e)
        ]

  copied-Counts :
      (t : Task) (attempts : ℕ) (old : Bytes) (r : Reader) (job : Job Db)
      → settings job.d ≡ s
      → Counts attempts (copied b env t attempts old r job)
  copied-Counts t attempts old (content, true) job e =
      retry-Counts (err broken_body) (pos (suc attempts * second)) attempts _ e
  copied-Counts t attempts old (content, false) job e = check_total-Counts t attempts content _ e

  read_body-Counts :
      (t : Task) (attempts : ℕ) (old : Bytes) (r : Result Reader) (job : Job Db)
      → settings job.d ≡ s
      → Counts attempts (read_body b env t attempts old r job)
  read_body-Counts t attempts old (err x) job e =
      retry-Counts (err x) (pos (suc attempts * second)) attempts job e
  read_body-Counts t attempts old (ok r) job e = copied-Counts t attempts old _ job e

  writer_opened-Counts :
      (t : Task) (attempts : ℕ) (r : Response) (o : Option (Result Bytes × Disk)) (job : Job Db)
      → settings job.d ≡ s
      → Counts attempts (writer_opened b env t attempts r o job)
  writer_opened-Counts t attempts r none job e = panic-Counts attempts
  writer_opened-Counts t attempts r (some (err x, disk)) job e = done-Counts attempts _ _
  writer_opened-Counts t attempts r (some (ok old, disk)) job e =
      read_body-Counts t attempts old _ _ e

  module _ (req : RequestOptions) (t : Task) (asked : s.request ≡ some req)
      (honest : IsHonest env.web env.timeout req (pick_cfg s.config) t.start t.segment.end) where
    received-Counts :
        (attempts : ℕ) (r : Response) (job : Job Db)
        → (r.status == 206 && not (is_expected t.start t.segment.end (content_range r))) ≡ false
        → settings job.d ≡ s
        → Counts attempts (received b env t attempts r job)
    received-Counts attempts r job right e = rw right (writer_opened-Counts t attempts r _ job e)

    fetched-Counts :
        (attempts : ℕ) (x : Ranged × Wire) (job : Job Db)
        → Answered env.web env.timeout req (pick_cfg s.config) t.start t.segment.end x.0
        → settings job.d ≡ s
        → Counts attempts (fetched b env t attempts x job)
    fetched-Counts attempts (failed status x, wire) job h e = refetch-Counts _ attempts _ e
    fetched-Counts attempts (got r, wire) job (heard, low) e =
        elim (Bool-cases (r.status == 200 || r.status == 206)) [
          | inl fine ↦ rw fine (received-Counts attempts r _ (honest r heard) e)
          | inr other ↦ rw other (refetch-Counts (ok tt) attempts _ e)
        ]

    fetch-Counts :
        (attempts : ℕ) (job : Job Db)
        → settings job.d ≡ s
        → Counts attempts (fetch b env t attempts job.d.request job)
    fetch-Counts attempts job e =
        let request : job.d.request ≡ some req = ap (λ x. x.request) e ∙ asked in
        let wire = job.wire in
        let answer =
          get_range env.web env.timeout req (pick_cfg job.d.config) t.start t.segment.end wire in
        let answered =
          subst (λ c. Answered env.web env.timeout req (pick_cfg c) t.start t.segment.end answer.0)
            (ap (λ x. x.config) e)
            (get_range-Answered env.web env.timeout req (pick_cfg job.d.config) t.start
              t.segment.end wire) in
        subst (λ o. Counts attempts (fetch b env t attempts o job)) (sym request)
          (fetched-Counts attempts answer job answered e)

    attempt-Counts :
        (attempts : ℕ) (job : Job Db)
        → settings job.d ≡ s
        → Counts attempts (attempt b env t attempts job)
    unfolding attempt
    attempt-Counts attempts job e = elim (context_cases (env.ctx job.wire.now)) [
      | inl stop ↦ rw stop (done-Counts attempts _ job)
      | inr go ↦ rw go (fetch-Counts attempts _ (ap settings (throttle_d b env _ job) ∙ e))
    ]

    next_round-IsOver :
        (attempts : ℕ) (rest : ℕ → Job Db → Round Db) (x : Round Db)
        → Counts attempts x
        → ((job : Job Db)
            → suc attempts ≤ max_retries_of s.config
            → settings job.d ≡ s
            → IsOver (rest (suc attempts) job))
        → IsOver (next_round b env rest x)
    unfolding Counts
    next_round-IsOver attempts rest panic h more = tt
    next_round-IsOver attempts rest (done r job) h more = tt
    next_round-IsOver attempts rest (again n job) (next, (le, e)) more =
        rw next (more job (rw (← next) le) e)

    rounds_enough :
        (left attempts : ℕ) (job : Job Db)
        → settings job.d ≡ s
        → max_retries_of s.config ≤ attempts + left
        → IsOver (rounds b env (suc left) t attempts job)
    unfolding rounds
    rounds_enough zero attempts job e enough =
        next_round-IsOver attempts (rounds b env zero t) (attempt b env t attempts job)
          (attempt-Counts attempts job e) (λ j le e'. absurd (omega arith))
    rounds_enough (suc left) attempts job e enough =
        next_round-IsOver attempts (rounds b env (suc left) t) (attempt b env t attempts job)
          (attempt-Counts attempts job e)
          (λ j le e'. rounds_enough left (suc attempts) j e' (omega arith))

    -- A download with a request, over a network none of whose partial answers is for another range: the
    -- loop of a segment is left, by its end or by a panic, within one round more than the retries that
    -- are configured.
    pub rounds-IsOver :
        (job : Job Db)
        → settings job.d ≡ s
        → IsOver (rounds b env (suc (max_retries_of s.config)) t 0 job)
    rounds-IsOver job e = rounds_enough (max_retries_of s.config) 0 job e (omega arith)
