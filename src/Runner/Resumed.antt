-- ===== src/Runner/Resumed.antt =====
-- The loop of downloadSegment for a part file that holds its whole range already, as an earlier run of
-- the download may have left it.
use svc_downloader.Common.{
  ℕ, zero, suc, ◌+◌, ◌<◌, ◌≡◌, sym, ap, ◌∙◌, subst, true, leb, ltb, none, some, inl, inr, arith,
  Bool-cases, refl, ◌∷◌,
}
use svc_downloader.Common.Lists.{length}
use svc_downloader.Common.Bytes.{Bytes}
use svc_downloader.Common.Int.{ℤ, pos, ◌+ℤ◌}
use svc_downloader.Models.{RequestOptions, DownloadConfig, Segment}
use svc_downloader.Errors.{Error, ok, err}
use svc_downloader.Store.{Badger}
use svc_downloader.Paths.{FilePath}
use svc_downloader.Disk.{Disk, find, write_file, kept_bytes}
use svc_downloader.FileStore.{part_name, chosen_temp, open_segment_writer}
use svc_downloader.Transport.{Web, Wire, Response}
use svc_downloader.Transport.Fetch.{Ranged, got, failed, get_range}
use svc_downloader.Transport.Answers.{Heard, Answered, get_range-Answered}
use svc_downloader.Runner.{Env, Job, pick_cfg, save}
use svc_downloader.Runner.Settings.{Settings, settings, save-Saves}
use svc_downloader.Runner.Throttle.{throttle_d, throttle_disk}
use svc_downloader.Runner.Files.{IsOpen, open_segment_writer_lem}
use svc_downloader.Runner.Segments.{
  Round, panic, again, done, Task, attempt, retry, refetch, back_off, counted, jittered,
  base_delay_of, factor_of, jitter_of, max_retries_of, throttle, safe_span, fetch, fetched,
}
use svc_downloader.Runner.Loop.{next_round, rounds, looped, probe, probed, download_segment}
use svc_downloader.Runner.Served.{pos-add}
use svc_downloader.Runner.Opened.{written_lem}
use svc_downloader.Runner.Rounds.{IsOver, context_cases, rounds-IsOver}

-- Every answer to a request for a range that ends before it starts has a status of 400 or more.
abbrev pub IsRejecting : Web → ℤ → RequestOptions → DownloadConfig → Type 0
IsRejecting web timeout req cfg =
    (a e : ℕ)
    → e < a
    → (r : Response) → Heard web timeout req cfg (pos a) (pos e) r
    → leb 400 r.status ≡ true

-- The segment failed, and the file holds these bytes.
abbrev pub FailsWith : {D : Type 0} → FilePath → Bytes → Round D → Type 0
FailsWith part bytes panic = ⊥
FailsWith part bytes (again n job) = ⊥
FailsWith part bytes (done (ok u) job) = ⊥
FailsWith part bytes (done (err x) job) = find part job.disk.files ≡ some bytes

module _ (b : Badger) (env : Env) (s : Settings) (disk : Disk) where
  open b use {Db}

  -- Another round or a failure, with the disk as it was.
  unfoldable Refused : Round Db → Type 0
  Refused panic = ⊥
  Refused (again n job) = (settings job.d ≡ s) × (job.disk ≡ disk)
  Refused (done (ok u) job) = ⊥
  Refused (done (err x) job) = job.disk ≡ disk

  retry-Refused :
      (x : Error) (t : ℤ) (attempts : ℕ) (job : Job Db)
      → settings job.d ≡ s
      → job.disk ≡ disk
      → Refused (retry b env (err x) t attempts job)
  unfolding Refused
  retry-Refused x t attempts job e on =
      elim (Bool-cases (ltb (max_retries_of job.d.config) (suc attempts))) [
        | inl over ↦ rw over on
        | inr more ↦ rw more (e, on)
      ]

  back_off-Refused :
      (x : Error) (attempts : ℕ) (job : Job Db)
      → settings job.d ≡ s
      → job.disk ≡ disk
      → Refused (back_off b env (err x) attempts job)
  back_off-Refused x attempts job e on =
      let delay = env.backoff (base_delay_of job.d.config) (factor_of job.d.config) attempts in
      retry-Refused x (jittered b env delay (jitter_of job.d.config) job) attempts job e on

  refetch-Refused :
      (x : Error) (attempts : ℕ) (job : Job Db)
      → settings job.d ≡ s
      → job.disk ≡ disk
      → Refused (refetch b env (err x) attempts job)
  unfolding refetch
  refetch-Refused x attempts job e on =
      let saves = save-Saves b env (counted b env attempts job) in
      back_off-Refused x attempts (save b env (counted b env attempts job))
        (saves.settings_same ∙ e) (saves.disk_same ∙ on)

  next_round-Refused :
      (rest : ℕ → Job Db → Round Db) (x : Round Db)
      → Refused x
      → ((n : ℕ) (job : Job Db) → settings job.d ≡ s → job.disk ≡ disk → Refused (rest n job))
      → Refused (next_round b env rest x)
  unfolding Refused
  next_round-Refused rest panic h more = h
  next_round-Refused rest (again n job) (e, on) more = more n job e on
  next_round-Refused rest (done (ok u) job) h more = h
  next_round-Refused rest (done (err x) job) h more = h

  over-FailsWith :
      (part : FilePath) (bytes : Bytes) (x : Round Db)
      → find part disk.files ≡ some bytes
      → Refused x
      → IsOver x
      → FailsWith part bytes x
  unfolding Refused
  over-FailsWith part bytes panic there h over = h
  over-FailsWith part bytes (again n job) there h over = over
  over-FailsWith part bytes (done (ok u) job) there h over = h
  over-FailsWith part bytes (done (err x) job) there on over =
      ap (λ d. find part d.files) on ∙ there

  module _ (req : RequestOptions) (t : Task) (a e : ℕ) (asked : s.request ≡ some req)
      (from : t.start ≡ pos a) (to : t.segment.end ≡ pos e) (after : e < a)
      (rejecting : IsRejecting env.web env.timeout req (pick_cfg s.config)) where
    fetched-Refused :
        (attempts : ℕ) (x : Ranged × Wire) (job : Job Db)
        → Answered env.web env.timeout req (pick_cfg s.config) (pos a) (pos e) x.0
        → settings job.d ≡ s
        → job.disk ≡ disk
        → Refused (fetched b env t attempts x job)
    fetched-Refused attempts (failed status none, wire) job h k on = absurd h
    fetched-Refused attempts (failed status (some x), wire) job h k on =
        refetch-Refused x attempts _ k on
    fetched-Refused attempts (got r, wire) job (heard, low) k on =
        let high = rejecting a e after r heard in absurd (ground (arith, high, low))

    attempt-Refused :
        (attempts : ℕ) (job : Job Db)
        → settings job.d ≡ s
        → job.disk ≡ disk
        → Refused (attempt b env t attempts job)
    unfolding attempt Refused
    attempt-Refused attempts job k on = elim (context_cases (env.ctx job.wire.now)) [
      | inl stop ↦ rw stop on
      | inr go ↦
          let j = throttle b env (safe_span t.segment.end t.start) job in
          let k' : settings j.d ≡ s = ap settings (throttle_d b env _ job) ∙ k in
          let on' : j.disk ≡ disk = throttle_disk b env _ job ∙ on in
          let request : j.d.request ≡ some req = ap (λ x. x.request) k' ∙ asked in
          let from' : (c : Settings) (x y : ℤ) → Ranged × Wire =
            λ c x y. get_range env.web env.timeout req (pick_cfg c.config) x y j.wire in
          let same_answer : from' s (pos a) (pos e) ≡ from' (settings j.d) t.start t.segment.end =
            sym (
              ap (λ c. from' c t.start t.segment.end) k'
              ∙ ap (λ x. from' s x t.segment.end) from
              ∙ ap (from' s (pos a)) to) in
          let answered =
            subst (λ x. Answered env.web env.timeout req (pick_cfg s.config) (pos a) (pos e) x.0)
              same_answer
              (get_range-Answered env.web env.timeout req (pick_cfg s.config) (pos a) (pos e)
                j.wire) in
          rw go (
            subst (λ o. Refused (fetch b env t attempts o j)) (sym request)
              (fetched-Refused attempts (from' (settings j.d) t.start t.segment.end) j answered k'
                on'))
    ]

    rounds-Refused :
        (fuel attempts : ℕ) (job : Job Db)
        → settings job.d ≡ s
        → job.disk ≡ disk
        → Refused (rounds b env fuel t attempts job)
    unfolding rounds Refused
    rounds-Refused zero attempts job k on = (k, on)
    rounds-Refused (suc fuel) attempts job k on =
        next_round-Refused (rounds b env fuel t) (attempt b env t attempts job)
          (attempt-Refused attempts job k on) (rounds-Refused fuel)

    rounds-FailsWith :
        (part : FilePath) (bytes : Bytes) (job : Job Db)
        → find part disk.files ≡ some bytes
        → settings job.d ≡ s
        → job.disk ≡ disk
        → FailsWith part bytes (rounds b env (suc (max_retries_of s.config)) t 0 job)
    rounds-FailsWith part bytes job there k on =
        over-FailsWith part bytes _ there
          (rounds-Refused (suc (max_retries_of s.config)) 0 job k on)
          (rounds-IsOver b env s req t asked
            (λ r heard.
              let heard' : Heard env.web env.timeout req (pick_cfg s.config) (pos a) (pos e) r =
                subst (λ x. Heard env.web env.timeout req (pick_cfg s.config) (pos a) x r) to
                  (subst (λ x. Heard env.web env.timeout req (pick_cfg s.config) x t.segment.end r)
                    from heard) in
              let high = rejecting a e after r heard' in ground (arith, high))
            job k)

-- Take a segment whose range ends, whose part file holds bytes for all of it, a download with a
-- request, a temporary directory in which parts can be opened, and servers that answer any request for
-- a range that ends before it starts by a status of 400 or more. Then downloadSegment fails, within one
-- round more than the retries that are configured, and the part file holds what it held.
pub download_segment-FailsWith :
    (b : Badger) (env : Env) (req : RequestOptions) (tmp : FilePath) (seg : Segment)
    → (n a e : ℕ) (bytes : Bytes) (job : Job b.Db) → job.d.request ≡ some req
    → chosen_temp env.home job.d.id job.d.file ≡ some tmp
    → IsRejecting env.web env.timeout req (pick_cfg job.d.config)
    → seg.index ≡ pos n
    → seg.start ≡ pos a
    → seg.end ≡ pos e
    → e < a + length bytes
    → IsOpen tmp job.disk
    → find (part_name (pos n) ∷ tmp) job.disk.files ≡ some bytes
    → FailsWith
        (part_name (pos n) ∷ tmp)
        bytes
        (download_segment b env (suc (max_retries_of job.d.config)) seg job)
unfolding download_segment probe
download_segment-FailsWith b env req tmp seg n a e bytes job asked temp rejecting index start end
      whole open' there =
    let part = part_name (pos n) ∷ tmp in
    let fuel = suc (max_retries_of job.d.config) in
    let disk = write_file part bytes job.disk in
    let found : open_segment_writer env.home job.d seg job.disk ≡ some (ok bytes, disk) =
      open_segment_writer_lem env.home (settings job.d) tmp temp job.d refl seg n index job.disk
        open'
      ∙ ap (λ c. some (ok (kept_bytes c), write_file part (kept_bytes c) job.disk)) there in
    let t : Task = record {
      segment = seg;
      start = seg.start +ℤ pos (length bytes);
      existing = length bytes;
    } in
    let from : t.start ≡ pos (a + length bytes) =
      ap (λ x. x +ℤ pos (length bytes)) start ∙ pos-add a (length bytes) in
    subst (λ o. FailsWith part bytes (looped b env fuel (probed b env seg o job))) (sym found)
      (rounds-FailsWith b env (settings job.d) disk req t (a + length bytes) e asked from end whole
        rejecting part bytes (record job { disk = disk }) (written_lem part bytes job.disk) refl
        refl)
