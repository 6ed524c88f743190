-- ===== src/Runner/Filled.antt =====
-- A round of a segment against a server that serves the content, and the part file that it writes.
use svc_downloader.Common.{
  ℕ, ◌+◌, ◌-◌, ◌≤◌, ◌<◌, ◌≡◌, refl, sym, ap, ◌∙◌, subst, true, false, not, ◌&&◌, ◌||◌, some, ◌∷◌,
  arith, ◌==◌, ◌++◌,
}
use svc_downloader.Common.Lists.{length, take, drop}
use svc_downloader.Common.Bytes.{Bytes}
use svc_downloader.Common.Int.{ℤ, pos, ltb_ℤ, eq_ℤ, ◌+ℤ◌, ◌-ℤ◌}
use svc_downloader.Models.{Time, RequestOptions, DownloadConfig, Segment}
use svc_downloader.Errors.{ok, err, live}
use svc_downloader.Store.{Badger}
use svc_downloader.Paths.{FilePath}
use svc_downloader.Disk.{Disk, find, write_file, kept_bytes, is_dir}
use svc_downloader.FileStore.{part_name, chosen_temp, open_segment_writer}
use svc_downloader.Transport.{Wire, Response}
use svc_downloader.Transport.Headers.{add_query}
use svc_downloader.Transport.Fetch.{Ranged, got, failed, get_range}
use svc_downloader.Runner.{Env, Job, pick_cfg}
use svc_downloader.Runner.Settings.{Settings, settings}
use svc_downloader.Runner.Throttle.{throttle_d, throttle_disk}
use svc_downloader.Runner.Files.{IsOpen, open_segment_writer_lem, write_segment_lem}
use svc_downloader.Runner.Segments.{
  Round, panic, again, done, Task, attempt, throttle, safe_span, complete, check_total, copied,
  read_body, body_reader, capped, writer_opened, received, fetched, fetch,
}
use svc_downloader.Runner.Segments.Ranges.{is_expected, content_range}
use svc_downloader.Runner.Served.{
  slice, IsServing, is_unlimited, length-slice, pos-add, resumed_slice, span_full, capped-unlimited,
  Served, get_range-Served,
}

module _ (b : Badger) (env : Env) (s : Settings) (tmp : FilePath)
    (temp : chosen_temp env.home s.id s.file ≡ some tmp)
    (running : (now : Time) → env.ctx now ≡ live) (req : RequestOptions)
    (asked : s.request ≡ some req) (unlimited : is_unlimited s.file ≡ true) (content : Bytes)
    (accepted : env.web.accepts (add_query env.web req.url req.extra) ≡ true)
    (serving : IsServing env.web env.timeout req (pick_cfg s.config) content) where
  open b use {Db}

  -- A segment whose file has the first `m` bytes of its range.
  module _ (seg : Segment) (n a m e : ℕ) (index : seg.index ≡ pos n) (start : seg.start ≡ pos a)
      (end : seg.end ≡ pos e) (le : a + m ≤ e) (lt : e < length content) (disk : Disk)
      (open' : IsOpen tmp disk)
      (there : find (part_name (pos n) ∷ tmp) disk.files ≡ some (take m (drop a content))) where
    abbrev pub part : FilePath
    part = part_name (pos n) ∷ tmp

    abbrev pub task : Task
    task = record { segment = seg; start = seg.start +ℤ pos m; existing = m }

    abbrev pub old : Bytes
    old = take m (drop a content)

    abbrev pub rest : Bytes
    rest = slice content (a + m) e

    -- The round ends the segment, and its file holds the range.
    unfoldable pub Fills : Round Db → Type 0
    Fills panic = ⊥
    Fills (again k job) = ⊥
    Fills (done (err x) job) = ⊥
    Fills (done (ok u) job) =
        (settings job.d ≡ s)
        × (job.disk ≡ write_file part (slice content a e) (write_file part old disk))

    full :
        (ltb_ℤ seg.end (pos 0) || eq_ℤ (pos (m + length rest)) (seg.end -ℤ seg.start +ℤ pos 1))
        ≡ true
    full =
        let count : m + length rest ≡ e + 1 - a =
          omega (arith, length-slice content (a + m) e le lt) in
        rw (start, end) (ground (arith, span_full a e (m + length rest) (omega arith) count))

    check_total-Fills :
        (job : Job Db)
        → settings job.d ≡ s
        → job.disk ≡ write_file part (slice content a e) (write_file part old disk)
        → Fills (check_total b env task 0 rest job)
    unfolding Fills complete
    check_total-Fills job k on = rw full (k, on)

    -- The disk with the part file, which is as it was found.
    abbrev pub touched : Disk
    touched = write_file part old disk

    touched_open : IsOpen tmp touched
    unfolding write_file is_dir
    touched_open = record { allowed = open'.allowed; there = open'.there; free = open'.free }

    task_start : task.start ≡ pos (a + m)
    task_start = ap (λ x. x +ℤ pos m) start ∙ pos-add a m

    whole : old ++ rest ≡ slice content a e
    whole = resumed_slice content a m e le

    read_body-Fills :
        (job : Job Db)
        → settings job.d ≡ s
        → job.disk ≡ touched
        → Fills (read_body b env task 0 old (ok (rest, false)) job)
    read_body-Fills job k on =
        let uncapped : capped job.d.file job.d.bytes_completed (rest, false) ≡ (rest, false) =
          capped-unlimited job.d.file job.d.bytes_completed (rest, false)
            (ap (λ x. is_unlimited x.file) k ∙ unlimited) in
        subst (λ r. Fills (copied b env task 0 old r job)) (sym uncapped)
          (check_total-Fills _ k (
            write_segment_lem env.home s tmp temp job.d k seg n index job.disk
              (subst (IsOpen tmp) (sym on) touched_open) (old ++ rest)
            ∙ ap (λ x. write_file part x job.disk) whole
            ∙ ap (write_file part (slice content a e)) on))

    abbrev Good : Response → Type 0
    Good r =
        ((r.status == 206) ≡ true)
        × ((is_expected (pos (a + m)) (pos e) (content_range r) ≡ true)
            × ((r.body ≡ rest) × (r.fault ≡ false)))

    reader_lem : (r : Response) → Good r → body_reader task.start seg.end r ≡ ok (rest, false)
    unfolding body_reader
    reader_lem r (partial, (right, (bytes, clean))) =
        let other : (r.status == 200) ≡ false = ground (arith, partial) in
        rw (other, bytes, clean) refl

    opened_lem :
        (job : Job Db)
        → settings job.d ≡ s
        → job.disk ≡ disk
        → open_segment_writer env.home job.d seg job.disk ≡ some (ok old, touched)
    opened_lem job k on =
        ap (open_segment_writer env.home job.d seg) on
        ∙ open_segment_writer_lem env.home s tmp temp job.d k seg n index disk open'
        ∙ ap (λ c. some (ok (kept_bytes c), write_file part (kept_bytes c) disk)) there

    received-Fills :
        (r : Response) (job : Job Db)
        → Good r
        → settings job.d ≡ s
        → job.disk ≡ disk
        → Fills (received b env task 0 r job)
    received-Fills r job good k on =
        let right : is_expected task.start seg.end (content_range r) ≡ true =
          ap (λ x. is_expected x seg.end (content_range r)) task_start
          ∙ ap (λ x. is_expected (pos (a + m)) x (content_range r)) end
          ∙ good.1.0 in
        let fits : (r.status == 206 && not (is_expected task.start seg.end (content_range r)))
            ≡ false =
          ground (arith, right) in
        rw fits (
          subst (λ o. Fills (writer_opened b env task 0 r o job)) (sym (opened_lem job k on))
            (subst (λ x. Fills (read_body b env task 0 old x (record job { disk = touched })))
              (sym (reader_lem r good)) (read_body-Fills (record job { disk = touched }) k refl)))

    fetched-Fills :
        (x : Ranged × Wire) (job : Job Db)
        → Served env.web env.timeout req
            (pick_cfg s.config)
            content
            accepted
            serving
            (a + m)
            e
            le
            lt
            x
        → settings job.d ≡ s
        → job.disk ≡ disk
        → Fills (fetched b env task 0 x job)
    fetched-Fills (failed status x, wire) job h k on = absurd h
    fetched-Fills (got r, wire) job good k on =
        let fine : (r.status == 200 || r.status == 206) ≡ true = ground (arith, good) in
        rw fine (received-Fills r (record job { wire = wire }) good k on)

    fetch-Fills :
        (job : Job Db)
        → settings job.d ≡ s
        → job.disk ≡ disk
        → Fills (fetch b env task 0 job.d.request job)
    fetch-Fills job k on =
        let cfg = pick_cfg job.d.config in
        let request : job.d.request ≡ some req = ap (λ x. x.request) k ∙ asked in
        let answer = get_range env.web env.timeout req cfg task.start seg.end job.wire in
        let from : (c : DownloadConfig) (x y : ℤ) → Ranged × Wire =
          λ c x y. get_range env.web env.timeout req c x y job.wire in
        let same_answer : from (pick_cfg s.config) (pos (a + m)) (pos e) ≡ answer = sym (
          ap (λ c. from (pick_cfg c.config) task.start seg.end) k
          ∙ ap (λ x. from (pick_cfg s.config) x seg.end) task_start
          ∙ ap (from (pick_cfg s.config) (pos (a + m))) end) in
        let served =
          subst
            (Served env.web env.timeout req (pick_cfg s.config) content accepted serving (a + m) e
              le lt)
            same_answer
            (get_range-Served env.web env.timeout req (pick_cfg s.config) content accepted serving
              (a + m) e le lt job.wire) in
        subst (λ o. Fills (fetch b env task 0 o job)) (sym request)
          (fetched-Fills answer job served k on)

    -- One round of the segment's loop fills its part.
    pub attempt-Fills :
        (job : Job Db) → settings job.d ≡ s → job.disk ≡ disk → Fills (attempt b env task 0 job)
    unfolding attempt
    attempt-Fills job k on =
        let j = throttle b env (safe_span seg.end task.start) job in
        rw (running job.wire.now) (
          fetch-Fills j (ap settings (throttle_d b env _ job) ∙ k) (throttle_disk b env _ job ∙ on))
