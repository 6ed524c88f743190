-- ===== src/Runner/Fits.antt =====
-- Workers whose part files hold what their phases say: the invariant of a run against a server that
-- serves a content.
use mathlib.Core.List.{append_cancel_right}
use native.Mathlib.Nat.{mod-eq_of_lt}
use svc_downloader.Common.{
  ap, ℕ, zero, suc, ◌+◌, ◌≤◌, ◌<◌, ◌^◌, ◌≡◌, sym, ◌∙◌, ◌≢◌, subst, false, some, List, [], ◌∷◌, inl,
  inr, arith, Bool-cases,
}
use svc_downloader.Common.Lists.{length, take, drop}
use svc_downloader.Common.Bytes.{Bytes, codes}
use svc_downloader.Common.Int.{pos, pos_part, ◌+ℤ◌}
use svc_downloader.Models.{Segment}
use svc_downloader.Errors.{ok, err}
use svc_downloader.Repository.Keys.Digits.{digits_inj, padded-small}
use svc_downloader.Paths.{FilePath, same_path}
use svc_downloader.Disk.{Disk, find, kept_bytes}
use svc_downloader.Disk.Files.{same_path_iff}
use svc_downloader.FileStore.{part_name}
use svc_downloader.FileStore.Copied.{Agrees}
use svc_downloader.Runner.Segments.{Task}
use svc_downloader.Runner.Pool.{Worker, Phase, fresh, trying, finished, worker_at, set_phase}
use svc_downloader.Runner.Served.{slice}

-- Parts with at most nine digits have different names.
part_name_inj : (i j : ℕ) → i < 10 ^ 9 → j < 10 ^ 9 → part_name (pos i) ≡ part_name (pos j) → i ≡ j
unfolding part_name
part_name_inj i j hi hj h =
    let e = append_cancel_right _ _ (codes ".part") h in
    sym (mod-eq_of_lt hi)
    ∙ digits_inj 9 i j (sym (padded-small i hi) ∙ e ∙ padded-small j hj)
    ∙ mod-eq_of_lt hj

pub worker_at_bound :
    (k : ℕ) (ws : List Worker) (w : Worker) → worker_at k ws ≡ some w → k < length ws
worker_at_bound k [] w e = cc
worker_at_bound zero (v ∷ ws) w e = omega arith
worker_at_bound (suc k) (v ∷ ws) w e = omega (arith, worker_at_bound k ws w e)

module _ (tmp : FilePath) where
  abbrev pub part : ℕ → FilePath
  part i = part_name (pos i) ∷ tmp

  pub part_other : (i j : ℕ) → i < 10 ^ 9 → j < 10 ^ 9 → i ≢ j → same_path (part i) (part j) ≡ false
  part_other i j hi hj ne = elim (Bool-cases (same_path (part i) (part j))) [
    | inr other ↦ other
    | inl same' ↦
        let e : part_name (pos i) ≡ part_name (pos j) =
          cc ((same_path_iff (part i) (part j)).0 same') in
        absurd (ne (part_name_inj i j hi hj e))
  ]

-- `had` gives the number of bytes that the part files have at the start of the run.
module _ (tmp : FilePath) (content : Bytes) (had : ℕ → ℕ) where
  -- The bytes that the file of a segment has, and the task of the others.
  abbrev pub old_bytes : ℕ → Segment → Bytes
  old_bytes i s = take (had i) (drop (pos_part s.start) content)

  abbrev pub missing_task : ℕ → Segment → Task
  missing_task i s = record { segment = s; start = s.start +ℤ pos (had i); existing = had i }

  -- What a phase says of the part file.
  abbrev pub PhaseFits : ℕ → Segment → Phase → Disk → Type 0
  PhaseFits i s fresh disk = kept_bytes (find (part tmp i) disk.files) ≡ old_bytes i s
  PhaseFits i s (trying t k) disk =
      (k ≡ 0) × ((t ≡ missing_task i s) × (find (part tmp i) disk.files ≡ some (old_bytes i s)))
  PhaseFits i s (finished (ok u)) disk =
      find (part tmp i) disk.files ≡ some (slice content (pos_part s.start) (pos_part s.end))
  PhaseFits i s (finished (err e)) disk = ⊥

  -- A worker of the range from `a` on.
  pub record WorkerFits (i a : ℕ) (w : Worker) (disk : Disk) : Type 0 where
    pub index : w.segment.index ≡ pos i
    pub start : w.segment.start ≡ pos a
    pub end : w.segment.end ≡ pos (pos_part w.segment.end)
    pub missing : a + had i ≤ pos_part w.segment.end
    pub phase : PhaseFits i w.segment w.phase disk

  -- The workers from `i` on, whose ranges follow one another from `a` to the end of the content.
  abbrev pub AllFit : ℕ → ℕ → List Worker → Disk → Type 0
  AllFit i a [] disk = a ≡ length content
  AllFit i a (w ∷ ws) disk =
      WorkerFits i a w disk × AllFit (suc i) (pos_part w.segment.end + 1) ws disk

  PhaseFits-same :
      (i : ℕ) (s : Segment) (ph : Phase) (disk disk' : Disk)
      → find (part tmp i) disk'.files ≡ find (part tmp i) disk.files
      → PhaseFits i s ph disk
      → PhaseFits i s ph disk'
  PhaseFits-same i s fresh disk disk' e h = ap kept_bytes e ∙ h
  PhaseFits-same i s (trying t k) disk disk' e (k0, (t0, h)) = (k0, (t0, e ∙ h))
  PhaseFits-same i s (finished (ok u)) disk disk' e h = e ∙ h
  PhaseFits-same i s (finished (err x)) disk disk' e h = h

  WorkerFits-same :
      (i a : ℕ) (w : Worker) (disk disk' : Disk)
      → find (part tmp i) disk'.files ≡ find (part tmp i) disk.files
      → WorkerFits i a w disk
      → WorkerFits i a w disk'
  WorkerFits-same i a w disk disk' e h = record {
    index = h.index;
    start = h.start;
    end = h.end;
    missing = h.missing;
    phase = PhaseFits-same i w.segment w.phase disk disk' e h.phase;
  }

  -- A change of another part.
  AllFit-other :
      (k i a : ℕ) (ws : List Worker) (disk disk' : Disk)
      → k < i
      → i + length ws ≤ 10 ^ 9
      → Agrees (part tmp k) disk disk'
      → AllFit i a ws disk
      → AllFit i a ws disk'
  AllFit-other k i a [] disk disk' lt le agrees h = h
  AllFit-other k i a (w ∷ ws) disk disk' lt le agrees (h, hs) = (
    WorkerFits-same i a w disk disk'
        (agrees.files (part tmp i)
          (part_other tmp k i (omega arith) (omega arith) (λ e. omega arith)))
        h,
    AllFit-other k (suc i) _ ws disk disk' (omega arith) (omega arith) agrees hs,
  )

  bounded_by_content :
      (i a : ℕ) (ws : List Worker) (disk : Disk) → AllFit i a ws disk → a ≤ length content
  bounded_by_content i a [] disk h = omega arith
  bounded_by_content i a (w ∷ ws) disk (h, hs) =
      let rest = bounded_by_content (suc i) _ ws disk hs in omega (arith, h.missing, rest)

  -- A worker among those that fit.
  pub AllFit-at :
      (k i a : ℕ) (ws : List Worker) (w : Worker) (disk : Disk)
      → AllFit i a ws disk
      → worker_at k ws ≡ some w
      → (c : ℕ) × WorkerFits (i + k) c w disk × (pos_part w.segment.end < length content)
  AllFit-at k i a [] w disk h e = cc
  AllFit-at zero i a (v ∷ ws) w disk (h, hs) e =
      let v_eq : v ≡ w = cc in
      let here : i + 0 ≡ i = omega arith in
      let inside = bounded_by_content (suc i) _ ws disk hs in
      (
        a,
        subst (λ x. WorkerFits x a w disk) (sym here) (subst (λ x. WorkerFits i a x disk) v_eq h),
        subst (λ x. pos_part x.segment.end < length content) v_eq (omega (arith, inside)),
      )
  AllFit-at (suc k) i a (v ∷ ws) w disk (h, hs) e =
      let (c, fits, inside) = AllFit-at k (suc i) _ ws w disk hs e in
      let shift : suc i + k ≡ i + suc k = omega arith in
      (c, subst (λ x. WorkerFits x c w disk) shift fits, inside)

  -- The phase of a worker changes with its part.
  pub AllFit-set_phase :
      (k i a : ℕ) (ws : List Worker) (w : Worker) (ph : Phase) (disk disk' : Disk)
      → i + length ws ≤ 10 ^ 9
      → AllFit i a ws disk
      → worker_at k ws ≡ some w
      → Agrees (part tmp (i + k)) disk disk'
      → PhaseFits (i + k) w.segment ph disk'
      → AllFit i a (set_phase k ph ws) disk'
  AllFit-set_phase k i a [] w ph disk disk' le h e agrees fits = cc
  AllFit-set_phase zero i a (v ∷ ws) w ph disk disk' le (h, hs) e agrees fits =
      let here : i + 0 ≡ i = omega arith in
      let v_eq : w ≡ v = cc in
      let mine = subst (λ x. Agrees (part tmp x) disk disk') here agrees in
      let fits' =
        subst (λ x. PhaseFits i x.segment ph disk') v_eq
          (subst (λ x. PhaseFits x w.segment ph disk') here fits) in
      (
        record {
          index = h.index;
          start = h.start;
          end = h.end;
          missing = h.missing;
          phase = fits';
        },
        AllFit-other i (suc i) _ ws disk disk' (omega arith) (omega arith) mine hs,
      )
  AllFit-set_phase (suc k) i a (v ∷ ws) w ph disk disk' le (h, hs) e agrees fits =
      let shift : i + suc k ≡ suc i + k = omega arith in
      (
        WorkerFits-same i a v disk disk'
            (agrees.files (part tmp i) (
              part_other tmp (i + suc k) i (omega (arith, worker_at_bound k ws w e)) (omega arith)
                (λ x. omega arith)))
            h,
        AllFit-set_phase k (suc i) _ ws w ph disk disk' (omega arith) hs e
            (subst (λ x. Agrees (part tmp x) disk disk') shift agrees)
            (subst (λ x. PhaseFits x w.segment ph disk') shift fits),
      )
