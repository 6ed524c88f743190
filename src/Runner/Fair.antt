-- ===== src/Runner/Fair.antt =====
-- How many turns a goroutine of a segment needs, against a server that serves a content.
use svc_downloader.Common.{
  ℕ, zero, suc, ◌-◌, ◌≤◌, ◌<◌, ◌≡◌, refl, sym, subst, true, Option, none, some, List, [], ◌∷◌, inl,
  inr, arith, if◌then◌else◌, ◌==◌, ◌&&◌, ◌⊎◌, leb, Bool-cases,
}
use svc_downloader.Common.Lists.{length}
use svc_downloader.Errors.{Result, ok, err}
use svc_downloader.Runner.{Job}
use svc_downloader.Runner.Segments.{Task}
use svc_downloader.Runner.Pool.{
  Turn, work, report, Pool, Worker, Phase, fresh, trying, finished, worker_at, set_phase, ended,
  after_probe, all_finished, is_finished,
}

-- The turns that a goroutine still has to make.
abbrev pub rank : Phase → ℕ
rank fresh = 2
rank (trying t n) = 1
rank (finished r) = 0

abbrev pub rank_at : ℕ → List Worker → ℕ
rank_at k [] = 0
rank_at zero (w ∷ ws) = rank w.phase
rank_at (suc k) (w ∷ ws) = rank_at k ws

-- The turns of one goroutine in a schedule.
abbrev pub turns_of : ℕ → List Turn → ℕ
turns_of k [] = 0
turns_of k (report ∷ ts) = turns_of k ts
turns_of k (work i ∷ ts) = let rest = turns_of k ts in if i == k then suc rest else rest

-- No goroutine goes back, and the one that had the turn goes on.
abbrev pub HasAdvanced : ℕ → List Worker → List Worker → Type 0
HasAdvanced k ws ws' = ((j : ℕ) → rank_at j ws' ≤ rank_at j ws) × (rank_at k ws' ≤ rank_at k ws - 1)

abbrev pub Advances : {D : Type 0} → ℕ → Pool D → Option (Pool D) → Type 0
Advances k p none = Unit
Advances k p (some p') = HasAdvanced k p.workers p'.workers

rank_at-set_phase_le :
    (k j : ℕ) (ws : List Worker) (w : Worker) (ph : Phase)
    → worker_at k ws ≡ some w
    → rank ph ≤ rank w.phase - 1
    → rank_at j (set_phase k ph ws) ≤ rank_at j ws
rank_at-set_phase_le k j [] w ph e le = cc
rank_at-set_phase_le zero zero (v ∷ ws) w ph e le =
    let v_eq : w ≡ v = cc in
    let le' : rank ph ≤ rank v.phase - 1 = subst (λ x. rank ph ≤ rank x.phase - 1) v_eq le in
    omega (arith, le')
rank_at-set_phase_le zero (suc j) (v ∷ ws) w ph e le = omega arith
rank_at-set_phase_le (suc k) zero (v ∷ ws) w ph e le = omega arith
rank_at-set_phase_le (suc k) (suc j) (v ∷ ws) w ph e le = rank_at-set_phase_le k j ws w ph e le

rank_at-set_phase :
    (k : ℕ) (ws : List Worker) (w : Worker) (ph : Phase)
    → worker_at k ws ≡ some w
    → rank ph ≤ rank w.phase - 1
    → rank_at k (set_phase k ph ws) ≤ rank_at k ws - 1
rank_at-set_phase k [] w ph e le = cc
rank_at-set_phase zero (v ∷ ws) w ph e le =
    let v_eq : w ≡ v = cc in subst (λ x. rank ph ≤ rank x.phase - 1) v_eq le
rank_at-set_phase (suc k) (v ∷ ws) w ph e le = rank_at-set_phase k ws w ph e le

pub set_phase-HasAdvanced :
    (k : ℕ) (ws : List Worker) (w : Worker) (ph : Phase)
    → worker_at k ws ≡ some w
    → rank ph ≤ rank w.phase - 1
    → HasAdvanced k ws (set_phase k ph ws)
set_phase-HasAdvanced k ws w ph e le =
    ((λ j. rank_at-set_phase_le k j ws w ph e le), rank_at-set_phase k ws w ph e le)

pub after_probe-Advances :
    {D : Type 0}
    → (k : ℕ) (w : Worker) (x : Option (Result Task × Job D)) (p : Pool D)
    → worker_at k p.workers ≡ some w
    → w.phase ≡ fresh
    → Advances k p (after_probe k x p)
after_probe-Advances k w none p e is = tt
after_probe-Advances k w (some (err x, job)) p e is =
    set_phase-HasAdvanced k p.workers w (finished (err x)) e (omega arith)
after_probe-Advances k w (some (ok t, job)) p e is =
    set_phase-HasAdvanced k p.workers w (trying t 0) e
      (subst (λ ph. 1 ≤ rank ph - 1) (sym is) (omega arith))

pub done-Advances :
    {D : Type 0}
    → (k : ℕ) (w : Worker) (r : Result (Unit {0})) (job : Job D) (p : Pool D)
    → worker_at k p.workers ≡ some w
    → Advances k p (some (ended k r job p))
done-Advances k w r job p e = set_phase-HasAdvanced k p.workers w (finished r) e (omega arith)

-- A worker whose turns are all made has ended.
pub ranks-all_finished :
    (ws : List Worker) → ((j : ℕ) → j < length ws → rank_at j ws ≡ 0) → all_finished ws ≡ true
ranks-all_finished [] h = refl
ranks-all_finished (w ∷ ws) h =
    let rest = ranks-all_finished ws (λ j lt. h (suc j) (omega arith)) in
    rw (rest) (by_phase w.phase (h 0 (omega arith)))
  where
    by_phase : (ph : Phase) → rank ph ≡ 0 → is_finished ph && true ≡ true
    by_phase fresh e = absurd (omega (arith, e))
    by_phase (trying t n) e = absurd (omega (arith, e))
    by_phase (finished r) e = refl

pub rank_bound : (j : ℕ) (ws : List Worker) → rank_at j ws ≤ 2
rank_bound j [] = omega arith
rank_bound zero (w ∷ ws) = by_phase w.phase
  where
    by_phase : (ph : Phase) → rank ph ≤ 2
    by_phase fresh = omega arith
    by_phase (trying t n) = omega arith
    by_phase (finished r) = omega arith
rank_bound (suc j) (w ∷ ws) = rank_bound j ws

-- Each of the first goroutines has two turns, or one of them has fewer.
pub two_turns :
    (turns : List Turn) (n : ℕ)
    → ((j : ℕ) → j < n → 2 ≤ turns_of j turns) ⊎ ((j : ℕ) × ((j < n) × (turns_of j turns ≤ 1)))
two_turns turns zero = inl (λ j lt. absurd (omega (arith, lt)))
two_turns turns (suc n) = elim (two_turns turns n) [
  | inr (j, (lt, few)) ↦ inr (j, (omega (arith, lt), few))
  | inl fair ↦ elim (Bool-cases (leb 2 (turns_of n turns))) [
    | inr few ↦ inr (n, (omega arith, ground (arith, few)))
    | inl two ↦
        let last : 2 ≤ turns_of n turns = ground (arith, two) in
        inl (λ j lt. elim (Bool-cases (j == n)) [
          | inl here ↦
              let n_eq : n ≡ j = ground (arith, here) in subst (λ x. 2 ≤ turns_of x turns) n_eq last
          | inr other ↦ let lt' : j < n = ground (arith, lt, other) in fair j lt'
        ])
  ]
]
