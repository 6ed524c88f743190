-- ===== src/Service/Runs.antt =====
-- The registration of the runs that Start, Resume and Pause start and stop.
use svc_downloader.Common.{
  ℕ, ◌+◌, ◌≡◌, refl, ap, ◌∙◌, subst, true, Option, none, some, [], ◌∷◌, is_some, arith, inl, inr,
  Bool-cases, Option-cases,
}
use svc_downloader.Common.Lists.{length, length-append}
use svc_downloader.Common.Bytes.{Bytes, same_refl}
use svc_downloader.Common.Maps.{lookup, lookup-insert}
use svc_downloader.Models.{Time, Download, status_running, status_paused}
use svc_downloader.Errors.{Result, ok, err, Context}
use svc_downloader.Store.{Badger}
use svc_downloader.Repository.Downloads.{get_download}
use svc_downloader.Service.State.{World, Outcome, after, on_success}
use svc_downloader.Service.Downloads.{
  start, start_limited, limit_read, pause, resume, spawn, stop_run, update_status, set_started,
}
use svc_downloader.Service.Status.{lookup-stop_run, stop_run-rest}

module _ (b : Badger) where
  open b use {Db}

  registered-spawn :
      (id : Bytes) (w : World Db) → lookup id (spawn id w).cancels ≡ some (length w.runs)
  unfolding spawn
  registered-spawn id w = lookup-insert id id (length w.runs) w.cancels ∙ rw (same_refl id)

  spawned :
      (id : Bytes) (r : Outcome Db (Unit {0})) (w : World Db)
      → on_success r (spawn id) ≡ (ok tt, w)
      → is_some (lookup id w.cancels) ≡ true
  spawned id (err e, v) w h = let bad : (err e) ≡ ok tt = ap (λ p. p.0) h in cc (bad)
  spawned id (ok tt, v) w h =
      subst (λ u. is_some (lookup id u.cancels) ≡ true) (ap (λ p. p.1) h)
        (rw (registered-spawn id v))

  start_limited-registers :
      (ctx : Context) (now : Time) (id : Bytes) (o : Option (World Db)) (w : World Db)
      → start_limited b ctx now id o ≡ some (ok tt, w)
      → is_some (lookup id w.cancels) ≡ true
  start_limited-registers ctx now id none w h = cc (h)
  start_limited-registers ctx now id (some v) w h =
      spawned id (update_status b ctx now id status_running (set_started b now) v) w
        (ground (arith, h))

  start-registers :
      (ctx : Context) (now : Time) (id : Bytes) (w w' : World Db)
      → start b ctx now id w ≡ some (ok tt, w')
      → is_some (lookup id w'.cancels) ≡ true
  unfolding start
  start-registers ctx now id w w' h = elim (Bool-cases (is_some (lookup id w.cancels))) [
    | inl running ↦
        let same_outcome : some (ok tt, w) ≡ some (ok tt, w') = rw running at h in
        let same_world : w ≡ w' = ground (arith, same_outcome) in
        subst (λ (u : World Db). is_some (lookup id u.cancels) ≡ true) same_world running
    | inr idle ↦
        start_limited-registers ctx now id
          (limit_read now id w.limiter (get_download b ctx id w.db).0 w) w' (rw idle at h)
  ]

  -- A second Start of a download changes nothing while the run of the first is registered.
  pub start-start :
      (ctx ctx' : Context) (now now' : Time) (id : Bytes) (w w' : World Db)
      → start b ctx now id w ≡ some (ok tt, w')
      → start b ctx' now' id w' ≡ some (ok tt, w')
  unfolding start
  start-start ctx ctx' now now' id w w' h = rw (start-registers ctx now id w w' h)

  after-kept :
      {A : Type 0} (r : Result A × Db) (f : A → World Db → World Db) (w : World Db)
      → ((a : A) (v : World Db)
          → ((f a v).runs ≡ v.runs) × ((f a v).stopped ≡ v.stopped) × ((f a v).cancels ≡ v.cancels))
      → ((after r f w).1.runs ≡ w.runs)
        × ((after r f w).1.stopped ≡ w.stopped)
        × ((after r f w).1.cancels ≡ w.cancels)
  after-kept (ok a, db) f w h = h a (record w { db = db })
  after-kept (err e, db) f w h = (refl, refl, refl)

  update_status-kept :
      (ctx : Context) (now : Time) (id status : Bytes) (f : Download → Download) (w : World Db)
      → let w' = (update_status b ctx now id status f w).1 in
        (w'.runs ≡ w.runs) × (w'.stopped ≡ w.stopped) × (w'.cancels ≡ w.cancels)
  unfolding update_status
  update_status-kept ctx now id status f w = after-kept _ _ w (λ a v. (refl, refl, refl))

  on_success-spawn :
      (id : Bytes) (r : Outcome Db (Unit {0}))
      → (on_success r (spawn id)).0 ≡ ok tt
      → let w = (on_success r (spawn id)).1 in
        (length w.runs ≡ length r.1.runs + 1)
        × (w.stopped ≡ r.1.stopped)
        × (lookup id w.cancels ≡ some (length r.1.runs))
  unfolding spawn
  on_success-spawn id (err e, w) h = cc (h)
  on_success-spawn id (ok tt, w) h = (
    length-append w.runs (id ∷ []),
    refl,
    lookup-insert id id (length w.runs) w.cancels ∙ rw (same_refl id),
  )

  resumed :
      (ctx : Context) (now : Time) (id : Bytes) (w : World Db)
      → (resume b ctx now id w).0 ≡ ok tt
      → let w1 = (resume b ctx now id w).1 in
        (length w1.runs ≡ length w.runs + 1)
        × (w1.stopped ≡ w.stopped)
        × (lookup id w1.cancels ≡ some (length w.runs))
  unfolding resume
  resumed ctx now id w h =
      let r = update_status b ctx now id status_running (λ d. d) w in
      let (runs, stopped, _) = update_status-kept ctx now id status_running (λ d. d) w in
      let (more, kept, registered) = on_success-spawn id r h in
      (
        more ∙ ap (λ rs. length rs + 1) runs,
        kept ∙ stopped,
        registered ∙ ap (λ rs. some (length rs)) runs,
      )

  runs-stop_run : (id : Bytes) (w : World Db) → (stop_run id w).runs ≡ w.runs
  unfolding stop_run
  runs-stop_run id w = elim (Option-cases (lookup id w.cancels)) [
    | inl e ↦ rw e
    | inr (r, e) ↦ rw e
  ]

  paused_runs :
      (ctx : Context) (now : Time) (id : Bytes) (w : World Db) (run : ℕ)
      → lookup id w.cancels ≡ some run
      → let w1 = (pause b ctx now id w).1 in
        (w1.runs ≡ w.runs) × (w1.stopped ≡ run ∷ w.stopped) × (lookup id w1.cancels ≡ none)
  unfolding pause
  paused_runs ctx now id w run h =
      let (runs, stopped, cancels) =
        update_status-kept ctx now id status_paused (λ d. d) (stop_run id w) in
      let (_, _, stops) = stop_run-rest b id w in
      (
        runs ∙ runs-stop_run id w,
        stopped ∙ stops run h,
        ap (lookup id) cancels ∙ lookup-stop_run b id w,
      )

  -- Resuming a download whose run is still registered starts a second run. The next Pause stops the
  -- second run only, and afterwards no run of the download is registered.
  pub pause-resume :
      (ctx ctx' : Context) (now now' : Time) (id : Bytes) (run : ℕ) (w : World Db)
      → lookup id w.cancels ≡ some run
      → (resume b ctx now id w).0 ≡ ok tt
      → let w' = (pause b ctx' now' id (resume b ctx now id w).1).1 in
        (length w'.runs ≡ length w.runs + 1)
        × (w'.stopped ≡ length w.runs ∷ w.stopped)
        × (lookup id w'.cancels ≡ none)
  pause-resume ctx ctx' now now' id run w registered h =
      let w1 = (resume b ctx now id w).1 in
      let (more, kept, second) = resumed ctx now id w h in
      let (runs, stops, gone) = paused_runs ctx' now' id w1 (length w.runs) second in
      (ap length runs ∙ more, stops ∙ ap (λ rs. length w.runs ∷ rs) kept, gone)
