-- ===== src/Runner/Collected.antt =====
-- The parts of a run that has ended, as the merge finds them.
use mathlib.Core.List.{Permᴰ}
use mathlib.Core.List.Permᴰ
use svc_downloader.Common.{
  false, ℕ, zero, suc, ◌+◌, ◌-◌, ◌≤◌, ◌^◌, ◌≡◌, refl, sym, ap, ◌∙◌, subst, Bool, true, some, List,
  [], ◌∷◌, ◌++◌, arith,
}
use svc_downloader.Common.Lists.{length, drop, filter, length-append, drop_all, take-drop-append}
use svc_downloader.Common.Bytes.{Bytes, codes, same_refl, AllTexts, drop-append}
use svc_downloader.Common.Int.{pos, pos_part}
use svc_downloader.Errors.{ok, err}
use svc_downloader.Repository.Keys.{padded}
use svc_downloader.Paths.{FilePath, ends_with}
use svc_downloader.Disk.{Disk, find, is_dir, names_in, read_dir}
use svc_downloader.FileStore.{part_name}
use svc_downloader.FileStore.Parts.{list_parts, part_names}
use svc_downloader.FileStore.Order.{sort_texts-Permᴰ, sort_texts-part_names, part_names_from}
use svc_downloader.FileStore.Copied.{gathered}
use svc_downloader.Runner.Pool.{Worker, Phase, fresh, trying, finished, all_finished, is_finished}
use svc_downloader.Runner.Served.{slice}
use svc_downloader.Runner.Opened.{present}
use svc_downloader.Runner.Fits.{part, AllFit, WorkerFits, PhaseFits}

AllTexts-Permᴰ {ℓ} :
    (P : Bytes → Type ℓ) {ss ts : List Bytes} → Permᴰ ss ts → AllTexts P ss → AllTexts P ts
AllTexts-Permᴰ P Permᴰ.nil h = tt
AllTexts-Permᴰ P (Permᴰ.cons e p) (ps, h) = (subst P e ps, AllTexts-Permᴰ P p h)
AllTexts-Permᴰ P (Permᴰ.swap e f) (ps, (pt, h)) = (subst P f pt, (subst P e ps, h))
AllTexts-Permᴰ P (Permᴰ.trans p q) h = AllTexts-Permᴰ P q (AllTexts-Permᴰ P p h)

filter_all : (p : Bytes → Bool) (ts : List Bytes) → AllTexts (λ t. p t ≡ true) ts → filter p ts ≡ ts
filter_all p [] h = refl
filter_all p (t ∷ ts) (pt, h) = rw (pt, filter_all p ts h) refl

ends_with-append : (s t : Bytes) → ends_with (s ++ t) t ≡ true
unfolding ends_with
ends_with-append s t =
    let count : length (s ++ t) - length t ≡ length s = omega (arith, length-append s t) in
    rw (count, drop-append s t) (same_refl t)

part_names_end :
    (i k : ℕ) → AllTexts (λ name. ends_with name (codes ".part") ≡ true) (part_names_from i k)
unfolding part_name
part_names_end i zero = tt
part_names_end i (suc k) =
    (ends_with-append (padded 9 (pos i)) (codes ".part"), part_names_end (suc i) k)

-- listParts gives the parts in the order of their numbers, in whatever order they were made.
pub list_parts_lem :
    (tmp : FilePath) (k : ℕ) (disk : Disk)
    → is_dir disk tmp ≡ true
    → disk.refused tmp ≡ false
    → k ≤ 10 ^ 9
    → Permᴰ (names_in tmp disk.files) (part_names_from 0 k)
    → list_parts tmp disk ≡ ok (part_names_from 0 k)
unfolding list_parts read_dir part_names
list_parts_lem tmp k disk there allowed few names =
    let parts =
      AllTexts-Permᴰ (λ name. ends_with name (codes ".part") ≡ true) (Permᴰ.symm names)
        (part_names_end 0 k) in
    rw
      (
        there,
        allowed,
        filter_all (λ name. ends_with name (codes ".part")) (names_in tmp disk.files) parts,
      )
      (ap ok (sort_texts-Permᴰ names ∙ sort_texts-part_names 0 k (omega arith)))

module _ (tmp : FilePath) (content : Bytes) (had : ℕ → ℕ) where
  finished_part :
      (i a : ℕ) (w : Worker) (disk : Disk)
      → WorkerFits tmp content had i a w disk
      → is_finished w.phase ≡ true
      → find (part tmp i) disk.files ≡ some (slice content a (pos_part w.segment.end))
  finished_part i a w disk h all =
      by_phase w.phase h.phase all
      ∙ ap (λ x. some (slice content x (pos_part w.segment.end))) (ap pos_part h.start)
    where
      by_phase :
          (ph : Phase)
          → PhaseFits tmp content had i w.segment ph disk
          → is_finished ph ≡ true
          → find (part tmp i) disk.files
            ≡ some (slice content (pos_part w.segment.start) (pos_part w.segment.end))
      by_phase fresh f e = cc
      by_phase (trying t k) f e = cc
      by_phase (finished (ok u)) f e = f
      by_phase (finished (err x)) f e = absurd f

  -- The parts of workers that have ended, one after the other.
  pub gathered-AllFit :
      (i a : ℕ) (ws : List Worker) (disk : Disk)
      → AllFit tmp content had i a ws disk
      → all_finished ws ≡ true
      → gathered tmp (part_names_from i (length ws)) disk ≡ drop a content
  gathered-AllFit i a [] disk h all = rw h (sym (drop_all content))
  gathered-AllFit i a (w ∷ ws) disk (h, hs) all =
      let e = pos_part w.segment.end in
      let next : e + 1 ≡ a + (e + 1 - a) = omega (arith, h.missing) in
      let tail : gathered tmp (part_names_from (suc i) (length ws)) disk
          ≡ drop (a + (e + 1 - a)) content =
        gathered-AllFit (suc i) (e + 1) ws disk hs (ground (arith, all))
        ∙ ap (λ x. drop x content) next in
      let here = finished_part i a w disk h (ground (arith, all)) in
      rw (here, tail) (take-drop-append (e + 1 - a) a content)

  -- The parts of workers that have ended are all there.
  pub present-AllFit :
      (i a : ℕ) (ws : List Worker) (disk : Disk)
      → AllFit tmp content had i a ws disk
      → all_finished ws ≡ true
      → present tmp i (length ws) disk ≡ part_names_from i (length ws)
  unfolding present
  present-AllFit i a [] disk h all = refl
  present-AllFit i a (w ∷ ws) disk (h, hs) all =
      let here = finished_part i a w disk h (ground (arith, all)) in
      let rest = present-AllFit (suc i) _ ws disk hs (ground (arith, all)) in rw (here, rest) refl
