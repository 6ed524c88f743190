-- ===== src/FileStore/Kept.antt =====
-- MergeSegments of filestore.go: the path that it chooses for the merged file.
use svc_downloader.Common.{
  arith, ℕ, ◌-◌, ◌≡◌, refl, true, false, some, [], ◌∷◌, ◌++◌, ◌⊎◌, inl, inr, Bool-cases,
}
use svc_downloader.Common.Lists.{length, take}
use svc_downloader.Common.Bytes.{Bytes, same}
use svc_downloader.Models.{FileOptions}
use svc_downloader.Errors.{ok, err, target_exists}
use svc_downloader.Paths.{FilePath, ext}
use svc_downloader.Disk.{Disk, exists, is_missing}
use svc_downloader.FileStore.{final_path}
use svc_downloader.FileStore.Target.{target, candidate}
use svc_downloader.FileStore.Unique.{unique_from-ends}

front-nonempty : (s t : Bytes) (c : ℕ) → same (s ++ c ∷ t) [] ≡ false
unfolding same
front-nonempty [] t c = refl
front-nonempty (a ∷ s) t c = refl

candidate-nonempty : (base : Bytes) (i : ℕ) → same (candidate base i) [] ≡ false
unfolding candidate
candidate-nonempty base i = front-nonempty (take (length base - length (ext base)) base) _ b' '

-- On a system that denies nothing, MergeSegments decides on a target: a path at which there is nothing or
-- that it is told to overwrite, or the refusal, if it is told neither to overwrite nor to choose a
-- unique name.
pub target-free :
    (id : Bytes) (file : FileOptions) (disk : Disk)
    → ((p : FilePath) → disk.refused p ≡ false)
    → ((file' : FileOptions) × (target id file disk ≡ some (ok file'))
        × ((file.overwrite ≡ true) ⊎ (is_missing disk (final_path id file') ≡ true)))
      ⊎ ((target id file disk ≡ some (err target_exists))
          × ((file.overwrite ≡ false) × (file.unique_filename ≡ false)))
unfolding target exists is_missing
target-free id file disk allowed = elim (Bool-cases (exists disk (final_path id file))) [
  | inr free ↦ inl (file, rw free refl, inr (ground (arith, free, allowed (final_path id file))))
  | inl used ↦ elim (Bool-cases file.overwrite) [
    | inl over ↦ inl (file, rw (used, over) refl, inl over)
    | inr keep ↦ elim (Bool-cases file.unique_filename) [
      | inr refuse ↦ inr (rw (used, keep, refuse) refl, (keep, refuse))
      | inl unique ↦
          let (n, e, (le, free, below)) =
            unique_from-ends file.path file.filename disk 1 (λ j lo hi. allowed _) in
          inl (
            record file { filename = candidate file.filename n },
            rw (used, keep, unique, e) refl,
            inr (rw (candidate-nonempty file.filename n) free),
          )
    ]
  ]
]
