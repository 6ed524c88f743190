-- ===== src/FileStore/Unique.antt =====
-- The loop of MergeSegments over the numbers of a unique file name, and the paths of its candidates.
use mathlib.Core.List.{append_cancel_left, append_cancel_right}
use svc_downloader.Common.{
  ℕ, zero, suc, ◌+◌, ◌-◌, ◌<◌, ◌≤◌, ◌≡◌, refl, ◌≢◌, ◌⊎◌, subst, true, false, ◌||◌, some, none, List,
  [], ◌∷◌, ◌++◌, inl, inr, arith, is_some, Bool-cases, if◌then◌else◌, ◌==◌,
}
use svc_downloader.Common.Lists.{length, take, length-append}
use svc_downloader.Common.Bytes.{Bytes, codes, same}
use svc_downloader.Common.Int.{pos}
use svc_downloader.Repository.Keys.{padded, digits, width}
use svc_downloader.Repository.Keys.Digits.{decimal, decimal_inj}
use svc_downloader.Paths.{FilePath, same_path, join_texts, ext}
use svc_downloader.Disk.{Disk, listed, find, is_missing, is_dir, is_file}
use svc_downloader.Disk.Files.{same_path_iff}
use svc_downloader.Paths.Joined.{
  LacksSlash, LacksSlash-append, ext-LacksSlash, is_plain, IsMark, join_texts_inj,
}
use svc_downloader.FileStore.Target.{candidate, unique_from, enough}

-- The first path equal to `p` is left out.
erase : FilePath → List FilePath → List FilePath
erase p [] = []
erase p (q ∷ qs) = if same_path q p then qs else q ∷ erase p qs

length-erase :
    (p : FilePath) (qs : List FilePath) → listed p qs ≡ true → suc (length (erase p qs)) ≡ length qs
unfolding listed erase
length-erase p [] h = cc
length-erase p (q ∷ qs) h = ground (arith, length-erase p qs)

listed-erase :
    (p r : FilePath) (qs : List FilePath)
    → p ≢ r
    → listed r qs ≡ true
    → listed r (erase p qs) ≡ true
unfolding listed erase
listed-erase p r [] ne h = cc
listed-erase p r (q ∷ qs) ne h =
    ground (arith, same_path_iff q p, same_path_iff q r, listed-erase p r qs ne)

-- So many different paths do not fit in a shorter list.
pigeonhole :
    (f : ℕ → FilePath)
    → ((i j : ℕ) → f i ≡ f j → i ≡ j)
    → (k i : ℕ) (qs : List FilePath) → ((j : ℕ) → i ≤ j → j < i + k → listed (f j) qs ≡ true)
    → k ≤ length qs
pigeonhole f inj zero i qs h = omega arith
pigeonhole f inj (suc k) i qs h =
    let rest = pigeonhole f inj k (suc i) (erase (f i) qs) (λ j lo hi.
      listed-erase (f i) (f j) qs (λ e. omega (arith, inj i j e))
        (h j (omega arith) (omega arith))) in
    omega (arith, length-erase (f i) qs (h i (omega arith) (omega arith)), rest)

-- All paths of a disk.
paths_of : List (FilePath × Bytes) → List FilePath
paths_of [] = []
paths_of ((p, content) ∷ fs) = p ∷ paths_of fs

length-paths_of : (fs : List (FilePath × Bytes)) → length (paths_of fs) ≡ length fs
unfolding paths_of
length-paths_of [] = refl
length-paths_of (f ∷ fs) = omega (arith, length-paths_of fs)

all_paths : Disk → List FilePath
all_paths disk = [] ∷ (codes "/" ∷ []) ∷ (paths_of disk.files ++ disk.dirs)

length-all_paths : (disk : Disk) → suc (length (all_paths disk)) ≡ enough disk
unfolding all_paths
length-all_paths disk =
    omega (arith, length-append (paths_of disk.files) disk.dirs, length-paths_of disk.files)

listed-append :
    (p : FilePath) (qs rs : List FilePath) → listed p (qs ++ rs) ≡ (listed p qs || listed p rs)
unfolding listed
listed-append p [] rs = refl
listed-append p (q ∷ qs) rs = ground (arith, listed-append p qs rs)

found-listed :
    (p : FilePath) (fs : List (FilePath × Bytes)) → is_some (find p fs) ≡ listed p (paths_of fs)
unfolding find listed paths_of
found-listed p [] = refl
found-listed p ((q, content) ∷ fs) = ground (arith, found-listed p fs)

taken-listed :
    (disk : Disk) (p : FilePath)
    → disk.refused p ≡ false
    → is_missing disk p ≡ false
    → listed p (all_paths disk) ≡ true
unfolding is_missing is_dir is_file listed all_paths
taken-listed disk p allowed h = ground (
  arith,
  found-listed p disk.files,
  listed-append p (paths_of disk.files) disk.dirs,
  same_path_iff p [],
  same_path_iff p (codes "/" ∷ []),
  same_path_iff [] p,
  same_path_iff (codes "/" ∷ []) p,
)

pub digits-LacksSlash : (k n : ℕ) → LacksSlash (digits k n)
unfolding digits
digits-LacksSlash zero n = tt
digits-LacksSlash (suc k) n = (ground arith, digits-LacksSlash k n)

-- What a candidate has behind the name.
number_part : Bytes → ℕ → Bytes
number_part base i = codes " (" ++ (padded 0 (pos i) ++ (codes ")" ++ ext base))

-- Behind a blank no name is special.
blank-plain : (name t : Bytes) → is_plain (name ++ b' ' ∷ b'(' ∷ t) ≡ true
unfolding same
blank-plain [] t = refl
blank-plain (a ∷ []) t = ground arith
blank-plain (a ∷ b ∷ []) t = ground arith
blank-plain (a ∷ b ∷ c ∷ name) t = ground arith

number_part-IsMark : (base : Bytes) (i : ℕ) → IsMark (number_part base i)
unfolding number_part
number_part-IsMark base i = (
  (
    refl,
    (
      refl,
      LacksSlash-append (padded 0 (pos i)) (codes ")" ++ ext base)
          (rw (decimal i) (digits-LacksSlash (width i i) i)) (refl, ext-LacksSlash base),
    ),
  ),
  λ name. blank-plain name _,
)

candidate_path_inj :
    (dir base : Bytes) (i j : ℕ)
    → join_texts dir (candidate base i) ≡ join_texts dir (candidate base j)
    → i ≡ j
unfolding candidate number_part
candidate_path_inj dir base i j h =
    let e =
      join_texts_inj dir (take (length base - length (ext base)) base) (number_part base i)
        (number_part base j) (number_part-IsMark base i) (number_part-IsMark base j) h in
    decimal_inj i j (
      append_cancel_right (padded 0 (pos i)) (padded 0 (pos j)) (codes ")" ++ ext base)
        (append_cancel_left (codes " (") _ _ e))

-- The first free number from `i` on.
abbrev pub FirstFree : Bytes → Bytes → ℕ → Disk → ℕ → Type 0
FirstFree dir base i disk n =
    (i ≤ n)
    × (is_missing disk (join_texts dir (candidate base n)) ≡ true)
    × ((j : ℕ) → i ≤ j → j < n → is_missing disk (join_texts dir (candidate base j)) ≡ false)

module _ (dir base : Bytes) (disk : Disk) where
  abbrev Taken : ℕ → ℕ → Type 0
  Taken i n = (j : ℕ) → i ≤ j → j < n → is_missing disk (join_texts dir (candidate base j)) ≡ false

  Taken-suc :
      (i n : ℕ)
      → is_missing disk (join_texts dir (candidate base i)) ≡ false
      → Taken (suc i) n
      → Taken i n
  Taken-suc i n used above j lo hi = elim (Bool-cases (i == j)) [
    | inl here ↦
        let e : i ≡ j = ground arith in
        subst (λ k. is_missing disk (join_texts dir (candidate base k)) ≡ false) e used
    | inr later ↦ above j (ground arith) hi
  ]

  -- Either the loop gives the first free name, or all candidates that it tried are taken.
  unique_from-cases :
      (fuel i : ℕ)
      → ((n : ℕ) × (unique_from fuel dir base i disk ≡ some (candidate base n))
          × FirstFree dir base i disk n)
        ⊎ Taken i (i + fuel)
  unfolding unique_from
  unique_from-cases zero i = inr (λ j lo hi. absurd (omega arith))
  unique_from-cases (suc fuel) i =
      elim (Bool-cases (is_missing disk (join_texts dir (candidate base i)))) [
        | inl free ↦ inl (i, rw free refl, (omega arith, free, λ j lo hi. absurd (omega arith)))
        | inr used ↦ elim (unique_from-cases fuel (suc i)) [
          | inl (n, e, (le, free, below)) ↦
              inl (n, rw used e, (omega arith, free, Taken-suc i n used below))
          | inr all ↦ inr (Taken-suc i (i + suc fuel) used (λ j lo hi. all j lo (omega arith)))
        ]
      ]

  -- The loop over the numbers ends, for every directory, name, disk and first number, if the system
  -- denies none of the first candidates, of which there are three more than files and directories: it
  -- gives the candidate with the first number from there on whose path is missing.
  pub unique_from-ends :
      (i : ℕ)
      → ((j : ℕ)
          → i ≤ j
          → j < i + enough disk
          → disk.refused (join_texts dir (candidate base j)) ≡ false)
      → (n : ℕ) × (unique_from (enough disk) dir base i disk ≡ some (candidate base n))
        × FirstFree dir base i disk n
  unique_from-ends i allowed = elim (unique_from-cases (enough disk) i) [
    | inl found ↦ found
    | inr all ↦ absurd (
        let fits =
          pigeonhole (λ j. join_texts dir (candidate base j)) (candidate_path_inj dir base)
            (enough disk) i (all_paths disk)
            (λ j lo hi.
              taken-listed disk (join_texts dir (candidate base j)) (allowed j lo hi)
                (all j lo hi)) in
        omega (arith, fits, length-all_paths disk))
  ]

  -- If the system denies os.Stat of every candidate from a number on, the loop that has come to this number does not end, however many rounds are made.
  pub unique_from-denied :
      (fuel i : ℕ)
      → ((j : ℕ) → i ≤ j → disk.refused (join_texts dir (candidate base j)) ≡ true)
      → unique_from fuel dir base i disk ≡ none
  unfolding unique_from is_missing
  unique_from-denied zero i denied = refl
  unique_from-denied (suc fuel) i denied =
      rw (denied i (omega arith), unique_from-denied fuel (suc i) (λ j le. denied j (omega arith)))
        (ground arith)
