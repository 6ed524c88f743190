-- ===== src/Runner/Opened.antt =====
-- The names of the part files that a temporary directory has, and what writing one of them does to them.
use mathlib.Core.List.{Permᴰ}
use mathlib.Core.List.Permᴰ
use svc_downloader.Common.{
  ℕ, zero, suc, ◌+◌, ◌≡◌, refl, sym, ap, ◌∙◌, subst, true, none, List, [], ◌∷◌, ◌++◌, is_some, inl,
  inr, arith, append-nil, Bool-cases, Option-cases, some, if◌then◌else◌, ◌<◌, ◌≤◌, ◌^◌, ◌≢◌, ◌==◌,
}
use svc_downloader.Common.Bytes.{Bytes}
use svc_downloader.Common.Int.{pos}
use svc_downloader.Paths.{FilePath, same_path}
use svc_downloader.Disk.{Disk, find, put, names_in, write_file}
use svc_downloader.Disk.Files.{same_path_refl, same_path_sound, find-put}
use svc_downloader.FileStore.{part_name}
use svc_downloader.FileStore.Copied.{Agrees, write_file-Agrees}
use svc_downloader.Runner.Fits.{part_other}

-- One more file in front adds the same to both sides.
names_in-cons :
    (dir q : FilePath) (old : Bytes) (fs gs : List (FilePath × Bytes)) (end : List Bytes)
    → names_in dir gs ≡ names_in dir fs ++ end
    → names_in dir ((q, old) ∷ gs) ≡ names_in dir ((q, old) ∷ fs) ++ end
unfolding names_in
names_in-cons dir [] old fs gs end h = h
names_in-cons dir (n ∷ q) old fs gs end h = elim (Bool-cases (same_path q dir)) [
  | inl here ↦ rw here (ap (λ x. n ∷ x) h)
  | inr other ↦ rw other h
]

module _ (name : Bytes) (dir : FilePath) (content : Bytes) where
  put_end : List (FilePath × Bytes) → List Bytes
  put_end fs = if is_some (find (name ∷ dir) fs) then [] else name ∷ []

  names_in-put :
      (fs : List (FilePath × Bytes))
      → names_in dir (put (name ∷ dir) content fs) ≡ names_in dir fs ++ put_end fs
  unfolding names_in put find put_end
  names_in-put [] = rw (same_path_refl dir) refl
  names_in-put ((q, old) ∷ fs) = elim (Bool-cases (same_path q (name ∷ dir))) [
    | inl here ↦
        let e = sym (same_path_sound q (name ∷ dir) here) in
        rw here (
          subst
            (λ x. names_in dir ((name ∷ dir, content) ∷ fs) ≡ names_in dir ((x, old) ∷ fs) ++ []) e
            (rw (same_path_refl dir, append-nil) refl))
    | inr other ↦ rw other (names_in-cons dir q old fs _ (put_end fs) (names_in-put fs))
  ]

  -- A file that is there keeps the names, and another one comes last.
  pub names_in-put-found :
      (fs : List (FilePath × Bytes))
      → is_some (find (name ∷ dir) fs) ≡ true
      → names_in dir (put (name ∷ dir) content fs) ≡ names_in dir fs
  unfolding put_end
  names_in-put-found fs h = names_in-put fs ∙ rw (h, append-nil) refl

  pub names_in-put-new :
      (fs : List (FilePath × Bytes))
      → find (name ∷ dir) fs ≡ none
      → names_in dir (put (name ∷ dir) content fs) ≡ names_in dir fs ++ name ∷ []
  unfolding put_end
  names_in-put-new fs h = names_in-put fs ∙ rw h refl

pub written_lem :
    (p : FilePath) (content : Bytes) (disk : Disk)
    → find p (write_file p content disk).files ≡ some content
unfolding write_file
written_lem p content disk = find-put p p content disk.files ∙ rw (same_path_refl p) refl

-- The part files that are there, of so many from `i` on.
unfoldable pub present : FilePath → ℕ → ℕ → Disk → List Bytes
present tmp i zero disk = []
present tmp i (suc n) disk =
    let rest = present tmp (suc i) n disk in
    if is_some (find (part_name (pos i) ∷ tmp) disk.files) then part_name (pos i) ∷ rest else rest

module _ (tmp : FilePath) (k : ℕ) (disk disk' : Disk)
    (agrees : Agrees (part_name (pos k) ∷ tmp) disk disk')
    (now : is_some (find (part_name (pos k) ∷ tmp) disk'.files) ≡ true) (small : k < 10 ^ 9) where
  abbrev file : ℕ → FilePath
  file i = part_name (pos i) ∷ tmp

  other_file : (i : ℕ) → i < 10 ^ 9 → k ≢ i → find (file i) disk'.files ≡ find (file i) disk.files
  other_file i lt ne = agrees.files (file i) (part_other tmp k i small lt ne)

  present-after : (i n : ℕ) → k < i → i + n ≤ 10 ^ 9 → present tmp i n disk' ≡ present tmp i n disk
  unfolding present
  present-after i zero lt le = refl
  present-after i (suc n) lt le =
      rw
        (
          other_file i (omega arith) (λ e. omega arith),
          present-after (suc i) n (omega arith) (omega arith),
        )
        refl

  present-found :
      (i n : ℕ)
      → i + n ≤ 10 ^ 9
      → is_some (find (file k) disk.files) ≡ true
      → present tmp i n disk' ≡ present tmp i n disk
  unfolding present
  present-found i zero le old = refl
  present-found i (suc n) le old = elim (Bool-cases (k == i)) [
    | inl here ↦
        let k_eq : k ≡ i = ground (arith, here) in
        let before : is_some (find (file i) disk.files) ≡ true =
          subst (λ x. is_some (find (file x) disk.files) ≡ true) k_eq old in
        let after : is_some (find (file i) disk'.files) ≡ true =
          subst (λ x. is_some (find (file x) disk'.files) ≡ true) k_eq now in
        rw (before, after, present-after (suc i) n (omega (arith, k_eq)) (omega arith)) refl
    | inr else' ↦
        let ne : k ≢ i = λ e. ground (arith, else', e) in
        rw (other_file i (omega arith) ne, present-found (suc i) n (omega arith) old) refl
  ]

  -- A new part file adds its name.
  present-new :
      (i n : ℕ)
      → i + n ≤ 10 ^ 9
      → i ≤ k
      → k < i + n
      → find (file k) disk.files ≡ none
      → Permᴰ (part_name (pos k) ∷ present tmp i n disk) (present tmp i n disk')
  unfolding present
  present-new i zero le from to new = absurd (omega arith)
  present-new i (suc n) le from to new = elim (Bool-cases (k == i)) [
    | inl here ↦
        let k_eq : k ≡ i = ground (arith, here) in
        let before : find (file i) disk.files ≡ none =
          subst (λ x. find (file x) disk.files ≡ none) k_eq new in
        let after : is_some (find (file i) disk'.files) ≡ true =
          subst (λ x. is_some (find (file x) disk'.files) ≡ true) k_eq now in
        rw (before, after, present-after (suc i) n (omega (arith, k_eq)) (omega arith))
          (subst
            (λ x.
              Permᴰ (part_name (pos x) ∷ present tmp (suc i) n disk)
                (part_name (pos i) ∷ present tmp (suc i) n disk))
            (sym k_eq) (Permᴰ.refl (part_name (pos i) ∷ present tmp (suc i) n disk)))
    | inr else' ↦
        let ne : k ≢ i = λ e. ground (arith, else', e) in
        let rest = present-new (suc i) n (omega arith) (omega (arith, ne)) (omega arith) new in
        rw (other_file i (omega arith) ne) (elim (Bool-cases (is_some (find (file i) disk.files))) [
          | inl there ↦ rw there (Permᴰ.trans (Permᴰ.swap refl refl) (Permᴰ.cons refl rest))
          | inr missing ↦ rw missing rest
        ])
  ]

-- A write to one of the part files keeps the names of the directory and those of the parts in step.
pub written_names :
    (tmp : FilePath) (k n : ℕ) (bytes : Bytes) (disk : Disk)
    → k < n
    → n ≤ 10 ^ 9
    → Permᴰ (names_in tmp disk.files) (present tmp 0 n disk)
    → Permᴰ
        (names_in tmp (write_file (part_name (pos k) ∷ tmp) bytes disk).files)
        (present tmp 0 n (write_file (part_name (pos k) ∷ tmp) bytes disk))
unfolding write_file
written_names tmp k n bytes disk lt le h =
    let name = part_name (pos k) in
    let disk' = write_file (name ∷ tmp) bytes disk in
    let agrees = write_file-Agrees (name ∷ tmp) bytes disk in
    let now : is_some (find (name ∷ tmp) disk'.files) ≡ true =
      ap is_some (written_lem (name ∷ tmp) bytes disk) in
    elim (Option-cases (find (name ∷ tmp) disk.files)) [
      | inr (old, there) ↦
          subst (λ x. Permᴰ x (present tmp 0 n disk'))
            (sym (names_in-put-found name tmp bytes disk.files (ap is_some there)))
            (subst (Permᴰ (names_in tmp disk.files))
              (sym (
                present-found tmp k disk disk' agrees now (omega arith) 0 n (omega arith)
                  (ap is_some there)))
              h)
      | inl missing ↦
          let names = names_in tmp disk.files in
          let last : Permᴰ (names ++ name ∷ []) (name ∷ names) =
            subst (λ x. Permᴰ (names ++ name ∷ []) (name ∷ x)) (append-nil names)
              (Permᴰ.middle name names []) in
          subst (λ x. Permᴰ x (present tmp 0 n disk'))
            (sym (names_in-put-new name tmp bytes disk.files missing))
            (Permᴰ.trans last (
              Permᴰ.trans (Permᴰ.cons refl h) (
                present-new tmp k disk disk' agrees now (omega arith) 0 n (omega arith)
                  (omega arith) (omega arith) missing)))
    ]
