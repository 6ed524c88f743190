-- ===== src/FileStore/Copied.antt =====
-- The steps of MergeSegments, and the files that they leave alone.
use svc_downloader.Common.{
  ◌≡◌, refl, ap, ◌∙◌, true, false, some, List, [], ◌∷◌, ◌++◌, append_assoc, append-nil, is_some,
  inl, inr, arith, Bool-cases, Option-cases,
}
use svc_downloader.Common.Bytes.{Bytes, AllTexts}
use svc_downloader.Errors.{ok}
use svc_downloader.Paths.{FilePath, same_path}
use svc_downloader.Disk.{
  Disk, find, is_dir, open_error, kept_bytes, write_file, create_file, read_file, remove_file,
  under, mkdir_all,
}
use svc_downloader.Disk.Files.{same_path_refl, find-put, find-drop_file, under_child, outside_ne}
use svc_downloader.FileStore.Merge.{copy_parts, left_by, written_by}

-- The same disk, but for the file at `p`.
pub record Agrees (p : FilePath) (disk disk' : Disk) : Type 0 where
  pub dirs : disk'.dirs ≡ disk.dirs
  pub refused : disk'.refused ≡ disk.refused
  pub files : (q : FilePath) → same_path p q ≡ false → find q disk'.files ≡ find q disk.files

pub Agrees-refl : (p : FilePath) (disk : Disk) → Agrees p disk disk
Agrees-refl p disk = record { dirs = refl; refused = refl; files = λ q ne. refl }

pub Agrees-trans : (p : FilePath) {a b c : Disk} → Agrees p a b → Agrees p b c → Agrees p a c
Agrees-trans p h k = record {
  dirs = k.dirs ∙ h.dirs;
  refused = k.refused ∙ h.refused;
  files = λ q ne. k.files q ne ∙ h.files q ne;
}

pub write_file-Agrees :
    (p : FilePath) (content : Bytes) (disk : Disk) → Agrees p disk (write_file p content disk)
unfolding write_file
write_file-Agrees p content disk = record {
  dirs = refl;
  refused = refl;
  files = λ q ne. rw (find-put p q content disk.files, ne) refl;
}

-- The system denies nothing.
abbrev pub IsAllowed : Disk → Type 0
IsAllowed disk = (q : FilePath) → disk.refused q ≡ false

pub Agrees-IsAllowed :
    (p : FilePath) {disk disk' : Disk} → Agrees p disk disk' → IsAllowed disk → IsAllowed disk'
Agrees-IsAllowed p h allowed q = ap (λ f. f q) h.refused ∙ allowed q

-- The bytes of the named files of a directory, one after the other.
abbrev pub gathered : FilePath → List Bytes → Disk → Bytes
gathered tmp [] disk = []
gathered tmp (name ∷ names) disk =
    kept_bytes (find (name ∷ tmp) disk.files) ++ gathered tmp names disk

abbrev pub AreThere : FilePath → List Bytes → Disk → Type 0
AreThere tmp names disk = AllTexts (λ name. is_some (find (name ∷ tmp) disk.files) ≡ true) names

-- None of the named files is at `p`.
abbrev pub AreApart : FilePath → FilePath → List Bytes → Type 0
AreApart p tmp names = AllTexts (λ name. same_path p (name ∷ tmp) ≡ false) names

pub outside-AreApart :
    (p tmp : FilePath) (names : List Bytes) → under tmp p ≡ false → AreApart p tmp names
outside-AreApart p tmp [] out = tt
outside-AreApart p tmp (name ∷ names) out =
    (outside_ne tmp p (name ∷ tmp) out (under_child name tmp), outside-AreApart p tmp names out)

pub gathered-Agrees :
    (p tmp : FilePath) (names : List Bytes) {disk disk' : Disk}
    → AreApart p tmp names
    → Agrees p disk disk'
    → gathered tmp names disk' ≡ gathered tmp names disk
gathered-Agrees p tmp [] apart h = refl
gathered-Agrees p tmp (name ∷ names) (ne, apart) h =
    rw (h.files (name ∷ tmp) ne, gathered-Agrees p tmp names apart h) refl

pub AreThere-Agrees :
    (p tmp : FilePath) (names : List Bytes) {disk disk' : Disk}
    → AreApart p tmp names
    → Agrees p disk disk'
    → AreThere tmp names disk
    → AreThere tmp names disk'
AreThere-Agrees p tmp [] apart h there = tt
AreThere-Agrees p tmp (name ∷ names) (ne, apart) h (here, there) =
    (rw (h.files (name ∷ tmp) ne) here, AreThere-Agrees p tmp names apart h there)

read_file-ok :
    (p : FilePath) (disk : Disk)
    → IsAllowed disk
    → is_some (find p disk.files) ≡ true
    → read_file p disk ≡ ok (kept_bytes (find p disk.files))
unfolding read_file
read_file-ok p disk allowed there = elim (Option-cases (find p disk.files)) [
  | inl none' ↦ absurd (ground (arith, there, none'))
  | inr (content, e) ↦ rw (e, allowed p) refl
]

-- The open file that the parts are copied to holds them in order behind what it held.
pub copy_parts-ok :
    (tmp out : FilePath) (names : List Bytes) (written : Bytes) (disk : Disk)
    → AreApart out tmp names
    → IsAllowed disk
    → AreThere tmp names disk
    → find out disk.files ≡ some written
    → (disk' : Disk) × (copy_parts tmp out names written disk ≡ (ok tt, disk'))
      × (Agrees out disk disk' × (find out disk'.files ≡ some (written ++ gathered tmp names disk)))
unfolding copy_parts write_file
copy_parts-ok tmp out [] written disk apart allowed there here =
    (disk, refl, (Agrees-refl out disk, rw append-nil here))
copy_parts-ok tmp out (name ∷ names) written disk (ne, apart) allowed (first, there) here =
    let content = kept_bytes (find (name ∷ tmp) disk.files) in
    let next = write_file out (written ++ content) disk in
    let step = write_file-Agrees out (written ++ content) disk in
    let (disk', e, (agrees, holds)) =
      copy_parts-ok tmp out names (written ++ content) next apart
        (Agrees-IsAllowed out step allowed) (AreThere-Agrees out tmp names apart step there)
        (find-put out out (written ++ content) disk.files ∙ rw (same_path_refl out) refl) in
    (
      disk',
      rw (read_file-ok (name ∷ tmp) disk allowed first) e,
      (
        Agrees-trans out step agrees,
        holds
            ∙ ap some (
                ap (λ g. (written ++ content) ++ g) (gathered-Agrees out tmp names apart step)
                ∙ append_assoc written content (gathered tmp names disk)),
      ),
    )

-- What the marker of a merge in progress and the file beside the final one do to the other paths.
pub written_by-Agrees :
    (p : FilePath) (content : Bytes) (disk : Disk)
    → Agrees p disk (written_by p content disk (create_file p disk))
unfolding create_file write_file
written_by-Agrees p content disk = elim (Option-cases (open_error p disk)) [
  | inl none' ↦ rw none' (
      Agrees-trans p (write_file-Agrees p [] disk)
        (write_file-Agrees p content (write_file p [] disk)))
  | inr (e, some') ↦ rw some' (Agrees-refl p disk)
]

pub removed_file-Agrees :
    (p : FilePath) (disk : Disk)
    → is_dir disk p ≡ false
    → Agrees p disk (left_by disk (remove_file p disk))
unfolding remove_file
removed_file-Agrees p disk file = elim (Option-cases (find p disk.files)) [
  | inl none' ↦ rw (none', file) (Agrees-refl p disk)
  | inr (content, some') ↦ rw some' (elim (Bool-cases (disk.refused p)) [
    | inl denied' ↦ rw denied' (Agrees-refl p disk)
    | inr fine ↦ rw fine (record {
      dirs = refl;
      refused = refl;
      files = λ q ne. find-drop_file p q disk.files ∙ rw ne refl;
    })
  ])
]

pub mkdir_all-there :
    (p : FilePath) (disk : Disk) → is_dir disk p ≡ true → mkdir_all p disk ≡ (ok tt, disk)
unfolding mkdir_all
mkdir_all-there [] disk h = refl
mkdir_all-there (name ∷ p) disk h = rw h refl
