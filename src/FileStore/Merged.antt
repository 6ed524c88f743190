-- ===== src/FileStore/Merged.antt =====
-- What MergeSegments leaves on the disk.
use svc_downloader.Common.{
  ◌≡◌, refl, ap, ◌∙◌, subst, true, false, ◌||◌, Option, none, some, List, [], ◌∷◌, ◌++◌, arith,
  if◌then◌else◌,
}
use svc_downloader.Common.Bytes.{Bytes, codes, same}
use svc_downloader.Errors.{ok}
use svc_downloader.Paths.{FilePath, same_path, join}
use svc_downloader.Disk.{
  Disk, find, put, drop_file, is_dir, open_error, write_file, create_file, remove_file, remove_all,
  rename, under,
}
use svc_downloader.Disk.Files.{
  same_path_refl, same_path_sound, find-put, find-drop_file, find-outside, listed-outside,
  outside_ne, under_child, outside_ne,
}
use svc_downloader.Paths.Joined.{join_plain}
use svc_downloader.FileStore.Merge.{copy_parts, merge_to, left_by, written_by}
use svc_downloader.FileStore.Copied.{
  Agrees, Agrees-trans, write_file-Agrees, IsAllowed, Agrees-IsAllowed, gathered, AreThere,
  AreApart, outside-AreApart, gathered-Agrees, AreThere-Agrees, copy_parts-ok, written_by-Agrees,
  removed_file-Agrees, mkdir_all-there,
}

-- Where a merge of parts can go: `name` in `dir` and the file beside it are no directories, and the
-- part files are not in `dir`.
pub record IsMergeable (tmp : FilePath) (name : Bytes) (dir : FilePath) (disk : Disk) : Type 0 where
  pub plain : same name (codes "/") ≡ false
  pub dir_there : is_dir disk dir ≡ true
  pub outside : under tmp dir ≡ false
  pub outside_out : same_path (name ∷ dir) tmp ≡ false
  pub outside_beside : same_path ((name ++ codes ".merge.tmp") ∷ dir) tmp ≡ false
  pub free : is_dir disk (name ∷ dir) ≡ false
  pub free_beside : is_dir disk ((name ++ codes ".merge.tmp") ∷ dir) ≡ false
  pub allowed : IsAllowed disk

-- The file that a path reads when the parts are merged to `out`.
abbrev pub merged_file :
    FilePath → FilePath → FilePath → List Bytes → Disk → FilePath → Option Bytes
merged_file tmp beside out names disk q =
    if same_path out q
    then some (gathered tmp names disk)
    else if under tmp q || same_path beside q
    then none
    else find q disk.files

dirs_same :
    (p : FilePath) {disk disk' : Disk} (q : FilePath)
    → Agrees p disk disk'
    → is_dir disk' q ≡ is_dir disk q
unfolding is_dir
dirs_same p q h = rw h.dirs refl

-- A file that is created in a directory.
create_file-ok :
    (name : Bytes) (dir : FilePath) (disk : Disk)
    → same name (codes "/") ≡ false
    → is_dir disk dir ≡ true
    → is_dir disk (name ∷ dir) ≡ false
    → IsAllowed disk
    → create_file (name ∷ dir) disk ≡ ok ([], write_file (name ∷ dir) [] disk)
unfolding create_file open_error write_file
create_file-ok name dir disk plain there free allowed =
    rw (free, plain, there, allowed (name ∷ dir)) refl

suffixed-plain : (name : Bytes) → same (name ++ codes ".merge.tmp") (codes "/") ≡ false
unfolding same
suffixed-plain [] = refl
suffixed-plain (a ∷ []) = ground arith
suffixed-plain (a ∷ b ∷ name) = ground arith

module _ (tmp : FilePath) (name : Bytes) (dir : FilePath) (names : List Bytes) (disk : Disk)
    (h : IsMergeable tmp name dir disk) (there : AreThere tmp names disk)
    (unmarked : AreApart (codes ".merge.lock" ∷ tmp) tmp names) where
  abbrev pub out : FilePath
  out = name ∷ dir

  abbrev pub beside : FilePath
  beside = (name ++ codes ".merge.tmp") ∷ dir

  abbrev pub marker : FilePath
  marker = codes ".merge.lock" ∷ tmp

  abbrev pub marked : Disk
  marked = written_by marker (codes "inprogress") disk (create_file marker disk)

  abbrev pub clean : Disk
  clean = left_by marked (remove_file beside marked)

  abbrev pub created : Disk
  created = write_file beside [] clean

  marked-Agrees : Agrees marker disk marked
  marked-Agrees = written_by-Agrees marker (codes "inprogress") disk

  clean-Agrees : Agrees beside marked clean
  clean-Agrees =
      removed_file-Agrees beside marked (dirs_same marker beside marked-Agrees ∙ h.free_beside)

  created-Agrees : Agrees beside marked created
  created-Agrees = Agrees-trans beside clean-Agrees (write_file-Agrees beside [] clean)

  same_dirs : (q : FilePath) → is_dir clean q ≡ is_dir disk q
  same_dirs q = dirs_same beside q clean-Agrees ∙ dirs_same marker q marked-Agrees

  IsAllowed-marked : IsAllowed marked
  IsAllowed-marked = Agrees-IsAllowed marker marked-Agrees h.allowed

  created_lem : create_file beside clean ≡ ok ([], created)
  created_lem =
      create_file-ok (name ++ codes ".merge.tmp") dir clean (suffixed-plain name)
        (same_dirs dir ∙ h.dir_there) (same_dirs beside ∙ h.free_beside)
        (Agrees-IsAllowed beside clean-Agrees IsAllowed-marked)

  beside_outside : under tmp beside ≡ false
  unfolding under
  beside_outside = ground (arith, h.outside, h.outside_beside)

  there_created : AreThere tmp names created
  there_created =
      AreThere-Agrees beside tmp names (outside-AreApart beside tmp names beside_outside)
        created-Agrees (AreThere-Agrees marker tmp names unmarked marked-Agrees there)

  gathered-created : gathered tmp names created ≡ gathered tmp names disk
  gathered-created =
      gathered-Agrees beside tmp names (outside-AreApart beside tmp names beside_outside)
        created-Agrees
      ∙ gathered-Agrees marker tmp names unmarked marked-Agrees

  out_outside : under tmp out ≡ false
  unfolding under
  out_outside = ground (arith, h.outside, h.outside_out)

  marker_inside : (q : FilePath) → same_path marker q ≡ true → under tmp q ≡ true
  marker_inside q e =
      subst (λ r. under tmp r ≡ true) (same_path_sound marker q e)
        (under_child (codes ".merge.lock") tmp)

  -- The disk when the file beside the final one holds all parts.
  abbrev pub Filled : Type 0
  Filled =
      (disk' : Disk) × (copy_parts tmp beside names [] created ≡ (ok tt, disk'))
      × (Agrees beside created disk' × (find beside disk'.files ≡ some (gathered tmp names disk)))

  filled : Filled
  unfolding write_file
  filled =
      let (disk', e, (agrees, holds)) =
        copy_parts-ok tmp beside names [] created (outside-AreApart beside tmp names beside_outside)
          (Agrees-IsAllowed beside created-Agrees IsAllowed-marked) there_created
          (find-put beside beside [] clean.files ∙ rw (same_path_refl beside) refl) in
      (disk', e, (agrees, holds ∙ ap some gathered-created))

  module _ (f : Filled) where
    abbrev pub full : Disk
    full = f.0

    abbrev pub all : Bytes
    all = gathered tmp names disk

    abbrev pub swapped : Disk
    swapped = record full { files = put out all (drop_file beside full.files) }

    rename_ok : rename beside out full ≡ ok swapped
    unfolding rename
    rename_ok =
        rw
          (
            f.2.1,
            dirs_same beside out f.2.0
                ∙ dirs_same beside out created-Agrees
                ∙ dirs_same marker out marked-Agrees
                ∙ h.free,
            ap (λ r. r out) (f.2.0.refused)
                ∙ Agrees-IsAllowed beside created-Agrees IsAllowed-marked out,
          )
          refl

    swapped_allowed : swapped.refused tmp ≡ false
    swapped_allowed =
        ap (λ r. r tmp) (f.2.0.refused)
        ∙ Agrees-IsAllowed beside created-Agrees IsAllowed-marked tmp

    read_lem :
        (q : FilePath)
        → find q (remove_all tmp swapped).files ≡ merged_file tmp beside out names disk q
    unfolding remove_all
    read_lem q = ground (
      arith,
      find-outside tmp q swapped.files,
      find-put out q all (drop_file beside full.files),
      find-drop_file beside q full.files,
      f.2.0.files q,
      created-Agrees.files q,
      marked-Agrees.files q,
      outside_ne tmp out q out_outside,
      marker_inside q,
      swapped_allowed,
    )

    marker_gone : is_dir (remove_all tmp swapped) marker ≡ false
    unfolding is_dir remove_all same_path same
    marker_gone =
        rw (swapped_allowed, listed-outside tmp marker swapped.dirs)
          (ground (arith, under_child (codes ".merge.lock") tmp))

    unmarked_ok :
        left_by (remove_all tmp swapped) (remove_file marker (remove_all tmp swapped))
        ≡ remove_all tmp swapped
    unfolding remove_file
    unmarked_ok =
        let gone : find marker (remove_all tmp swapped).files ≡ none =
          read_lem marker
          ∙ ground (
            arith,
            under_child (codes ".merge.lock") tmp,
            outside_ne tmp out marker out_outside,
          ) in
        rw (gone, marker_gone) refl

    marker_path : join tmp (codes ".merge.lock") ≡ marker
    unfolding same
    marker_path = join_plain tmp (codes ".merge.lock") (ground arith) refl

    merge_to_ok : merge_to tmp out names disk ≡ (ok tt, remove_all tmp swapped)
    unfolding merge_to
    merge_to_ok =
        rw
          (
            h.plain,
            mkdir_all-there dir disk h.dir_there,
            marker_path,
            h.plain,
            created_lem,
            f.1,
            rename_ok,
            unmarked_ok,
          )
          refl

  -- The merge succeeds, and leaves what `merged_file` says.
  pub merge_to-merged_file :
      (disk' : Disk) × (merge_to tmp out names disk ≡ (ok tt, disk'))
      × ((q : FilePath) → find q disk'.files ≡ merged_file tmp beside out names disk q)
  merge_to-merged_file = let f = filled in (remove_all tmp (swapped f), merge_to_ok f, read_lem f)
