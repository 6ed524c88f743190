-- ===== src/FileStore/Merge.antt =====
-- MergeSegments of filestore.go: the parts are copied, in order, to a file beside the final one, which it
-- then replaces.
use svc_downloader.Common.{Option, none, some, List, [], ◌∷◌, ◌++◌}
use svc_downloader.Common.Bytes.{Bytes, codes}
use svc_downloader.Models.{Download, FileOptions}
use svc_downloader.Errors.{Result, ok, err, no_parts}
use svc_downloader.Paths.{FilePath, join, parent, with_suffix}
use svc_downloader.Disk.{
  Disk, mkdir_all, write_file, create_file, read_file, remove_all, remove_file, rename,
}
use svc_downloader.FileStore.{final_path, temp_dir}
use svc_downloader.FileStore.Parts.{list_parts}
use svc_downloader.FileStore.Target.{target}

-- The loop over the parts: io.Copy of each to the open file `out`, which holds `written`.
abbrev pub copy_found :
    FilePath
    → Bytes
    → (Bytes → Disk → Result (Unit {0}) × Disk)
    → Result Bytes
    → Disk
    → Result (Unit {0}) × Disk
copy_found out written rest (err e) disk = (err e, disk)
copy_found out written rest (ok content) disk =
    rest (written ++ content) (write_file out (written ++ content) disk)

unfoldable pub copy_parts :
    FilePath → FilePath → List Bytes → Bytes → Disk → Result (Unit {0}) × Disk
unfolding read_file write_file
copy_parts tmp out [] written disk = (ok tt, disk)
copy_parts tmp out (name ∷ names) written disk =
    copy_found out written (copy_parts tmp out names) (read_file (name ∷ tmp) disk) disk

-- os.Remove and os.WriteFile, their errors ignored.
abbrev pub left_by : Disk → Result Disk → Disk
left_by disk (err e) = disk
left_by disk (ok disk') = disk'

abbrev pub written_by : FilePath → Bytes → Disk → Result (Bytes × Disk) → Disk
written_by p content disk (err e) = disk
written_by p content disk (ok (old, disk')) = write_file p content disk'

-- os.Rename of the merged file and the removal of the parts.
abbrev pub finish : FilePath → Disk → Result Disk → Result (Unit {0}) × Disk
finish tmp disk (err e) = (err e, disk)
finish tmp disk (ok disk') = (ok tt, remove_all tmp disk')

abbrev pub move :
    FilePath → FilePath → FilePath → Result (Unit {0}) × Disk → Result (Unit {0}) × Disk
move tmp tmp_out out (err e, disk) = (err e, disk)
move tmp tmp_out out (ok u, disk) = finish tmp disk (rename tmp_out out disk)

abbrev pub merge_opened :
    FilePath
    → FilePath
    → FilePath
    → List Bytes
    → Disk
    → Result (Bytes × Disk)
    → Result (Unit {0}) × Disk
merge_opened tmp tmp_out out names disk (err e) = (err e, disk)
merge_opened tmp tmp_out out names disk (ok (old, disk')) =
    move tmp tmp_out out (copy_parts tmp tmp_out names [] disk')

-- The deferred removal of the marker.
abbrev pub unmark : FilePath → Result (Unit {0}) × Disk → Result (Unit {0}) × Disk
unmark marker (r, disk) = (r, left_by disk (remove_file marker disk))

abbrev pub merge_marked : FilePath → FilePath → List Bytes → Disk → Result (Unit {0}) × Disk
merge_marked tmp out names disk =
    let tmp_out = with_suffix (codes ".merge.tmp") out in
    let clean = left_by disk (remove_file tmp_out disk) in
    merge_opened tmp tmp_out out names clean (create_file tmp_out clean)

abbrev pub merge_made :
    FilePath → FilePath → List Bytes → Result (Unit {0}) × Disk → Result (Unit {0}) × Disk
merge_made tmp out names (err e, disk) = (err e, disk)
merge_made tmp out names (ok u, disk) =
    let marker = join tmp (codes ".merge.lock") in
    unmark marker (
      merge_marked tmp out names
        (written_by marker (codes "inprogress") disk (create_file marker disk)))

-- MergeSegments from the choice of the final path on.
unfoldable pub merge_to : FilePath → FilePath → List Bytes → Disk → Result (Unit {0}) × Disk
unfolding mkdir_all remove_file create_file copy_parts rename remove_all
merge_to tmp out names disk = merge_made tmp out names (mkdir_all (parent out) disk)

abbrev pub Merged : Type 0
Merged = Option (Result (Unit {0}) × Download × Disk)

abbrev pub with_file : Download → FileOptions → Result (Unit {0}) × Disk → Merged
with_file d file (r, disk) = some (r, record d { file = some file }, disk)

abbrev pub merge_target :
    FilePath → List Bytes → Download → Option (Result FileOptions) → Disk → Merged
merge_target tmp names d none disk = none
merge_target tmp names d (some (err e)) disk = some (err e, d, disk)
merge_target tmp names d (some (ok file)) disk =
    with_file d file (merge_to tmp (final_path d.id file) names disk)

abbrev pub merge_file : FilePath → List Bytes → Download → Option FileOptions → Disk → Merged
merge_file tmp names d none disk = none
merge_file tmp names d (some file) disk = merge_target tmp names d (target d.id file disk) disk

abbrev pub merge_parts : FilePath → Download → Result (List Bytes) → Disk → Merged
merge_parts tmp d (err e) disk = some (err e, d, disk)
merge_parts tmp d (ok []) disk = some (err no_parts, d, disk)
merge_parts tmp d (ok (name ∷ names)) disk = merge_file tmp (name ∷ names) d d.file disk

abbrev pub merge_in : Download → Option FilePath → Disk → Merged
merge_in d none disk = none
merge_in d (some tmp) disk = merge_parts tmp d (list_parts tmp disk) disk

module _ (home : Option Bytes) where
  -- MergeSegments
  unfoldable pub merge_segments : Download → Disk → Merged
  unfolding temp_dir list_parts target merge_to
  merge_segments d disk = merge_in d (temp_dir home d) disk
