-- ===== src/FileStore.antt =====
-- internal/filestore/filestore.go: the files of a download. `home` is what os.UserHomeDir gives. A
-- result `none` is the panic of a read through the nil pointer d.File. The contexts are not read.
pub mod Parts
pub mod Target
pub mod Merge
pub mod Checksum
pub mod Order
pub mod Unique
pub mod Copied
pub mod Merged
pub mod Listed
pub mod Kept
mod Tests
use svc_downloader.Common.{
  ℕ, zero, suc, ◌+◌, ◌-◌, Bool, true, false, not, ◌&&◌, ◌||◌, Option, none, some, List, [], ◌∷◌,
  ◌++◌, map, if◌then◌else◌, ltb, ◌==◌,
}
use svc_downloader.Common.Lists.{length, take, filter}
use svc_downloader.Common.Bytes.{Bytes, codes, same, to_lower, equal_fold}
use svc_downloader.Common.Int.{ℤ, pos}
use svc_downloader.Models.{Download, FileOptions, Segment}
use svc_downloader.Errors.{
  Error, Result, ok, err, file_options_required, no_parts, target_exists, unsupported_checksum,
}
use svc_downloader.Repository.Keys.{padded, digits, width}
use svc_downloader.Paths.{FilePath, join, path_of, join_texts, parent, with_suffix, ext, ends_with}
use svc_downloader.Disk.{
  Disk, exists, mkdir_all, open_file, write_file, create_file, read_file, remove_all, remove_file,
  rename, read_dir,
}

-- A method's result and the disk that it leaves; `none` is a panic.
abbrev pub Effect : Type 0 → Type 0
Effect A = Option (Result A × Disk)

-- fmt.Sprintf("%09d.part", s.Index)
unfoldable pub part_name : ℤ → Bytes
unfolding padded
part_name index = padded 9 index ++ codes ".part"

-- finalPath, where d.File is not nil.
unfoldable pub final_path : Bytes → FileOptions → FilePath
unfolding join_texts
final_path id file = join_texts file.path (if same file.filename [] then id else file.filename)

module _ (home : Option Bytes) where
  abbrev pub home_temp : Bytes → Bytes → FilePath
  home_temp dir id = join (join_texts dir (codes ".slog/downloader/tmp")) id

  abbrev pub default_temp : Bytes → Option Bytes → Option FileOptions → Option FilePath
  default_temp id (some dir) file = some (home_temp dir id)
  default_temp id none none = none
  default_temp id none (some file) = some (join (join_texts file.path (codes ".tmp")) id)

  abbrev pub chosen_temp : Bytes → Option FileOptions → Option FilePath
  chosen_temp id none = default_temp id home none
  chosen_temp id (some file) =
      if same file.temp_dir []
      then default_temp id home (some file)
      else some (join_texts file.temp_dir id)

  -- tempDir
  unfoldable pub temp_dir : Download → Option FilePath
  unfolding join join_texts
  temp_dir d = chosen_temp d.id d.file

  abbrev pub home_or_here : Option Bytes → Bytes
  home_or_here none = codes "."
  home_or_here (some dir) = dir

  abbrev pub base_dir : FileOptions → FilePath
  base_dir file =
      if same file.path []
      then join_texts (home_or_here home) (codes "Downloads")
      else path_of file.path

  abbrev pub make_temp : Option FilePath → Result (Unit {0}) × Disk → Effect (Unit {0})
  make_temp none (r, disk) = none
  make_temp (some tmp) (ok u, disk) = some (mkdir_all tmp disk)
  make_temp (some tmp) (err e, disk) = some (err e, disk)

  abbrev pub prepare_file : Download → Option FileOptions → Disk → Effect (Unit {0})
  prepare_file d none disk = some (err file_options_required, disk)
  prepare_file d (some file) disk = make_temp (temp_dir d) (mkdir_all (base_dir file) disk)

  -- Prepare
  unfoldable pub prepare : Download → Disk → Effect (Unit {0})
  unfolding temp_dir mkdir_all path_of join_texts
  prepare d disk = prepare_file d d.file disk

  -- OpenSegmentWriter: the bytes of the part file, whose number the code returns; a write appends.
  abbrev pub part_opened : Disk → Result (Bytes × Disk) → Result Bytes × Disk
  part_opened disk (err e) = (err e, disk)
  part_opened disk (ok (content, disk')) = (ok content, disk')

  abbrev pub open_made : FilePath → ℤ → Result (Unit {0}) × Disk → Result Bytes × Disk
  open_made tmp index (err e, disk) = (err e, disk)
  open_made tmp index (ok u, disk) = part_opened disk (open_file (join tmp (part_name index)) disk)

  abbrev pub open_in : Option FilePath → ℤ → Disk → Effect Bytes
  open_in none index disk = none
  open_in (some tmp) index disk = some (open_made tmp index (mkdir_all tmp disk))

  unfoldable pub open_segment_writer : Download → Segment → Disk → Effect Bytes
  unfolding temp_dir mkdir_all part_name open_file join
  open_segment_writer d s disk = open_in (temp_dir d) s.index disk

  -- What a copy to the writer of a segment leaves: the file holds `content`.
  abbrev pub write_in : Option FilePath → ℤ → Bytes → Disk → Disk
  write_in none index content disk = disk
  write_in (some tmp) index content disk = write_file (join tmp (part_name index)) content disk

  unfoldable pub write_segment : Download → Segment → Bytes → Disk → Disk
  unfolding temp_dir part_name write_file join
  write_segment d s content disk = write_in (temp_dir d) s.index content disk

  abbrev pub removed_final : Disk → Result Disk → Result (Unit {0}) × Disk
  removed_final disk (err e) = (err e, disk)
  removed_final disk (ok disk') = (ok tt, disk')

  abbrev pub remove_final : Bytes → Option FileOptions → Disk → Effect (Unit {0})
  remove_final id none disk = none
  remove_final id (some file) disk =
      some (removed_final disk (remove_file (final_path id file) disk))

  abbrev pub remove_in : Download → Option FilePath → Disk → Effect (Unit {0})
  remove_in d none disk = none
  remove_in d (some tmp) disk = remove_final d.id d.file (remove_all tmp disk)

  -- RemoveDownloadFiles
  unfoldable pub remove_download_files : Download → Disk → Effect (Unit {0})
  unfolding temp_dir remove_all remove_file final_path
  remove_download_files d disk = remove_in d (temp_dir d) disk
