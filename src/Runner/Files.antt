-- ===== src/Runner/Files.antt =====
-- The part files of a run, where the system denies nothing and the temporary directory is there.
use svc_downloader.Common.{
  ℕ, ◌≡◌, refl, ap, ◌∙◌, true, false, Option, some, [], ◌∷◌, ◌++◌, arith, ltb, if◌then◌else◌,
}
use svc_downloader.Common.Bytes.{Bytes, codes, same}
use svc_downloader.Common.Int.{pos}
use svc_downloader.Models.{Download, Segment}
use svc_downloader.Errors.{ok}
use svc_downloader.Repository.Keys.{padded, digits, width}
use svc_downloader.Paths.{FilePath, join}
use svc_downloader.Disk.{Disk, find, is_dir, open_file, open_error, kept_bytes, write_file}
use svc_downloader.Paths.Joined.{LacksSlash, LacksSlash-append, is_plain, join_plain}
use svc_downloader.FileStore.{temp_dir, chosen_temp, part_name, open_segment_writer, write_segment}
use svc_downloader.FileStore.Copied.{IsAllowed, mkdir_all-there}
use svc_downloader.FileStore.Unique.{digits-LacksSlash}
use svc_downloader.Runner.Settings.{Settings, settings}

-- A text of at least three bytes.
long-plain : (s t : Bytes) (a c e : ℕ) → is_plain (s ++ a ∷ c ∷ e ∷ t) ≡ true
unfolding same
long-plain [] t a c e = ground arith
long-plain (x ∷ []) t a c e = ground arith
long-plain (x ∷ y ∷ []) t a c e = ground arith
long-plain (x ∷ y ∷ z ∷ s) t a c e = ground arith

long-name : (s t : Bytes) (a c : ℕ) → same (s ++ a ∷ c ∷ t) (codes "/") ≡ false
unfolding same
long-name [] t a c = ground arith
long-name (x ∷ []) t a c = ground arith
long-name (x ∷ y ∷ s) t a c = ground arith

abbrev digit_count : ℕ → ℕ
digit_count n = if ltb 9 (width n n) then width n n else 9

part_name-digits : (n : ℕ) → part_name (pos n) ≡ digits (digit_count n) n ++ codes ".part"
unfolding part_name padded
part_name-digits n = refl

part_name-LacksSlash : (n : ℕ) → LacksSlash (part_name (pos n))
part_name-LacksSlash n = rw (part_name-digits n) (
    LacksSlash-append (digits (digit_count n) n) (codes ".part")
      (digits-LacksSlash (digit_count n) n) (ground arith))

part_name-plain : (n : ℕ) → is_plain (part_name (pos n)) ≡ true
part_name-plain n =
    rw (part_name-digits n) (long-plain (digits (digit_count n) n) (codes "rt") b'.' b'p' b'a')

part_name-name : (n : ℕ) → same (part_name (pos n)) (codes "/") ≡ false
part_name-name n =
    rw (part_name-digits n) (long-name (digits (digit_count n) n) (codes "art") b'.' b'p')

-- Where part files can be opened: the same for all disks of a run.
pub record IsOpen (tmp : FilePath) (disk : Disk) : Type 0 where
  pub allowed : IsAllowed disk
  pub there : is_dir disk tmp ≡ true
  pub free : (n : ℕ) → is_dir disk (part_name (pos n) ∷ tmp) ≡ false

module _ (home : Option Bytes) (s : Settings) (tmp : FilePath)
    (temp : chosen_temp home s.id s.file ≡ some tmp) (d : Download) (kept : settings d ≡ s) where
  temp_dir_lem : temp_dir home d ≡ some tmp
  unfolding temp_dir
  temp_dir_lem = ap (λ x. chosen_temp home x.id x.file) kept ∙ temp

  module _ (seg : Segment) (n : ℕ) (index : seg.index ≡ pos n) (disk : Disk)
      (h : IsOpen tmp disk) where
    abbrev pub part : FilePath
    part = part_name (pos n) ∷ tmp

    part_path : join tmp (part_name seg.index) ≡ part
    part_path =
        ap (λ i. join tmp (part_name i)) index
        ∙ join_plain tmp (part_name (pos n)) (part_name-LacksSlash n) (part_name-plain n)

    open_file_lem :
        open_file part disk
        ≡ ok (
          kept_bytes (find part disk.files),
          write_file part (kept_bytes (find part disk.files)) disk,
        )
    unfolding open_file open_error write_file
    open_file_lem = rw (h.free n, part_name-name n, h.there, h.allowed part) refl

    -- The writer is opened at the end of what the part file holds.
    pub open_segment_writer_lem :
        open_segment_writer home d seg disk
        ≡ some (
          ok (kept_bytes (find part disk.files)),
          write_file part (kept_bytes (find part disk.files)) disk,
        )
    unfolding open_segment_writer
    open_segment_writer_lem =
        rw (temp_dir_lem, mkdir_all-there tmp disk h.there, part_path, open_file_lem) refl

    pub write_segment_lem :
        (content : Bytes) → write_segment home d seg content disk ≡ write_file part content disk
    unfolding write_segment
    write_segment_lem content = rw (temp_dir_lem, part_path) refl
