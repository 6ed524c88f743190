-- ===== src/FileStore/Checksum.antt =====
-- VerifyChecksum of filestore.go.
use svc_downloader.Common.{Bool, true, Option, none, some, [], if◌then◌else◌}
use svc_downloader.Common.Bytes.{Bytes, codes, same, to_lower, equal_fold}
use svc_downloader.Models.{Download, FileOptions}
use svc_downloader.Errors.{Result, ok, err, unsupported_checksum}
use svc_downloader.Disk.{Disk, read_file}
use svc_downloader.FileStore.{final_path}

-- What md5.New, sha1.New, sha256.New and crc32.New give for all bytes of a file, as text.
pub record Hashes : Type 0 where
  pub md5 : Bytes → Bytes
  pub sha1 : Bytes → Bytes
  pub sha256 : Bytes → Bytes
  pub crc32c : Bytes → Bytes

-- The switch over the checksum type.
unfoldable pub sum_matches : Hashes → Bytes → Bytes → Bytes → Result Bool
unfolding to_lower equal_fold
sum_matches h type checksum content =
    if same (to_lower type) (codes "md5")
    then ok (equal_fold (h.md5 content) checksum)
    else if same (to_lower type) (codes "sha1")
    then ok (equal_fold (h.sha1 content) checksum)
    else if same (to_lower type) (codes "sha256")
    then ok (equal_fold (h.sha256 content) checksum)
    else if same (to_lower type) (codes "crc32c")
    then ok (equal_fold (h.crc32c content) checksum)
    else err (unsupported_checksum type)

abbrev pub sum_of_read : Hashes → FileOptions → Result Bytes → Result Bool
sum_of_read h file (err e) = err e
sum_of_read h file (ok content) = sum_matches h file.checksum_type file.checksum content

abbrev pub verify_file : Hashes → Bytes → Option FileOptions → Disk → Result Bool
verify_file h id none disk = ok true
verify_file h id (some file) disk =
    if same file.checksum []
    then ok true
    else sum_of_read h file (read_file (final_path id file) disk)

-- VerifyChecksum
unfoldable pub verify_checksum : Hashes → Download → Disk → Result Bool
unfolding sum_matches final_path read_file
verify_checksum h d disk = verify_file h d.id d.file disk
