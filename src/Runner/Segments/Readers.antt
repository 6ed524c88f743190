-- ===== src/Runner/Segments/Readers.antt =====
-- The readers and the checksums of downloadSegment in runner.go.
use svc_downloader.Common.{ℕ, Bool, false, Option, none, some, [], if◌then◌else◌, ltb, ◌==◌}
use svc_downloader.Common.Lists.{length, take, drop}
use svc_downloader.Common.Bytes.{Bytes, codes, same, to_lower}
use svc_downloader.Common.Int.{ℤ, pos, pos_part, ◌+ℤ◌, ◌-ℤ◌, ltb_ℤ}
use svc_downloader.Models.{DownloadConfig, FileOptions}
use svc_downloader.Errors.{Result, ok, err, eof, broken_body}
use svc_downloader.FileStore.Checksum.{Hashes}
use svc_downloader.Transport.{Response}

-- The bytes that a reader gives, and whether it then fails; io.LimitReader.
abbrev pub Reader : Type 0
Reader = Bytes × Bool

unfoldable pub limit_reader : ℕ → Reader → Reader
limit_reader n (bytes, fault) =
    if ltb (length bytes) n then (bytes, fault) else (take n bytes, false)

-- io.CopyN(io.Discard, body, n): the reader that is left, or the error of a shorter body.
unfoldable pub discard : ℕ → Reader → Result Reader
discard n (bytes, fault) =
    if ltb (length bytes) n
    then err (if fault then broken_body else eof)
    else ok (drop n bytes, fault)

-- The reader of a whole answer, cut down to the segment.
abbrev pub bounded : ℤ → ℤ → Reader → Reader
bounded start end r =
    if ltb_ℤ end (pos 0) then r else limit_reader (pos_part (end -ℤ start +ℤ pos 1)) r

abbrev pub cut_reader : ℤ → ℤ → Result Reader → Result Reader
cut_reader start end (err e) = err e
cut_reader start end (ok r) = ok (bounded start end r)

-- The reader of the bytes behind `start`, for the status of the answer.
unfoldable pub body_reader : ℤ → ℤ → Response → Result Reader
unfolding limit_reader discard
body_reader start end r =
    if r.status == 200
    then cut_reader start end (
        if ltb_ℤ (pos 0) start
        then discard (pos_part start) (r.body, r.fault)
        else ok (r.body, r.fault))
    else ok (r.body, r.fault)

-- The limit by MaxFileSize.
abbrev pub capped : Option FileOptions → ℤ → Reader → Reader
capped none completed r = r
capped (some file) completed r =
    if ltb_ℤ (pos 0) file.max_file_size
    then limit_reader (pos_part (file.max_file_size -ℤ completed)) r
    else r

abbrev pub checksum_type_of : Option DownloadConfig → Bytes
checksum_type_of none = codes "md5"
checksum_type_of (some c) =
    if same c.segment_checksum_type [] then codes "md5" else to_lower c.segment_checksum_type

-- The checksum of the bytes that were written; what there was, for the type `none`.
unfoldable pub checksum_of : Hashes → Bytes → Bytes → Bytes → Bytes
checksum_of h type old content =
    if same type (codes "sha1")
    then h.sha1 content
    else if same type (codes "sha256")
    then h.sha256 content
    else if same type (codes "crc32c")
    then h.crc32c content
    else if same type (codes "none")
    then old
    else h.md5 content
