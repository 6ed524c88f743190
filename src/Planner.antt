-- ===== src/Planner.antt =====
-- internal/planner/planner.go: the split of a download into segments. The proofs are in the modules
-- below this one.
pub mod Cover
pub mod Bounds
pub mod Merge
mod Tests
use svc_downloader.Common.{
  ℕ, zero, suc, ◌+◌, ◌-◌, ◌*◌, ◌/◌, Bool, true, false, not, ◌||◌, Option, none, some, List, [], ◌∷◌,
  ◌==◌, if◌then◌else◌,
}
use svc_downloader.Common.Bytes.{Bytes}
use svc_downloader.Common.Int.{ℤ, pos, negsuc, sub_ℕ, pos_part, leb_ℤ, ltb_ℤ}
use svc_downloader.Models.{Download, DownloadConfig, Segment, segment_pending}

-- A models.Segment with the fields that the planner sets; the others have Go's zero values.
abbrev pending_segment : Bytes → ℤ → ℤ → ℤ → Segment
pending_segment id index start end = record {
  id = [];
  download_id = id;
  index = index;
  start = start;
  end = end;
  bytes_completed = pos 0;
  status = segment_pending;
  retries = pos 0;
  checksum = [];
  temp_path = [];
  created_at = 0;
  updated_at = 0;
}

abbrev configured_connections : Option DownloadConfig → ℕ
configured_connections none = 4
configured_connections (some c) =
    if ltb_ℤ (pos 0) c.max_connections then pos_part c.max_connections else 4

-- maxConns
unfoldable pub max_conns : Download → ℕ
max_conns d = configured_connections d.config

-- The body of the loop for the segment `i`. Both operands of the division are positive.
segment_at : Bytes → ℕ → ℕ → ℕ → Segment
segment_at id content_length conns i =
    let start = content_length / conns * i in
    let end = content_length / conns * (i + 1) in
    pending_segment id (pos i) (pos start)
      (if i == conns - 1 then sub_ℕ content_length 1 else sub_ℕ end 1)

-- The loop, with `k` rounds left from the segment `i`.
segments_from : Bytes → ℕ → ℕ → ℕ → ℕ → List Segment
unfolding segment_at
segments_from id content_length conns i zero = []
segments_from id content_length conns i (suc k) =
    segment_at id content_length conns i ∷ segments_from id content_length conns (i + 1) k

unfoldable pub plan : Download → ℤ → Bool → List Segment
unfolding segments_from max_conns
plan d content_length accept_ranges =
    if not accept_ranges || leb_ℤ content_length (pos 0)
    then pending_segment d.id (pos 0) (pos 0) (negsuc 0) ∷ []
    else segments_from d.id (pos_part content_length) (max_conns d) 0 (max_conns d)
