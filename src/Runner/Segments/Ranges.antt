-- ===== src/Runner/Segments/Ranges.antt =====
-- The test of the Content-Range header in downloadSegment of runner.go.
use svc_downloader.Common.{
  Bool, true, ◌&&◌, ◌||◌, not, Option, none, some, List, [], ◌∷◌, if◌then◌else◌,
}
use svc_downloader.Common.Bytes.{Bytes, codes, same, to_lower}
use svc_downloader.Common.Int.{ℤ, pos, ltb_ℤ, eq_ℤ}
use svc_downloader.Common.Maps.{lookup}
use svc_downloader.Common.Scan.{fields, cut, parse_int}
use svc_downloader.Transport.{Response, first_value}

-- hdrs["Content-Range"]
unfoldable pub content_range : Response → Bytes
content_range r = first_value (lookup (codes "Content-Range") r.headers)

abbrev pub start_ok : ℤ → Option ℤ → Bool
start_ok start none = true
start_ok start (some n) = eq_ℤ n start

abbrev pub end_ok : ℤ → ℤ → Option ℤ → Bool
end_ok start end none = true
end_ok start end (some n) = ltb_ℤ end (pos 0) || not (ltb_ℤ n start || ltb_ℤ end n)

-- The two numbers of a range; a part that is no number is not tested.
abbrev pub range_ok : ℤ → ℤ → Option (Bytes × Bytes) → Bool
range_ok start end none = true
range_ok start end (some ([], re)) = true
range_ok start end (some (c ∷ rs, re)) =
    start_ok start (parse_int (c ∷ rs)) && end_ok start end (parse_int re)

abbrev pub slashed_ok : ℤ → ℤ → Option (Bytes × Bytes) → Bool
slashed_ok start end none = true
slashed_ok start end (some ([], total)) = true
slashed_ok start end (some (c ∷ range, total)) = range_ok start end (cut b'-' (c ∷ range))

abbrev pub fields_ok : ℤ → ℤ → List Bytes → Bool
fields_ok start end (unit ∷ range ∷ []) =
    if same (to_lower unit) (codes "bytes") then slashed_ok start end (cut b'/' range) else true
fields_ok start end _ = true

-- The header of a partial answer, which may be absent or of another form, fits what was asked for.
unfoldable pub is_expected : ℤ → ℤ → Bytes → Bool
unfolding fields cut parse_int
is_expected start end cr = fields_ok start end (fields cr)
