-- ===== src/Repository/Keys.antt =====
-- The keys of repository.go (lines 35 to 152): primary keys, and the index keys of a download.
pub mod Owner
pub mod Members
pub mod Digits
use svc_downloader.Common.{
  ℕ, zero, suc, ◌+◌, ◌-◌, ◌*◌, ◌/◌, ◌%◌, ◌^◌, Bool, true, false, ◌||◌, List, [], ◌∷◌, ◌++◌,
  if◌then◌else◌, map, ltb,
}
use svc_downloader.Common.Bytes.{Bytes, codes, same, to_lower, starts_with}
use svc_downloader.Common.Int.{ℤ, pos, negsuc}
use svc_downloader.Models.{Time, is_zero, Download, DownloadStatus}

abbrev pub p_download : Bytes
p_download = codes "d|"

abbrev pub p_download_by_created_at : Bytes
p_download_by_created_at = codes "dca|"

abbrev pub p_download_by_status : Bytes
p_download_by_status = codes "dst|"

abbrev pub p_download_by_queue : Bytes
p_download_by_queue = codes "dq|"

abbrev pub p_download_by_tag : Bytes
p_download_by_tag = codes "dt|"

abbrev pub p_queue : Bytes
p_queue = codes "q|"

abbrev pub p_queue_stats : Bytes
p_queue_stats = codes "qs|"

abbrev pub p_segment : Bytes
p_segment = codes "s|"

-- bytes.Join(parts, "|")
abbrev pub join : List Bytes → Bytes
join [] = []
join (s ∷ []) = s
join (s ∷ t ∷ ts) = s ++ b'|' ∷ join (t ∷ ts)

-- The last `k` decimal digits of `n`.
unfoldable pub digits : ℕ → ℕ → Bytes
digits zero n = []
digits (suc k) n = (b'0' + n / 10 ^ k % 10) ∷ digits k n

-- The number of decimal digits of `n`; `n` itself is enough fuel.
unfoldable pub width : ℕ → ℕ → ℕ
width zero n = 1
width (suc fuel) n = let rest = width fuel (n / 10) in if ltb n 10 then 1 else suc rest

-- fmt.Sprintf("%0kd", n)
unfoldable pub padded : ℕ → ℤ → Bytes
unfolding digits width
padded k (pos n) = digits (if ltb k (width n n) then width n n else k) n
padded k (negsuc n) =
    let w = 1 + width (n + 1) (n + 1) in b'-' ∷ digits ((if ltb k w then w else k) - 1) (n + 1)

-- timeToKey; `now` is the time that time.Now() gives for the zero time.
unfoldable pub time_to_key : Time → Time → Bytes
unfolding padded
time_to_key now t = padded 20 (pos (if is_zero t then now else t))

abbrev pub k_download : Bytes → Bytes
k_download id = p_download ++ id

abbrev pub k_download_by_created_at : Bytes → Bytes → Bytes
k_download_by_created_at created id = join (p_download_by_created_at ∷ created ∷ id ∷ [])

abbrev pub k_download_by_status : DownloadStatus → Bytes → Bytes → Bytes
k_download_by_status status created id = join (p_download_by_status ∷ status ∷ created ∷ id ∷ [])

abbrev pub k_download_by_queue : Bytes → Bytes → Bytes → Bytes
k_download_by_queue queue_id created id = join (p_download_by_queue ∷ queue_id ∷ created ∷ id ∷ [])

abbrev pub k_download_by_tag : Bytes → Bytes → Bytes → Bytes
k_download_by_tag tag created id = join (p_download_by_tag ∷ tag ∷ created ∷ id ∷ [])

abbrev pub k_queue : Bytes → Bytes
k_queue id = p_queue ++ id

abbrev pub k_queue_stats : Bytes → Bytes
k_queue_stats id = p_queue_stats ++ id

unfoldable pub k_segment : Bytes → ℤ → Bytes
unfolding padded
k_segment download_id index = join (p_segment ∷ download_id ∷ padded 9 index ∷ [])

-- The loop over the tags.
tag_keys : List Bytes → Bytes → Bytes → List Bytes
tag_keys [] created id = []
tag_keys (tag ∷ tags) created id =
    let rest = tag_keys tags created id in
    if same tag [] then rest else k_download_by_tag (to_lower tag) created id ∷ rest

-- The keys that indexDownload sets and unindexDownload deletes, in this order.
unfoldable pub index_keys : Bytes → Download → List Bytes
unfolding tag_keys
index_keys created d =
    k_download_by_created_at created d.id
    ∷ ((if same d.status [] then [] else k_download_by_status d.status created d.id ∷ [])
        ++ ((if same d.queue_id [] then [] else k_download_by_queue d.queue_id created d.id ∷ [])
            ++ tag_keys d.tags created d.id))

-- The keys under one of the four index prefixes.
unfoldable pub is_index_key : Bytes → Bool
unfolding starts_with
is_index_key k =
    starts_with k p_download_by_created_at
    || starts_with k p_download_by_status
    || starts_with k p_download_by_queue
    || starts_with k p_download_by_tag
