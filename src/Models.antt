-- ===== src/Models.antt =====
-- internal/models/models.go and internal/models/interfaces.go: the data that the parts exchange.
-- A Go string is a list of bytes; int and int64 are ℤ; a pointer is an `Option`; a map is a list of
-- pairs; a time.Time is its nanoseconds since 1970, with 0 for the zero time; a time.Duration is its
-- nanoseconds; a float64 is the number of its bit pattern.
use svc_downloader.Common.{ℕ, Bool, Option, List, ◌==◌}
use svc_downloader.Common.Bytes.{Bytes, codes}
use svc_downloader.Common.Int.{ℤ}

abbrev pub Time : Type 0
Time = ℕ

-- t.IsZero()
abbrev pub is_zero : Time → Bool
is_zero t = t == 0

abbrev pub Float64 : Type 0
Float64 = ℕ

abbrev pub StringMap : Type 0
StringMap = List (Bytes × Bytes)

pub record Proxy : Type 0 where
  pub ip : Bytes
  pub port : ℤ
  pub type : Bytes
  pub username : Bytes
  pub password : Bytes
  pub tls_verify : Bool
  pub timeout : ℤ
  pub failover : List Bytes
  pub max_conns : ℤ
  pub auth_type : Bytes

pub record Auth : Type 0 where
  pub type : Bytes
  pub username : Bytes
  pub password : Bytes
  pub bearer_token : Bytes
  pub client_cert_path : Bytes
  pub client_key_path : Bytes

pub record TlsOptions : Type 0 where
  pub insecure_skip_verify : Bool
  pub ca_cert_path : Bytes
  pub server_name : Bytes
  pub min_version : ℕ  -- uint16
  pub max_version : ℕ  -- uint16

pub record RetryPolicy : Type 0 where
  pub max_retries : ℤ
  pub retry_delay : ℤ
  pub backoff_factor : Float64
  pub jitter : ℤ

pub record DownloadConfig : Type 0 where
  pub max_connections : ℤ
  pub buffer_size : ℤ
  pub proxy : Option Proxy
  pub timeout : ℤ
  pub follow_redirects : Bool
  pub redirects_limit : ℤ
  pub allow_insecure_tls : Bool
  pub tls : Option TlsOptions
  pub auth : Option Auth
  pub accept_ranges : Bool
  pub resume : Bool
  pub retries : ℤ
  pub retry_delay : ℤ
  pub retry_jitter : ℤ
  pub backoff_factor : Float64
  pub retry : RetryPolicy
  pub rate_limit : ℤ
  pub global_rate_limit : Bool
  pub only_on_unmetered : Bool
  pub verify_content_type : Bool
  pub mime : Bytes
  pub headers : StringMap
  pub cookies : StringMap
  pub disable_head : Bool
  pub segment_checksum_type : Bytes

pub record FileOptions : Type 0 where
  pub path : Bytes
  pub filename : Bytes
  pub temp_dir : Bytes
  pub overwrite : Bool
  pub unique_filename : Bool
  pub checksum : Bytes
  pub checksum_type : Bytes
  pub max_file_size : ℤ

-- The anonymous struct of the field `Extra`.
pub record RequestExtra : Type 0 where
  pub method : Bytes
  pub query_params : StringMap
  pub headers : StringMap
  pub cookies : StringMap
  pub body : Bytes
  pub content_length : ℤ
  pub content_type : Bytes
  pub protocol : Bytes
  pub follow_redirects : Bool
  pub allow_insecure_tls : Bool

pub record RequestOptions : Type 0 where
  pub url : Bytes
  pub user_agent : Bytes
  pub mirror_urls : List Bytes
  pub extra : Option RequestExtra

pub record ResponseMetadata : Type 0 where
  pub etag : Bytes
  pub last_modified : Bytes
  pub accept_ranges : Bool
  pub content_type : Bytes
  pub content_length : ℤ

-- DefaultQueueName
abbrev pub default_queue_name : Bytes
default_queue_name = codes "main"

-- A string type: the constants below are not its only values.
abbrev pub DownloadStatus : Type 0
DownloadStatus = Bytes

abbrev pub status_pending : DownloadStatus
status_pending = codes "pending"

abbrev pub status_queued : DownloadStatus
status_queued = codes "queued"

abbrev pub status_running : DownloadStatus
status_running = codes "running"

abbrev pub status_paused : DownloadStatus
status_paused = codes "paused"

abbrev pub status_completed : DownloadStatus
status_completed = codes "completed"

abbrev pub status_failed : DownloadStatus
status_failed = codes "failed"

abbrev pub status_cancelled : DownloadStatus
status_cancelled = codes "cancelled"

abbrev pub SegmentStatus : Type 0
SegmentStatus = Bytes

abbrev pub segment_pending : SegmentStatus
segment_pending = codes "pending"

abbrev pub segment_running : SegmentStatus
segment_running = codes "running"

abbrev pub segment_completed : SegmentStatus
segment_completed = codes "completed"

abbrev pub segment_failed : SegmentStatus
segment_failed = codes "failed"

pub record Queue : Type 0 where
  pub id : Bytes
  pub name : Bytes
  pub concurrency : ℤ
  pub rate_limit : ℤ
  pub default : Bool
  pub paused : Bool
  pub retry_policy : RetryPolicy
  pub config : DownloadConfig
  pub created_at : Time
  pub updated_at : Time

pub record QueueStats : Type 0 where
  pub queue_id : Bytes
  pub num_pending : ℤ
  pub num_running : ℤ
  pub num_completed : ℤ
  pub num_failed : ℤ
  pub bytes_per_sec : ℤ

pub record Segment : Type 0 where
  pub id : Bytes
  pub download_id : Bytes
  pub index : ℤ
  pub start : ℤ
  pub end : ℤ
  pub bytes_completed : ℤ
  pub status : SegmentStatus
  pub retries : ℤ
  pub checksum : Bytes
  pub temp_path : Bytes
  pub created_at : Time
  pub updated_at : Time

pub record Download : Type 0 where
  pub id : Bytes
  pub url : Bytes
  pub queue_id : Bytes
  pub priority : ℤ
  pub tags : List Bytes
  pub request : Option RequestOptions
  pub config : Option DownloadConfig
  pub file : Option FileOptions
  pub status : DownloadStatus
  pub error : Bytes
  pub retries_attempted : ℤ
  pub bytes_total : ℤ
  pub bytes_completed : ℤ
  pub progress : Float64
  pub avg_speed : ℤ
  pub current_speed : ℤ
  pub segments : List Segment
  pub response : Option ResponseMetadata
  pub created_at : Time
  pub updated_at : Time
  pub requested_at : Option Time
  pub started_at : Option Time
  pub completed_at : Option Time

pub record EnqueueDownloadRequest : Type 0 where
  pub url : Bytes
  pub request : Option RequestOptions
  pub config : Option DownloadConfig
  pub file : Option FileOptions
  pub queue_id : Bytes
  pub priority : ℤ
  pub tags : List Bytes

pub record EnqueueDownloadResponse : Type 0 where
  pub id : Bytes
  pub queue_id : Bytes
  pub status : DownloadStatus

pub record ListDownloadsOptions : Type 0 where
  pub statuses : List DownloadStatus
  pub queue_ids : List Bytes
  pub tags : List Bytes
  pub search : Bytes
  pub created_after : Option Time
  pub created_before : Option Time
  pub order_by : Bytes
  pub order_desc : Bool

-- The constants of `DownloadEventType`.
pub data DownloadEventType : Type 0 where
  enqueued started progress paused resumed completed failed cancelled : DownloadEventType

-- The map `Data` that accompanies an event: `deleted`, `bytes` and `error` are its only keys.
pub data EventData : Type 0 where
  no_data : EventData
  deleted : Bool → EventData
  bytes : ℤ → EventData
  error_text : Bytes → EventData

pub record DownloadEvent : Type 0 where
  pub type : DownloadEventType
  pub download : Download
  pub timestamp : Time
  pub event_data : EventData
