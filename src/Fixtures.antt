-- ===== src/Fixtures.antt =====
-- Sample data for the tests.
use svc_downloader.Common.{none, some, [], ◌∷◌, false, true}
use svc_downloader.Common.Bytes.{Bytes, codes}
use svc_downloader.Common.Int.{ℤ, pos}
use svc_downloader.Models.{
  Download, DownloadConfig, Queue, RetryPolicy, FileOptions, RequestOptions, ListDownloadsOptions,
  status_queued,
}

abbrev pub no_retry : RetryPolicy
no_retry = record { max_retries = pos 0; retry_delay = pos 0; backoff_factor = 0; jitter = pos 0 }

-- The zero DownloadConfig, with a number of connections.
abbrev pub config_with : ℤ → DownloadConfig
config_with n = record {
  max_connections = n;
  buffer_size = pos 0;
  proxy = none;
  timeout = pos 0;
  follow_redirects = false;
  redirects_limit = pos 0;
  allow_insecure_tls = false;
  tls = none;
  auth = none;
  accept_ranges = true;
  resume = false;
  retries = pos 0;
  retry_delay = pos 0;
  retry_jitter = pos 0;
  backoff_factor = 0;
  retry = no_retry;
  rate_limit = pos 0;
  global_rate_limit = false;
  only_on_unmetered = false;
  verify_content_type = false;
  mime = [];
  headers = [];
  cookies = [];
  disable_head = false;
  segment_checksum_type = [];
}

abbrev pub sample : Bytes → Bytes → ℤ → Download
sample id queue_id priority = record {
  id = id;
  url = codes "http://x/f";
  queue_id = queue_id;
  priority = priority;
  tags = codes "Iso" ∷ [];
  request = none;
  config = none;
  file = none;
  status = status_queued;
  error = [];
  retries_attempted = pos 0;
  bytes_total = pos 0;
  bytes_completed = pos 0;
  progress = 0;
  avg_speed = pos 0;
  current_speed = pos 0;
  segments = [];
  response = none;
  created_at = 7;
  updated_at = 7;
  requested_at = none;
  started_at = none;
  completed_at = none;
}

abbrev pub sample_queue : Bytes → ℤ → Queue
sample_queue id concurrency = record {
  id = id;
  name = id;
  concurrency = concurrency;
  rate_limit = pos 0;
  default = false;
  paused = false;
  retry_policy = no_retry;
  config = config_with (pos 0);
  created_at = 7;
  updated_at = 7;
}

abbrev pub no_filter : ListDownloadsOptions
no_filter = record {
  statuses = [];
  queue_ids = [];
  tags = [];
  search = [];
  created_after = none;
  created_before = none;
  order_by = [];
  order_desc = false;
}

abbrev pub file_at : Bytes → Bytes → Bytes → FileOptions
file_at path filename temp_dir = record {
  path = path;
  filename = filename;
  temp_dir = temp_dir;
  overwrite = false;
  unique_filename = true;
  checksum = [];
  checksum_type = [];
  max_file_size = pos 0;
}

-- A download to the directory `/d`, with its parts below `/t`.
abbrev pub sample_file : FileOptions
sample_file = file_at (codes "/d") (codes "f.txt") (codes "/t")

abbrev pub sample_request : RequestOptions
sample_request = record {
  url = codes "http://x/f";
  user_agent = [];
  mirror_urls = [];
  extra = none;
}

abbrev pub sample_download : Download
sample_download = record (sample (codes "a1") (codes "main") (pos 0)) {
  request = some sample_request;
  file = some sample_file;
}
