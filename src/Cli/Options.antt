-- ===== src/Cli/Options.antt =====
-- internal/cli/options.go and internal/config/config.go: the options of the command line, with what the
-- environment and the defaults add, and the arguments of the process in the background.
use svc_downloader.Common.{
  ◌+◌, ◌*◌, ◌-◌, Bool, true, false, ◌||◌, not, Option, none, some, List, [], ◌∷◌, ◌++◌,
  if◌then◌else◌,
}
use svc_downloader.Common.Bytes.{Bytes, codes, same}
use svc_downloader.Common.Int.{ℤ, pos, negsuc, eq_ℤ}
use svc_downloader.Common.Scan.{parse_int}
use svc_downloader.Repository.Keys.{padded}
use svc_downloader.Paths.{FilePath, join_texts}

pub record Options : Type 0 where
  pub port : ℤ
  pub data_dir : Bytes
  pub badger_dir : Bytes
  pub max_body_bytes : ℤ
  pub default_queue_id : Bytes
  pub graceful_shutdown_secs : ℤ
  pub global_rate_limit_bps : ℤ
  pub daemonize : Bool
  pub pid_file : Bytes
  pub log_file : Bytes
  pub api_key : Bytes
  pub enable_auth : Bool
  pub worker_tick_interval : ℤ
  pub stale_download_timeout : ℤ

-- Durations are numbers of nanoseconds.
pub record Config : Type 0 where
  pub http_port : ℤ
  pub data_dir : Bytes
  pub badger_dir : Bytes
  pub max_body_bytes : ℤ
  pub default_queue_id : Bytes
  pub graceful_secs : ℤ
  pub global_rate_limit_bps : ℤ
  pub api_key : Bytes
  pub enable_auth : Bool
  pub worker_tick_interval : ℤ
  pub stale_download_timeout : ℤ

-- time.Duration(n) * time.Second
abbrev seconds : ℤ → ℤ
seconds (pos n) = pos (n * 1_000_000_000)
seconds (negsuc n) = negsuc ((n + 1) * 1_000_000_000 - 1)

-- Default
abbrev pub default_config : Config
default_config = record {
  http_port = pos 8089;
  data_dir = codes "./data";
  badger_dir = codes "./data/badger";
  max_body_bytes = pos 26_214_400;
  default_queue_id = codes "main";
  graceful_secs = pos 10_000_000_000;
  global_rate_limit_bps = pos 0;
  api_key = [];
  enable_auth = false;
  worker_tick_interval = pos 2_000_000_000;
  stale_download_timeout = pos 300_000_000_000;
}

-- The text of a path that filepath.Join gives.
unfoldable pub path_text : FilePath → Bytes
path_text [] = []
path_text (name ∷ []) = name
path_text (name ∷ dir ∷ p) =
    let rest = path_text (dir ∷ p) in
    if same rest (codes "/") then codes "/" ++ name else rest ++ (codes "/" ++ name)

-- A number of the environment: the value is kept if the text is empty or no int64.
abbrev pub or_kept : ℤ → Option ℤ → ℤ
or_kept old none = old
or_kept old (some n) = n

abbrev pub from_env : Bytes → ℤ → ℤ
from_env text old = if same text [] then old else or_kept old (parse_int text)

abbrev pub or_number : ℤ → ℤ → ℤ
or_number n default = if eq_ℤ n (pos 0) then default else n

abbrev pub or_text : Bytes → Bytes → Bytes
or_text s default = if same s [] then default else s

-- applyDynamicDefaults: `env` is os.Getenv. The defaults that are durations are whole seconds.
unfoldable pub apply_dynamic_defaults : (Bytes → Bytes) → Options → Options
unfolding parse_int join_texts path_text
apply_dynamic_defaults env o =
    let data_dir = or_text o.data_dir default_config.data_dir in
    record {
      port = or_number (from_env (env (codes "PORT")) o.port) default_config.http_port;
      data_dir = data_dir;
      badger_dir = or_text o.badger_dir default_config.badger_dir;
      max_body_bytes = or_number o.max_body_bytes default_config.max_body_bytes;
      default_queue_id = or_text o.default_queue_id default_config.default_queue_id;
      graceful_shutdown_secs = or_number o.graceful_shutdown_secs (pos 10);
      global_rate_limit_bps =
          from_env (env (codes "GLOBAL_RATE_LIMIT_BPS")) o.global_rate_limit_bps;
      daemonize = o.daemonize;
      pid_file = or_text o.pid_file (path_text (join_texts data_dir (codes "svc-downloader.pid")));
      log_file = or_text o.log_file (path_text (join_texts data_dir (codes "svc-downloader.log")));
      api_key = or_text o.api_key default_config.api_key;
      enable_auth = if o.enable_auth then default_config.enable_auth else o.enable_auth;
      worker_tick_interval = or_number o.worker_tick_interval (pos 2);
      stale_download_timeout = or_number o.stale_download_timeout (pos 300);
    }

-- toConfig
unfoldable pub to_config : Options → Config
to_config o = record {
  http_port = o.port;
  data_dir = o.data_dir;
  badger_dir = o.badger_dir;
  max_body_bytes = o.max_body_bytes;
  default_queue_id = o.default_queue_id;
  graceful_secs = seconds o.graceful_shutdown_secs;
  global_rate_limit_bps = o.global_rate_limit_bps;
  api_key = o.api_key;
  enable_auth = o.enable_auth || not (same o.api_key []);
  worker_tick_interval = seconds o.worker_tick_interval;
  stale_download_timeout = seconds o.stale_download_timeout;
}

-- strconv.Itoa, strconv.FormatInt(n, 10) and strconv.FormatBool
abbrev itoa : ℤ → Bytes
itoa n = padded 0 n

abbrev bool_text : Bool → Bytes
bool_text true = codes "true"
bool_text false = codes "false"

abbrev pub number_flag : Bytes → ℤ → List Bytes
number_flag name n = if eq_ℤ n (pos 0) then [] else name ∷ itoa n ∷ []

abbrev pub text_flag : Bytes → Bytes → List Bytes
text_flag name s = if same s [] then [] else name ∷ s ∷ []

-- buildArgsFromOptions
unfoldable pub build_args_from_options : Options → List Bytes
unfolding padded
build_args_from_options o =
    codes "serve"
    ∷ (number_flag (codes "--port") o.port
        ++ (text_flag (codes "--data-dir") o.data_dir
            ++ (text_flag (codes "--badger-dir") o.badger_dir
                ++ (number_flag (codes "--max-body-bytes") o.max_body_bytes
                    ++ (text_flag (codes "--default-queue-id") o.default_queue_id
                        ++ (number_flag (codes "--graceful-shutdown-secs") o.graceful_shutdown_secs
                            ++ (number_flag (codes "--global-rate-limit-bps")
                                  o.global_rate_limit_bps
                                ++ (codes "--daemonize=" ++ bool_text o.daemonize) ∷ [])))))))
