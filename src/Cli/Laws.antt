-- ===== src/Cli/Laws.antt =====
-- applyDynamicDefaults of options.go: the process in the background applies it to options that the
-- command that started it has completed already.
use svc_downloader.Common.{
  ◌≡◌, ◌∙◌, refl, ap, Bool, true, false, not, [], arith, if◌then◌else◌, inl, inr, Bool-cases,
  Option-cases,
}
use svc_downloader.Common.Bytes.{Bytes, codes, same, same_refl}
use svc_downloader.Common.Int.{ℤ, pos}
use svc_downloader.Common.Scan.{parse_int}
use svc_downloader.Cli.Options.{
  Options, apply_dynamic_defaults, to_config, build_args_from_options, default_config, path_text,
  or_text, or_number, from_env,
}
use svc_downloader.Paths.{join_texts}

-- The service asks for a key if and only if one is given: the flag for it has no effect.
pub enable_auth_lem :
    (env : Bytes → Bytes) (o : Options)
    → (to_config (apply_dynamic_defaults env o)).enable_auth ≡ not (same o.api_key [])
unfolding apply_dynamic_defaults to_config
enable_auth_lem env o = ground (arith, same_refl [])

or_text_twice : (s default : Bytes) → or_text (or_text s default) default ≡ or_text s default
or_text_twice s default = ground arith

or_number_twice : (n default : ℤ) → or_number (or_number n default) default ≡ or_number n default
or_number_twice n default = ground arith

from_env_twice : (text : Bytes) (n m : ℤ) → from_env text n ≡ m → from_env text m ≡ m
from_env_twice text n m h = elim (Bool-cases (same text [])) [
  | inl empty ↦ rw empty refl
  | inr given ↦ elim (Option-cases (parse_int text)) [
    | inl unread ↦ rw (given, unread) refl
    | inr (k, read) ↦ ground (arith, h, given, read)
  ]
]

port_twice :
    (text : Bytes) (n default : ℤ)
    → or_number (from_env text (or_number (from_env text n) default)) default
      ≡ or_number (from_env text n) default
port_twice text n default = elim (Bool-cases (same text [])) [
  | inl empty ↦ rw empty (or_number_twice n default)
  | inr given ↦ elim (Option-cases (parse_int text)) [
    | inl unread ↦ rw (given, unread) (or_number_twice n default)
    | inr (k, read) ↦ rw (given, read) refl
  ]
]

flag_twice :
    (flag : Bool)
    → (if (if flag then false else flag) then false else (if flag then false else flag))
      ≡ (if flag then false else flag)
flag_twice true = refl
flag_twice false = refl

file_twice :
    (file dir default : Bytes) (path : Bytes → Bytes)
    → or_text
        (or_text file (path (or_text dir default)))
        (path (or_text (or_text dir default) default))
      ≡ or_text file (path (or_text dir default))
file_twice file dir default path =
    ap (λ x. or_text (or_text file (path (or_text dir default))) (path x))
      (or_text_twice dir default)
    ∙ or_text_twice file (path (or_text dir default))

unfoldable data_file : Bytes → Bytes → Bytes
data_file name dir = path_text (join_texts dir name)

-- To complete options that are complete changes nothing.
apply_dynamic_defaults_twice :
    (env : Bytes → Bytes) (o : Options)
    → apply_dynamic_defaults env (apply_dynamic_defaults env o) ≡ apply_dynamic_defaults env o
unfolding apply_dynamic_defaults data_file
apply_dynamic_defaults_twice env o = λ i. record {
  port = port_twice (env (codes "PORT")) o.port default_config.http_port i;
  data_dir = or_text_twice o.data_dir default_config.data_dir i;
  badger_dir = or_text_twice o.badger_dir default_config.badger_dir i;
  max_body_bytes = or_number_twice o.max_body_bytes default_config.max_body_bytes i;
  default_queue_id = or_text_twice o.default_queue_id default_config.default_queue_id i;
  graceful_shutdown_secs = or_number_twice o.graceful_shutdown_secs (pos 10) i;
  global_rate_limit_bps =
      from_env_twice (env (codes "GLOBAL_RATE_LIMIT_BPS")) o.global_rate_limit_bps _ refl i;
  daemonize = o.daemonize;
  pid_file =
      file_twice o.pid_file o.data_dir default_config.data_dir
        (data_file (codes "svc-downloader.pid")) i;
  log_file =
      file_twice o.log_file o.data_dir default_config.data_dir
        (data_file (codes "svc-downloader.log")) i;
  api_key = or_text_twice o.api_key default_config.api_key i;
  enable_auth = flag_twice o.enable_auth i;
  worker_tick_interval = or_number_twice o.worker_tick_interval (pos 2) i;
  stale_download_timeout = or_number_twice o.stale_download_timeout (pos 300) i;
}

-- The arguments of the process in the background are the same whatever key is given, and whether or not
-- the service is told to ask for one: a key on the command line does not reach it.
build_args_from_options_keyless :
    (o : Options) (key : Bytes) (auth : Bool)
    → build_args_from_options (record o { api_key = key; enable_auth = auth })
      ≡ build_args_from_options o
unfolding build_args_from_options
build_args_from_options_keyless o key auth = refl
