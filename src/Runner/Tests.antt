-- ===== src/Runner/Tests.antt =====
-- The theorems on runs at concrete inputs: the second half of four bytes.
use svc_downloader.Common.{◌≡◌, refl, false, ◌&&◌, not, none, [], ◌∷◌, ◌==◌, subst}
use svc_downloader.Common.Bytes.{codes, same, to_lower}
use svc_downloader.Common.Int.{pos}
use svc_downloader.Common.Maps.{lookup}
use svc_downloader.Common.Scan.{fields, cut, parse_int}
use svc_downloader.Models.{Segment, segment_pending}
use svc_downloader.Store.{download}
use svc_downloader.Store.Memory.{memory}
use svc_downloader.Service.State.{World}
use svc_downloader.Transport.{Response}
use svc_downloader.Runner.{Job, zero_config}
use svc_downloader.Runner.Settings.{settings}
use svc_downloader.Runner.Segments.{Task}
use svc_downloader.Runner.Loop.{rounds}
use svc_downloader.Runner.Segments.Ranges.{is_expected, content_range}
use svc_downloader.Runner.Rounds.{IsOver, IsHonest, rounds-IsOver}
use svc_downloader.Runner.Endless.{IsAgain, IsStraying, rounds-IsAgain}
use svc_downloader.Runner.Finish.{run}
use svc_downloader.Runner.Pool.{work, report}
use svc_downloader.Runner.Verified.{EndsSettled, run-EndsSettled}
use svc_downloader.Runner.Sample.{answering, partial, env_with, empty_disk}
use svc_downloader.Fixtures.{sample_download, sample_request}

abbrev pub idle : World memory.Db
idle = record {
  db = (codes "d|a1", download sample_download) ∷ [];
  cancels = [];
  runs = [];
  stopped = [];
  limiter = none;
  events = [];
  removed_files = none;
}

abbrev pub job : Job memory.Db
job = record {
  world = idle;
  disk = empty_disk;
  wire = record { sent = 0; now = 0 };
  slept = [];
  d = sample_download;
  channel = [];
}

abbrev pub half : Segment
half = record {
  id = [];
  download_id = codes "a1";
  index = pos 1;
  start = pos 2;
  end = pos 3;
  bytes_completed = pos 0;
  status = segment_pending;
  retries = pos 0;
  checksum = [];
  temp_path = [];
  created_at = 0;
  updated_at = 0;
}

abbrev task : Task
task = record { segment = half; start = pos 2; existing = 0 }

abbrev right : Response
right = partial (codes "bytes 2-3/4")

abbrev wrong : Response
wrong = partial (codes "bytes 0-1/4")

right-expected :
    (right.status == 206 && not (is_expected (pos 2) (pos 3) (content_range right))) ≡ false
unfolding is_expected content_range fields cut parse_int same lookup to_lower
right-expected = refl

right-IsHonest : IsHonest (answering right) (pos 0) sample_request zero_config (pos 2) (pos 3)
right-IsHonest r (n, u, heard) =
    let e : right ≡ r = cc in
    subst (λ x. (x.status == 206 && not (is_expected (pos 2) (pos 3) (content_range x))) ≡ false) e
      right-expected

rounds-IsOver_example : IsOver (rounds memory (env_with (answering right)) 4 task 0 job)
rounds-IsOver_example =
    rounds-IsOver memory (env_with (answering right)) (settings sample_download) sample_request task
      refl right-IsHonest job refl

wrong-IsStraying : IsStraying (answering wrong) (pos 0) sample_request zero_config (pos 2) (pos 3)
unfolding is_expected content_range fields cut parse_int same lookup to_lower
wrong-IsStraying n = (wrong, refl, (refl, refl))

rounds-IsAgain_example :
    IsAgain memory
      (env_with (answering wrong))
      (settings sample_download)
      sample_request
      task
      (λ now. refl)
      refl
      refl
      wrong-IsStraying
      (rounds memory (env_with (answering wrong)) 100 task 0 job)
rounds-IsAgain_example =
    rounds-IsAgain memory (env_with (answering wrong)) (settings sample_download) sample_request
      task (λ now. refl) refl refl wrong-IsStraying 100 0 job refl

run-EndsSettled_example : EndsSettled memory (env_with (answering right)) (
    run memory
      (env_with (answering right))
      (codes "a1")
      (work 0 ∷ work 0 ∷ report ∷ [])
      idle
      empty_disk
      job.wire)
run-EndsSettled_example =
    run-EndsSettled memory (env_with (answering right)) (codes "a1") (work 0 ∷ work 0 ∷ report ∷ [])
      idle empty_disk job.wire
