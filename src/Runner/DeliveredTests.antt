-- ===== src/Runner/DeliveredTests.antt =====
-- The end of a run at a concrete input: a server that serves the three bytes of a content, of which one is
-- already in a part file.
use mathlib.Core.List.Permᴰ
use svc_downloader.Common.{
  suc, zero, ◌≤◌, ◌≡◌, refl, false, none, some, [], ◌∷◌, arith, if◌then◌else◌, ◌<◌, ℕ, List, ◌⊎◌,
}
use svc_downloader.Common.Bytes.{Bytes, codes, same, to_lower, member}
use svc_downloader.Common.Int.{pos}
use svc_downloader.Common.Maps.{lookup, insert}
use svc_downloader.Common.Scan.{fields, cut, parse_int}
use svc_downloader.Models.{Download}
use svc_downloader.Planner.{max_conns, plan}
use svc_downloader.Store.Memory.{memory}
use svc_downloader.Repository.Keys.{padded, digits, width}
use svc_downloader.Paths.{FilePath, same_path, join_texts, path_of, join, walk, enter}
use svc_downloader.Disk.{Disk, find, is_dir, listed, under, names_in}
use svc_downloader.FileStore.{temp_dir, final_path, part_name}
use svc_downloader.Transport.{Web, Response, get_header, set_header, canonical, all_tokens, title}
use svc_downloader.Transport.Headers.{
  apply_headers, defaults, default_header, set_headers, add_cookies, with_referer,
}
use svc_downloader.Transport.Fetch.{range_value}
use svc_downloader.Runner.{Job, Env, zero_config}
use svc_downloader.Runner.Segments.Ranges.{is_expected, content_range}
use svc_downloader.Runner.Pool.{Turn, work, report, run_turns, started}
use svc_downloader.Runner.Finish.{waited, Outcome}
use svc_downloader.Runner.Served.{IsServing}
use svc_downloader.Runner.Opened.{present}
use svc_downloader.Runner.Fair.{turns_of}
use svc_downloader.Runner.Ready.{IsReady, Delivers, EndsDelivered, segments_of}
use svc_downloader.Runner.Delivered.{run_turns-Delivers}
use svc_downloader.Runner.Sample.{answering, partial, env_with}
use svc_downloader.Runner.Tests.{idle}
use svc_downloader.Fixtures.{sample_download, sample_file, sample_request}

abbrev two_parts : Download
two_parts = record sample_download {
  config = some (record zero_config { max_connections = pos 2 });
}

abbrev answer_of : Bytes → Bytes → Response
answer_of range body = record (partial range) { body = body }

abbrev served : Bytes → Response
served range =
    if same range (codes "bytes=0-0")
    then answer_of (codes "bytes 0-0/3") (codes "a")
    else if same range (codes "bytes=0-1")
    then answer_of (codes "bytes 0-1/3") (codes "ab")
    else if same range (codes "bytes=1-1")
    then answer_of (codes "bytes 1-1/3") (codes "b")
    else if same range (codes "bytes=1-2")
    then answer_of (codes "bytes 1-2/3") (codes "bc")
    else if same range (codes "bytes=2-2")
    then answer_of (codes "bytes 2-2/3") (codes "c")
    else answer_of (codes "bytes 0-2/3") (codes "abc")

abbrev server : Web
server = record (answering (served [])) {
  send =
      λ n c q. record { at = n; response = some (served (get_header (codes "Range") q.headers)) };
}

abbrev env : Env
env = env_with server

server-IsServing :
    IsServing server
      (pos 0)
      sample_request
      (record zero_config { max_connections = pos 2 })
      (codes "abc")
unfolding is_expected content_range fields cut parse_int same lookup insert to_lower get_header
    set_header canonical all_tokens title apply_headers defaults default_header set_headers
    add_cookies with_referer range_value padded digits width member
server-IsServing zero zero n le lt =
    (served (codes "bytes=0-0"), refl, (refl, (refl, (refl, refl))))
server-IsServing zero (suc zero) n le lt =
    (served (codes "bytes=0-1"), refl, (refl, (refl, (refl, refl))))
server-IsServing zero (suc (suc zero)) n le lt =
    (served (codes "bytes=0-2"), refl, (refl, (refl, (refl, refl))))
server-IsServing (suc zero) (suc zero) n le lt =
    (served (codes "bytes=1-1"), refl, (refl, (refl, (refl, refl))))
server-IsServing (suc zero) (suc (suc zero)) n le lt =
    (served (codes "bytes=1-2"), refl, (refl, (refl, (refl, refl))))
server-IsServing (suc (suc zero)) (suc (suc zero)) n le lt =
    (served (codes "bytes=2-2"), refl, (refl, (refl, (refl, refl))))
server-IsServing (suc a) zero n le lt = absurd (omega arith)
server-IsServing (suc (suc a)) (suc zero) n le lt = absurd (omega arith)
server-IsServing (suc (suc (suc a))) (suc (suc zero)) n le lt = absurd (omega arith)
server-IsServing a (suc (suc (suc e))) n le lt = absurd (omega arith)

abbrev tmp : FilePath
tmp = codes "a1" ∷ codes "t" ∷ codes "/" ∷ []

abbrev dir : FilePath
dir = codes "d" ∷ codes "/" ∷ []

abbrev disk : Disk
disk = record {
  files = (part_name (pos 1) ∷ tmp, codes "b") ∷ [];
  dirs = tmp ∷ (codes "t" ∷ codes "/" ∷ []) ∷ dir ∷ [];
  refused = λ p. false;
}

abbrev job : Job memory.Db
job = record {
  world = idle;
  disk = disk;
  wire = record { sent = 0; now = 0 };
  slept = [];
  d = two_parts;
  channel = [];
}

ready : IsReady tmp (codes "f.txt") dir (codes "abc") (segments_of two_parts (codes "abc")) disk
unfolding same same_path is_dir listed under find names_in present part_name padded digits width
    plan max_conns
ready = record {
  open' = record { allowed = λ p. refl; there = refl; free = λ n. ground arith };
  names = Permᴰ.refl _;
  parts = ((omega arith, refl), ((omega arith, refl), tt));
  mergeable = record {
    plain = refl;
    dir_there = refl;
    outside = refl;
    outside_out = refl;
    outside_beside = refl;
    free = refl;
    free_beside = refl;
    allowed = λ p. refl;
  };
  new_file = refl;
}

sample-temp : temp_dir none two_parts ≡ some tmp
unfolding temp_dir same join_texts path_of join walk enter
sample-temp = refl

sample-final : final_path two_parts.id sample_file ≡ codes "f.txt" ∷ dir
unfolding final_path same join_texts path_of join walk enter
sample-final = refl

enough : max_conns two_parts ≤ 3
unfolding max_conns
enough = omega arith

abbrev turns : List Turn
turns = work 0 ∷ work 1 ∷ work 1 ∷ report ∷ work 0 ∷ []

abbrev ending : Outcome memory.Db
ending =
    waited memory env
      (run_turns memory env turns (started memory env (segments_of two_parts (codes "abc")) job))

run_turns-Delivers_example :
    Delivers memory env sample_file (codes "f.txt" ∷ dir) (codes "abc") ending
    × (EndsDelivered memory env sample_file (codes "f.txt" ∷ dir) (codes "abc") ending
        ⊎ ((j : ℕ) × ((j < max_conns two_parts) × (turns_of j turns ≤ 1))))
run_turns-Delivers_example =
    run_turns-Delivers memory env two_parts sample_file sample_request tmp (codes "f.txt") dir
      (codes "abc") refl refl sample-temp sample-final refl (λ now. refl) refl server-IsServing
      enough (omega (arith, enough)) job refl ready turns
