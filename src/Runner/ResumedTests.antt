-- ===== src/Runner/ResumedTests.antt =====
-- downloadSegment at a concrete input: the part file of the second half of four bytes holds it already.
use svc_downloader.Common.{◌≡◌, refl, subst, leb, none, some, [], ◌∷◌, arith, true, false}
use svc_downloader.Common.Bytes.{codes, same}
use svc_downloader.Common.Int.{pos}
use svc_downloader.Store.Memory.{memory}
use svc_downloader.Paths.{FilePath, same_path, join_texts, path_of, join, walk, enter}
use svc_downloader.Disk.{Disk, find, is_dir, listed}
use svc_downloader.FileStore.{part_name, chosen_temp}
use svc_downloader.Transport.{Response}
use svc_downloader.Runner.{Env, zero_config}
use svc_downloader.Runner.Files.{IsOpen}
use svc_downloader.Runner.Loop.{download_segment}
use svc_downloader.Runner.Resumed.{IsRejecting, FailsWith, download_segment-FailsWith}
use svc_downloader.Runner.Sample.{answering, partial, env_with}
use svc_downloader.Runner.Tests.{job, half}
use svc_downloader.Fixtures.{sample_download, sample_request}

abbrev refusal : Response
refusal = record (partial []) { status = 416; body = [] }

abbrev env : Env
env = env_with (answering refusal)

refusal-IsRejecting : IsRejecting (answering refusal) (pos 0) sample_request zero_config
refusal-IsRejecting a e lt r (n, u, heard) =
    let this : refusal ≡ r = cc in subst (λ x. leb 400 x.status ≡ true) this refl

abbrev tmp : FilePath
tmp = codes "a1" ∷ codes "t" ∷ codes "/" ∷ []

abbrev disk : Disk
disk = record {
  files = (part_name (pos 1) ∷ tmp, codes "cd") ∷ [];
  dirs = tmp ∷ [];
  refused = λ p. false;
}

disk-IsOpen : IsOpen tmp disk
unfolding same same_path is_dir listed
disk-IsOpen = record { allowed = λ p. refl; there = refl; free = λ n. ground arith }

sample-temp : chosen_temp none sample_download.id sample_download.file ≡ some tmp
unfolding same join_texts path_of join walk enter
sample-temp = refl

part-there : find (part_name (pos 1) ∷ tmp) disk.files ≡ some (codes "cd")
unfolding find same_path same part_name
part-there = refl

download_segment-FailsWith_example :
    FailsWith
      (part_name (pos 1) ∷ tmp)
      (codes "cd")
      (download_segment memory env 4 half (record job { disk = disk }))
download_segment-FailsWith_example =
    download_segment-FailsWith memory env sample_request tmp half 1 2 3 (codes "cd")
      (record job { disk = disk }) refl sample-temp refusal-IsRejecting refl refl refl (omega arith)
      disk-IsOpen part-there
