-- ===== src/Runner/Ready.antt =====
-- What a run finds on the disk, and what it is to leave there.
use mathlib.Core.List.{Permᴰ}
use svc_downloader.Common.{◌≡◌, ◌⊎◌, true, false, none, some, List, [], ◌∷◌}
use svc_downloader.Common.Lists.{length}
use svc_downloader.Common.Bytes.{Bytes, same}
use svc_downloader.Common.Int.{pos}
use svc_downloader.Models.{Download, FileOptions, Segment, status_failed}
use svc_downloader.Store.{Badger}
use svc_downloader.Planner.{plan}
use svc_downloader.Paths.{FilePath}
use svc_downloader.Disk.{Disk, find, names_in}
use svc_downloader.FileStore.Merged.{IsMergeable}
use svc_downloader.Runner.{Env, Job}
use svc_downloader.Runner.Files.{IsOpen}
use svc_downloader.Runner.Opened.{present}
use svc_downloader.Runner.Finish.{Outcome, panicked, waiting, over}
use svc_downloader.Runner.Verified.{IsChecked}
use svc_downloader.Runner.Begun.{ArePartial}

-- What a run finds: a temporary directory with nothing in it but part files, each of which begins the range
-- of its segment, and a final path for a new file, in a directory outside of the temporary one.
pub record IsReady (tmp : FilePath) (base : Bytes) (dir : FilePath) (content : Bytes)
    (segs : List Segment) (disk : Disk) : Type 0 where
  pub open' : IsOpen tmp disk
  pub names : Permᴰ (names_in tmp disk.files) (present tmp 0 (length segs) disk)
  pub parts : ArePartial tmp content disk 0 segs
  pub mergeable : IsMergeable tmp base dir disk
  pub new_file : find (base ∷ dir) disk.files ≡ none

module _ (b : Badger) (env : Env) (file : FileOptions) (out : FilePath) (content : Bytes) where
  open b use {Db}

  -- The download is completed with a file that has the checksum asked for, or it is failed and a checksum
  -- was asked for.
  abbrev pub IsDone : Job Db → Type 0
  IsDone j = IsChecked b env j ⊎ ((j.d.status ≡ status_failed) × (same file.checksum [] ≡ false))

  -- A run that is over has written the content to its final path, and settled its download.
  abbrev pub Delivers : Outcome Db → Type 0
  Delivers panicked = ⊥
  Delivers (waiting p) = Unit
  Delivers (over j) = (find out j.disk.files ≡ some content) × IsDone j

  -- The same, of a run that is over.
  abbrev pub EndsDelivered : Outcome Db → Type 0
  EndsDelivered panicked = ⊥
  EndsDelivered (waiting p) = ⊥
  EndsDelivered (over j) = Delivers (over j)

  pub EndsDelivered-Delivers : (x : Outcome Db) → EndsDelivered x → Delivers x
  EndsDelivered-Delivers panicked h = h
  EndsDelivered-Delivers (waiting p) h = absurd h
  EndsDelivered-Delivers (over j) h = h

-- The segments of a content whose server accepts ranges.
abbrev pub segments_of : Download → Bytes → List Segment
segments_of d content = plan d (pos (length content)) true
