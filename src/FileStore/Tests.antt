-- ===== src/FileStore/Tests.antt =====
-- The theorems on the file store at concrete inputs, and some runs.
use svc_downloader.Common.{ℕ, ◌≡◌, refl, true, false, none, some, [], ◌∷◌, ◌⊎◌}
use svc_downloader.Common.Bytes.{codes, same}
use svc_downloader.Models.{FileOptions}
use svc_downloader.Errors.{ok, err, target_exists}
use svc_downloader.Repository.Keys.{padded, digits, width}
use svc_downloader.Paths.{
  FilePath, same_path, join_texts, path_of, join, walk, enter, ends_with, ext, ext_from,
}
use svc_downloader.Disk.{Disk, find, is_dir, listed, exists, is_missing, under, read_dir, names_in}
use svc_downloader.FileStore.{temp_dir, final_path}
use svc_downloader.FileStore.Parts.{list_parts, part_names, sort_texts, insert_text, text_leb}
use svc_downloader.FileStore.Target.{target, candidate, unique_from, enough}
use svc_downloader.FileStore.Merge.{merge_segments}
use svc_downloader.FileStore.Unique.{FirstFree, unique_from-ends, unique_from-denied}
use svc_downloader.FileStore.Merged.{IsMergeable, merged_file}
use svc_downloader.FileStore.Listed.{merge_segments-merged_file}
use svc_downloader.FileStore.Kept.{target-free}
use svc_downloader.Fixtures.{sample_download, sample_file}

abbrev tmp : FilePath
tmp = codes "a1" ∷ codes "t" ∷ codes "/" ∷ []

abbrev final_dir : FilePath
final_dir = codes "d" ∷ codes "/" ∷ []

-- Two parts, in another order than their names, and a file under the name of the download.
abbrev two_parts : Disk
two_parts = record {
  files =
      (codes "000000001.part" ∷ tmp, codes "cd")
      ∷ (codes "f.txt" ∷ final_dir, codes "old")
      ∷ (codes "000000000.part" ∷ tmp, codes "ab")
      ∷ [];
  dirs = tmp ∷ (codes "t" ∷ codes "/" ∷ []) ∷ final_dir ∷ [];
  refused = λ p. false;
}

abbrev new_file : FileOptions
new_file = record sample_file { filename = codes "f (1).txt" }

sample-chosen : target sample_download.id sample_file two_parts ≡ some (ok new_file)
unfolding target exists is_dir find listed same_path same final_path join_texts path_of join walk
    enter unique_from candidate padded digits width ext ext_from
sample-chosen = refl

sample-IsMergeable : IsMergeable tmp (codes "f (1).txt") final_dir two_parts
unfolding same same_path is_dir listed under
sample-IsMergeable = record {
  plain = refl;
  dir_there = refl;
  outside = refl;
  outside_out = refl;
  outside_beside = refl;
  free = refl;
  free_beside = refl;
  allowed = λ p. refl;
}

merge_segments-merged_file_example :
    (disk' : Disk) × (merge_segments none sample_download two_parts
      ≡ some (ok tt, record sample_download { file = some new_file }, disk'))
    × ((q : FilePath)
        → find q disk'.files
          ≡ merged_file tmp
              (codes "f (1).txt.merge.tmp" ∷ final_dir)
              (codes "f (1).txt" ∷ final_dir)
              (codes "000000000.part" ∷ codes "000000001.part" ∷ [])
              two_parts
              q)
unfolding temp_dir join_texts path_of join walk enter same same_path list_parts read_dir part_names
    names_in sort_texts insert_text text_leb ends_with is_dir listed final_path
merge_segments-merged_file_example =
    merge_segments-merged_file none sample_download sample_file new_file tmp two_parts
      (codes "000000000.part") (codes "000000001.part" ∷ []) (codes "f (1).txt") final_dir refl refl
      refl sample-chosen refl sample-IsMergeable

-- The merged file of this run.
merged_run :
    merged_file tmp
      (codes "f (1).txt.merge.tmp" ∷ final_dir)
      (codes "f (1).txt" ∷ final_dir)
      (codes "000000000.part" ∷ codes "000000001.part" ∷ [])
      two_parts
      (codes "f (1).txt" ∷ final_dir)
    ≡ some (codes "abcd")
unfolding same_path same find
merged_run = refl

unique_from-ends_example :
    (n : ℕ) × (unique_from (enough two_parts) (codes "/d") (codes "f.txt") 1 two_parts
      ≡ some (candidate (codes "f.txt") n))
    × FirstFree (codes "/d") (codes "f.txt") 1 two_parts n
unique_from-ends_example =
    unique_from-ends (codes "/d") (codes "f.txt") two_parts 1 (λ j lo hi. refl)

target-free_example :
    ((file' : FileOptions) × (target (codes "a1") sample_file two_parts ≡ some (ok file'))
      × ((sample_file.overwrite ≡ true)
          ⊎ (is_missing two_parts (final_path (codes "a1") file') ≡ true)))
    ⊎ ((target (codes "a1") sample_file two_parts ≡ some (err target_exists))
        × ((sample_file.overwrite ≡ false) × (sample_file.unique_filename ≡ false)))
target-free_example = target-free (codes "a1") sample_file two_parts (λ p. refl)

-- A system that denies everything.
abbrev denying : Disk
denying = record two_parts { refused = λ p. true }

unique_from-denied_example : unique_from 100 (codes "/d") (codes "f.txt") 1 denying ≡ none
unique_from-denied_example =
    unique_from-denied (codes "/d") (codes "f.txt") denying 100 1 (λ j le. refl)
