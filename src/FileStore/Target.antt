-- ===== src/FileStore/Target.antt =====
-- MergeSegments of filestore.go: the choice of the name that the merged file gets.
use svc_downloader.Common.{
  ℕ, zero, suc, ◌+◌, ◌-◌, not, ◌&&◌, Option, none, some, ◌++◌, if◌then◌else◌,
}
use svc_downloader.Common.Lists.{length, take}
use svc_downloader.Common.Bytes.{Bytes, codes}
use svc_downloader.Common.Int.{pos}
use svc_downloader.Models.{FileOptions}
use svc_downloader.Errors.{Result, ok, err, target_exists}
use svc_downloader.Repository.Keys.{padded}
use svc_downloader.Paths.{join_texts, ext}
use svc_downloader.Disk.{Disk, exists, is_missing}
use svc_downloader.FileStore.{final_path}

-- The name, the number and the extension: fmt.Sprintf("%s (%d)%s", name, i, ext).
unfoldable pub candidate : Bytes → ℕ → Bytes
unfolding padded ext
candidate base i =
    take (length base - length (ext base)) base
    ++ (codes " (" ++ (padded 0 (pos i) ++ (codes ")" ++ ext base)))

-- The loop over the candidates, from the number `i`, which os.IsNotExist ends; `none` if the fuel ran out.
unfoldable pub unique_from : ℕ → Bytes → Bytes → ℕ → Disk → Option Bytes
unfolding candidate is_missing join_texts
unique_from zero dir base i disk = none
unique_from (suc fuel) dir base i disk =
    let next = unique_from fuel dir base (suc i) disk in
    if is_missing disk (join_texts dir (candidate base i)) then some (candidate base i) else next

-- The loop gives one of so many candidates, if the system denies none of them.
abbrev pub enough : Disk → ℕ
enough disk = suc (suc (suc (length disk.files + length disk.dirs)))

-- The file options with the name that the merged file gets.
abbrev pub renamed_to : FileOptions → Option Bytes → Option (Result FileOptions)
renamed_to file none = none
renamed_to file (some name) = some (ok (record file { filename = name }))

unfoldable pub target : Bytes → FileOptions → Disk → Option (Result FileOptions)
unfolding exists final_path unique_from
target id file disk =
    if exists disk (final_path id file) && not file.overwrite
    then (if file.unique_filename
        then renamed_to file (unique_from (enough disk) file.path file.filename 1 disk)
        else some (err target_exists))
    else some (ok file)
