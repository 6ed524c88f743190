-- ===== src/FileStore/Parts.antt =====
-- listParts of filestore.go: the part files of a directory, sorted by name.
use svc_downloader.Common.{Bool, true, false, ◌&&◌, ◌||◌, List, [], ◌∷◌, if◌then◌else◌, ltb, ◌==◌}
use svc_downloader.Common.Lists.{filter}
use svc_downloader.Common.Bytes.{Bytes, codes}
use svc_downloader.Errors.{Result, ok, err}
use svc_downloader.Paths.{FilePath, ends_with}
use svc_downloader.Disk.{Disk, read_dir}

-- sort.Strings
unfoldable pub text_leb : Bytes → Bytes → Bool
text_leb [] t = true
text_leb (a ∷ s) [] = false
text_leb (a ∷ s) (b ∷ t) = ltb a b || (a == b) && text_leb s t

unfoldable pub insert_text : Bytes → List Bytes → List Bytes
unfolding text_leb
insert_text s [] = s ∷ []
insert_text s (t ∷ ts) = if text_leb s t then s ∷ t ∷ ts else t ∷ insert_text s ts

unfoldable pub sort_texts : List Bytes → List Bytes
unfolding insert_text
sort_texts [] = []
sort_texts (s ∷ ss) = insert_text s (sort_texts ss)

-- The names of the files in a directory that listParts keeps, in its order.
unfoldable pub part_names : Result (List Bytes) → Result (List Bytes)
unfolding ends_with sort_texts
part_names (err e) = err e
part_names (ok names) = ok (sort_texts (filter (λ name. ends_with name (codes ".part")) names))

unfoldable pub list_parts : FilePath → Disk → Result (List Bytes)
unfolding read_dir part_names
list_parts tmp disk = part_names (read_dir tmp disk)
