-- ===== src/Disk.antt =====
-- The parts of Go's `os` that internal/filestore calls: a file system as a list of files and a list of
-- directories.
pub mod Files
use mathlib.Core.List.{reverse}
use svc_downloader.Common.{
  ℕ, ◌-◌, Bool, true, false, not, ◌&&◌, ◌||◌, Option, none, some, List, [], ◌∷◌, ◌++◌, map,
  if◌then◌else◌, is_some, ◌==◌,
}
use svc_downloader.Common.Lists.{length, drop, filter}
use svc_downloader.Common.Bytes.{Bytes, codes, same}
use svc_downloader.Errors.{
  Error, Result, ok, err, not_exist, not_directory, is_directory, not_empty, denied,
}
use svc_downloader.Paths.{FilePath, same_path, parent}

-- `refused` are the paths at which the system denies what the program asks for.
pub record Disk : Type 0 where
  pub files : List (FilePath × Bytes)
  pub dirs : List FilePath
  pub refused : FilePath → Bool

unfoldable pub find : FilePath → List (FilePath × Bytes) → Option Bytes
find p [] = none
find p ((q, content) ∷ fs) = if same_path q p then some content else find p fs

unfoldable pub put : FilePath → Bytes → List (FilePath × Bytes) → List (FilePath × Bytes)
put p content [] = (p, content) ∷ []
put p content ((q, old) ∷ fs) =
    if same_path q p then (p, content) ∷ fs else (q, old) ∷ put p content fs

unfoldable pub drop_file : FilePath → List (FilePath × Bytes) → List (FilePath × Bytes)
drop_file p [] = []
drop_file p ((q, old) ∷ fs) =
    let rest = drop_file p fs in if same_path q p then rest else (q, old) ∷ rest

unfoldable pub listed : FilePath → List FilePath → Bool
unfolding same_path
listed p [] = false
listed p (q ∷ qs) = same_path q p || listed p qs

-- The working directory and the root are there.
unfoldable pub is_dir : Disk → FilePath → Bool
unfolding listed
is_dir disk p = same_path p [] || same_path p (codes "/" ∷ []) || listed p disk.dirs

unfoldable pub is_file : Disk → FilePath → Bool
unfolding find
is_file disk p = is_some (find p disk.files)

-- os.Stat(p) gives no error.
unfoldable pub exists : Disk → FilePath → Bool
unfolding is_dir is_file
exists disk p = (is_file disk p || is_dir disk p) && not (disk.refused p)

-- os.IsNotExist of the error of os.Stat(p): any other error, as of a name that is too long, is not one.
unfoldable pub is_missing : Disk → FilePath → Bool
unfolding is_dir is_file
is_missing disk p = not (is_file disk p || is_dir disk p) && not (disk.refused p)

-- os.MkdirAll; the parents that it made stay if it fails.
abbrev pub make_dir : FilePath → Result (Unit {0}) × Disk → Result (Unit {0}) × Disk
make_dir p (err e, disk) = (err e, disk)
make_dir p (ok u, disk) =
    if disk.refused p then (err denied, disk) else (ok tt, record disk { dirs = p ∷ disk.dirs })

unfoldable pub mkdir_all : FilePath → Disk → Result (Unit {0}) × Disk
unfolding is_dir is_file
mkdir_all [] disk = (ok tt, disk)
mkdir_all (name ∷ p) disk =
    let rest = mkdir_all p disk in
    if is_dir disk (name ∷ p)
    then (ok tt, disk)
    else if is_file disk (name ∷ p)
    then (err not_directory, disk)
    else make_dir (name ∷ p) rest

-- What a file is opened with: os.O_CREATE keeps the bytes that are there, os.Create drops them.
abbrev pub kept_bytes : Option Bytes → Bytes
kept_bytes none = []
kept_bytes (some content) = content

-- The test of a path that a file is to be opened for writing at.
unfoldable pub open_error : FilePath → Disk → Option Error
unfolding is_dir
open_error p disk =
    if is_dir disk p
    then some is_directory
    else if not (is_dir disk (parent p))
    then some not_exist
    else if disk.refused p
    then some denied
    else none

abbrev pub opened : FilePath → Bytes → Option Error → Disk → Result (Bytes × Disk)
opened p content (some e) disk = err e
opened p content none disk = ok (content, record disk { files = put p content disk.files })

-- os.OpenFile(p, os.O_CREATE|os.O_RDWR): the bytes that the file has.
unfoldable pub open_file : FilePath → Disk → Result (Bytes × Disk)
unfolding find put open_error
open_file p disk = opened p (kept_bytes (find p disk.files)) (open_error p disk) disk

-- A write to an open file that ends in the bytes `content`.
unfoldable pub write_file : FilePath → Bytes → Disk → Disk
unfolding put
write_file p content disk = record disk { files = put p content disk.files }

-- os.Create
unfoldable pub create_file : FilePath → Disk → Result (Bytes × Disk)
unfolding open_error put
create_file p disk = opened p [] (open_error p disk) disk

-- os.Open and a read to the end.
abbrev pub read_found : FilePath → Option Bytes → Disk → Result Bytes
read_found p none disk = err not_exist
read_found p (some content) disk = if disk.refused p then err denied else ok content

unfoldable pub read_file : FilePath → Disk → Result Bytes
unfolding find
read_file p disk = read_found p (find p disk.files) disk

-- `q` is `p` or below it.
unfoldable pub under : FilePath → FilePath → Bool
unfolding same_path
under p [] = same_path [] p
under p (name ∷ q) = same_path (name ∷ q) p || under p q

abbrev pub files_outside : FilePath → List (FilePath × Bytes) → List (FilePath × Bytes)
files_outside p = filter λ f. not (under p f.0)

-- os.RemoveAll, which leaves everything if it is denied at the path.
unfoldable pub remove_all : FilePath → Disk → Disk
unfolding under
remove_all p disk = if disk.refused p then disk else record disk {
  files = files_outside p disk.files;
  dirs = filter (λ q. not (under p q)) disk.dirs;
}

-- os.Remove: a file, or a directory with nothing below it.
abbrev pub nothing_left : List (FilePath × Bytes) → List FilePath → Bool
nothing_left [] [] = true
nothing_left _ _ = false

unfoldable pub is_empty_dir : FilePath → Disk → Bool
unfolding under
is_empty_dir p disk =
    nothing_left (filter (λ f. under p f.0) disk.files)
      (filter (λ q. under p q && not (same_path q p)) disk.dirs)

abbrev pub removed_dir : FilePath → Disk → Result Disk
removed_dir p disk =
    if not (is_dir disk p)
    then err not_exist
    else if not (is_empty_dir p disk)
    then err not_empty
    else if disk.refused p
    then err denied
    else ok (record disk { dirs = filter (λ q. not (same_path q p)) disk.dirs })

abbrev pub removed : FilePath → Option Bytes → Disk → Result Disk
removed p none disk = removed_dir p disk
removed p (some content) disk =
    if disk.refused p then err denied else ok (record disk { files = drop_file p disk.files })

unfoldable pub remove_file : FilePath → Disk → Result Disk
unfolding find is_dir is_empty_dir
remove_file p disk = removed p (find p disk.files) disk

-- os.Rename of a file
abbrev pub renamed : FilePath → FilePath → Option Bytes → Disk → Result Disk
renamed p q none disk = err not_exist
renamed p q (some content) disk =
    if is_dir disk q
    then err is_directory
    else if disk.refused q
    then err denied
    else ok (record disk { files = put q content (drop_file p disk.files) })

unfoldable pub rename : FilePath → FilePath → Disk → Result Disk
unfolding find
rename p q disk = renamed p q (find p disk.files) disk

-- The names of the files in a directory.
unfoldable pub names_in : FilePath → List (FilePath × Bytes) → List Bytes
names_in dir [] = []
names_in dir (([], content) ∷ fs) = names_in dir fs
names_in dir ((name ∷ p, content) ∷ fs) =
    let rest = names_in dir fs in if same_path p dir then name ∷ rest else rest

-- os.ReadDir, without the directories, which the code skips.
unfoldable pub read_dir : FilePath → Disk → Result (List Bytes)
unfolding names_in is_dir
read_dir dir disk =
    if not (is_dir disk dir)
    then err not_exist
    else if disk.refused dir
    then err denied
    else ok (names_in dir disk.files)
