-- ===== src/Paths.antt =====
-- The parts of Go's `path/filepath` that internal/filestore calls. A path is the list of its names, the
-- innermost first; a rooted one ends in the name `/`. The empty path is the working directory.
pub mod Joined
use mathlib.Core.List.{reverse}
use svc_downloader.Common.{
  ℕ, ◌-◌, Bool, true, false, not, ◌&&◌, ◌||◌, Option, none, some, List, [], ◌∷◌, ◌++◌, map,
  if◌then◌else◌, is_some, ◌==◌,
}
use svc_downloader.Common.Lists.{length, drop, filter}
use svc_downloader.Common.Bytes.{Bytes, codes, same}
use svc_downloader.Errors.{
  Error, Result, ok, err, not_exist, not_directory, is_directory, not_empty, denied,
}

abbrev pub FilePath : Type 0
FilePath = List Bytes

unfoldable pub same_path : FilePath → FilePath → Bool
same_path [] [] = true
same_path (a ∷ p) (b ∷ q) = same a b && same_path p q
same_path [] (b ∷ q) = false
same_path (a ∷ p) [] = false

-- `..` behind what is there: the root is its own parent, and a relative path may climb.
climb : FilePath → FilePath
climb [] = codes ".." ∷ []
climb (name ∷ p) =
    if same name (codes "/")
    then name ∷ p
    else if same name (codes "..")
    then codes ".." ∷ name ∷ p
    else p

-- One name of a path, the way filepath.Clean reads it.
unfoldable pub enter : Bytes → FilePath → FilePath
unfolding climb
enter name p =
    if same name [] || same name (codes ".")
    then p
    else if same name (codes "..")
    then climb p
    else name ∷ p

-- The names in a text, behind those of `p`; `name` is the part that was read of the current one.
unfoldable pub walk : Bytes → Bytes → FilePath → FilePath
unfolding enter
walk name [] p = enter name p
walk name (c ∷ s) p =
    let inner = walk (name ++ c ∷ []) s p in
    let next = walk [] s (enter name p) in if c == b'/' then next else inner

-- filepath.Join(p, s)
unfoldable pub join : FilePath → Bytes → FilePath
unfolding walk
join p s = walk [] s p

-- A text as a path.
unfoldable pub path_of : Bytes → FilePath
unfolding join
path_of [] = []
path_of (c ∷ s) = if c == b'/' then join (codes "/" ∷ []) s else join [] (c ∷ s)

-- filepath.Join(dir, s), which passes over an empty text.
unfoldable pub join_texts : Bytes → Bytes → FilePath
unfolding path_of join
join_texts dir s = if same dir [] then path_of s else join (path_of dir) s

-- filepath.Dir
abbrev pub parent : FilePath → FilePath
parent [] = []
parent (name ∷ p) = if same name (codes "/") then name ∷ p else p

-- The path whose text is that of `p` and a suffix.
abbrev pub with_suffix : Bytes → FilePath → FilePath
with_suffix suffix [] = (codes "." ++ suffix) ∷ []
with_suffix suffix (name ∷ p) =
    if same name (codes "/") then suffix ∷ name ∷ p else (name ++ suffix) ∷ p

-- filepath.Ext: `found` is the part from the last dot on, and empty before a dot.
abbrev pub extended : ℕ → Bytes → Bytes
extended c [] = []
extended c (f ∷ found) = f ∷ found ++ c ∷ []

abbrev pub ext_next : ℕ → Bytes → Bytes
ext_next c found = if c == b'/' then [] else if c == b'.' then b'.' ∷ [] else extended c found

unfoldable pub ext_from : Bytes → Bytes → Bytes
ext_from [] found = found
ext_from (c ∷ s) found = ext_from s (ext_next c found)

unfoldable pub ext : Bytes → Bytes
unfolding ext_from
ext s = ext_from s []

-- strings.HasSuffix
unfoldable pub ends_with : Bytes → Bytes → Bool
ends_with s t = same (drop (length s - length t) s) t
