-- ===== src/FileStore/Listed.antt =====
-- MergeSegments of filestore.go: the part files that listParts finds, merged.
use svc_downloader.Common.{
  ◌≡◌, refl, sym, subst, true, false, Option, some, List, [], ◌∷◌, ◌++◌, is_some, inl, inr, arith,
  Bool-cases,
}
use svc_downloader.Common.Lists.{filter}
use svc_downloader.Common.Bytes.{
  Bytes, codes, same, same_sound, AllTexts, AllTexts-imp, AllTexts-filter,
}
use svc_downloader.Models.{Download, FileOptions}
use svc_downloader.Errors.{ok}
use svc_downloader.Paths.{FilePath, same_path, ends_with}
use svc_downloader.Disk.{Disk, find, is_dir, names_in, read_dir}
use svc_downloader.Disk.Files.{same_path_sound, same_path_refl}
use svc_downloader.FileStore.{temp_dir, final_path}
use svc_downloader.FileStore.Parts.{sort_texts, insert_text, list_parts, part_names}
use svc_downloader.FileStore.Target.{target}
use svc_downloader.FileStore.Merge.{merge_segments}
use svc_downloader.FileStore.Copied.{AreApart}
use svc_downloader.FileStore.Merged.{IsMergeable, merged_file, merge_to-merged_file}

insert_text-AllTexts {ℓ} :
    (P : Bytes → Type ℓ) (s : Bytes) (ts : List Bytes)
    → P s
    → AllTexts P ts
    → AllTexts P (insert_text s ts)
unfolding insert_text
insert_text-AllTexts P s [] ps h = (ps, tt)
insert_text-AllTexts P s (t ∷ ts) ps (pt, h) =
    let rest = insert_text-AllTexts P s ts ps h in ground arith

sort_texts-AllTexts {ℓ} :
    (P : Bytes → Type ℓ) (ts : List Bytes) → AllTexts P ts → AllTexts P (sort_texts ts)
unfolding sort_texts
sort_texts-AllTexts P [] h = tt
sort_texts-AllTexts P (t ∷ ts) (pt, h) =
    insert_text-AllTexts P t (sort_texts ts) pt (sort_texts-AllTexts P ts h)

found_behind :
    (p q : FilePath) (content : Bytes) (fs : List (FilePath × Bytes))
    → is_some (find p fs) ≡ true
    → is_some (find p ((q, content) ∷ fs)) ≡ true
unfolding find
found_behind p q content fs h = ground arith

found_first :
    (p : FilePath) (content : Bytes) (fs : List (FilePath × Bytes))
    → is_some (find p ((p, content) ∷ fs)) ≡ true
unfolding find
found_first p content fs = rw (same_path_refl p) refl

names_in-found :
    (dir : FilePath) (fs : List (FilePath × Bytes))
    → AllTexts (λ name. is_some (find (name ∷ dir) fs) ≡ true) (names_in dir fs)
unfolding names_in
names_in-found dir [] = tt
names_in-found dir (([], content) ∷ fs) =
    AllTexts-imp (names_in dir fs) (λ name h. found_behind (name ∷ dir) [] content fs h)
      (names_in-found dir fs)
names_in-found dir ((n ∷ p, content) ∷ fs) =
    let rest =
      AllTexts-imp (names_in dir fs) (λ name h. found_behind (name ∷ dir) (n ∷ p) content fs h)
        (names_in-found dir fs) in
    elim (Bool-cases (same_path p dir)) [
      | inl here ↦
          rw here (rw (same_path_sound p dir here) (found_first (n ∷ dir) content fs), rest)
      | inr else' ↦ rw else' rest
    ]

-- What listParts gives: names of files of the directory, none of them the marker.
list_parts-found :
    (tmp : FilePath) (names : List Bytes) (disk : Disk)
    → list_parts tmp disk ≡ ok names
    → AllTexts
        (λ name.
          (is_some (find (name ∷ tmp) disk.files) ≡ true) × (ends_with name (codes ".part") ≡ true))
        names
unfolding list_parts read_dir part_names
list_parts-found tmp names disk h = elim (Bool-cases (is_dir disk tmp)) [
  | inl there ↦
      let kept = filter (λ name. ends_with name (codes ".part")) (names_in tmp disk.files) in
      let e : sort_texts kept ≡ names = ground (arith, h, there) in
      rw (← e) (
        sort_texts-AllTexts _ kept
          (AllTexts-filter _ _ (names_in tmp disk.files) (names_in-found tmp disk.files)))
  | inr gone ↦ absurd (ground (arith, h, gone))
]

marker-part :
    (name : Bytes) → ends_with name (codes ".part") ≡ true → same (codes ".merge.lock") name ≡ false
unfolding ends_with same
marker-part name part = elim (Bool-cases (same (codes ".merge.lock") name)) [
  | inr ne ↦ ne
  | inl eq ↦
      let e = same_sound (codes ".merge.lock") name eq in
      absurd (
        let bad : false ≡ true = subst (λ n. ends_with n (codes ".part") ≡ true) (sym e) part in cc)
]

parts-unmarked :
    (tmp : FilePath) (names : List Bytes)
    → AllTexts (λ name. ends_with name (codes ".part") ≡ true) names
    → AreApart (codes ".merge.lock" ∷ tmp) tmp names
unfolding same_path
parts-unmarked tmp [] h = tt
parts-unmarked tmp (name ∷ names) (part, h) =
    (rw (marker-part name part) refl, parts-unmarked tmp names h)

-- A merge of the parts that were found, into a directory that is there.
module _ (home : Option Bytes) (d : Download) (file file' : FileOptions) (tmp : FilePath)
    (disk : Disk) (name : Bytes) (names : List Bytes) (base : Bytes) (dir : FilePath)
    (temp : temp_dir home d ≡ some tmp) (options : d.file ≡ some file)
    (parts : list_parts tmp disk ≡ ok (name ∷ names))
    (chosen : target d.id file disk ≡ some (ok file')) (final : final_path d.id file' ≡ base ∷ dir)
    (h : IsMergeable tmp base dir disk) where
  -- With parts in the temporary directory, a target in a directory that is there, outside of the
  -- temporary one, and a system that denies nothing, MergeSegments succeeds. The final path then holds
  -- the bytes of the parts in the order of their names, the temporary directory and the file beside the
  -- final one hold nothing, and every other path reads what it read before.
  pub merge_segments-merged_file :
      (disk' : Disk) × (merge_segments home d disk
        ≡ some (ok tt, record d { file = some file' }, disk'))
      × ((q : FilePath)
          → find q disk'.files
            ≡ merged_file tmp
                ((base ++ codes ".merge.tmp") ∷ dir)
                (base ∷ dir)
                (name ∷ names)
                disk
                q)
  unfolding merge_segments
  merge_segments-merged_file =
      let found = list_parts-found tmp (name ∷ names) disk parts in
      let (disk', e, reads) =
        merge_to-merged_file tmp base dir (name ∷ names) disk h
          (AllTexts-imp (name ∷ names) (λ n p. p.0) found)
          (parts-unmarked tmp (name ∷ names) (AllTexts-imp (name ∷ names) (λ n p. p.1) found)) in
      (disk', rw (temp, parts, options, chosen, final, e) refl, reads)
