-- ===== src/Disk/Files.antt =====
-- What the operations on files do to what a path reads.
use svc_downloader.Common.{
  ◌≡◌, refl, ap, ◌↔◌, true, false, not, ◌&&◌, none, some, List, [], ◌∷◌, if◌then◌else◌, arith,
}
use svc_downloader.Common.Lists.{filter}
use svc_downloader.Common.Bytes.{Bytes, same_refl, same_sound}
use svc_downloader.Paths.{FilePath, same_path}
use svc_downloader.Disk.{find, put, drop_file, under, files_outside, listed}

pub same_path_sound : (p q : FilePath) → same_path p q ≡ true → p ≡ q
unfolding same_path
same_path_sound [] [] h = refl
same_path_sound (a ∷ p) (b ∷ q) h = ground (arith, same_sound a b, same_path_sound p q)
same_path_sound [] (b ∷ q) h = cc
same_path_sound (a ∷ p) [] h = cc

pub same_path_refl : (p : FilePath) → same_path p p ≡ true
unfolding same_path
same_path_refl [] = refl
same_path_refl (a ∷ p) = ground (arith, same_refl a, same_path_refl p)

pub same_path_iff : (p q : FilePath) → (same_path p q ≡ true) ↔ (p ≡ q)
same_path_iff p q = (same_path_sound p q, λ e. rw e (same_path_refl q))

pub find-put :
    (p q : FilePath) (content : Bytes) (fs : List (FilePath × Bytes))
    → find q (put p content fs) ≡ (if same_path p q then some content else find q fs)
unfolding find put
find-put p q content [] = refl
find-put p q content ((r, old) ∷ fs) =
    ground (arith, same_path_iff p q, same_path_iff r p, same_path_iff r q, find-put p q content fs)

pub find-drop_file :
    (p q : FilePath) (fs : List (FilePath × Bytes))
    → find q (drop_file p fs) ≡ (if same_path p q then none else find q fs)
unfolding find drop_file
find-drop_file p q [] = ground arith
find-drop_file p q ((r, old) ∷ fs) =
    ground (arith, same_path_iff p q, same_path_iff r p, same_path_iff r q, find-drop_file p q fs)

pub find-outside :
    (p q : FilePath) (fs : List (FilePath × Bytes))
    → find q (files_outside p fs) ≡ (if under p q then none else find q fs)
unfolding find
find-outside p q [] = ground arith
find-outside p q ((r, old) ∷ fs) =
    let same_side : (r ≡ q) → under p r ≡ under p q = λ e. ap (under p) e in
    ground (arith, same_side, same_path_iff r q, find-outside p q fs)

-- A path is not inside a path that it leads to.
pub under_refl : (p : FilePath) → under p p ≡ true
unfolding under
under_refl [] = same_path_refl []
under_refl (name ∷ p) = ground (arith, same_path_refl (name ∷ p))

pub under_child : (name : Bytes) (p : FilePath) → under p (name ∷ p) ≡ true
unfolding under
under_child name p = ground (arith, under_refl p)

-- A path outside a directory is none of the paths inside.
pub outside_ne :
    (dir p q : FilePath) → under dir p ≡ false → under dir q ≡ true → same_path p q ≡ false
outside_ne dir p q out in' =
    let cong : (p ≡ q) → under dir p ≡ under dir q = λ e. ap (under dir) e in
    ground (arith, cong, same_path_iff p q)

pub listed-outside :
    (p q : FilePath) (qs : List FilePath)
    → listed q (filter (λ r. not (under p r)) qs) ≡ (listed q qs && not (under p q))
unfolding listed
listed-outside p q [] = refl
listed-outside p q (r ∷ qs) =
    let cong : (r ≡ q) → under p r ≡ under p q = λ e. ap (under p) e in
    ground (arith, cong, same_path_iff r q, listed-outside p q qs)

pub inside_ne :
    (dir p q : FilePath) → under dir p ≡ true → under dir q ≡ false → same_path p q ≡ false
inside_ne dir p q in' out =
    let cong : (p ≡ q) → under dir p ≡ under dir q = λ e. ap (under dir) e in
    ground (arith, cong, same_path_iff p q)
