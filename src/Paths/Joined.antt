-- ===== src/Paths/Joined.antt =====
-- Joined paths, and their last names.
use mathlib.Core.List.{append_cancel_left}
use svc_downloader.Common.{
  ℕ, ◌≡◌, refl, Bool, true, false, ◌||◌, [], ◌∷◌, ◌++◌, append_assoc, append-nil, arith, ◌==◌, inl,
  inr, sym, ◌∙◌, if◌then◌else◌, Bool-cases,
}
use svc_downloader.Common.Bytes.{Bytes, codes, same}
use svc_downloader.Paths.{
  FilePath, enter, walk, join, path_of, join_texts, ext, ext_from, ext_next, extended,
}

-- No `/` in the text.
abbrev pub LacksSlash : Bytes → Type 0
LacksSlash [] = Unit
LacksSlash (c ∷ s) = ((c == b'/') ≡ false) × LacksSlash s

-- A name that filepath.Clean keeps.
abbrev pub is_plain : Bytes → Bool
is_plain name = elim (same name [] || same name (codes ".") || same name (codes "..")) [
  | true ↦ false
  | false ↦ true
]

pub enter_plain : (name : Bytes) (p : FilePath) → is_plain name ≡ true → enter name p ≡ name ∷ p
unfolding enter
enter_plain name p h = ground arith

pub walk_slashless :
    (name s : Bytes) (p : FilePath) → LacksSlash s → walk name s p ≡ enter (name ++ s) p
unfolding walk
walk_slashless name [] p h = rw (append-nil name)
walk_slashless name (c ∷ s) p (ne, h) =
    rw (ne, walk_slashless (name ++ c ∷ []) s p h, append_assoc name (c ∷ []) s)

-- Joining a plain name without a `/` appends it.
pub join_plain :
    (p : FilePath) (name : Bytes) → LacksSlash name → is_plain name ≡ true → join p name ≡ name ∷ p
unfolding join
join_plain p name h plain = rw (walk_slashless [] name p h) (enter_plain name p plain)

-- What `walk` has read of a text: the part of the current name, and the path.
reached : Bytes → Bytes → FilePath → Bytes × FilePath
reached name [] p = (name, p)
reached name (c ∷ s) p =
    let inner = reached (name ++ c ∷ []) s p in
    let next = reached [] s (enter name p) in if c == b'/' then next else inner

walk-append :
    (name s t : Bytes) (p : FilePath)
    → walk name (s ++ t) p ≡ walk (reached name s p).0 t (reached name s p).1
unfolding walk reached
walk-append name [] t p = refl
walk-append name (c ∷ s) t p =
    ground (arith, walk-append (name ++ c ∷ []) s t p, walk-append [] s t (enter name p))

-- A text that makes every name plain that it ends.
abbrev pub IsMark : Bytes → Type 0
IsMark t = LacksSlash t × ((name : Bytes) → is_plain (name ++ t) ≡ true)

walk_marked :
    (name s t : Bytes) (p : FilePath)
    → IsMark t
    → walk name (s ++ t) p ≡ ((reached name s p).0 ++ t) ∷ (reached name s p).1
walk_marked name s t p (slashless, plain) =
    walk-append name s t p
    ∙ walk_slashless (reached name s p).0 t (reached name s p).1 slashless
    ∙ enter_plain ((reached name s p).0 ++ t) (reached name s p).1 (plain (reached name s p).0)

-- Paths with a common front, and different last parts.
pub walk_inj :
    (name s t u : Bytes) (p : FilePath)
    → IsMark t
    → IsMark u
    → walk name (s ++ t) p ≡ walk name (s ++ u) p
    → t ≡ u
walk_inj name s t u p ht hu h =
    let e = sym (walk_marked name s t p ht) ∙ h ∙ walk_marked name s u p hu in
    append_cancel_left (reached name s p).0 t u cc

path_of-IsMark : (t : Bytes) → IsMark t → path_of t ≡ walk [] t []
unfolding path_of join same
path_of-IsMark [] (_, plain) = (let bad : false ≡ true = plain [] in cc)
path_of-IsMark (c ∷ t) ((ne, slashless), plain) = rw ne refl

path_of_inj : (s t u : Bytes) → IsMark t → IsMark u → path_of (s ++ t) ≡ path_of (s ++ u) → t ≡ u
unfolding path_of join
path_of_inj [] t u ht hu h =
    walk_inj [] [] t u [] ht hu (sym (path_of-IsMark t ht) ∙ h ∙ path_of-IsMark u hu)
path_of_inj (c ∷ s) t u ht hu h = elim (Bool-cases (c == b'/')) [
  | inl root ↦ walk_inj [] s t u (codes "/" ∷ []) ht hu (ground (arith, h))
  | inr name ↦ walk_inj [] (c ∷ s) t u [] ht hu (ground (arith, h))
]

pub join_texts_inj :
    (dir s t u : Bytes)
    → IsMark t
    → IsMark u
    → join_texts dir (s ++ t) ≡ join_texts dir (s ++ u)
    → t ≡ u
unfolding join_texts join
join_texts_inj dir s t u ht hu h = elim (Bool-cases (same dir [])) [
  | inl empty ↦ path_of_inj s t u ht hu (ground (arith, h))
  | inr full ↦ walk_inj [] s t u (path_of dir) ht hu (ground (arith, h))
]

pub LacksSlash-append : (s t : Bytes) → LacksSlash s → LacksSlash t → LacksSlash (s ++ t)
LacksSlash-append [] t hs ht = ht
LacksSlash-append (c ∷ s) t (ne, hs) ht = (ne, LacksSlash-append s t hs ht)

extended-LacksSlash :
    (c : ℕ) (found : Bytes) → (c == b'/') ≡ false → LacksSlash found → LacksSlash (extended c found)
extended-LacksSlash c [] ne h = tt
extended-LacksSlash c (f ∷ found) ne (nf, h) = (nf, LacksSlash-append found (c ∷ []) h (ne, tt))

ext_next-LacksSlash : (c : ℕ) (found : Bytes) → LacksSlash found → LacksSlash (ext_next c found)
ext_next-LacksSlash c found h = elim (Bool-cases (c == b'/')) [
  | inl slash ↦ rw slash tt
  | inr ne ↦ rw ne (elim (Bool-cases (c == b'.')) [
    | inl dot ↦ rw dot (refl, tt)
    | inr other ↦ rw other (extended-LacksSlash c found ne h)
  ])
]

ext_from-LacksSlash : (s found : Bytes) → LacksSlash found → LacksSlash (ext_from s found)
unfolding ext_from
ext_from-LacksSlash [] found h = h
ext_from-LacksSlash (c ∷ s) found h =
    ext_from-LacksSlash s (ext_next c found) (ext_next-LacksSlash c found h)

-- An extension has no `/`.
pub ext-LacksSlash : (s : Bytes) → LacksSlash (ext s)
unfolding ext
ext-LacksSlash s = ext_from-LacksSlash s [] tt
