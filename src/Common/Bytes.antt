-- ===== src/Common/Bytes.antt =====
-- Go strings and byte slices: lists of bytes, with the functions of `bytes` and `strings` that the
-- program calls. Letters outside ASCII are left alone by `to_lower`.
use Prim.Native.Nat.{ℕ, ◌+◌}
use Prim.Native.Char.{code}
use Prim.Native.String.{String}
use mathlib.Core.Path.{◌≡◌, refl, sym, subst}
use mathlib.Core.Logic.{◌≢◌, ◌↔◌, inl, inr}
use mathlib.Core.Bool.{Bool, true, false, ◌&&◌, ◌||◌}
use mathlib.Core.List.{List, [], ◌∷◌, ◌++◌, map, append-nil, append_assoc, reverse, reverse-append}
use native.Mathlib.Omega.{arith}
use svc_downloader.Common.Tests.{leb, ◌==◌, Bool-cases, if◌then◌else◌}
use svc_downloader.Common.Lists.{length, drop, filter}

abbrev pub Bytes : Type 0
Bytes = List ℕ

-- The bytes of an ASCII literal.
abbrev pub codes : String → Bytes
codes String.[] = []
codes (String.◌∷◌ c s) = code c ∷ codes s

-- s == t
unfoldable pub same : Bytes → Bytes → Bool
same [] [] = true
same (a ∷ s) (b ∷ t) = (a == b) && same s t
same [] (b ∷ t) = false
same (a ∷ s) [] = false

pub same_sound : (s t : Bytes) → same s t ≡ true → s ≡ t
unfolding same
same_sound [] [] h = refl
same_sound (a ∷ s) (b ∷ t) h = ground (arith, same_sound s t)
same_sound [] (b ∷ t) h = cc
same_sound (a ∷ s) [] h = cc

pub same_refl : (s : Bytes) → same s s ≡ true
unfolding same
same_refl [] = refl
same_refl (a ∷ s) = ground (arith, same_refl s)

pub same_iff : (s t : Bytes) → (same s t ≡ true) ↔ (s ≡ t)
same_iff s t = (same_sound s t, λ e. rw e (same_refl t))

pub same_ne : (s t : Bytes) → s ≢ t → same s t ≡ false
same_ne s t h = ground (arith, same_iff s t)

-- strings.HasPrefix(s, p)
unfoldable pub starts_with : Bytes → Bytes → Bool
starts_with s [] = true
starts_with [] (b ∷ p) = false
starts_with (a ∷ s) (b ∷ p) = (a == b) && starts_with s p

-- strings.Contains(s, t)
unfoldable pub contains : Bytes → Bytes → Bool
unfolding starts_with
contains [] t = starts_with [] t
contains (a ∷ s) t = starts_with (a ∷ s) t || contains s t

-- strings.ToLower
unfoldable pub to_lower : Bytes → Bytes
to_lower = map λ c. if leb b'A' c && leb c b'Z' then c + 32 else c

-- strings.EqualFold
unfoldable pub equal_fold : Bytes → Bytes → Bool
unfolding to_lower
equal_fold s t = same (to_lower s) (to_lower t)

-- Membership by `==` in a list of strings.
unfoldable pub member : Bytes → List Bytes → Bool
member s [] = false
member s (t ∷ ts) = same s t || member s ts

-- The part of a key behind its last `|`: the last of bytes.Split(key, "|").
unfoldable pub last_part_from : Bytes → Bytes → Bytes
last_part_from [] part = part
last_part_from (c ∷ s) part = last_part_from s (if c == b'|' then [] else part ++ c ∷ [])

unfoldable pub last_part : Bytes → Bytes
unfolding last_part_from
last_part s = last_part_from s []

-- No `|` in the text.
abbrev pub LacksBar : Bytes → Type 0
LacksBar [] = Unit
LacksBar (c ∷ s) = ((c == b'|') ≡ false) × LacksBar s

pub starts_with-append : (p s : Bytes) → starts_with (p ++ s) p ≡ true
unfolding starts_with
starts_with-append [] [] = refl
starts_with-append [] (a ∷ s) = refl
starts_with-append (b ∷ p) s = ground (arith, starts_with-append p s)

pub starts_with_sound : (s p : Bytes) → starts_with s p ≡ true → s ≡ p ++ drop (length p) s
unfolding starts_with
starts_with_sound s [] h = refl
starts_with_sound [] (b ∷ p) h = cc
starts_with_sound (a ∷ s) (b ∷ p) h = ground (arith, starts_with_sound s p)

pub drop-append : (p s : Bytes) → drop (length p) (p ++ s) ≡ s
drop-append [] s = refl
drop-append (b ∷ p) s = drop-append p s

-- The last part of a key that ends in a separator and a text without one.
last_part_from-append :
    (s id part : Bytes) → last_part_from (s ++ id) part ≡ last_part_from id (last_part_from s part)
unfolding last_part_from
last_part_from-append [] id part = refl
last_part_from-append (c ∷ s) id part = last_part_from-append s id _

last_part_from-LacksBar : (id part : Bytes) → LacksBar id → last_part_from id part ≡ part ++ id
unfolding last_part_from
last_part_from-LacksBar [] part h = sym (append-nil part)
last_part_from-LacksBar (c ∷ id) part (ne, h) =
    rw ne (rw (last_part_from-LacksBar id (part ++ c ∷ []) h) (append_assoc part (c ∷ []) id))

pub last_part_lem : (s id : Bytes) → LacksBar id → last_part (s ++ b'|' ∷ id) ≡ id
unfolding last_part last_part_from
last_part_lem s id h = rw last_part_from-append (last_part_from-LacksBar id [] h)

-- A predicate on the texts of a list.
abbrev pub AllTexts {ℓ} : (Bytes → Type ℓ) → List Bytes → Type ℓ
AllTexts P [] = Unit
AllTexts P (t ∷ ts) = P t × AllTexts P ts

pub AllTexts-append {ℓ} :
    (P : Bytes → Type ℓ) (ss ts : List Bytes)
    → AllTexts P ss
    → AllTexts P ts
    → AllTexts P (ss ++ ts)
AllTexts-append P [] ts hs ht = ht
AllTexts-append P (s ∷ ss) ts (ps, hs) ht = (ps, AllTexts-append P ss ts hs ht)

pub AllTexts-member {ℓ} :
    (P : Bytes → Type ℓ) (s : Bytes) (ts : List Bytes) → AllTexts P ts → member s ts ≡ true → P s
unfolding member
AllTexts-member P s [] h e = cc
AllTexts-member P s (t ∷ ts) (pt, h) e = elim (Bool-cases (same s t)) [
  | inl hit ↦ subst P (sym (same_sound s t hit)) pt
  | inr miss ↦ AllTexts-member P s ts h (ground arith)
]

pub AllTexts-of-member {ℓ} :
    (P : Bytes → Type ℓ) (ts : List Bytes)
    → ((t : Bytes) → member t ts ≡ true → P t)
    → AllTexts P ts
unfolding member
AllTexts-of-member P [] h = tt
AllTexts-of-member P (t ∷ ts) h =
    (h t (rw (same_refl t)), AllTexts-of-member P ts (λ s m. h s (ground (arith, m))))

pub AllTexts-reverse {ℓ} :
    (P : Bytes → Type ℓ) (ts : List Bytes) → AllTexts P ts → AllTexts P (reverse ts)
AllTexts-reverse P [] h = tt
AllTexts-reverse P (t ∷ ts) (pt, h) =
    rw (reverse-append (t ∷ []) ts)
      (AllTexts-append P (reverse ts) (t ∷ []) (AllTexts-reverse P ts h) (pt, tt))

pub starts_with_shorter : (s p r : Bytes) → starts_with s (p ++ r) ≡ true → starts_with s p ≡ true
unfolding starts_with
starts_with_shorter [] [] r h = refl
starts_with_shorter (a ∷ s) [] r h = refl
starts_with_shorter [] (b ∷ p) r h = cc
starts_with_shorter (a ∷ s) (b ∷ p) r h = ground (arith, starts_with_shorter s p r)

pub member-append :
    (s : Bytes) (ts us : List Bytes) → member s (ts ++ us) ≡ (member s ts || member s us)
unfolding member
member-append s [] us = refl
member-append s (t ∷ ts) us = ground (arith, member-append s ts us)

pub member-reverse : (s : Bytes) (ts : List Bytes) → member s (reverse ts) ≡ member s ts
unfolding member
member-reverse s [] = refl
member-reverse s (t ∷ ts) =
    rw (reverse-append (t ∷ []) ts, member-append s (reverse ts) (t ∷ []))
      (ground (arith, member-reverse s ts))

pub AllTexts-imp {ℓ κ} :
    {P : Bytes → Type ℓ} {Q : Bytes → Type κ} (ts : List Bytes)
    → ((t : Bytes) → P t → Q t)
    → AllTexts P ts
    → AllTexts Q ts
AllTexts-imp [] f h = tt
AllTexts-imp (t ∷ ts) f (pt, h) = (f t pt, AllTexts-imp ts f h)

pub AllTexts-filter {ℓ} :
    (P : Bytes → Type ℓ) (p : Bytes → Bool) (ts : List Bytes)
    → AllTexts P ts
    → AllTexts (λ t. P t × (p t ≡ true)) (filter p ts)
AllTexts-filter P p [] h = tt
AllTexts-filter P p (t ∷ ts) (pt, h) = elim (Bool-cases (p t)) [
  | inl kept ↦ rw kept ((pt, kept), AllTexts-filter P p ts h)
  | inr left ↦ rw left (AllTexts-filter P p ts h)
]
