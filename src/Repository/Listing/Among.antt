-- ===== src/Repository/Listing/Among.antt =====
-- Members of a list of downloads, through pages and orders.
use svc_downloader.Common.{
  ℕ, zero, suc, Bool, true, false, ◌||◌, List, [], ◌∷◌, ◌++◌, if◌then◌else◌, arith, inl, inr, ◌⊎◌,
  ◌↔◌, Bool-cases, ◌≡◌,
}
use svc_downloader.Common.Lists.{take, drop}
use svc_downloader.Common.Bytes.{codes, same}
use svc_downloader.Common.Int.{ℤ, pos, negsuc}
use svc_downloader.Models.{Download, ListDownloadsOptions}
use svc_downloader.Repository.Listing.{order, sort_slice, insert_by, created_less, priority_less}
use svc_downloader.Repository.Listing.Pages.{limited}

-- d stands in the list.
abbrev pub Among : Download → List Download → Type 0
Among d [] = ⊥
Among d (e ∷ es) = (e ≡ d) ⊎ Among d es

pub Among-append_left : (d : Download) (xs ys : List Download) → Among d xs → Among d (xs ++ ys)
Among-append_left d [] ys h = absurd h
Among-append_left d (x ∷ xs) ys (inl e) = inl e
Among-append_left d (x ∷ xs) ys (inr h) = inr (Among-append_left d xs ys h)

pub Among-append_right : (d : Download) (xs ys : List Download) → Among d ys → Among d (xs ++ ys)
Among-append_right d [] ys h = h
Among-append_right d (x ∷ xs) ys h = inr (Among-append_right d xs ys h)

pub Among-cases :
    (d : Download) (xs ys : List Download) → Among d (xs ++ ys) → Among d xs ⊎ Among d ys
Among-cases d [] ys h = inr h
Among-cases d (x ∷ xs) ys (inl e) = inl (inl e)
Among-cases d (x ∷ xs) ys (inr h) = elim (Among-cases d xs ys h) [
  | inl l ↦ inl (inr l)
  | inr r ↦ inr r
]

Among-take : (d : Download) (n : ℕ) (xs : List Download) → Among d (take n xs) → Among d xs
Among-take d zero xs h = absurd h
Among-take d (suc n) [] h = absurd h
Among-take d (suc n) (x ∷ xs) (inl e) = inl e
Among-take d (suc n) (x ∷ xs) (inr h) = inr (Among-take d n xs h)

pub Among-drop : (d : Download) (n : ℕ) (xs : List Download) → Among d (drop n xs) → Among d xs
Among-drop d zero xs h = h
Among-drop d (suc n) [] h = absurd h
Among-drop d (suc n) (x ∷ xs) h = inr (Among-drop d n xs h)

pub Among-limited :
    (d : Download) (limit : ℤ) (xs : List Download) → Among d (limited limit xs) → Among d xs
Among-limited d (pos zero) xs h = Among-take d 1 xs h
Among-limited d (pos (suc n)) xs h = Among-take d (suc n) xs h
Among-limited d (negsuc n) xs h = h

Among-insert_by :
    (less : Download → Download → Bool) (d x : Download) (xs : List Download)
    → Among d (insert_by less x xs) ↔ Among d (x ∷ xs)
unfolding insert_by
Among-insert_by less d x [] = (λ h. h, λ h. h)
Among-insert_by less d x (y ∷ ys) = elim (Bool-cases (less y x)) [
  | inr stop ↦ rw stop (λ h. h, λ h. h)
  | inl go ↦ let (to, from) = Among-insert_by less d x ys in rw go (ground arith)
]

on_right : {A B C : Type 0} → (B → C) → A ⊎ B → A ⊎ C
on_right f (inl a) = inl a
on_right f (inr b) = inr (f b)

pub Among-sort_slice :
    (less : Download → Download → Bool) (d : Download) (xs : List Download)
    → Among d (sort_slice less xs) ↔ Among d xs
unfolding sort_slice
Among-sort_slice less d [] = (λ h. h, λ h. h)
Among-sort_slice less d (x ∷ xs) =
    let (to, from) = Among-sort_slice less d xs in
    let (in_to, in_from) = Among-insert_by less d x (sort_slice less xs) in
    (λ h. on_right to (in_to h), λ h. in_from (on_right from h))

SameMembers : List Download → List Download → Type 0
SameMembers xs ys = (d : Download) → Among d xs ↔ Among d ys

SameMembers-if :
    (t : Bool) (xs ys zs : List Download)
    → SameMembers xs zs
    → SameMembers ys zs
    → SameMembers (if t then xs else ys) zs
SameMembers-if true xs ys zs h k = h
SameMembers-if false xs ys zs h k = k

-- Ordering a list keeps its members.
pub Among-order :
    (options : ListDownloadsOptions) (d : Download) (xs : List Download)
    → Among d (order options xs) ↔ Among d xs
unfolding order SameMembers
Among-order options d xs =
    SameMembers-if (same options.order_by (codes "created_at") || same options.order_by []) _ _ xs
      (λ e. Among-sort_slice (created_less options.order_desc) e xs)
      (SameMembers-if (same options.order_by (codes "priority")) _ xs xs
        (λ e. Among-sort_slice (priority_less options.order_desc) e xs) (λ e. (λ h. h, λ h. h)))
      d
