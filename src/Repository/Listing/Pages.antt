-- ===== src/Repository/Listing/Pages.antt =====
-- The loop of a listing against a page of the matching downloads.
use svc_downloader.Common.{
  ℕ, zero, suc, true, false, ◌≡◌, refl, sym, ap, ◌∙◌, Option, none, some, List, [], ◌∷◌, ◌++◌,
  append_assoc, append-nil, if◌then◌else◌, arith, inl, inr, Bool-cases,
}
use svc_downloader.Common.Lists.{take, drop, drop-nil}
use svc_downloader.Common.Bytes.{Bytes, last_part, AllTexts}
use svc_downloader.Common.Int.{ℤ, pos, negsuc, ◌-ℤ◌, pos_part, ltb_ℤ, eq_ℤ}
use svc_downloader.Models.{Download, ListDownloadsOptions}
use svc_downloader.Errors.{Result, ok, err, live}
use svc_downloader.Store.{Badger, Value, nil, download, segment, queue, stats}
use svc_downloader.Repository.Keys.{k_download}
use svc_downloader.Repository.Listing.{
  matches, Page, Round, next, break, failed, collected, list_loop, fetched,
}

-- The download of an entry, if it passes the filters.
abbrev pub hit : ListDownloadsOptions → Option Value → List Download
hit options (some (download d)) = if matches options d then d ∷ [] else []
hit options _ = []

abbrev pub IsReadable : Option Value → Type 0
IsReadable none = Unit
IsReadable (some (download d)) = Unit
IsReadable _ = ⊥

-- What a limit leaves of a list: a negative one is no limit, and 0 leaves one element.
abbrev pub limited {ℓ} : {A : Type ℓ} → ℤ → List A → List A
limited (pos zero) xs = take 1 xs
limited (pos (suc n)) xs = take (suc n) xs
limited (negsuc k) xs = xs

one_less : (n : ℕ) → pos (suc n) -ℤ pos 1 ≡ pos n
unfolding ◌-ℤ◌
one_less n = ground arith

drop_less :
    (q : ℤ) (d : Download) (ds : List Download)
    → ltb_ℤ (pos 0) q ≡ true
    → drop (pos_part (q -ℤ pos 1)) ds ≡ drop (pos_part q) (d ∷ ds)
drop_less (pos zero) d ds h = absurd (ground arith)
drop_less (pos (suc n)) d ds h = rw (one_less n)
drop_less (negsuc n) d ds h = absurd (ground arith)

drop_none : (q : ℤ) (ds : List Download) → ltb_ℤ (pos 0) q ≡ false → drop (pos_part q) ds ≡ ds
drop_none (pos zero) ds h = refl
drop_none (pos (suc n)) ds h = absurd (ground arith)
drop_none (negsuc n) ds h = refl

-- The page that a loop in the state `p` is still to collect from the downloads `ds`.
abbrev page : Page → List Download → List Download
page p ds = p.result ++ limited p.collect (drop (pos_part p.discard) ds)

-- What a round leads to.
abbrev ends : Round → List Download → List Download
ends (next p) ds = page p ds
ends (break r) ds = r
ends (failed e) ds = []

is_positive : (n : ℕ) → ltb_ℤ (pos 0) (pos (suc n)) ≡ true
is_positive n = ground arith

not_zero : (n : ℕ) → eq_ℤ (pos (suc n)) (pos 0) ≡ false
not_zero n = ground arith

negative : (n : ℕ) → (ltb_ℤ (pos 0) (negsuc n) ≡ false) × (eq_ℤ (negsuc n) (pos 0) ≡ false)
negative n = ground arith

ends-collected :
    (c q : ℤ) (r : List Download) (d : Download) (ds : List Download)
    → ltb_ℤ (pos 0) q ≡ false
    → ends (collected d (record { discard = q; collect = c; result = r })) ds
      ≡ r ++ limited c (drop (pos_part q) (d ∷ ds))
ends-collected (pos zero) q r d ds h = rw (drop_none q (d ∷ ds) h)
ends-collected (pos (suc zero)) q r d ds h = rw (one_less 0, drop_none q (d ∷ ds) h)
ends-collected (pos (suc (suc n))) q r d ds h =
    rw (is_positive (suc n), one_less (suc n), not_zero n, drop_none q (d ∷ ds) h, drop_none q ds h)
      (append_assoc r (d ∷ []) (take (suc n) ds))
ends-collected (negsuc n) q r d ds h =
    let (low, off) = negative n in
    rw (low, off, drop_none q (d ∷ ds) h, drop_none q ds h) (append_assoc r (d ∷ []) ds)

IsReply : Round → Type 0
IsReply (next p) = Unit
IsReply (break r) = Unit
IsReply (failed e) = ⊥

collected-IsReply : (d : Download) (p : Page) → IsReply (collected d p)
unfolding IsReply
collected-IsReply d p =
    let left = if ltb_ℤ (pos 0) p.collect then p.collect -ℤ pos 1 else p.collect in
    elim (Bool-cases (eq_ℤ left (pos 0))) [ inl e ↦ rw e tt | inr e ↦ rw e tt ]

page_nil : (c : ℤ) (n : ℕ) (r : List Download) → r ++ limited c (drop n []) ≡ r
page_nil (pos zero) n r = rw (drop-nil n, append-nil)
page_nil (pos (suc m)) n r = rw (drop-nil n, append-nil)
page_nil (negsuc m) n r = rw (drop-nil n, append-nil)

module _ (b : Badger) (options : ListDownloadsOptions) (db : b.Db) where
  open b use {get}

  abbrev pub hits : List Bytes → List Download
  hits [] = []
  hits (k ∷ ks) = hit options (get db (k_download (last_part k))) ++ hits ks

  abbrev pub AllReadable : List Bytes → Type 0
  AllReadable = AllTexts (λ k. IsReadable (get db (k_download (last_part k))))

  abbrev GoesOn : List Bytes → Type 0
  GoesOn ks = (p : Page) → list_loop b options live ks p db ≡ ok (page p (hits ks))

  abbrev resume : List Bytes → Round → Result (List Download)
  resume ks r = elim r [
    | next p' ↦ list_loop b options live ks p' db
    | break result ↦ ok result
    | failed e ↦ err e
  ]

  resume-ends :
      (ks : List Bytes) (r : Round) → GoesOn ks → IsReply r → resume ks r ≡ ok (ends r (hits ks))
  unfolding IsReply
  resume-ends ks (next p) go h = go p
  resume-ends ks (break r) go h = refl
  resume-ends ks (failed e) go h = absurd h

  resume-collected :
      (ks : List Bytes) (d : Download) (p : Page)
      → GoesOn ks
      → ltb_ℤ (pos 0) p.discard ≡ false
      → resume ks (collected d p) ≡ ok (page p (d ∷ hits ks))
  resume-collected ks d p go h =
      resume-ends ks (collected d p) go (collected-IsReply d p)
      ∙ ap ok (ends-collected p.collect p.discard p.result d (hits ks) h)

  resume-fetched :
      (ks : List Bytes) (o : Option Value) (p : Page)
      → GoesOn ks
      → IsReadable o
      → resume ks (fetched options p o) ≡ ok (page p (hit options o ++ hits ks))
  resume-fetched ks none p go h = go p
  resume-fetched ks (some (download d)) p go h = elim (Bool-cases (matches options d)) [
    | inr off ↦ rw off (go p)
    | inl on ↦ elim (Bool-cases (ltb_ℤ (pos 0) p.discard)) [
      | inr here ↦ rw (on, here) (resume-collected ks d p go here)
      | inl skip ↦
          rw (on, skip)
            (go (record p { discard = p.discard -ℤ pos 1 })
              ∙ ap (λ (ds : List Download). ok (p.result ++ limited p.collect ds))
                  (drop_less p.discard d (hits ks) skip))
    ]
  ]
  resume-fetched ks (some nil) p go h = absurd h
  resume-fetched ks (some (segment s)) p go h = absurd h
  resume-fetched ks (some (queue s)) p go h = absurd h
  resume-fetched ks (some (stats s)) p go h = absurd h

  -- Over readable entries the loop ends without an error, with the page that its counters describe.
  pub list_loop-page :
      (ks : List Bytes) (p : Page)
      → AllReadable ks
      → list_loop b options live ks p db ≡ ok (page p (hits ks))
  unfolding list_loop
  list_loop-page [] p h = ap ok (sym (page_nil p.collect (pos_part p.discard) p.result))
  list_loop-page (k ∷ ks) p (here, rest) =
      resume-fetched ks (get db (k_download (last_part k))) p (λ q. list_loop-page ks q rest) here
