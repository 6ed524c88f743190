-- ===== src/Runner/Served.antt =====
-- A round of a segment against a server that serves ranges of a content.
use svc_downloader.Common.{
  ℕ, zero, suc, ◌+◌, ◌-◌, ◌≤◌, ◌<◌, ◌≡◌, refl, sym, ap, ◌∙◌, Bool, true, false, not, Option, none,
  some, [], ◌∷◌, inl, inr, arith, leb, Bool-cases, ◌==◌, ◌++◌,
}
use svc_downloader.Common.Lists.{length, take, drop, length-drop, drop-drop, take-add}
use svc_downloader.Common.Bytes.{Bytes}
use svc_downloader.Common.Int.{ℤ, pos, ltb_ℤ, eq_ℤ, ◌+ℤ◌, ◌-ℤ◌}
use svc_downloader.Models.{FileOptions, RequestOptions, DownloadConfig}
use svc_downloader.Transport.{Web, Wire, Response, with_mirrors}
use svc_downloader.Transport.Headers.{add_query}
use svc_downloader.Transport.Client.{client_for}
use svc_downloader.Transport.Fetch.{Ranged, got, failed, get_range, range_from, ask}
use svc_downloader.Transport.Answers.{range_request}
use svc_downloader.Runner.Segments.{Reader, capped}
use svc_downloader.Runner.Segments.Ranges.{is_expected, content_range}

-- The bytes of a content from `a` up to and with `e`.
abbrev pub slice : Bytes → ℕ → ℕ → Bytes
slice content a e = take (e + 1 - a) (drop a content)

-- The first mirror serves every range of the content, each with a Content-Range that fits.
abbrev pub IsServing : Web → ℤ → RequestOptions → DownloadConfig → Bytes → Type 0
IsServing web timeout req cfg content =
    (a e n : ℕ)
    → a ≤ e
    → e < length content
    → (r : Response) × ((web.send n (client_for timeout cfg)
          (range_request web timeout req cfg (pos a) (pos e) req.url)).response
        ≡ some r)
      × (((r.status == 206) ≡ true)
          × ((is_expected (pos a) (pos e) (content_range r) ≡ true)
              × ((r.body ≡ slice content a e) × (r.fault ≡ false))))

-- No limit on the size of the file.
abbrev pub is_unlimited : Option FileOptions → Bool
is_unlimited none = true
is_unlimited (some file) = not (ltb_ℤ (pos 0) file.max_file_size)

pub length-take_le : (n : ℕ) (s : Bytes) → n ≤ length s → length (take n s) ≡ n
length-take_le zero s h = refl
length-take_le (suc n) [] h = absurd (omega arith)
length-take_le (suc n) (c ∷ s) h = omega (arith, length-take_le n s (omega arith))

pub length-slice :
    (content : Bytes) (a e : ℕ)
    → a ≤ e
    → e < length content
    → length (slice content a e) ≡ e + 1 - a
length-slice content a e le lt =
    length-take_le (e + 1 - a) (drop a content) (omega (arith, length-drop a content))

pub pos-add : (a m : ℕ) → pos a +ℤ pos m ≡ pos (a + m)
unfolding ◌+ℤ◌
pos-add a m = ground arith

-- The bytes that are there and those that are asked for make up the range.
pub resumed_slice :
    (content : Bytes) (a m e : ℕ)
    → a + m ≤ e
    → take m (drop a content) ++ slice content (a + m) e ≡ slice content a e
resumed_slice content a m e le =
    let count : m + (e + 1 - (a + m)) ≡ e + 1 - a = omega arith in
    ap (λ x. take m (drop a content) ++ take (e + 1 - (a + m)) x) (sym (drop-drop a m content))
    ∙ sym (take-add m (e + 1 - (a + m)) (drop a content))
    ∙ ap (λ k. take k (drop a content)) count

pub span_full :
    (a e k : ℕ) → a ≤ e → k ≡ e + 1 - a → eq_ℤ (pos (0 + k)) (pos e -ℤ pos a +ℤ pos 1) ≡ true
unfolding ◌-ℤ◌ ◌+ℤ◌
span_full a e k le h = ground arith

pub capped-unlimited :
    (file : Option FileOptions) (completed : ℤ) (r : Reader)
    → is_unlimited file ≡ true
    → capped file completed r ≡ r
capped-unlimited none completed r h = refl
capped-unlimited (some f) completed r h = elim (Bool-cases (ltb_ℤ (pos 0) f.max_file_size)) [
  | inl limited ↦ absurd (ground (arith, h, limited))
  | inr unlimited ↦ rw unlimited refl
]

module _ (web : Web) (timeout : ℤ) (req : RequestOptions) (cfg : DownloadConfig) (content : Bytes)
    (accepted : web.accepts (add_query web req.url req.extra) ≡ true)
    (serving : IsServing web timeout req cfg content) (a e : ℕ) (le : a ≤ e)
    (lt : e < length content) where
  -- The answer to a request for the range.
  abbrev pub Served : Ranged × Wire → Type 0
  Served (failed status x, w) = ⊥
  Served (got r, w) =
      ((r.status == 206) ≡ true)
      × ((is_expected (pos a) (pos e) (content_range r) ≡ true)
          × ((r.body ≡ slice content a e) × (r.fault ≡ false)))

  pub get_range-Served : (w : Wire) → Served (get_range web timeout req cfg (pos a) (pos e) w)
  unfolding get_range range_from with_mirrors ask
  get_range-Served w =
      let (r, heard, (partial, rest)) = serving a e w.sent le lt in
      let low : leb 400 r.status ≡ false = ground (arith, partial) in
      rw (accepted, heard, low) (partial, rest)
