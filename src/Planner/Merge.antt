-- ===== src/Planner/Merge.antt =====
-- What the merged parts hold. A segment stands for a range of the content, read as the transport
-- requests it: from `start` up to and with `end`, or to the end of the content if `end` is negative.
use native.Mathlib.Nat.{div-eq_of_lt}
use svc_downloader.Common.{
  ℕ, zero, suc, ◌+◌, ◌-◌, ◌*◌, ◌/◌, ◌≤◌, ◌<◌, ◌≡◌, refl, sym, Bool, true, false, List, [], ◌∷◌,
  ◌++◌, arith, inl, inr, append-nil, Bool-cases, ◌==◌,
}
use svc_downloader.Common.Lists.{length, take, drop, take_all, drop_all, take-drop-append}
use svc_downloader.Common.Bytes.{Bytes}
use svc_downloader.Common.Int.{ℤ, pos, negsuc, pos_part}
use svc_downloader.Models.{Download, Segment}
use svc_downloader.Planner.{plan, max_conns, segments_from, segment_at}
use svc_downloader.Planner.Cover.{Tiles, plan-Tiles}

abbrev pub range : Bytes → ℕ → ℤ → Bytes
range content start (pos end) = take (end + 1 - start) (drop start content)
range content start (negsuc k) = drop start content

-- The merged parts, each with the range that its segment names.
abbrev pub merged : Bytes → List Segment → Bytes
merged content [] = []
merged content (s ∷ ss) = range content (pos_part s.start) s.end ++ merged content ss

merged-Tiles :
    (content : Bytes) (ss : List Segment) (a : ℕ)
    → Tiles a (length content) ss
    → merged content ss ≡ drop a content
merged-Tiles content [] a h = rw h (sym (drop_all content))
merged-Tiles content (s ∷ ss) a (start, end, le, rest) =
    let e = pos_part s.end in
    let next : e + 1 ≡ a + (e + 1 - a) = omega arith in
    let tail : merged content ss ≡ drop (a + (e + 1 - a)) content =
      rw (← next) (merged-Tiles content ss (e + 1) rest) in
    rw (start, end, tail) (take-drop-append (e + 1 - a) a content)

-- A download that is one stream.
merged_single : (content : Bytes) (d : Download) (n : ℤ) → merged content (plan d n false) ≡ content
unfolding plan
merged_single content d n = rw append-nil

-- The merged parts are the content, if the server has no ranges, or if there is at least one byte
-- for each connection.
pub merged-plan :
    (d : Download) (content : Bytes) (accept_ranges : Bool)
    → (accept_ranges ≡ true → max_conns d ≤ length content)
    → merged content (plan d (pos (length content)) accept_ranges) ≡ content
merged-plan d content false h = merged_single content d (pos (length content))
merged-plan d content true h =
    merged-Tiles content (plan d (pos (length content)) true) 0
      (plan-Tiles d (length content) (h refl))

abbrev pub copies : ℕ → Bytes → Bytes
copies zero content = []
copies (suc k) content = content ++ copies k content

no_bytes_each : (n m i : ℕ) → n < m → n / m * i ≡ 0
no_bytes_each n m i lt = rw (div-eq_of_lt lt) (omega arith)

-- With fewer bytes than connections, each segment asks for the whole content.
whole-segment_at :
    (content : Bytes) (id : Bytes) (m i : ℕ)
    → 0 < length content
    → length content < m
    → range content
        (pos_part (segment_at id (length content) m i).start)
        (segment_at id (length content) m i).end
      ≡ content
unfolding segment_at
whole-segment_at content id m i p lt =
    let n = length content in
    rw (no_bytes_each n m i lt, no_bytes_each n m (i + 1) lt)
      (elim (Bool-cases (i == m - 1)) [
        | inl last ↦ rw last (ground (arith, take_all (n - 1 + 1 - 0) content))
        | inr inner ↦ rw inner
      ])

copies_of :
    (content : Bytes) (id : Bytes) (m i k : ℕ)
    → 0 < length content
    → length content < m
    → merged content (segments_from id (length content) m i k) ≡ copies k content
unfolding segments_from
copies_of content id m i zero p lt = refl
copies_of content id m i (suc k) p lt =
    rw (whole-segment_at content id m i p lt, copies_of content id m (i + 1) k p lt)

-- With fewer bytes than connections the merged parts are one copy of the content for each
-- connection: the ends come out as -1, which the transport reads as an open range.
pub merged-plan_short :
    (d : Download) (content : Bytes)
    → 0 < length content
    → length content < max_conns d
    → merged content (plan d (pos (length content)) true) ≡ copies (max_conns d) content
unfolding plan
merged-plan_short d content p lt =
    ground (arith, copies_of content d.id (max_conns d) 0 (max_conns d) p lt)
