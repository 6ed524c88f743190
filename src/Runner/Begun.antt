-- ===== src/Runner/Begun.antt =====
-- The goroutines of a run at its start, before any of them has opened its part.
use svc_downloader.Common.{ℕ, suc, ◌+◌, ◌≤◌, ◌≡◌, refl, ap, subst, List, [], ◌∷◌, arith}
use svc_downloader.Common.Lists.{length, take, drop}
use svc_downloader.Common.Bytes.{Bytes}
use svc_downloader.Common.Int.{pos_part}
use svc_downloader.Models.{Segment}
use svc_downloader.Planner.Cover.{Tiles}
use svc_downloader.Planner.Bounds.{Numbered}
use svc_downloader.Paths.{FilePath}
use svc_downloader.Disk.{Disk, find, kept_bytes}
use svc_downloader.Runner.Pool.{new_workers}
use svc_downloader.Runner.Fits.{part, AllFit}

module _ (tmp : FilePath) (content : Bytes) (disk : Disk) where
  -- The bytes of a part file.
  abbrev pub found : ℕ → Bytes
  found i = kept_bytes (find (part tmp i) disk.files)

  -- The bytes begin the range of the segment, and they are not all of it.
  abbrev pub IsPartial : ℕ → Segment → Type 0
  IsPartial i s =
      (pos_part s.start + length (found i) ≤ pos_part s.end)
      × (found i ≡ take (length (found i)) (drop (pos_part s.start) content))

  abbrev pub ArePartial : ℕ → List Segment → Type 0
  ArePartial i [] = Unit
  ArePartial i (s ∷ ss) = IsPartial i s × ArePartial (suc i) ss

  pub new_workers-AllFit :
      (id : Bytes) (i a : ℕ) (ss : List Segment)
      → Tiles a (length content) ss
      → Numbered id i ss
      → ArePartial i ss
      → AllFit tmp content (λ n. length (found n)) i a (new_workers ss) disk
  new_workers-AllFit id i a [] tiles numbered partial = tiles
  new_workers-AllFit id i a (s ∷ ss) (start, end, le, tiles) (owner, index, numbered)
        ((short, begin), partial) =
      let next : i + 1 ≡ suc i = omega arith in
      let from : pos_part s.start ≡ a = ap pos_part start in
      (
        record {
          index = index;
          start = start;
          end = end;
          missing = omega (arith, short, from);
          phase = begin;
        },
        new_workers-AllFit id (suc i) _ ss tiles (subst (λ x. Numbered id x ss) next numbered)
            partial,
      )

pub length-new_workers : (ss : List Segment) → length (new_workers ss) ≡ length ss
length-new_workers [] = refl
length-new_workers (s ∷ ss) = omega (arith, length-new_workers ss)
