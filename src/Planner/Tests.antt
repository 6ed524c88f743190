-- ===== src/Planner/Tests.antt =====
-- Tests and instances of the planner's theorems.
use svc_downloader.Common.{◌≡◌, true, some, arith}
use svc_downloader.Common.Bytes.{codes}
use svc_downloader.Common.Int.{pos}
use svc_downloader.Fixtures.{sample, config_with}
use svc_downloader.Models.{Download}
use svc_downloader.Planner.{plan, max_conns}
use svc_downloader.Planner.Cover.{Tiles, plan-Tiles}
use svc_downloader.Planner.Merge.{merged, merged-plan, merged-plan_short}

abbrev three : Download
three = record (sample (codes "a") (codes "main") (pos 0)) { config = some (config_with (pos 3)) }

merged-plan_example : merged (codes "abcdefg") (plan three (pos 7) true) ≡ codes "abcdefg"
unfolding max_conns
merged-plan_example = merged-plan three (codes "abcdefg") true (λ _. omega arith)

merged-plan_short_example : merged (codes "xy") (plan three (pos 2) true) ≡ codes "xyxyxy"
unfolding max_conns
merged-plan_short_example = merged-plan_short three (codes "xy") (omega arith) (omega arith)

plan-Tiles_example : Tiles 0 7 (plan three (pos 7) true)
unfolding max_conns
plan-Tiles_example = plan-Tiles three 7 (omega arith)
