-- ===== src/Service/Tags.antt =====
-- The tags of a download: the loops of AddTags and RemoveTags in internal/service/download.go.
pub mod Laws
use svc_downloader.Common.{Bool, true, false, ◌||◌, List, [], ◌∷◌, ◌++◌, if◌then◌else◌, map}
use svc_downloader.Common.Bytes.{Bytes, same, member, to_lower}

-- The loop over the new tags, with the tags so far and the lower-case forms that exist.
unfoldable pub add_loop : List Bytes → List Bytes → List Bytes → List Bytes
add_loop [] tags existing = tags
add_loop (t ∷ ts) tags existing =
    let lt = to_lower t in
    if same t [] || member lt existing
    then add_loop ts tags existing
    else add_loop ts (tags ++ t ∷ []) (lt ∷ existing)

unfoldable pub add_tags : List Bytes → List Bytes → List Bytes
unfolding add_loop
add_tags old new = add_loop new old (map to_lower old)

-- The loop over the old tags, with the lower-case forms that are removed.
unfoldable pub remove_loop : List Bytes → List Bytes → List Bytes
remove_loop [] remove = []
remove_loop (t ∷ ts) remove =
    let rest = remove_loop ts remove in if member (to_lower t) remove then rest else t ∷ rest

unfoldable pub remove_tags : List Bytes → List Bytes → List Bytes
unfolding remove_loop
remove_tags old tags = remove_loop old (map to_lower tags)
