-- ===== src/Repository/Frame.antt =====
-- A store with the same entries and index keys of downloads: what an operation on other data leaves.
use svc_downloader.Common.{true, ◌≡◌, sym, ◌∙◌, ap, is_some, some}
use svc_downloader.Common.Bytes.{Bytes, member, last_part}
use svc_downloader.Models.{Download}
use svc_downloader.Store.{Badger, download}
use svc_downloader.Repository.Keys.{is_index_key, k_download}
use svc_downloader.Repository.Keys.Owner.{index_keys-BelongsTo}
use svc_downloader.Repository.Indexed.{IsIndexed, stored_keys}

module _ (b : Badger) where
  open b use {Db, get}

  pub record SameDownloads (db db' : Db) : Type 0 where
    pub entries : (id : Bytes) → get db' (k_download id) ≡ get db (k_download id)
    pub indexes : (k : Bytes) → is_index_key k ≡ true → get db' k ≡ get db k

  -- The invariant of the indexes only reads the entries and the index keys of downloads.
  pub SameDownloads-IsIndexed :
      (db db' : Db) → SameDownloads db db' → IsIndexed b db → IsIndexed b db'
  SameDownloads-IsIndexed db db' s h = record {
    storable = λ id d e. h.storable id d (sym (s.entries id) ∙ e);
    complete = λ id d k e m.
        let at : get db (k_download id) ≡ some (download d) = sym (s.entries id) ∙ e in
        let own = index_of id d k at m in ap is_some (s.indexes k own) ∙ h.complete id d k at m;
    sound = λ k i e.
        let (d, at, m) = h.sound k i (ap is_some (sym (s.indexes k i)) ∙ e) in
        (d, s.entries (last_part k) ∙ at, m);
  }
    where
      index_of :
          (id : Bytes) (d : Download) (k : Bytes)
          → get db (k_download id) ≡ some (download d)
          → member k (stored_keys d) ≡ true
          → is_index_key k ≡ true
      index_of id d k at m =
          let stored = h.storable id d at in (index_keys-BelongsTo _ d k stored.plain m).index
