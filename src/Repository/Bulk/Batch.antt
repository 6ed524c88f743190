-- ===== src/Repository/Bulk/Batch.antt =====
-- The write batches of BadgerDB, as the bulk methods use them. A batch holds back its writes in a
-- transaction; when the transaction has no room for a write, the batch commits it and goes on in a new
-- one, and a cancellation does not take such a part back. The bulk methods flush the batch at every
-- 1000th download and at the end.
use svc_downloader.Common.{
  ℕ, ◌+◌, ◌%◌, ◌==◌, Bool, true, false, Option, none, some, List, [], ◌∷◌, ◌++◌, if◌then◌else◌,
}
use svc_downloader.Common.Bytes.{Bytes}
use svc_downloader.Models.{Time, is_zero, Download}
use svc_downloader.Errors.{Error, Result, ok, err, Context, live, cancelled, context_canceled}
use svc_downloader.Store.{Badger, Value, nil, download}
use svc_downloader.Repository.Keys.{index_keys, time_to_key, k_download}

-- A write of a batch.
pub data Write : Type 0 where
  put : Bytes → Value → Write
  drop_key : Bytes → Write

-- What a batch of BadgerDB does: the error that it gives after it was flushed, if it gives one, and
-- whether a transaction has room for so many writes.
pub record Batching : Type 0 where
  pub reused : Option Error
  pub fits : List Write → Bool

-- The writes that are held back, how many downloads were written, and whether the batch was flushed.
pub record Batch : Type 0 where
  pub held : List Write
  pub pending : ℕ
  pub flushed : Bool

abbrev pub new_batch : Batch
new_batch = record { held = []; pending = 0; flushed = false }

-- The writes of a download: the entry and its index keys.
abbrev pub puts : List Bytes → List Write
puts [] = []
puts (k ∷ ks) = put k nil ∷ puts ks

abbrev pub download_writes : Time → Download → List Write
download_writes now d =
    put (k_download d.id) (download d) ∷ puts (index_keys (time_to_key now d.created_at) d)

-- The fields that BulkCreateDownloads and BulkUpdateDownloads set.
abbrev pub created_in : Time → Download → Download
created_in now d = record d {
  created_at = if is_zero d.created_at then now else d.created_at;
  updated_at = now;
}

abbrev pub updated_in : Time → Option Download → Download → Download
updated_in now none d = record d { updated_at = now }
updated_in now (some old) d = record d {
  created_at = if is_zero d.created_at then old.created_at else d.created_at;
  updated_at = now;
}

module _ (b : Badger) (rules : Batching) where
  open b use {Db, keys}

  unfoldable pub apply : List Write → Db → Db
  apply [] db = db
  apply (put k v ∷ ws) db = apply ws (b.set db k v)
  apply (drop_key k ∷ ws) db = apply ws (b.delete db k)

  -- The answer of a batch to a further use.
  abbrev pub usable : Bool → Result (Unit {0})
  usable false = ok tt
  usable true = elim rules.reused [ none ↦ ok tt | some e ↦ err e ]

  -- wb.Flush
  abbrev pub flush : Batch → Db → Result Batch × Db
  flush w db = elim (usable w.flushed) [
    | err e ↦ (err e, db)
    | ok u ↦ (ok (record w { held = []; flushed = true }), apply w.held db)
  ]

  -- The end of a round: pending++, and a flush at every 1000th.
  abbrev pub round_end : Batch → Db → Result Batch × Db
  round_end w db =
      let w' = record w { pending = w.pending + 1 } in
      if (w.pending + 1) % 1000 == 0 then flush w' db else (ok w', db)

  -- wb.Set and wb.Delete: a full transaction is committed first.
  unfoldable pub held_by : List Write → List Write → Db → List Write × Db
  unfolding apply
  held_by [] held db = (held, db)
  held_by (x ∷ ws) held db =
      let more = held_by ws (held ++ x ∷ []) db in
      let anew = held_by ws (x ∷ []) (apply held db) in
      if rules.fits (held ++ x ∷ []) then more else anew

  -- The writes of one download.
  abbrev pub hold : List Write → Batch → Db → Result Batch × Db
  hold ws w db = elim (usable w.flushed) [
    | err e ↦ (err e, db)
    | ok u ↦ (let (held, db') = held_by ws w.held db in round_end (record w { held = held }) db')
  ]

  abbrev pub flushed_last : Result Batch × Db → Result (Unit {0}) × Db
  flushed_last (ok w, db) = (ok tt, db)
  flushed_last (err e, db) = (err e, db)

  -- The last `return wb.Flush()`, after a loop.
  abbrev pub finish : Result Batch × Db → Result (Unit {0}) × Db
  finish (err e, db) = (err e, db)
  finish (ok w, db) = flushed_last (flush w db)

  abbrev pub go_on : Result Batch × Db → (Batch → Db → Result Batch × Db) → Result Batch × Db
  go_on (err e, db) f = (err e, db)
  go_on (ok w, db) f = f w db

  abbrev pub live_or : Context → Db → Result Batch × Db → Result Batch × Db
  live_or live db r = r
  live_or cancelled db r = (err context_canceled, db)

  abbrev pub live_unit : Context → Db → Result (Unit {0}) × Db → Result (Unit {0}) × Db
  live_unit live db r = r
  live_unit cancelled db r = (err context_canceled, db)
