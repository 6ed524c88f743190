-- ===== src/Repository/Bulk/Create.antt =====
-- BulkCreateDownloads against the creation of one download after the other.
use svc_downloader.Common.{
  ℕ, ◌+◌, ◌≡◌, ◌<◌, ◌≤◌, ◌%◌, ◌==◌, refl, ap, ◌∙◌, Bool, true, false, List, [], ◌∷◌, ◌++◌,
  append_assoc, append-nil, if◌then◌else◌, arith, inl, inr, Bool-cases,
}
use svc_downloader.Common.Lists.{length, length-append}
use svc_downloader.Common.Bytes.{Bytes, same}
use svc_downloader.Models.{Time, Download}
use svc_downloader.Errors.{Result, ok, err, live, download_id_required}
use svc_downloader.Store.{Badger, set_all, nil}
use svc_downloader.Repository.Keys.{index_keys, time_to_key}
use svc_downloader.Repository.Downloads.{create_download}
use svc_downloader.Repository.Bulk.Batch.{
  Batching, Write, Batch, puts, download_writes, created_in, apply, hold, held_by,
}
use svc_downloader.Repository.Bulk.Writes.{create_loop, bulk_create_downloads}

abbrev pub all_named : List Download → Bool
all_named [] = true
all_named (d ∷ ds) = if same d.id [] then false else all_named ds

module _ (b : Badger) (rules : Batching) where
  open b use {Db}

  -- One creation after the other.
  abbrev pub create_each : Time → List Download → Db → Db
  create_each now [] db = db
  create_each now (d ∷ ds) db = create_each now ds (create_download b live now d db).1

  abbrev pub all_writes : Time → List Download → List Write
  all_writes now [] = []
  all_writes now (d ∷ ds) = download_writes now (created_in now d) ++ all_writes now ds

  apply-append :
      (ws vs : List Write) (db : Db)
      → apply b rules (ws ++ vs) db ≡ apply b rules vs (apply b rules ws db)
  unfolding apply
  apply-append [] vs db = refl
  apply-append (Write.put k v ∷ ws) vs db = apply-append ws vs (b.set db k v)
  apply-append (Write.drop_key k ∷ ws) vs db = apply-append ws vs (b.delete db k)

  apply-puts : (ks : List Bytes) (db : Db) → apply b rules (puts ks) db ≡ set_all b db ks nil
  unfolding apply
  apply-puts [] db = refl
  apply-puts (k ∷ ks) db = apply-puts ks (b.set db k nil)

  apply-download_writes :
      (now : Time) (d : Download) (db : Db)
      → same d.id [] ≡ false
      → apply b rules (download_writes now (created_in now d)) db
        ≡ (create_download b live now d db).1
  unfolding apply create_download
  apply-download_writes now d db named =
      rw named (
        apply-puts (index_keys (time_to_key now (created_in now d).created_at) (created_in now d))
          _)

  apply-all_writes :
      (now : Time) (ds : List Download) (db : Db)
      → all_named ds ≡ true
      → apply b rules (all_writes now ds) db ≡ create_each now ds db
  unfolding apply
  apply-all_writes now [] db h = refl
  apply-all_writes now (d ∷ ds) db h =
      let named : same d.id [] ≡ false = ground (arith, h) in
      let rest : all_named ds ≡ true = ground (arith, h) in
      apply-append (download_writes now (created_in now d)) (all_writes now ds) db
      ∙ apply-all_writes now ds (apply b rules (download_writes now (created_in now d)) db) rest
      ∙ ap (create_each now ds) (apply-download_writes now d db named)

  -- A batch with room for its writes only holds them back.
  held_by-fits :
      (bound : ℕ)
      → ((ws : List Write) → length ws ≤ bound → rules.fits ws ≡ true)
      → (ws held : List Write) (db : Db) → length held + length ws ≤ bound
      → held_by b rules ws held db ≡ (held ++ ws, db)
  unfolding held_by
  held_by-fits bound room [] held db le = rw (append-nil held) refl
  held_by-fits bound room (x ∷ ws) held db le =
      let one = length-append held (x ∷ []) in
      rw (room (held ++ x ∷ []) (omega (arith, one, le))) (
        held_by-fits bound room ws (held ++ x ∷ []) db (omega (arith, one, le))
        ∙ ap (λ vs. (vs, db)) (append_assoc held (x ∷ []) ws))

  -- The batch before its first flush.
  abbrev filling : List Write → ℕ → Batch
  filling held n = record { held = held; pending = n; flushed = false }

  hold-filling :
      (bound : ℕ)
      → ((ws : List Write) → length ws ≤ bound → rules.fits ws ≡ true)
      → (ws held : List Write) (n : ℕ) (db : Db) → length held + length ws ≤ bound
      → n + 1 < 1000
      → hold b rules ws (filling held n) db ≡ (ok (filling (held ++ ws) (n + 1)), db)
  hold-filling bound room ws held n db le few =
      let not_yet : ((n + 1) % 1000 == 0) ≡ false = ground arith in
      rw (held_by-fits bound room ws held db le, not_yet)

  abbrev outcome : Time → List Download → List Write → ℕ → Db → Result Batch × Db
  outcome now ds held n db =
      if all_named ds
      then (ok (filling (held ++ all_writes now ds) (n + length ds)), db)
      else (err download_id_required, db)

  create_loop_lem :
      (bound : ℕ)
      → ((ws : List Write) → length ws ≤ bound → rules.fits ws ≡ true)
      → (now : Time) (ds : List Download) (held : List Write) (n : ℕ) (db : Db)
      → length held + length (all_writes now ds) ≤ bound
      → n + length ds < 1000
      → create_loop b rules live now ds (filling held n) db ≡ outcome now ds held n db
  unfolding create_loop
  create_loop_lem bound room now [] held n db le few =
      let same_count : n + 0 ≡ n = omega arith in rw (append-nil, same_count)
  create_loop_lem bound room now (d ∷ ds) held n db le few = elim (Bool-cases (same d.id [])) [
    | inl empty ↦ rw empty
    | inr named ↦
        let ws = download_writes now (created_in now d) in
        let rest = all_writes now ds in
        let split = length-append ws rest in
        let few' : n + 1 + length ds < 1000 = omega (arith, few) in
        let one : n + 1 < 1000 = omega (arith, few) in
        let count : n + 1 + length ds ≡ n + length (d ∷ ds) = ground arith in
        rw named (
          rw (hold-filling bound room ws held n db (omega (arith, split, le)) one) (
            create_loop_lem bound room now ds (held ++ ws) (n + 1) db
              (omega (arith, split, length-append held ws, le)) few'
            ∙ ap
                (λ x.
                  if all_named ds
                  then (ok (filling x (n + 1 + length ds)), db)
                  else (err download_id_required, db))
                (append_assoc held ws rest)
            ∙ ap
                (λ m.
                  if all_named ds
                  then (ok (filling (held ++ (ws ++ rest)) m), db)
                  else (err download_id_required, db))
                count))
  ]

  -- Fewer than 1000 downloads, on a BadgerDB whose transactions have room for as many writes as they come
  -- to, are created all or none: if each has an identifier, the store becomes what the creations one
  -- after the other make of it; if one has none, nothing is written.
  pub bulk_create_downloads_lem :
      (now : Time) (ds : List Download) (db : Db)
      → length ds < 1000
      → ((ws : List Write) → length ws ≤ length (all_writes now ds) → rules.fits ws ≡ true)
      → bulk_create_downloads b rules live now ds db
        ≡ (if all_named ds then (ok tt, create_each now ds db) else (err download_id_required, db))
  unfolding bulk_create_downloads
  bulk_create_downloads_lem now ds db few room =
      let few' : 0 + length ds < 1000 = omega (arith, few) in
      rw (create_loop_lem (length (all_writes now ds)) room now ds [] 0 db (omega arith) few')
        (elim (Bool-cases (all_named ds)) [
          | inl on ↦ rw on (ap (λ s. (ok tt, s)) (apply-all_writes now ds db on))
          | inr off ↦ rw off
        ])
