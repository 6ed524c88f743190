-- ===== src/Runner/Settings.antt =====
-- The settings of a job: the identifier, the queue, the request, the configuration and the file options of
-- its download. What a save of a run leaves alone.
use svc_downloader.Common.{◌≡◌, refl, Option, [], inl, inr, Bool-cases, Option-cases}
use svc_downloader.Common.Bytes.{Bytes, same}
use svc_downloader.Models.{Time, is_zero, Download, RequestOptions, DownloadConfig, FileOptions}
use svc_downloader.Errors.{Result, ok, err, Result-cases, Context, live, cancelled}
use svc_downloader.Store.{Badger}
use svc_downloader.Repository.Keys.{k_download}
use svc_downloader.Repository.Downloads.{
  download_of, unindex_download, index_download, update_download,
}
use svc_downloader.Runner.{Env, Job, save, saved}

pub record Settings : Type 0 where
  pub id : Bytes
  pub queue_id : Bytes
  pub request : Option RequestOptions
  pub config : Option DownloadConfig
  pub file : Option FileOptions

abbrev pub settings : Download → Settings
settings d = record {
  id = d.id;
  queue_id = d.queue_id;
  request = d.request;
  config = d.config;
  file = d.file;
}

module _ (b : Badger) where
  open b use {Db, get}

  abbrev AnswersSame : Download → Result Download × Db → Type 0
  AnswersSame d (ok d', db) = (settings d' ≡ settings d) × (d'.status ≡ d.status)
  AnswersSame d (err e, db) = Unit

  update_download-AnswersSame :
      (ctx : Context) (now : Time) (d : Download) (db : Db)
      → AnswersSame d (update_download b ctx now d db)
  unfolding update_download unindex_download index_download
  update_download-AnswersSame cancelled now d db = tt
  update_download-AnswersSame live now d db = elim (Bool-cases (same d.id [])) [
    | inl unnamed ↦ rw unnamed tt
    | inr named ↦ rw named (elim (Option-cases (get db (k_download d.id))) [
      | inl missing ↦ rw missing tt
      | inr (v, found) ↦ rw found (elim (Result-cases (download_of v)) [
        | inr (e, unread) ↦ rw unread tt
        | inl (old, read) ↦ rw read (elim (Bool-cases (is_zero old.created_at)) [
          | inl undated ↦ rw undated (refl, refl)
          | inr dated ↦ rw dated (refl, refl)
        ])
      ])
    ])
  ]

  module _ (env : Env) where
    -- What a save leaves alone.
    pub record Saves (job job' : Job Db) : Type 0 where
      pub settings_same : settings job'.d ≡ settings job.d
      pub status_same : job'.d.status ≡ job.d.status
      pub disk_same : job'.disk ≡ job.disk
      pub wire_same : job'.wire ≡ job.wire
      pub channel_same : job'.channel ≡ job.channel

    saved-Saves :
        (r : Result Download × Db) (job : Job Db)
        → AnswersSame job.d r
        → Saves job (saved b env r job)
    saved-Saves (ok d, db) job h = record {
      settings_same = h.0;
      status_same = h.1;
      disk_same = refl;
      wire_same = refl;
      channel_same = refl;
    }
    saved-Saves (err e, db) job h = record {
      settings_same = refl;
      status_same = refl;
      disk_same = refl;
      wire_same = refl;
      channel_same = refl;
    }

    pub save-Saves : (job : Job Db) → Saves job (save b env job)
    unfolding save
    save-Saves job =
        let now = job.wire.now in
        saved-Saves (update_download b (env.ctx now) now job.d job.world.db) job
          (update_download-AnswersSame (env.ctx now) now job.d job.world.db)
