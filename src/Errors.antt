-- ===== src/Errors.antt =====
-- The errors that the service's own code returns or tests for (internal/errs/errs.go, the literals of
-- errors.New, and the sentinels of the libraries), and results that may be an error.
use svc_downloader.Common.{◌≡◌, refl, ◌⊎◌, inl, inr}
use svc_downloader.Common.Bytes.{Bytes}

pub data Error : Type 0 where
  -- ctx.Err() of a context that was cancelled
  context_canceled : Error
  -- errs.ErrNotFound, errs.ErrConflict, errs.ErrBadRequest, errs.ErrValidation
  not_found conflict bad_request validation_failed : Error
  -- badger.ErrKeyNotFound
  key_not_found : Error
  -- an error of json.Unmarshal
  bad_json : Error
  download_id_required segment_download_id_required queue_id_required : Error
  from_and_to_required status_required url_required : Error
  -- what os.IsNotExist tells from the others, and the other errors of the file system
  not_exist not_directory is_directory not_empty denied : Error
  -- the literals of internal/filestore
  file_options_required no_parts target_exists : Error
  unsupported_checksum : Bytes → Error
  -- io.EOF, io.ErrUnexpectedEOF, and an error of a read from a connection
  eof unexpected_eof broken_body : Error
  -- an error of http.NewRequest or of the round trip; a status of 400 or more
  request_failed : Error
  get_range_failed head_failed : Bytes → Error
  -- the content type that the runner does not expect
  unexpected_content_type : Bytes → Error

pub data Result {ℓ} (A : Type ℓ) : Type ℓ where
  ok : A → Result A
  err : Error → Result A

-- A context: cancelled or not, for the time of one call.
pub data Context : Type 0 where
  live cancelled : Context

pub Result-cases {ℓ} :
    {A : Type ℓ} (r : Result A) → ((a : A) × (r ≡ ok a)) ⊎ ((e : Error) × (r ≡ err e))
Result-cases (ok a) = inl (a, refl)
Result-cases (err e) = inr (e, refl)
