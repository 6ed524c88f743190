-- ===== src/Runner/Sample.antt =====
-- A run on sample data: a network that gives one answer, and an empty disk.
use svc_downloader.Common.{true, false, none, some, [], ◌∷◌}
use svc_downloader.Common.Bytes.{Bytes, codes}
use svc_downloader.Common.Int.{pos}
use svc_downloader.Errors.{live}
use svc_downloader.Disk.{Disk}
use svc_downloader.FileStore.Checksum.{Hashes}
use svc_downloader.Transport.{Web, Response}
use svc_downloader.Runner.{Env}

abbrev pub no_hashes : Hashes
no_hashes = record { md5 = λ s. s; sha1 = λ s. s; sha256 = λ s. s; crc32c = λ s. s }

-- The second half of four bytes, with a Content-Range.
abbrev pub partial : Bytes → Response
partial range = record {
  status = 206;
  status_text = codes "Partial Content";
  headers = (codes "Content-Range", range ∷ []) ∷ [];
  body = codes "cd";
  fault = false;
}

abbrev pub answering : Response → Web
answering r = record {
  send = λ n c q. record { at = n; response = some r };
  accepts = λ u. true;
  set_query = λ u m. some u;
  origin = λ u. none;
  add_cookie = λ h k v. v;
  basic = λ u p. u;
}

abbrev pub env_with : Web → Env
env_with web = record {
  home = none;
  web = web;
  timeout = pos 0;
  hashes = no_hashes;
  refill = λ c t. pos 0;
  delay = λ n c. pos 0;
  backoff = λ base f n. base;
  ratio = λ a c. 0;
  random = λ n j. pos 0;
  text = λ e. codes "error";
  ctx = λ t. live;
}

abbrev pub empty_disk : Disk
empty_disk = record { files = []; dirs = []; refused = λ p. false }
