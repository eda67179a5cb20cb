-- ===== src/Binary.antt =====
-- src/hawkbit-client.c: the download of a bundle, and the checksum of what is then in the file.
pub mod Sums
pub mod Effects
pub mod Sends
use rauc_hawkbit_updater.Base.{
  ℕ, zero, suc, ◌+◌, String, Bool, true, false, not, ◌&&◌, ◌||◌, Option, none, some, List, [], ◌∷◌,
  ltb, ◌==◌, length, take, drop, if◌then◌else◌, ◌<+>◌, decimal,
}
use rauc_hawkbit_updater.GError.{
  GError, Result, ok, err, set_error, curl_error, http_error, file_error,
}
use rauc_hawkbit_updater.Exec.{Exec, pure, stop, throw, of_result, blocked, ◌>>=◌, ◌>>◌}
use rauc_hawkbit_updater.World.{World, Transfer, call, emit, transferred}
use rauc_hawkbit_updater.Services.{Services, Checksum, File, Received}
use rauc_hawkbit_updater.Http.{failed_init, user_agent, add_curl_header, set_auth_curl_header}
use rauc_hawkbit_updater.Deployment.{file_failed}

-- sizeof(buf)
abbrev pub buffer_size : ℕ
buffer_size = 4096

-- Whether a read up to `to` meets the place where reads fail.
abbrev pub meets_fault : Option ℕ → ℕ → Bool
meets_fault none to = false
meets_fault (some k) to = ltb k to

-- fread of `buffer_size` bytes at a position; `none` is ferror. A short read is one up to the end.
unfoldable pub fread : File → ℕ → Option (List ℕ)
fread file position =
    let buf = take buffer_size (drop position file.content) in
    if meets_fault file.fails_from (position + length buf) then none else some buf

module _ {C : Type 0} (sum : Checksum C) where
  -- The `while (1)` loop from a position; `none` is that the fuel ran out.
  unfoldable pub checksum_loop : ℕ → File → ℕ → C → Option (Result String)
  checksum_loop zero file position ctx = none
  checksum_loop (suc fuel) file position ctx = elim (fread file position) [
    | none ↦ some (err (set_error file_error file_failed "Read failed"))
    | some buf ↦ elim (ltb (length buf) buffer_size) [
      | true ↦ some (ok (sum.hex (sum.update ctx buf)))
      | false ↦ checksum_loop fuel file (position + length buf) (sum.update ctx buf)
    ]
  ]

  -- Each round but the last reads at least one byte.
  unfoldable pub get_file_checksum : File → Option (Result String)
  get_file_checksum file = checksum_loop (suc (length file.content)) file 0 sum.start

module _ {Node C E : Type 0} (s : Services Node C E) where
  -- "ok/partial download/range not satisfiable (EOF reached)"
  unfoldable pub is_download_success : ℕ → Bool
  is_download_success http_code = http_code == 200 || http_code == 206 || http_code == 416

  unfoldable pub check_received : Received → Exec (World E) (Unit {0})
  check_received r =
      if not (r.code == 0)
      then throw (set_error curl_error r.code (s.curl.strerror r.code))
      else if not (is_download_success r.http_code)
      then throw
          (set_error http_error r.http_code ("HTTP request failed: " <+> decimal r.http_code))
      else pure tt

  pub checksum_of : Option (Result String) → Exec (World E) String
  checksum_of none = stop blocked
  checksum_of (some r) = of_result r

  pub transfer_setup : String → String → ℕ → List String → Transfer
  transfer_setup url file resume_from headers = record {
    url = url;
    file = file;
    resume_from = resume_from;
    headers = headers;
    user_agent = user_agent;
    connect_timeout = s.config.connect_timeout;
    verify = s.config.ssl_verify;
    low_speed_time = s.config.low_speed_time;
    low_speed_rate = s.config.low_speed_rate;
  }

  pub transfer_into : String → String → ℕ → Bool → Exec (World E) (String × ℕ)
  unfolding transfer_setup
  transfer_into url file resume_from false =
      throw (set_error curl_error failed_init "Unable to start libcurl easy session")
  transfer_into url file resume_from true = do
    authorized ← set_auth_curl_header s []
    headers ← add_curl_header s authorized "Accept: application/octet-stream"
    let transfer = transfer_setup url file resume_from headers
    emit (transferred transfer)
    received ← call (s.curl.download transfer)
    check_received received
    fp ← call (s.host.read_back file)
    sha1sum ← checksum_of (get_file_checksum s.checksum fp)
    pure (sha1sum, received.speed)

  pub after_open : String → String → ℕ → Option String → Exec (World E) (String × ℕ)
  after_open url file resume_from (some reason) = throw (
      set_error file_error file_failed
        ("Failed to open " <+> file <+> " for download: " <+> reason))
  after_open url file resume_from none = do
    started ← call s.curl.easy_init
    transfer_into url file resume_from started

  -- The checksum and the speed. The file is opened to append to exactly when a download is resumed.
  unfoldable pub get_binary : String → String → ℕ → Exec (World E) (String × ℕ)
  get_binary url file resume_from = do
    opened ← call (s.host.open_for_download file (not (resume_from == 0)))
    after_open url file resume_from opened
