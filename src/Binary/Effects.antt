-- ===== src/Binary/Effects.antt =====
-- src/hawkbit-client.c: a download leaves the shared state alone.
use rauc_hawkbit_updater.Base.{ℕ, String, Bool, true, false, Option, none, some}
use rauc_hawkbit_updater.GError.{Result}
use rauc_hawkbit_updater.World.Quiet.{Quiet, Quiet-stop, Quiet-of_result, quiet_rules}
use rauc_hawkbit_updater.Services.{Services, Received}
use rauc_hawkbit_updater.Rest.Effects.{add_curl_header-Quiet, set_auth_curl_header-Quiet}
use rauc_hawkbit_updater.Binary.{check_received, checksum_of, transfer_into, after_open, get_binary}

module _ {Node C E : Type 0} (s : Services Node C E) where
  check_received-Quiet : (r : Received) → Quiet (check_received s r)
  unfolding check_received
  check_received-Quiet r = search quiet_rules

  checksum_of-Quiet : (r : Option (Result String)) → Quiet (checksum_of s r)
  unfolding checksum_of
  checksum_of-Quiet none = Quiet-stop _
  checksum_of-Quiet (some r) = Quiet-of_result r

  transfer_into-Quiet :
      (url file : String) (resume_from : ℕ) (started : Bool)
      → Quiet (transfer_into s url file resume_from started)
  unfolding transfer_into
  transfer_into-Quiet url file resume_from false = search quiet_rules
  transfer_into-Quiet url file resume_from true =
      search
        (
          quiet_rules, add_curl_header-Quiet, set_auth_curl_header-Quiet, check_received-Quiet,
          checksum_of-Quiet,
        )
        depth 12

  after_open-Quiet :
      (url file : String) (resume_from : ℕ) (opened : Option String)
      → Quiet (after_open s url file resume_from opened)
  unfolding after_open
  after_open-Quiet url file resume_from none = search (quiet_rules, transfer_into-Quiet)
  after_open-Quiet url file resume_from (some reason) = search quiet_rules

  pub get_binary-Quiet :
      (url file : String) (resume_from : ℕ) → Quiet (get_binary s url file resume_from)
  unfolding get_binary
  get_binary-Quiet url file resume_from = search (quiet_rules, after_open-Quiet)
