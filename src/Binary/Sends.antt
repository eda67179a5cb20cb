-- ===== src/Binary/Sends.antt =====
-- src/hawkbit-client.c: a download carries the authorization of the configuration.
use rauc_hawkbit_updater.Base.{refl, [], [], ℕ, String, Bool, true, false, Option, none, some}
use rauc_hawkbit_updater.GError.{Result}
use rauc_hawkbit_updater.World.Sends.{
  Sends, Whatever, Sends-then, Sends-bind, Sends-stop, Sends-of_result, Sends-emit-Good,
  sends_rules,
}
use rauc_hawkbit_updater.Services.{Services, Received}
use rauc_hawkbit_updater.Rest.Sends.{add_curl_header-Authorized, set_auth_curl_header-Sends}
use rauc_hawkbit_updater.Binary.{
  check_received, checksum_of, transfer_setup, transfer_into, after_open, get_binary,
}

module _ {Node C E : Type 0} (s : Services Node C E) where
  check_received-Sends : (r : Received) → Sends s.config Whatever (check_received s r)
  unfolding check_received
  check_received-Sends r = search sends_rules

  checksum_of-Sends : (r : Option (Result String)) → Sends s.config Whatever (checksum_of s r)
  unfolding checksum_of
  checksum_of-Sends none = Sends-stop _
  checksum_of-Sends (some r) = Sends-of_result r

  transfer_into-Sends :
      (url file : String) (resume_from : ℕ) (started : Bool)
      → Sends s.config Whatever (transfer_into s url file resume_from started)
  unfolding transfer_into transfer_setup
  transfer_into-Sends url file resume_from false = search sends_rules
  transfer_into-Sends url file resume_from true =
      Sends-then _ _ (set_auth_curl_header-Sends s []) (λ authorized a.
        Sends-then _ _ (add_curl_header-Authorized s authorized _ a) (λ headers b.
          Sends-bind _ _ (Sends-emit-Good _ (refl, b))
            (λ _. search (sends_rules, check_received-Sends, checksum_of-Sends))))

  after_open-Sends :
      (url file : String) (resume_from : ℕ) (opened : Option String)
      → Sends s.config Whatever (after_open s url file resume_from opened)
  unfolding after_open
  after_open-Sends url file resume_from none = search (sends_rules, transfer_into-Sends)
  after_open-Sends url file resume_from (some reason) = search sends_rules

  pub get_binary-Sends :
      (url file : String) (resume_from : ℕ)
      → Sends s.config Whatever (get_binary s url file resume_from)
  unfolding get_binary
  get_binary-Sends url file resume_from = search (sends_rules, after_open-Sends)
