-- ===== src/Rest/Effects.antt =====
-- src/hawkbit-client.c: a REST request leaves the shared state alone.
use rauc_hawkbit_updater.Base.{ℕ, zero, suc, String, Bool, Option, none, some, List}
use rauc_hawkbit_updater.GError.{GError, Result, ok, err}
use rauc_hawkbit_updater.Exec.{Exec}
use rauc_hawkbit_updater.World.{World, HttpMethod, BuilderCall}
use rauc_hawkbit_updater.World.Quiet.{Quiet, Quiet-bind, Quiet-attempt, quiet_rules}
use rauc_hawkbit_updater.Payload.{RestPayload}
use rauc_hawkbit_updater.Services.{Services, Response}
use rauc_hawkbit_updater.Http.{add_curl_header, set_auth_curl_header}
use rauc_hawkbit_updater.Rest.{
  add_content_type, parse_body, read_response, rest_request, after_error, after_request, retry_loop,
  rest_request_retriable,
}

module _ {Node C E : Type 0} (s : Services Node C E) where
  pub add_curl_header-Quiet :
      (headers : List String) (string : String) → Quiet (add_curl_header s headers string)
  unfolding add_curl_header
  add_curl_header-Quiet headers string = search quiet_rules

  pub set_auth_curl_header-Quiet : (headers : List String) → Quiet (set_auth_curl_header s headers)
  unfolding set_auth_curl_header
  set_auth_curl_header-Quiet headers = search (quiet_rules, add_curl_header-Quiet)

  ruleset header_rules = (quiet_rules, add_curl_header-Quiet, set_auth_curl_header-Quiet)

  add_content_type-Quiet :
      (body : Option (List BuilderCall)) (headers : List String)
      → Quiet (add_content_type s body headers)
  unfolding add_content_type
  add_content_type-Quiet none headers = search quiet_rules
  add_content_type-Quiet (some b) headers = add_curl_header-Quiet headers _

  parse_body-Quiet : (wanted : Bool) (buffer : RestPayload) → Quiet (parse_body s wanted buffer)
  unfolding parse_body
  parse_body-Quiet wanted buffer = search quiet_rules

  read_response-Quiet : (wanted : Bool) (r : Response) → Quiet (read_response s wanted r)
  unfolding read_response
  read_response-Quiet wanted r = search (quiet_rules, parse_body-Quiet)

  pub rest_request-Quiet :
      (m : HttpMethod) (url : String) (body : Option (List BuilderCall)) (wanted : Bool)
      → Quiet (rest_request s m url body wanted)
  unfolding rest_request
  rest_request-Quiet m url body wanted =
      search (header_rules, add_content_type-Quiet, read_response-Quiet) depth 9

  after_error-Quiet :
      (e : GError) (again : Exec (World E) (Option Node))
      → Quiet again
      → Quiet (after_error s e again)
  unfolding after_error
  after_error-Quiet e again q = search quiet_rules

  after_request-Quiet :
      (r : Result (Option Node)) (again : Exec (World E) (Option Node))
      → Quiet again
      → Quiet (after_request s r again)
  unfolding after_request
  after_request-Quiet (ok root) again q = search quiet_rules
  after_request-Quiet (err e) again q = after_error-Quiet e again q

  retry_loop-Quiet :
      (request : Exec (World E) (Option Node)) (left : ℕ)
      → Quiet request
      → Quiet (retry_loop s request left)
  unfolding retry_loop
  retry_loop-Quiet request zero q = q
  retry_loop-Quiet request (suc left) q =
      Quiet-bind _ _ (Quiet-attempt _ q)
        (λ r. after_request-Quiet r _ (retry_loop-Quiet request left q))

  pub rest_request_retriable-Quiet :
      (m : HttpMethod) (url : String) (body : Option (List BuilderCall)) (wanted : Bool)
      → Quiet (rest_request_retriable s m url body wanted)
  unfolding rest_request_retriable
  rest_request_retriable-Quiet m url body wanted =
      retry_loop-Quiet _ _ (rest_request-Quiet m url body wanted)
