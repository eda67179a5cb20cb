-- ===== src/Rest.antt =====
-- src/hawkbit-client.c: REST requests, and the loop that repeats them.
pub mod Retries
pub mod Effects
pub mod Sends
use rauc_hawkbit_updater.Base.{
  ℕ, zero, suc, String, Bool, true, false, not, ◌&&◌, ◌||◌, Option, none, some, List, [], ◌∷◌, ◌++◌,
  ltb, ◌==◌, is_some, take, if◌then◌else◌, ◌<+>◌, decimal,
}
use rauc_hawkbit_updater.GError.{
  GError, Result, ok, err, set_error, curl_error, http_error, error_matches,
}
use rauc_hawkbit_updater.Exec.{Exec, pure, throw, of_result, attempt, ◌>>=◌, ◌>>◌}
use rauc_hawkbit_updater.Payload.{RestPayload, empty_payload, collect}
use rauc_hawkbit_updater.World.{
  HttpMethod, BuilderCall, Request, World, call, emit, requested, slept,
}
use rauc_hawkbit_updater.Services.{Services, Response}
use rauc_hawkbit_updater.Http.{failed_init, user_agent, add_curl_header, set_auth_curl_header}

abbrev pub max_retries_on_api_error : ℕ
max_retries_on_api_error = 10

module _ {Node C E : Type 0} (s : Services Node C E) where
  parse_body : Bool → RestPayload → Exec (World E) (Option Node)
  parse_body wanted buffer =
      if wanted && ltb 0 buffer.size
      then (do
        root ← of_result (s.load_from_data (take buffer.size buffer.payload))
        pure (some root))
      else pure none

  -- `wanted` is whether the caller passes a place for the response's parser; the result is `none`
  -- where that stays NULL.
  unfoldable pub read_response : Bool → Response → Exec (World E) (Option Node)
  unfolding parse_body
  read_response wanted response =
      let buffer = collect response.chunks empty_payload in
      if not (response.code == 0)
      then throw (set_error curl_error response.code (s.curl.strerror response.code))
      else if not (response.http_code == 200)
      then throw (
          set_error http_error response.http_code (
            "HTTP request failed: "
            <+> decimal response.http_code
            <+> "; server response: "
            <+> s.host.render buffer.payload))
      else parse_body wanted buffer

  add_content_type : Option (List BuilderCall) → List String → Exec (World E) (List String)
  add_content_type none headers = pure headers
  add_content_type (some _) headers =
      add_curl_header s headers "Content-Type: application/json;charset=UTF-8"

  request_headers : Option (List BuilderCall) → Exec (World E) (List String)
  unfolding add_content_type
  request_headers body = do
    accept ← add_curl_header s [] "Accept: application/json;charset=UTF-8"
    authorized ← set_auth_curl_header s accept
    add_content_type body authorized

  -- The handle as curl_easy_setopt leaves it.
  unfoldable pub rest_setup :
      HttpMethod → String → Option (List BuilderCall) → List String → Request
  rest_setup method url body headers = record {
    method = method;
    url = url;
    body = body;
    headers = headers;
    user_agent = user_agent;
    connect_timeout = s.config.connect_timeout;
    verify = s.config.ssl_verify;
    timeout = s.config.timeout;
  }

  send_request :
      HttpMethod → String → Option (List BuilderCall) → Bool → Exec (World E) (Option Node)
  send_request method url body wanted = do
    headers ← request_headers body
    let request = rest_setup method url body headers
    emit (requested request)
    response ← call (s.curl.perform request)
    read_response wanted response

  unfoldable pub rest_request :
      HttpMethod → String → Option (List BuilderCall) → Bool → Exec (World E) (Option Node)
  unfolding request_headers send_request
  rest_request method url body wanted = do
    started ← call s.curl.easy_init
    if started
        then send_request method url body wanted
        else throw (set_error curl_error failed_init "Unable to start libcurl easy session")

  -- HTTP errors 409 (Conflict) and 429 (Too Many Requests)
  unfoldable pub is_retriable : Option GError → Bool
  is_retriable e = error_matches e http_error 409 || error_matches e http_error 429

  -- What follows a request that failed with `e`: the loop goes on with `again`, or ends.
  unfoldable pub after_error : GError → Exec (World E) (Option Node) → Exec (World E) (Option Node)
  after_error e again = if is_retriable (some e) then (do emit (slept 1000000); again) else throw e

  after_request : Result (Option Node) → Exec (World E) (Option Node) → Exec (World E) (Option Node)
  unfolding after_error
  after_request (ok root) again = pure root
  after_request (err e) again = after_error e again

  -- The `while` loop, by the retries that are left (MAX_RETRIES_ON_API_ERROR - retry_count).
  unfoldable pub retry_loop : Exec (World E) (Option Node) → ℕ → Exec (World E) (Option Node)
  unfolding after_request
  retry_loop request zero = request
  retry_loop request (suc left) = do
    result ← attempt request
    after_request result (retry_loop request left)

  unfoldable pub rest_request_retriable :
      HttpMethod → String → Option (List BuilderCall) → Bool → Exec (World E) (Option Node)
  rest_request_retriable method url body wanted =
      retry_loop (rest_request method url body wanted) max_retries_on_api_error
