-- ===== src/Rest/Sends.antt =====
-- src/hawkbit-client.c: a REST request carries the authorization of the configuration.
use rauc_hawkbit_updater.Base.{
  ℕ, zero, suc, String, Bool, ◌≡◌, refl, ap, ◌∙◌, Option, none, some, List, [], ◌∷◌, ◌++◌,
}
use mathlib.Core.List.{append_assoc}
use rauc_hawkbit_updater.GError.{GError, Result, ok, err}
use rauc_hawkbit_updater.Exec.{Outcome, done, fail, crash, Exec, lift}
use rauc_hawkbit_updater.World.{World, HttpMethod, BuilderCall}
use rauc_hawkbit_updater.World.Sends.{
  Sends, Whatever, Authorized, Sends-then, Sends-bind, Sends-attempt, Sends-emit-Good, Sends-imply,
  Sends-return, Sends-throw, Sends-call, Sends-if, sends_rules,
}
use rauc_hawkbit_updater.Payload.{RestPayload}
use rauc_hawkbit_updater.Services.{Services, Response}
use rauc_hawkbit_updater.Http.{add_curl_header, set_auth_curl_header, get_auth_header}
use rauc_hawkbit_updater.Rest.{
  add_content_type, parse_body, read_response, request_headers, send_request, rest_request,
  rest_setup, after_error, after_request, retry_loop, rest_request_retriable,
}

module _ {Node C E : Type 0} (s : Services Node C E) where
  -- The list gets the header at its end.
  pub add_curl_header-Sends :
      (headers : List String) (string : String)
      → Sends s.config (λ hs. hs ≡ headers ++ string ∷ []) (add_curl_header s headers string)
  unfolding add_curl_header
  add_curl_header-Sends headers string =
      Sends-bind _ _ (Sends-call _)
        (λ added. Sends-if added _ _ (Sends-return _ refl) (Sends-throw _))

  Sends-header :
      (r : Outcome String)
      → get_auth_header s.config ≡ r
      → Sends {E = E} s.config (λ token. get_auth_header s.config ≡ done token) (lift r)
  unfolding lift
  Sends-header (done token) e = record { at = λ w h. (h, e) }
  Sends-header (fail x) e = record { at = λ w h. (h, tt) }
  Sends-header (crash c) e = record { at = λ w h. (h, tt) }

  pub Sends-auth_header :
      Sends {E = E} s.config
        (λ token. get_auth_header s.config ≡ done token)
        (lift (get_auth_header s.config))
  Sends-auth_header = Sends-header (get_auth_header s.config) refl

  pub set_auth_curl_header-Sends :
      (headers : List String)
      → Sends s.config (Authorized s.config) (set_auth_curl_header s headers)
  unfolding set_auth_curl_header
  set_auth_curl_header-Sends headers = Sends-then _ _ Sends-auth_header (λ token e.
      Sends-imply _ (add_curl_header-Sends headers token) (λ hs k. (token, e, headers, [], k)))

  -- A header that is added at the end takes none away.
  pub add_curl_header-Authorized :
      (headers : List String) (string : String)
      → Authorized s.config headers
      → Sends s.config (Authorized s.config) (add_curl_header s headers string)
  add_curl_header-Authorized headers string (token, e, before, after, k) =
      Sends-imply _ (add_curl_header-Sends headers string) (λ hs l. (
        token,
        e,
        before,
        after ++ string ∷ [],
        l ∙ ap (λ x. x ++ string ∷ []) k ∙ append_assoc before (token ∷ after) (string ∷ []),
      ))

  add_content_type-Sends :
      (body : Option (List BuilderCall)) (headers : List String)
      → Authorized s.config headers
      → Sends s.config (Authorized s.config) (add_content_type s body headers)
  unfolding add_content_type
  add_content_type-Sends none headers a = Sends-return _ a
  add_content_type-Sends (some b) headers a = add_curl_header-Authorized headers _ a

  request_headers-Sends :
      (body : Option (List BuilderCall))
      → Sends s.config (Authorized s.config) (request_headers s body)
  unfolding request_headers
  request_headers-Sends body =
      Sends-then _ _ (add_curl_header-Sends [] _) (λ accept _.
        Sends-then _ _ (set_auth_curl_header-Sends accept) (add_content_type-Sends body))

  parse_body-Sends :
      (wanted : Bool) (buffer : RestPayload) → Sends s.config Whatever (parse_body s wanted buffer)
  unfolding parse_body
  parse_body-Sends wanted buffer = search sends_rules

  read_response-Sends :
      (wanted : Bool) (r : Response) → Sends s.config Whatever (read_response s wanted r)
  unfolding read_response
  read_response-Sends wanted r = search (sends_rules, parse_body-Sends)

  send_request-Sends :
      (m : HttpMethod) (url : String) (body : Option (List BuilderCall)) (wanted : Bool)
      → Sends s.config Whatever (send_request s m url body wanted)
  unfolding send_request rest_setup
  send_request-Sends m url body wanted = Sends-then _ _ (request_headers-Sends body) (λ headers a.
      Sends-bind _ _ (Sends-emit-Good _ (refl, a))
        (λ _. Sends-bind _ _ (Sends-call _) (read_response-Sends wanted)))

  pub rest_request-Sends :
      (m : HttpMethod) (url : String) (body : Option (List BuilderCall)) (wanted : Bool)
      → Sends s.config Whatever (rest_request s m url body wanted)
  unfolding rest_request
  rest_request-Sends m url body wanted = search (sends_rules, send_request-Sends)

  after_error-Sends :
      (e : GError) (again : Exec (World E) (Option Node))
      → Sends s.config Whatever again
      → Sends s.config Whatever (after_error s e again)
  unfolding after_error
  after_error-Sends e again q = search sends_rules

  after_request-Sends :
      (r : Result (Option Node)) (again : Exec (World E) (Option Node))
      → Sends s.config Whatever again
      → Sends s.config Whatever (after_request s r again)
  unfolding after_request
  after_request-Sends (ok root) again q = search sends_rules
  after_request-Sends (err e) again q = after_error-Sends e again q

  retry_loop-Sends :
      (request : Exec (World E) (Option Node)) (left : ℕ)
      → Sends s.config Whatever request
      → Sends s.config Whatever (retry_loop s request left)
  unfolding retry_loop
  retry_loop-Sends request zero q = q
  retry_loop-Sends request (suc left) q =
      Sends-bind _ _ (Sends-attempt _ q)
        (λ r. after_request-Sends r _ (retry_loop-Sends request left q))

  pub rest_request_retriable-Sends :
      (m : HttpMethod) (url : String) (body : Option (List BuilderCall)) (wanted : Bool)
      → Sends s.config Whatever (rest_request_retriable s m url body wanted)
  unfolding rest_request_retriable
  rest_request_retriable-Sends m url body wanted =
      retry_loop-Sends _ _ (rest_request-Sends m url body wanted)
