-- ===== src/Http.antt =====
-- src/hawkbit-client.c: request headers and the URLs of the hawkBit API.
pub mod Headers
use rauc_hawkbit_updater.Base.{
  ℕ, String, Bool, true, false, Option, none, some, List, [], ◌∷◌, ◌++◌, if◌then◌else◌, ◌<+>◌,
}
use rauc_hawkbit_updater.GError.{set_error, curl_error}
use rauc_hawkbit_updater.Exec.{Outcome, done, crash, critical, Exec, pure, throw, lift, ◌>>=◌}
use rauc_hawkbit_updater.Config.{Config}
use rauc_hawkbit_updater.World.{World, call}
use rauc_hawkbit_updater.Services.{Services}

-- CURLE_FAILED_INIT
abbrev pub failed_init : ℕ
failed_init = 2

abbrev pub user_agent : String
user_agent = "rauc-hawkbit-c-agent/1.0"

-- With no token at all the function is left by g_return_val_if_reached.
unfoldable pub get_auth_header : Config → Outcome String
get_auth_header config = elim config.auth_token [
  | some token ↦ done ("Authorization: TargetToken " <+> token)
  | none ↦ elim config.gateway_token [
    | some token ↦ done ("Authorization: GatewayToken " <+> token)
    | none ↦ crash critical
  ]
]

-- `path` is the formatted path, or `none` for the base.
unfoldable pub build_api_url : Config → Option String → String
build_api_url config path =
    (if config.ssl then "https" else "http")
    <+> "://"
    <+> config.hawkbit_server
    <+> "/"
    <+> config.tenant_id
    <+> "/controller/v1/"
    <+> config.controller_id
    <+> (elim path [ none ↦ "" | some p ↦ "/" <+> p ])

module _ {Node C E : Type 0} (s : Services Node C E) where
  -- The list with the header at its end.
  unfoldable pub add_curl_header : List String → String → Exec (World E) (List String)
  add_curl_header headers string = do
    added ← call (s.curl.slist_append headers string)
    if added
        then pure (headers ++ string ∷ [])
        else throw (set_error curl_error failed_init ("Could not add header " <+> string))

  unfoldable pub set_auth_curl_header : List String → Exec (World E) (List String)
  set_auth_curl_header headers = do
    token ← lift (get_auth_header s.config)
    add_curl_header headers token
