-- ===== src/Http/Headers.antt =====
-- src/hawkbit-client.c: the authorization header under a configuration that was loaded.
use rauc_hawkbit_updater.Base.{
  String, ◌≡◌, refl, ◌≢◌, ◌⊎◌, inl, inr, Option, none, some, ◌<+>◌, is_some,
}
use rauc_hawkbit_updater.GError.{Result, ok}
use rauc_hawkbit_updater.Exec.{done}
use rauc_hawkbit_updater.Config.{Config, KeyFile, Glib, load_config_file}
use rauc_hawkbit_updater.Config.Loaded.{load_config_file-IsValid}
use rauc_hawkbit_updater.Http.{get_auth_header}

-- The header is the one of the token that is set, and no other is.
abbrev pub Authorized : Config → Type 0
Authorized c =
    ((token : String) × (c.auth_token ≡ some token)
      × (c.gateway_token ≡ none)
      × (get_auth_header c ≡ done ("Authorization: TargetToken " <+> token)))
    ⊎ ((token : String) × (c.gateway_token ≡ some token)
        × (c.auth_token ≡ none)
        × (get_auth_header c ≡ done ("Authorization: GatewayToken " <+> token)))

IsValid-Authorized :
    (c : Config) (auth gateway : Option String)
    → is_some auth ≢ is_some gateway
    → Authorized (record c { auth_token = auth; gateway_token = gateway })
unfolding get_auth_header
IsValid-Authorized c none none v = absurd (v refl)
IsValid-Authorized c (some a) (some b) v = absurd (v refl)
IsValid-Authorized c (some a) none v = inl (a, refl, refl, refl)
IsValid-Authorized c none (some b) v = inr (b, refl, refl, refl)

-- With a configuration that was loaded, the authorization header is that of the one token that is
-- set, and the branch that should never be reached is not.
pub load_config_file-Authorized :
    (g : Glib) (load : String → Result KeyFile) (name : String) (c : Config)
    → load_config_file g load name ≡ ok c
    → Authorized c
load_config_file-Authorized g load name c h =
    IsValid-Authorized c c.auth_token c.gateway_token
      (load_config_file-IsValid g load name c h).one_token
