-- ===== src/Config/Loaded.antt =====
-- src/config-file.c: what holds of every configuration that `load_config_file` returns.
use rauc_hawkbit_updater.Base.{
  String, ◌≡◌, ◌≢◌, ◌⊎◌, true, List, [], ◌∷◌, is_some, arith, pos, ◌<ℤ◌,
}
use rauc_hawkbit_updater.GError.{Result, ok, >>=-eq-ok}
use rauc_hawkbit_updater.Config.{
  Config, KeyFile, Glib, Table, table_insert, check_tokens, check_timeouts, check_location,
  fill_group, read_group, get_group, read_config, load_config_file,
}

pub record IsValid (c : Config) : Type 0 where
  -- one of the two tokens, and never both
  pub one_token : is_some c.auth_token ≢ is_some c.gateway_token
  pub timeouts :
      (¬ (pos 0 <ℤ c.timeout))
      ⊎ ((¬ (pos 0 <ℤ c.connect_timeout)) ⊎ (¬ (c.timeout <ℤ c.connect_timeout)))
  pub location : (is_some c.bundle_download_location ≡ true) ⊎ (c.stream_bundle ≡ true)
  pub has_device : c.device ≢ []

module _ (g : Glib) (file : KeyFile) where
  table_insert-ne-nil : (k v : String) (t : Table) → table_insert k v t ≢ []
  unfolding table_insert
  table_insert-ne-nil k v [] = ground arith
  table_insert-ne-nil k v (x ∷ t) = ground arith

  fill_group-ne-nil :
      (group : String) (keys : List String) (hash t : Table)
      → hash ≢ []
      → fill_group g file group keys hash ≡ ok t
      → t ≢ []
  unfolding fill_group
  fill_group-ne-nil group [] hash t n h = ground arith
  fill_group-ne-nil group (key ∷ keys) hash t n h =
      let (v, e, r) = >>=-eq-ok (file.get_value group key) _ h in
      fill_group-ne-nil group keys (table_insert key (g.strchomp v) hash) t
        (table_insert-ne-nil key (g.strchomp v) hash) r

  read_group-ne-nil :
      (group : String) (keys : List String) (t : Table)
      → read_group g file group keys ≡ ok t
      → t ≢ []
  unfolding read_group fill_group
  read_group-ne-nil group [] t h = cc
  read_group-ne-nil group (key ∷ keys) t h =
      let (v, e, r) = >>=-eq-ok (file.get_value group key) _ h in
      fill_group-ne-nil group keys (table_insert key (g.strchomp v) []) t
        (table_insert-ne-nil key (g.strchomp v) []) r

  -- A group that is read has at least one key.
  get_group-ne-nil : (group : String) (t : Table) → get_group g file group ≡ ok t → t ≢ []
  unfolding get_group
  get_group-ne-nil group t h =
      let (keys, e, r) = >>=-eq-ok (file.get_keys group) _ h in read_group-ne-nil group keys t r

  get_group_device :
      (c : Config) → read_config g file ≡ ok c → get_group g file "device" ≡ ok c.device
  unfolding read_config
  get_group_device c h = ground arith

  read_config-IsValid : (c : Config) → read_config g file ≡ ok c → IsValid c
  unfolding read_config check_tokens check_timeouts check_location
  read_config-IsValid c h = record {
    one_token = ground arith;
    timeouts = ground arith;
    location = ground arith;
    has_device = get_group-ne-nil "device" c.device (get_group_device c h);
  }

-- A configuration that is loaded is usable: exactly one of the two tokens is set, the request
-- timeout is not below the connection timeout where both are set, there is a place to download to
-- unless bundles are streamed, and the device section is not empty.
pub load_config_file-IsValid :
    (g : Glib) (load : String → Result KeyFile) (name : String) (c : Config)
    → load_config_file g load name ≡ ok c
    → IsValid c
unfolding load_config_file
load_config_file-IsValid g load name c h =
    let (file, _, r) = >>=-eq-ok (load name) _ h in read_config-IsValid g file c r
