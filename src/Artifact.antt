-- ===== src/Artifact.antt =====
-- src/hawkbit-client.c: how `process_deployment` reads the artifact out of hawkBit's answer.
pub mod Reads
use rauc_hawkbit_updater.Base.{
  ℕ, String, Bool, Option, none, some, List, [], ◌∷◌, ◌<+>◌, ℤ, pos, is_zero_ℤ, if◌then◌else◌,
}
use rauc_hawkbit_updater.GError.{
  GError, Result, ok, err, set_error, client_error, ClientError, client_code, multi_chunks,
  multi_artifacts, prefix_error,
}
use rauc_hawkbit_updater.JsonHelper.{Json, json_get_string, json_get_int, json_get_array}
use rauc_hawkbit_updater.World.{Artifact}

-- The value, or the jump to `proc_error` with what `*error` is there, which can be NULL.
pub data Parsed (A : Type 0) : Type 0 where
  parsed : A → Parsed A
  rejected : Option GError → Parsed A

infixl 5 ◌>>=◌
abbrev pub ◌>>=◌ : {A B : Type 0} → Parsed A → (A → Parsed B) → Parsed B
parsed a >>= f = f a
rejected e >>= f = rejected e

abbrev pub from : {A : Type 0} → Result A → Parsed A
from (ok a) = parsed a
from (err e) = rejected (some e)

-- json_array_get_length and json_array_get_element(…, 0). `json_get_array` gives no empty array; the
-- element of one would be NULL.
pub only : {A : Type 0} → ClientError → String → List A → Parsed A
only c message [] = rejected none
only c message (a ∷ []) = parsed a
only c message (a ∷ b ∷ rest) = rejected (some (set_error client_error (client_code c) message))

-- `if (!artifact->size && error) goto proc_error;`: `error` is never NULL here, `*error` is for a 0
-- that is in the document.
pub read_size : Result ℤ → Parsed ℤ
read_size (ok n) = if is_zero_ℤ n then rejected none else parsed n
read_size (err e) = rejected (some e)

pub fallback_url : Result String → Parsed String
fallback_url (ok url) = parsed url
fallback_url (err e) = rejected (some (prefix_error "\"$._links.download{-http,}.href\": " e))

-- Favour https.
pub read_url : Result String → Result String → Parsed String
unfolding fallback_url
read_url (ok url) http = parsed url
read_url (err e) http = fallback_url http

module _ {Node : Type 0} (j : Json Node) where
  unfoldable pub read_artifact : Node → String → String → Option String → Bool → Parsed Artifact
  unfolding only read_size read_url
  read_artifact root id feedback_url maintenance_window do_install = do
    json_chunks ← from (json_get_array j root "$.deployment.chunks")
    json_chunk ←
        only multi_chunks ("Deployment " <+> id <+> " unsupported: cannot handle multiple chunks.")
          json_chunks
    json_artifacts ← from (json_get_array j json_chunk "$.artifacts")
    json_artifact ←
        only multi_artifacts
          ("Deployment " <+> id <+> " unsupported: cannot handle multiple artifacts.")
          json_artifacts
    version ← from (json_get_string j json_chunk "$.version")
    name ← from (json_get_string j json_chunk "$.name")
    size ← read_size (json_get_int j json_artifact "$.size")
    sha1 ← from (json_get_string j json_artifact "$.hashes.sha1")
    url ←
        read_url (json_get_string j json_artifact "$._links.download.href")
          (json_get_string j json_artifact "$._links.download-http.href")
    parsed (record {
      name = name;
      version = version;
      size = size;
      download_url = url;
      feedback_url = feedback_url;
      sha1 = sha1;
      maintenance_window = maintenance_window;
      do_install = do_install;
    })
