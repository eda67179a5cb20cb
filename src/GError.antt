-- ===== src/GError.antt =====
-- GLib's `GError` values, the error domains and codes of include/hawkbit-client.h, and functions
-- that either return a value or set their `error` argument.
use rauc_hawkbit_updater.Base.{
  ℕ, ◌+◌, String, ◌≡◌, refl, ◌⊎◌, inl, inr, Bool, false, ◌&&◌, ◌==◌, Option, none, some, ◌<+>◌,
}

-- A domain is a quark; `foreign` stands for the domains that only libraries use.
pub data Domain : Type 0 where
  client_error curl_error http_error key_file_error file_error json_parser_error : Domain
  foreign : ℕ → Domain

abbrev pub quark : Domain → ℕ
quark client_error = 0
quark curl_error = 1
quark http_error = 2
quark key_file_error = 3
quark file_error = 4
quark json_parser_error = 5
quark (foreign n) = n + 6

-- enum RHUHawkbitClientError
pub data ClientError : Type 0 where
  already_in_progress json_response_parse multi_chunks multi_artifacts download : ClientError
  stream_install cancelation : ClientError

abbrev pub client_code : ClientError → ℕ
client_code already_in_progress = 0
client_code json_response_parse = 1
client_code multi_chunks = 2
client_code multi_artifacts = 3
client_code download = 4
client_code stream_install = 5
client_code cancelation = 6

pub record GError : Type 0 where
  pub domain : Domain
  pub code : ℕ
  pub message : String

abbrev pub set_error : Domain → ℕ → String → GError
set_error d c m = record { domain = d; code = c; message = m }

-- g_error_matches, which is FALSE of NULL
abbrev pub error_matches : Option GError → Domain → ℕ → Bool
error_matches none d c = false
error_matches (some e) d c = quark e.domain == quark d && e.code == c

-- g_prefix_error, which leaves NULL alone
abbrev pub prefix_error : String → GError → GError
prefix_error p e = record e { message = p <+> e.message }

-- What a function with an `error` argument gives: its value, or FALSE or NULL with the error set.
pub data Result {ℓ} (A : Type ℓ) : Type ℓ where
  ok : A → Result A
  err : GError → Result A

-- A chain of calls, each of which is left early when the one before it failed.
module _ {ℓ κ} {A : Type ℓ} {B : Type κ} where
  infixl 5 ◌>>=◌ ◌>>◌
  abbrev pub ◌>>=◌ : Result A → (A → Result B) → Result B
  err failure >>= next = err failure
  ok value >>= next = next value

  abbrev pub ◌>>◌ : Result A → Result B → Result B
  first >> second = first >>= λ _. second

  -- Inversion of a successful chain.
  pub >>=-eq-ok :
      (first : Result A) (next : A → Result B) {result : B}
      → first >>= next ≡ ok result
      → (value : A) × (first ≡ ok value) × (next value ≡ ok result)
  >>=-eq-ok (err failure) next h = cc
  >>=-eq-ok (ok value) next h = (value, refl, h)

-- A call with `error` NULL: the value or NULL.
abbrev pub to_option {ℓ} : {A : Type ℓ} → Result A → Option A
to_option (ok a) = some a
to_option (err e) = none

pub Result-cases {ℓ} :
    {A : Type ℓ} (r : Result A) → ((a : A) × (r ≡ ok a)) ⊎ ((e : GError) × (r ≡ err e))
Result-cases (ok a) = inl (a, refl)
Result-cases (err e) = inr (e, refl)
