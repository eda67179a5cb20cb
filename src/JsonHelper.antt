-- ===== src/JsonHelper.antt =====
-- src/json-helper.c: reads from a JSON document. json-glib is a parameter.
pub mod Matches
use rauc_hawkbit_updater.Base.{
  ℕ, zero, suc, ◌<◌, String, Bool, true, false, not, Option, none, some, List, [], ◌∷◌, head?,
  length, ltb, if◌then◌else◌, ◌<+>◌, ℤ,
}
use rauc_hawkbit_updater.GError.{Result, ok, err, ◌>>=◌, set_error, json_parser_error}
use rauc_hawkbit_updater.Exec.{Outcome, done, crash, critical}

-- JSON_PARSER_ERROR_PARSE
abbrev pub json_parse_code : ℕ
json_parse_code = 0

-- json_path_query; json_node_get_array, _dup_string, _get_int and _dup_array, where `none` is NULL;
-- JSON_NODE_HOLDS_VALUE and _ARRAY.
pub record Json (Node : Type 0) : Type 0 where
  pub path_query : String → Node → Result Node
  pub get_array : Node → Option (List Node)
  pub dup_string : Node → Option String
  pub holds_value : Node → Bool
  pub get_int : Node → ℤ
  pub holds_array : Node → Bool
  pub dup_array : Node → Option (List Node)

abbrev failed : {A : Type 0} → String → String → Result A
failed what path = err (set_error json_parser_error json_parse_code (what <+> path))

module _ {Node : Type 0} (j : Json Node) where
  first_of_array : String → Option (List Node) → Result Node
  first_of_array path none = failed "Failed to retrieve array from node for path " path
  first_of_array path (some []) = failed "Failed to retrieve element from array for path " path
  first_of_array path (some (node ∷ _)) = ok node

  unfoldable pub json_get_first_matching_element : Node → String → Result Node
  unfolding first_of_array
  json_get_first_matching_element json_node path = do
    match ← j.path_query path json_node
    first_of_array path (j.get_array match)

  or_failed : {A : Type 0} → String → String → Option A → Result A
  or_failed what path none = failed what path
  or_failed what path (some a) = ok a

  unfoldable pub json_get_string : Node → String → Result String
  unfolding or_failed
  json_get_string json_node path = do
    result ← json_get_first_matching_element json_node path
    or_failed "Failed to retrieve string element from array for path " path (j.dup_string result)

  -- `ok 0` is a 0 in the document; the C function returns 0 for an error too.
  unfoldable pub json_get_int : Node → String → Result ℤ
  json_get_int json_node path = do
    result ← json_get_first_matching_element json_node path
    elim (j.holds_value result) [
      | false ↦ failed "Failed to retrieve value from node for path " path
      | true ↦ ok (j.get_int result)
    ]

  non_empty : String → Option (List Node) → Result (List Node)
  non_empty path none = failed "Empty JSON array for path " path
  non_empty path (some []) = failed "Empty JSON array for path " path
  non_empty path (some (n ∷ ns)) = ok (n ∷ ns)

  unfoldable pub json_get_array : Node → String → Result (List Node)
  unfolding non_empty
  json_get_array json_node path = do
    result ← json_get_first_matching_element json_node path
    elim (j.holds_array result) [
      | false ↦ failed "Failed to retrieve value from node for path " path
      | true ↦ non_empty path (j.dup_array result)
    ]

  -- json_array_get_length is not to be called with NULL.
  has_elements : Option (List Node) → Outcome Bool
  has_elements none = crash critical
  has_elements (some nodes) = done (ltb 0 (length nodes))

  unfoldable pub json_contains : Node → String → Outcome Bool
  unfolding has_elements
  json_contains json_node path = elim (j.path_query path json_node) [
    | err e ↦ done false
    | ok node ↦ has_elements (j.get_array node)
  ]
