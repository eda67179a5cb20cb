-- ===== src/JsonHelper/Matches.antt =====
-- src/json-helper.c: `json_contains` and the getters look at the same match.
use rauc_hawkbit_updater.Base.{
  String, ◌≡◌, refl, ◌↔◌, true, false, Option, none, some, List, [], ◌∷◌, arith, inl, inr,
}
use rauc_hawkbit_updater.GError.{Result, ok, err, Result-cases}
use rauc_hawkbit_updater.Exec.{done}
use rauc_hawkbit_updater.World.Quiet.{NoFail}
use rauc_hawkbit_updater.JsonHelper.{
  Json, first_of_array, has_elements, json_get_first_matching_element, json_contains,
}

module _ {Node : Type 0} (j : Json Node) (n : Node) (path : String) where
  has_elements-NoFail : (o : Option (List Node)) → NoFail (has_elements j o)
  unfolding has_elements
  has_elements-NoFail none = tt
  has_elements-NoFail (some nodes) = tt

  matched-NoFail :
      (r : Result Node)
      → NoFail (elim r [ err e ↦ done false | ok node ↦ has_elements j (j.get_array node) ])
  matched-NoFail (ok node) = has_elements-NoFail (j.get_array node)
  matched-NoFail (err e) = tt

  -- An error is not what `json_contains` ends with.
  pub json_contains-NoFail : NoFail (json_contains j n path)
  unfolding json_contains
  json_contains-NoFail = matched-NoFail (j.path_query path n)

  has_elements-first :
      (m : Node) (o : Option (List Node))
      → first_of_array j path o ≡ ok m
      → has_elements j o ≡ done true
  unfolding first_of_array has_elements
  has_elements-first m none h = cc
  has_elements-first m (some []) h = cc
  has_elements-first m (some (x ∷ xs)) h = ground arith

  first-has_elements :
      (o : Option (List Node))
      → has_elements j o ≡ done true
      → (m : Node) × (first_of_array j path o ≡ ok m)
  unfolding first_of_array has_elements
  first-has_elements none h = cc
  first-has_elements (some []) h = cc
  first-has_elements (some (x ∷ xs)) h = (x, refl)

  contains_match :
      (m : Node)
      → json_get_first_matching_element j n path ≡ ok m
      → json_contains j n path ≡ done true
  unfolding json_contains json_get_first_matching_element
  contains_match m h = elim (Result-cases (j.path_query path n)) [
    | inl (a, e) ↦ ground (arith, has_elements-first m (j.get_array a))
    | inr (a, e) ↦ ground arith
  ]

  match_contains :
      json_contains j n path ≡ done true
      → (m : Node) × (json_get_first_matching_element j n path ≡ ok m)
  unfolding json_contains json_get_first_matching_element
  match_contains h = elim (Result-cases (j.path_query path n)) [
    | inl (a, e) ↦ rw e (first-has_elements (j.get_array a) (rw (e, json_contains) at h))
    | inr (a, e) ↦ ground arith
  ]

  -- A path is contained exactly when it has a first match.
  pub json_contains-match :
      (json_contains j n path ≡ done true)
      ↔ ((m : Node) × (json_get_first_matching_element j n path ≡ ok m))
  json_contains-match = (match_contains, λ (m, e). contains_match m e)
