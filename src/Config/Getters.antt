-- ===== src/Config/Getters.antt =====
-- src/config-file.c: the Boolean getter and the log level.
use rauc_hawkbit_updater.Base.{String, ◌≡◌, ◌⊎◌, ◌↔◌, Bool, true, false, arith, str_eq, eq_iff}
use rauc_hawkbit_updater.GError.{ok}
use rauc_hawkbit_updater.Config.{KeyFile, Glib, read_bool, is_no, is_yes, get_key_bool}

-- What g_ascii_strcasecmp is documented to do: it compares the texts in lower case.
pub record IsCaseFold (g : Glib) (lower : String → String) : Type 0 where
  pub folds : (a b : String) → g.strcasecmp_eq a b ≡ str_eq (lower a) (lower b)
  pub lower_no : lower "no" ≡ "no"
  pub lower_false : lower "false" ≡ "false"
  pub lower_yes : lower "yes" ≡ "yes"
  pub lower_true : lower "true" ≡ "true"
  pub lower_zero : lower "0" ≡ "0"
  pub lower_one : lower "1" ≡ "1"

-- The texts that stand for a truth value, in any case of letters.
abbrev pub Says : (String → String) → Bool → String → Type 0
Says lower true v = (v ≡ "1") ⊎ ((lower v ≡ "yes") ⊎ (lower v ≡ "true"))
Says lower false v = (v ≡ "0") ⊎ ((lower v ≡ "no") ⊎ (lower v ≡ "false"))

module _ (g : Glib) (lower : String → String) (fold : IsCaseFold g lower) where
  folded : (v w : String) → lower w ≡ w → g.strcasecmp_eq v w ≡ str_eq (lower v) w
  folded v w e = cc (fold.folds v w)

  is_no-Says : (v : String) → (is_no g v ≡ true) ↔ Says lower false v
  unfolding is_no
  is_no-Says v =
      rw (folded v "no" fold.lower_no, folded v "false" fold.lower_false)
        (
          λ h. ground (arith, eq_iff v "0", eq_iff (lower v) "no", eq_iff (lower v) "false"),
          λ h. ground (arith, eq_iff v "0", eq_iff (lower v) "no", eq_iff (lower v) "false"),
        )

  is_yes-Says : (v : String) → (is_yes g v ≡ true) ↔ Says lower true v
  unfolding is_yes
  is_yes-Says v =
      rw (folded v "yes" fold.lower_yes, folded v "true" fold.lower_true)
        (
          λ h. ground (arith, eq_iff v "1", eq_iff (lower v) "yes", eq_iff (lower v) "true"),
          λ h. ground (arith, eq_iff v "1", eq_iff (lower v) "yes", eq_iff (lower v) "true"),
        )

  -- The two lists have no word in common, so the order of the tests does not matter.
  not_both : (v : String) → Says lower true v → Says lower false v → ⊥
  not_both v t f = ground (
    arith,
    fold.lower_zero,
    fold.lower_one,
    eq_iff "0" "1",
    eq_iff "0" "yes",
    eq_iff "0" "true",
    eq_iff "1" "no",
    eq_iff "1" "false",
    eq_iff "yes" "no",
    eq_iff "yes" "false",
    eq_iff "true" "no",
    eq_iff "true" "false",
  )

  read_bool-Says : (v : String) (b : Bool) → (read_bool g v ≡ ok b) ↔ Says lower b v
  unfolding read_bool
  read_bool-Says v true = (
    (λ h. ground (arith, is_yes-Says v)),
    λ h. ground (arith, is_no-Says v, is_yes-Says v, not_both v),
  )
  read_bool-Says v false = ((λ h. ground (arith, is_no-Says v)), λ h. ground (arith, is_no-Says v))

  -- Of a key that is set to `v`, the getter gives TRUE exactly for 1, yes and true, and FALSE
  -- exactly for 0, no and false, after trailing blanks are removed and in any case of letters.
  pub get_key_bool-Says :
      (file : KeyFile) (group key : String) (default_value : Bool) (v : String)
      → file.get_string group key ≡ ok v
      → (b : Bool)
      → (get_key_bool g file group key default_value ≡ ok b) ↔ Says lower b (g.strchomp v)
  unfolding get_key_bool
  get_key_bool-Says file group key d v e b = rw (e, get_key_bool) (read_bool-Says (g.strchomp v) b)
