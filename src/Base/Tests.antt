-- ===== src/Base/Tests.antt =====
-- Boolean tests on numbers, on texts and on optional texts, and the conditional.
use Prim.Native.Nat.{ℕ, compare, Ordering}
use Prim.Native.String.{String, ◌++◌}
use mathlib.Core.Path.{◌≡◌, refl}
use mathlib.Core.Logic.{◌⊎◌, inl, inr}
use mathlib.Core.Bool.{Bool, true, false}
use mathlib.Core.Option.{Option, none, some}
use text.Mathlib.Text.{◌==◌ as text_eq}
use text.Mathlib.TextEquality.{eq_iff}
use text.Mathlib.TextPositions.{eq_refl}

abbrev pub ltb : ℕ → ℕ → Bool
ltb a b = elim (compare a b) [ Ordering.lt ↦ true | _ ↦ false ]

abbrev pub leb : ℕ → ℕ → Bool
leb a b = elim (compare a b) [ Ordering.gt ↦ false | _ ↦ true ]

infix 50 ◌==◌
abbrev pub ◌==◌ : ℕ → ℕ → Bool
a == b = elim (compare a b) [ Ordering.eq ↦ true | _ ↦ false ]

infix 1 if◌then◌else◌
abbrev pub if◌then◌else◌ {ℓ} : {A : Type ℓ} → Bool → A → A → A
if true then x else y = x
if false then x else y = y

-- `%s%s`: one text after the other.
infixr 65 ◌<+>◌
abbrev pub ◌<+>◌ : String → String → String
s <+> t = s ++ t

abbrev pub str_eq : String → String → Bool
str_eq = text_eq

pub str_eq_refl : (s : String) → str_eq s s ≡ true
str_eq_refl = eq_refl

pub str_eq→≡ : (s t : String) → str_eq s t ≡ true → s ≡ t
str_eq→≡ s t = (eq_iff s t).0

-- `g_strcmp0(a, b) == 0`: NULL equals NULL only.
abbrev pub strcmp0_eq : Option String → Option String → Bool
strcmp0_eq none none = true
strcmp0_eq (some s) (some t) = str_eq s t
strcmp0_eq _ _ = false

pub strcmp0_eq_refl : (o : Option String) → strcmp0_eq o o ≡ true
strcmp0_eq_refl none = refl
strcmp0_eq_refl (some s) = str_eq_refl s

-- A pointer that is not NULL.
abbrev pub is_some {ℓ} : {A : Type ℓ} → Option A → Bool
is_some none = false
is_some (some _) = true

-- To split on a computed value and keep the equation.
pub Bool-cases : (b : Bool) → (b ≡ true) ⊎ (b ≡ false)
Bool-cases true = inl refl
Bool-cases false = inr refl

pub Option-cases {ℓ} : {A : Type ℓ} (o : Option A) → (o ≡ none) ⊎ ((a : A) × (o ≡ some a))
Option-cases none = inl refl
Option-cases (some a) = inr (a, refl)
