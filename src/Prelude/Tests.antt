-- ===== src/Prelude/Tests.antt =====
-- Boolean tests on the native numbers, the conditional, and case splits that keep the equation.
use Prim.Native.Nat.{ℕ, compare, Ordering}
use mathlib.Core.Path.{◌≡◌, refl}
use mathlib.Core.Logic.{◌⊎◌, inl, inr}
use mathlib.Core.Bool.{Bool, true, false}
use mathlib.Core.Option.{Option, none, some}

abbrev pub ltb : ℕ → ℕ → Bool
ltb a b = elim (compare a b) [ Ordering.lt ↦ true | _ ↦ false ]

abbrev pub leb : ℕ → ℕ → Bool
leb a b = elim (compare a b) [ Ordering.gt ↦ false | _ ↦ true ]

abbrev pub eqb : ℕ → ℕ → Bool
eqb a b = elim (compare a b) [ Ordering.eq ↦ true | _ ↦ false ]

infix 1 if◌then◌else◌
abbrev pub if◌then◌else◌ {ℓ} : {A : Type ℓ} → Bool → A → A → A
if true then x else y = x
if false then x else y = y

pub Bool-cases : (b : Bool) → (b ≡ true) ⊎ (b ≡ false)
Bool-cases true = inl refl
Bool-cases false = inr refl

module _ {ℓ} {A : Type ℓ} where
  pub Option-cases : (o : Option A) → (o ≡ none) ⊎ ((a : A) × (o ≡ some a))
  Option-cases none = inl refl
  Option-cases (some a) = inr (a, refl)

  -- `x or default`, and `default` for a missing key.
  abbrev pub or_else : Option A → A → A
  or_else none d = d
  or_else (some a) d = a

  abbrev pub is_some : Option A → Bool
  is_some none = false
  is_some (some a) = true
