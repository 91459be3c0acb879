-- ===== src/Base/Tests.antt =====
-- Boolean tests on the native numbers and on names, and the conditional.
use Prim.Native.Nat.{ℕ, compare, Ordering}
use mathlib.Core.Path.{◌≡◌, refl}
use mathlib.Core.Logic.{◌↔◌, ◌⊎◌, inl, inr}
use mathlib.Core.Bool.{Bool, true, false, ◌&&◌}
use mathlib.Core.Option.{Option, none, some}
use mathlib.Core.List.{List, [], ◌∷◌}
use native.Mathlib.Omega.{arith}

abbrev pub ltb : ℕ → ℕ → Bool
ltb a b = elim (compare a b) [ Ordering.lt ↦ true | _ ↦ false ]

abbrev pub leb : ℕ → ℕ → Bool
leb a b = elim (compare a b) [ Ordering.gt ↦ false | _ ↦ true ]

infix 50 ◌==◌
abbrev pub ◌==◌ : ℕ → ℕ → Bool
a == b = elim (compare a b) [ Ordering.eq ↦ true | _ ↦ false ]

infix 1 if◌then◌else◌
abbrev pub if◌then◌else◌ {ℓ} : {A : Type ℓ} → Bool → A → A → A
if true then x else y = x
if false then x else y = y

pub ==_iff : (a b : ℕ) → ((a == b) ≡ true) ↔ (a ≡ b)
==_iff a b = ground arith

pub Bool-cases : (b : Bool) → (b ≡ true) ⊎ (b ≡ false)
Bool-cases true = inl refl
Bool-cases false = inr refl

pub Option-cases {ℓ} : {A : Type ℓ} (o : Option A) → (o ≡ none) ⊎ ((a : A) × (o ≡ some a))
Option-cases none = inl refl
Option-cases (some a) = inr (a, refl)

-- A Go string, as its bytes.
abbrev pub Name : Type 0
Name = List ℕ

unfoldable pub name_eq : Name → Name → Bool
name_eq [] [] = true
name_eq [] (b ∷ bs) = false
name_eq (a ∷ as') [] = false
name_eq (a ∷ as') (b ∷ bs) = a == b && name_eq as' bs

pub name_eq_refl : (a : Name) → name_eq a a ≡ true
unfolding name_eq
name_eq_refl [] = refl
name_eq_refl (a ∷ as') = ground (arith, name_eq_refl as')

pub name_eq_sound : (a b : Name) → name_eq a b ≡ true → a ≡ b
unfolding name_eq
name_eq_sound [] [] h = refl
name_eq_sound [] (b ∷ bs) h = cc
name_eq_sound (a ∷ as') [] h = cc
name_eq_sound (a ∷ as') (b ∷ bs) h = ground (arith, name_eq_sound as' bs)
