-- ===== src/Base/Tests.antt =====
-- Boolean tests on native numbers and texts, the conditional, and Rust's derived `PartialEq`.
use Prim.Native.Nat.{ℕ, compare, Ordering}
use Prim.Native.String.{String}
use mathlib.Core.Path.{◌≡◌, refl}
use mathlib.Core.Logic.{◌↔◌, ◌⊎◌, inl, inr, ◌≢◌}
use mathlib.Core.Bool.{Bool, true, false, ◌&&◌}
use mathlib.Core.List.{List, [], ◌∷◌}
use mathlib.Core.Option.{Option, none, some}
use native.Mathlib.Omega.{arith}
use text.Mathlib.Text.{◌==◌ as str_eq}
use text.Mathlib.TextEquality.{eq_iff as text_iff}

abbrev pub ltb : ℕ → ℕ → Bool
ltb a b = elim (compare a b) [ Ordering.lt ↦ true | _ ↦ false ]

abbrev pub leb : ℕ → ℕ → Bool
leb a b = elim (compare a b) [ Ordering.gt ↦ false | _ ↦ true ]

abbrev pub nat_beq : ℕ → ℕ → Bool
nat_beq a b = elim (compare a b) [ Ordering.eq ↦ true | _ ↦ false ]

infix 1 if◌then◌else◌
abbrev pub if◌then◌else◌ {ℓ} : {A : Type ℓ} → Bool → A → A → A
if true then x else y = x
if false then x else y = y

pub if_same {ℓ} : {A : Type ℓ} (b : Bool) (x : A) → (if b then x else x) ≡ x
if_same true x = refl
if_same false x = refl

pub nat_beq_iff : (a b : ℕ) → (nat_beq a b ≡ true) ↔ (a ≡ b)
nat_beq_iff a b = ground arith

-- A type whose `==` is decided by the code.
pub record PartialEq {ℓ} (A : Type ℓ) : Type ℓ where
  pub eq : A → A → Bool
  pub eq_iff : (x y : A) → (eq x y ≡ true) ↔ (x ≡ y)

instance abbrev pub string_eq : PartialEq String
string_eq = record { eq = str_eq; eq_iff = text_iff }

instance abbrev pub nat_eq : PartialEq ℕ
nat_eq = record { eq = nat_beq; eq_iff = nat_beq_iff }

infix 50 ◌==◌
abbrev pub ◌==◌ {ℓ} : {T : Type ℓ} ⦃e : PartialEq T⦄ → T → T → Bool
◌==◌ ⦃e⦄ x y = e.eq x y

module _ {ℓ} {A : Type ℓ} ⦃e : PartialEq A⦄ where
  pub eq→== : (a b : A) → a ≡ b → (a == b) ≡ true
  eq→== a b h = (e.eq_iff a b).1 h

  pub ==→eq : (a b : A) → (a == b) ≡ true → a ≡ b
  ==→eq a b h = (e.eq_iff a b).0 h

  pub ==_refl : (a : A) → (a == a) ≡ true
  ==_refl a = (e.eq_iff a a).1 refl

  pub ==_false : (a b : A) → a ≢ b → (a == b) ≡ false
  ==_false a b h = ground (arith, e.eq_iff a b)

-- To split on a computed value and keep the equation.
pub Bool-cases : (b : Bool) → (b ≡ true) ⊎ (b ≡ false)
Bool-cases true = inl refl
Bool-cases false = inr refl

pub Option-cases {ℓ} : {A : Type ℓ} (o : Option A) → (o ≡ none) ⊎ ((a : A) × (o ≡ some a))
Option-cases none = inl refl
Option-cases (some a) = inr (a, refl)

module _ {ℓ} {A : Type ℓ} where
  -- Rust's `Option::is_some` and `Option::is_some_and`.
  abbrev pub is_some : Option A → Bool
  is_some none = false
  is_some (some _) = true

  abbrev pub is_some_and : Option A → (A → Bool) → Bool
  is_some_and none p = false
  is_some_and (some a) p = p a

  pub is_some_and-cases :
      (o : Option A) (p : A → Bool) → is_some_and o p ≡ true → (a : A) × (o ≡ some a) × (p a ≡ true)
  is_some_and-cases none p h = ground arith
  is_some_and-cases (some a) p h = (a, refl, h)

  -- `Option::filter`.
  abbrev pub filter_option : Option A → (A → Bool) → Option A
  filter_option none p = none
  filter_option (some a) p = if p a then some a else none

abbrev pub list_same {ℓ} : {A : Type ℓ} ⦃e : PartialEq A⦄ → List A → List A → Bool
list_same [] [] = true
list_same (x ∷ xs) (y ∷ ys) = (x == y) && list_same xs ys
list_same _ _ = false

pub list_iff {ℓ} :
    {A : Type ℓ} ⦃e : PartialEq A⦄ (xs ys : List A) → (list_same xs ys ≡ true) ↔ (xs ≡ ys)
list_iff [] [] = ground arith
list_iff [] (y ∷ ys) = ground arith
list_iff (x ∷ xs) [] = ground arith
list_iff ⦃e⦄ (x ∷ xs) (y ∷ ys) = ground (arith, e.eq_iff x y, list_iff xs ys)

instance abbrev pub list_eq {ℓ} : {A : Type ℓ} ⦃e : PartialEq A⦄ → PartialEq (List A)
list_eq = record { eq = list_same; eq_iff = list_iff }

pub pair_iff {ℓ} :
    {A B : Type ℓ} ⦃a : PartialEq A⦄ ⦃b : PartialEq B⦄ (x z : A) (y w : B)
    → (((x == z) && (y == w)) ≡ true) ↔ (◌≡◌ {A = A × B} (x, y) (z, w))
pair_iff ⦃a⦄ ⦃b⦄ x z y w = ground (arith, a.eq_iff x z, b.eq_iff y w)

instance abbrev pub pair_eq {ℓ} :
    {A B : Type ℓ} ⦃a : PartialEq A⦄ ⦃b : PartialEq B⦄ → PartialEq (A × B)
pair_eq = record {
  eq = λ (x, y) (z, w). (x == z) && (y == w);
  eq_iff = λ (x, y) (z, w). pair_iff x z y w;
}
