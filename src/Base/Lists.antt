-- ===== src/Base/Lists.antt =====
-- Lists counted by native numbers, and predicates on them by recursion.
use Prim.Native.Nat.{ℕ, suc, ◌+◌, ◌≤◌}
use mathlib.Core.Path.{◌≡◌, refl, ap}
use mathlib.Core.Logic.{inl, inr}
use mathlib.Core.Bool.{Bool, true, false, ◌&&◌, ◌||◌}
use mathlib.Core.List.{List, [], ◌∷◌, ◌++◌}
use mathlib.Core.Option.{Option, none, some}
use native.Mathlib.Omega.{arith}
use mobile_proxy.Base.Tests.{if◌then◌else◌, Bool-cases}

module _ {ℓ} {A : Type ℓ} where
  abbrev pub length : List A → ℕ
  length [] = 0
  length (x ∷ xs) = suc (length xs)

  -- `iter().filter(..)`, `find`, `any` and `all` with a Boolean test.
  unfoldable pub filter : (A → Bool) → List A → List A
  filter p [] = []
  filter p (x ∷ xs) = let rest = filter p xs in if p x then x ∷ rest else rest

  unfoldable pub find : (A → Bool) → List A → Option A
  find p [] = none
  find p (x ∷ xs) = if p x then some x else find p xs

  unfoldable pub any : (A → Bool) → List A → Bool
  any p [] = false
  any p (x ∷ xs) = p x || any p xs

  unfoldable pub all : (A → Bool) → List A → Bool
  all p [] = true
  all p (x ∷ xs) = p x && all p xs

  pub length-filter-le : (p : A → Bool) (xs : List A) → length (filter p xs) ≤ length xs
  unfolding filter
  length-filter-le p [] = omega arith
  length-filter-le p (x ∷ xs) = ground (arith, length-filter-le p xs)

  pub length-append : (xs ys : List A) → length (xs ++ ys) ≡ length xs + length ys
  length-append [] ys = omega arith
  length-append (x ∷ xs) ys = omega (arith, length-append xs ys)

-- A predicate by recursion computes to tuples, which the tactics read and build.
abbrev pub All {ℓ κ} : {A : Type ℓ} → (A → Type κ) → List A → Type κ
All P [] = Unit
All P (x ∷ xs) = P x × All P xs

module _ {ℓ} {A : Type ℓ} (p : A → Bool) where
  pub find-split :
      (xs : List A) (x : A)
      → find p xs ≡ some x
      → (before after : List A) × (xs ≡ before ++ x ∷ after)
        × (p x ≡ true)
        × All (λ y. p y ≡ false) before
  unfolding find
  find-split [] x h = ground arith
  find-split (y ∷ ys) x h = elim (Bool-cases (p y)) [
    | inl hit ↦ let e : y ≡ x = ground arith in ([], ys, rw e refl, rw (← e) hit, tt)
    | inr miss ↦
        let (before, after, split, holds, none_before) = find-split ys x (ground arith) in
        (y ∷ before, after, ap (◌∷◌ y) split, holds, (miss, none_before))
  ]

  pub find_absent : (xs : List A) → find p xs ≡ none → All (λ y. p y ≡ false) xs
  unfolding find
  find_absent [] h = tt
  find_absent (y ∷ ys) h = elim (Bool-cases (p y)) [
    | inl hit ↦ absurd (ground arith)
    | inr miss ↦ (miss, find_absent ys (ground arith))
  ]

  pub find-none : (xs : List A) → All (λ y. p y ≡ false) xs → find p xs ≡ none
  unfolding find
  find-none [] h = refl
  find-none (y ∷ ys) h = rw (h.0) (find-none ys h.1)

  pub find-append :
      (before : List A) (x : A) (after : List A)
      → All (λ y. p y ≡ false) before
      → p x ≡ true
      → find p (before ++ x ∷ after) ≡ some x
  unfolding find
  find-append [] x after h hit = rw hit
  find-append (y ∷ ys) x after h hit = rw (h.0) (find-append ys x after h.1 hit)

  pub filter-append : (xs ys : List A) → filter p (xs ++ ys) ≡ filter p xs ++ filter p ys
  unfolding filter
  filter-append [] ys = refl
  filter-append (x ∷ xs) ys = ground (arith, filter-append xs ys)

  pub filter-nil : (xs : List A) → All (λ y. p y ≡ false) xs → filter p xs ≡ []
  unfolding filter
  filter-nil [] h = refl
  filter-nil (x ∷ xs) h = rw (h.0) (filter-nil xs h.1)

  pub filter_absent : (xs : List A) → length (filter p xs) ≡ 0 → All (λ y. p y ≡ false) xs
  unfolding filter
  filter_absent [] h = tt
  filter_absent (x ∷ xs) h = elim (Bool-cases (p x)) [
    | inl hit ↦ absurd (ground arith)
    | inr miss ↦ (miss, filter_absent xs (ground arith))
  ]

  -- A list splits around its only element that passes the test.
  pub filter-singleton :
      (before : List A) (x : A) (after : List A)
      → All (λ y. p y ≡ false) before
      → p x ≡ true
      → All (λ y. p y ≡ false) after
      → filter p (before ++ x ∷ after) ≡ x ∷ []
  unfolding filter
  filter-singleton before x after hb hit ha =
      rw (filter-append before (x ∷ after)) (rw (filter-nil before hb, hit, filter-nil after ha))

  pub length-filter_split :
      (before : List A) (x : A) (after : List A)
      → p x ≡ true
      → length (filter p (before ++ x ∷ after))
        ≡ length (filter p before) + suc (length (filter p after))
  unfolding filter
  length-filter_split before x after hit =
      rw (filter-append before (x ∷ after)) (rw length-append (rw hit))

  pub filter-sole :
      (before : List A) (x : A) (after : List A)
      → p x ≡ true
      → length (filter p (before ++ x ∷ after)) ≤ 1
      → All (λ y. p y ≡ false) before × All (λ y. p y ≡ false) after
  filter-sole before x after hit h =
      let counted = length-filter_split before x after hit in
      (filter_absent before (omega arith), filter_absent after (omega arith))

-- The other way round: a filter with one result splits the list around it.
pub split_of_singleton {ℓ} :
    {A : Type ℓ} (p : A → Bool) (xs : List A) (r : A)
    → filter p xs ≡ r ∷ []
    → (before after : List A) × (xs ≡ before ++ r ∷ after)
      × (p r ≡ true)
      × All (λ y. p y ≡ false) before
      × All (λ y. p y ≡ false) after
unfolding filter
split_of_singleton p [] r h = absurd (ground arith)
split_of_singleton p (x ∷ xs) r h = elim (Bool-cases (p x)) [
  | inl hit ↦
      let same : x ≡ r = ground arith in
      let empty : length (filter p xs) ≡ 0 = ground arith in
      ([], xs, rw same refl, rw (← same) hit, tt, filter_absent p xs empty)
  | inr miss ↦
      let (before, after, split, hit, hb, ha) = split_of_singleton p xs r (ground arith) in
      (x ∷ before, after, ap (◌∷◌ x) split, hit, (miss, hb), ha)
]

pub All-map {ℓ κ μ} :
    {A : Type ℓ} {P : A → Type κ} {Q : A → Type μ} (xs : List A)
    → ((x : A) → P x → Q x)
    → All P xs
    → All Q xs
All-map [] f h = tt
All-map (x ∷ xs) f h = (f x h.0, All-map xs f h.1)

pub All-zip {ℓ κ μ} :
    {A : Type ℓ} (P : A → Type κ) (Q : A → Type μ) (xs : List A)
    → All P xs
    → All Q xs
    → All (λ x. P x × Q x) xs
All-zip P Q [] f h = tt
All-zip P Q (x ∷ xs) f h = ((f.0, h.0), All-zip P Q xs f.1 h.1)

pub All-filter {ℓ κ} :
    {A : Type ℓ} (P : A → Type κ) (p : A → Bool) (xs : List A) → All P xs → All P (filter p xs)
unfolding filter
All-filter P p [] h = tt
All-filter P p (x ∷ xs) h = elim (Bool-cases (p x)) [
  | inl hit ↦ rw hit (h.0, All-filter P p xs h.1)
  | inr miss ↦ rw miss (All-filter P p xs h.1)
]

pub All-append {ℓ κ} :
    {A : Type ℓ} (P : A → Type κ) (xs ys : List A) → All P (xs ++ ys) → All P xs × All P ys
All-append P [] ys h = (tt, h)
All-append P (x ∷ xs) ys h = let (hx, hy) = All-append P xs ys h.1 in ((h.0, hx), hy)
