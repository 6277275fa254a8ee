-- ===== src/Base/Removal.antt =====
-- `VecDeque::remove` at a `position`.
use Prim.Native.Nat.{suc, ◌≤◌}
use mathlib.Core.Path.{◌≡◌, refl, ap, sym}
use mathlib.Core.Logic.{inl, inr}
use mathlib.Core.Bool.{Bool, true, false, not}
use mathlib.Core.List.{List, [], ◌∷◌, ◌++◌}
use mathlib.Core.Option.{Option, none, some}
use native.Mathlib.Omega.{arith}
use mobile_proxy.Base.Tests.{if◌then◌else◌, Bool-cases}
use mobile_proxy.Base.Lists.{length, filter, All, length-append, filter-append}

abbrev pub put_back {ℓ} : {A : Type ℓ} → A → Option (A × List A) → Option (A × List A)
put_back y none = none
put_back y (some (z, zs)) = some (z, y ∷ zs)

-- `position` with a test, and the removal at that index: the element and the others.
module _ {ℓ} {A : Type ℓ} (p : A → Bool) where
  unfoldable pub remove_first : List A → Option (A × List A)
  remove_first [] = none
  remove_first (x ∷ xs) = if p x then some (x, xs) else put_back x (remove_first xs)

  put_back-some :
      (y : A) (o : Option (A × List A)) (x : A) (rest : List A)
      → put_back y o ≡ some (x, rest)
      → (others : List A) × (o ≡ some (x, others)) × (rest ≡ y ∷ others)
  put_back-some y none x rest h = ground arith
  put_back-some y (some (z, zs)) x rest h =
      let first : z ≡ x = cc in let tail : y ∷ zs ≡ rest = cc in (zs, rw first refl, sym tail)

  pub remove_first-split :
      (xs : List A) (x : A) (rest : List A)
      → remove_first xs ≡ some (x, rest)
      → (before after : List A) × (xs ≡ before ++ x ∷ after)
        × (rest ≡ before ++ after)
        × (p x ≡ true)
        × All (λ y. p y ≡ false) before
  unfolding remove_first
  remove_first-split [] x rest h = ground arith
  remove_first-split (y ∷ ys) x rest h = elim (Bool-cases (p y)) [
    | inl hit ↦
        let taken : ◌≡◌ {A = Option (A × List A)} (some (y, ys)) (some (x, rest)) = rw hit at h in
        let first : y ≡ x = cc in
        let tail : ys ≡ rest = cc in ([], ys, rw first refl, sym tail, rw (← first) hit, tt)
    | inr miss ↦
        let (others, found, eq) = put_back-some y (remove_first ys) x rest (rw miss at h) in
        let (before, after, split, joined, holds, none_before) =
          remove_first-split ys x others found in
        (y ∷ before, after, ap (◌∷◌ y) split, rw (eq, joined) refl, holds, (miss, none_before))
  ]

  pub length-remove_first :
      (xs : List A) (x : A) (rest : List A)
      → remove_first xs ≡ some (x, rest)
      → length xs ≡ suc (length rest)
  length-remove_first xs x rest h =
      let (before, after, split, joined, _, _) = remove_first-split xs x rest h in
      rw (split, joined)
        (omega (arith, length-append before (x ∷ after), length-append before after))

module _ {ℓ} {A : Type ℓ} (p q : A → Bool) where
  -- Where nothing passes a test, all fail it.
  pub remove_first-none :
      (xs : List A) → remove_first p xs ≡ none → length (filter (λ x. not (p x)) xs) ≡ length xs
  unfolding remove_first filter
  remove_first-none [] h = refl
  remove_first-none (x ∷ xs) h = ground (arith, remove_first-none xs)

  pub filter-implies-le :
      ((x : A) → q x ≡ true → p x ≡ true)
      → (xs : List A) → length (filter q xs) ≤ length (filter p xs)
  unfolding filter
  filter-implies-le h [] = omega arith
  filter-implies-le h (x ∷ xs) = ground (arith, h x, filter-implies-le h xs)

  pub filter-remove_first-le :
      (xs : List A) (x : A) (rest : List A)
      → remove_first p xs ≡ some (x, rest)
      → length (filter q rest) ≤ length (filter q xs)
  unfolding filter
  filter-remove_first-le xs x rest h =
      let (before, after, split, joined, _, _) = remove_first-split p xs x rest h in
      rw (split, joined, filter-append q before (x ∷ after), filter-append q before after)
        (ground (
          arith,
          length-append (filter q before) (filter q (x ∷ after)),
          length-append (filter q before) (filter q after),
        ))
