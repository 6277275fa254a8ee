-- ===== src/Base/Results.antt =====
-- Rust's `Result<A, E>` with `?` as bind, and `ok_or`.
use mathlib.Core.Path.{◌≡◌, refl, ap, subst}
use mathlib.Core.Logic.{◌⊎◌, inl, inr}
use mathlib.Core.Bool.{Bool, true, false}
use mathlib.Core.Option.{Option, none, some}
use mathlib.Core.List.{List, [], ◌∷◌}
use native.Mathlib.Omega.{arith}
use mobile_proxy.Base.Lists.{All}
use mobile_proxy.Base.Tests.{filter_option, Bool-cases}

pub data Result {ℓ} (E A : Type ℓ) : Type ℓ where
  ok : A → Result E A
  err : E → Result E A

infixl 5 ◌>>=◌ ◌>>◌
abbrev pub ◌>>=◌ {ℓ} : {E A B : Type ℓ} → Result E A → (A → Result E B) → Result E B
ok a >>= f = f a
err e >>= f = err e

abbrev pub ◌>>◌ {ℓ} : {E B : Type ℓ} → Result E (Unit {ℓ}) → Result E B → Result E B
m >> k = m >>= λ _. k

-- `if test { return Err(e) }`.
abbrev pub fail_if {ℓ} : {E : Type ℓ} → Bool → E → Result E (Unit {ℓ})
fail_if true e = err e
fail_if false e = ok tt

abbrev pub ok_or {ℓ} : {E A : Type ℓ} → Option A → E → Result E A
ok_or none e = err e
ok_or (some a) e = ok a

pub Result-cases {ℓ} :
    {E A : Type ℓ} (r : Result E A) → ((a : A) × (r ≡ ok a)) ⊎ ((e : E) × (r ≡ err e))
Result-cases (ok a) = inl (a, refl)
Result-cases (err e) = inr (e, refl)

pub ok-injective {ℓ} : {E A : Type ℓ} {a b : A} → ◌≡◌ {A = Result E A} (ok a) (ok b) → a ≡ b
ok-injective h = cc

-- A chain that succeeds has succeeded at its first part.
pub bind_ok {ℓ} :
    {E A B : Type ℓ} (m : Result E A) (f : A → Result E B) (b : B)
    → (m >>= f) ≡ ok b
    → (a : A) × (m ≡ ok a) × (f a ≡ ok b)
bind_ok (ok a) f b h = (a, refl, h)
bind_ok (err e) f b h = ground arith

-- A guard that lets the call pass has not fired.
pub guard_ok {ℓ} :
    {E A : Type ℓ} (test : Bool) (e : E) (k : Result E A) (a : A)
    → (fail_if test e >> k) ≡ ok a
    → (test ≡ false) × (k ≡ ok a)
guard_ok true e k a h = ground arith
guard_ok false e k a h = (refl, h)

-- What has passed a filter is the entry, and passes.
pub ok_or-filter {ℓ} :
    {E A : Type ℓ} (o : Option A) (p : A → Bool) (e : E) (a : A)
    → ok_or (filter_option o p) e ≡ ok a
    → (o ≡ some a) × (p a ≡ true)
ok_or-filter none p e a h = ground arith
ok_or-filter (some b) p e a h = elim (Bool-cases (p b)) [
  | inl passes ↦
      let same : b ≡ a = ok-injective (rw passes at h) in (ap some same, rw (← same) passes)
  | inr fails ↦ ground arith
]

-- A loop that stops at the first error.
module _ {ℓ} {E A S : Type ℓ} where
  unfoldable pub try_fold : (A → S → Result E S) → List A → S → Result E S
  try_fold f [] s = ok s
  try_fold f (x ∷ xs) s = f x s >>= try_fold f xs

  -- What every step keeps, the loop keeps.
  pub try_fold-keeps :
      (P : S → Type 0) (f : A → S → Result E S)
      → ((x : A) (s s' : S) → f x s ≡ ok s' → P s → P s')
      → (xs : List A) (s s' : S) → try_fold f xs s ≡ ok s'
      → P s
      → P s'
  unfolding try_fold
  try_fold-keeps P f step [] s s' h p = subst P (ok-injective h) p
  try_fold-keeps P f step (x ∷ xs) s s' h p =
      let (next, first, rest) = bind_ok (f x s) (try_fold f xs) s' h in
      try_fold-keeps P f step xs next s' rest (step x s next first p)

  -- What a step establishes for its element and every step keeps holds of all elements at the end.
  pub try_fold-All :
      (Q : A → S → Type 0) (f : A → S → Result E S)
      → ((x : A) (s s' : S) → f x s ≡ ok s' → Q x s')
      → ((x y : A) (s s' : S) → f y s ≡ ok s' → Q x s → Q x s')
      → (xs : List A) (s s' : S) → try_fold f xs s ≡ ok s'
      → All (λ x. Q x s') xs
  unfolding try_fold
  try_fold-All Q f sets keeps [] s s' h = tt
  try_fold-All Q f sets keeps (x ∷ xs) s s' h =
      let (next, first, rest) = bind_ok (f x s) (try_fold f xs) s' h in
      (
        try_fold-keeps (Q x) f (λ y. keeps x y) xs next s' rest (sets x s next first),
        try_fold-All Q f sets keeps xs next s' rest,
      )
