-- ===== src/Prelude/Equality.antt =====
-- Python's `==`, `in` and conditional, for every type whose equality can be decided, and Boolean
-- tests on the native numbers.
use Prim.Native.Nat.{ℕ, compare, Ordering}
use Prim.Native.String.{String}
use mathlib.Core.Path.{◌≡◌, refl, sym, ap}
use native.Mathlib.Omega.{arith}
use mathlib.Core.Logic.{◌≢◌, ◌⊎◌, inl, inr, ite, dite}
use mathlib.Core.Bool.{Bool, true, false, ◌||◌, Bool-discrete}
use mathlib.Core.Option.{Option, none, some, none-ne-some, some-ne-none, some-injective}
use mathlib.Core.List.{List, [], ◌∷◌}
use native.Mathlib.Decide.{ℕ_discrete}
use text.Mathlib.Text
use text.Mathlib.TextEquality.{eq_iff}

infix 1 if◌then◌else◌
abbrev pub if◌then◌else◌ {ℓ} : {A : Type ℓ} → Bool → A → A → A
if true then x else y = x
if false then x else y = y

abbrev pub ltb : ℕ → ℕ → Bool
ltb a b = elim (compare a b) [ Ordering.lt ↦ true | _ ↦ false ]

abbrev pub leb : ℕ → ℕ → Bool
leb a b = elim (compare a b) [ Ordering.gt ↦ false | _ ↦ true ]

pub Bool-cases : (b : Bool) → (b ≡ true) ⊎ (b ≡ false)
Bool-cases true = inl refl
Bool-cases false = inr refl

pub Option-cases {ℓ} : {A : Type ℓ} (o : Option A) → (o ≡ none) ⊎ ((a : A) × (o ≡ some a))
Option-cases none = inl refl
Option-cases (some a) = inr (a, refl)

pub record Eq {ℓ} (A : Type ℓ) : Type ℓ where
  pub dec : Discrete A

module _ {ℓ} {A : Type ℓ} ⦃e : Eq A⦄ where
  infix 50 ◌==◌ ◌!=◌
  abbrev pub ◌==◌ : A → A → Bool
  a == b = ite (e.dec a b) true false

  abbrev pub ◌!=◌ : A → A → Bool
  a != b = ite (e.dec a b) false true

  -- `a in xs`
  abbrev pub contains : List A → A → Bool
  contains [] a = false
  contains (x ∷ xs) a = a == x || contains xs a

  option_dec : Discrete (Option A)
  option_dec none none = yes refl
  option_dec none (some b) = no (none-ne-some b)
  option_dec (some a) none = no (some-ne-none a)
  option_dec (some a) (some b) =
      dite (e.dec a b) (λ p. yes (ap some p)) (λ n. no (λ p. n (some-injective a b p)))

  instance unfoldable pub option_eq : Eq (Option A)
  unfolding option_dec
  option_eq = record { dec = option_dec }

-- Shut in proofs, where a split on `s == t` yields the equation or its negation.
instance unfoldable pub string_eq : Eq String
string_eq = record {
  dec = λ s t.
      dite (Bool-discrete (Text.◌==◌ s t) true) (λ same. yes ((eq_iff s t).0 same))
        (λ differ. no (λ p. differ ((eq_iff s t).1 p)));
}

instance unfoldable pub nat_eq : Eq ℕ
unfolding ℕ_discrete
nat_eq = record { dec = ℕ_discrete }

module _ {ℓ κ} {A : Type ℓ} {B : Type κ} ⦃e : Eq A⦄ ⦃f : Eq B⦄ where
  pair_dec : Discrete (A × B)
  pair_dec (a, b) (c, d) = elim (e.dec a c) [
    | no n ↦ no (λ p. n (ap (λ q. q.0) p))
    | yes p ↦ elim (f.dec b d) [
      | no n ↦ no (λ r. n (ap (λ q. q.1) r))
      | yes q ↦ yes (λ i. (p i, q i))
    ]
  ]

  instance unfoldable pub pair_eq : Eq (A × B)
  unfolding pair_dec
  pair_eq = record { dec = pair_dec }

module _ {ℓ} {A : Type ℓ} ⦃e : Eq A⦄ where
  -- what a passed or failed test says
  pub ne_of_test : (a b : A) → (a == b) ≡ false → a ≢ b
  ne_of_test a b h p = ground arith

  pub eq_of_test : (a b : A) → (a == b) ≡ true → a ≡ b
  eq_of_test a b h = ground arith

  pub ==_self : (a : A) → (a == a) ≡ true
  ==_self a = ground arith

  pub nil_ne_cons : (b : A) (bs : List A) → [] ≢ (b ∷ bs)
  nil_ne_cons b bs p = cc

  pub heads : (a b : A) (xs ys : List A) → a ∷ xs ≡ b ∷ ys → a ≡ b
  heads a b xs ys p = cc

  pub tails : (a b : A) (xs ys : List A) → a ∷ xs ≡ b ∷ ys → xs ≡ ys
  tails a b xs ys p = cc

  list_dec : Discrete (List A)
  list_dec [] [] = yes refl
  list_dec [] (b ∷ bs) = no (nil_ne_cons b bs)
  list_dec (a ∷ as_) [] = no (λ p. nil_ne_cons a as_ (sym p))
  list_dec (a ∷ as_) (b ∷ bs) = elim (e.dec a b) [
    | no n ↦ no (λ p. n (heads a b as_ bs p))
    | yes p ↦ elim (list_dec as_ bs) [
      | no n ↦ no (λ r. n (tails a b as_ bs r))
      | yes q ↦ yes (λ i. p i ∷ q i)
    ]
  ]

  instance unfoldable pub list_eq : Eq (List A)
  unfolding list_dec
  list_eq = record { dec = list_dec }
