-- ===== src/Prelude/Lists.antt =====
-- Lists measured by native numbers and searched by Boolean tests.
use Prim.Native.Nat.{ℕ, zero, suc, ◌+◌, ◌≤◌}
use mathlib.Core.Path.{◌≡◌, refl}
use mathlib.Core.Logic.{inl, inr}
use mathlib.Core.Bool.{Bool, true, false, ◌||◌}
use mathlib.Core.Option.{Option, none, some}
use mathlib.Core.List.{List, [], ◌∷◌, ◌++◌}
use native.Mathlib.Omega.{arith}
use e_r_i_i.Prelude.Equality.{Eq, contains, Bool-cases, if◌then◌else◌}

module _ {ℓ} {A : Type ℓ} where
  abbrev pub length : List A → ℕ
  length [] = 0
  length (x ∷ xs) = suc (length xs)

  -- `not xs`
  abbrev pub is_empty : List A → Bool
  is_empty [] = true
  is_empty (x ∷ xs) = false

  -- `xs[:n]`
  abbrev pub take : ℕ → List A → List A
  take zero xs = []
  take (suc n) [] = []
  take (suc n) (x ∷ xs) = x ∷ take n xs

  -- `[x for x in xs if p(x)]`
  abbrev pub filter : (A → Bool) → List A → List A
  filter p [] = []
  filter p (x ∷ xs) = if p x then x ∷ filter p xs else filter p xs

  -- `any(p(x) for x in xs)`
  abbrev pub any : (A → Bool) → List A → Bool
  any p [] = false
  any p (x ∷ xs) = p x || any p xs

  -- `next((x for x in xs if p(x)), None)`
  abbrev pub find? : (A → Bool) → List A → Option A
  find? p [] = none
  find? p (x ∷ xs) = if p x then some x else find? p xs

  abbrev pub All {κ} : (A → Type κ) → List A → Type κ
  All P [] = Unit
  All P (x ∷ xs) = P x × All P xs

  -- `xs[-1]`, if there is one
  abbrev pub get_last? : List A → Option A
  get_last? [] = none
  get_last? (x ∷ []) = some x
  get_last? (x ∷ y ∷ ys) = get_last? (y ∷ ys)

  -- the element is in the list, with its place kept
  pub data Has (a : A) : List A → Type ℓ where
    here : {x : A} {xs : List A} → a ≡ x → Has a (x ∷ xs)
    there : {x : A} {xs : List A} → Has a xs → Has a (x ∷ xs)

module _ {ℓ} {A : Type ℓ} ⦃e : Eq A⦄ where
  -- `len(xs) != len(set(xs))`
  abbrev pub has_duplicates : List A → Bool
  has_duplicates [] = false
  has_duplicates (x ∷ xs) = contains xs x || has_duplicates xs

module _ {ℓ} {A : Type ℓ} where
  pub length-append : (xs ys : List A) → length (xs ++ ys) ≡ length xs + length ys
  length-append [] ys = omega arith
  length-append (x ∷ xs) ys = omega (arith, length-append xs ys)

  pub length-take-le : (n : ℕ) (xs : List A) → length (take n xs) ≤ n
  length-take-le zero xs = omega arith
  length-take-le (suc n) [] = omega arith
  length-take-le (suc n) (x ∷ xs) = omega (arith, length-take-le n xs)

  pub All-Has {κ} : (P : A → Type κ) {a : A} {xs : List A} → All P xs → Has a xs → P a
  All-Has P h (here e) = let p = h.0 in rw e p
  All-Has P h (there m) = All-Has P h.1 m

  pub All-map {κ μ} :
      (P : A → Type κ) (Q : A → Type μ) (xs : List A) → ((x : A) → P x → Q x) → All P xs → All Q xs
  All-map P Q [] f h = tt
  All-map P Q (x ∷ xs) f h = (f x h.0, All-map P Q xs f h.1)

  pub filter-append :
      (p : A → Bool) (xs ys : List A) → filter p (xs ++ ys) ≡ filter p xs ++ filter p ys
  filter-append p [] ys = refl
  filter-append p (x ∷ xs) ys = ground (arith, filter-append p xs ys)

  cons_kept :
      (p : A → Bool) {a x : A} {xs ys : List A}
      → p x ≡ true
      → (Has a ys → Has a xs × (p a ≡ true))
      → Has a (x ∷ ys)
      → Has a (x ∷ xs) × (p a ≡ true)
  cons_kept p e f (here q) = (here q, rw q e)
  cons_kept p e f (there m) = let (n, t) = f m in (there n, t)

  pub filter-Has :
      (p : A → Bool) {a : A} (xs : List A) → Has a (filter p xs) → Has a xs × (p a ≡ true)
  filter-Has p [] m = elim m [ ]
  filter-Has p {a = a} (x ∷ xs) m = elim (Bool-cases (p x)) [
    | inr e ↦ let (n, t) = filter-Has p xs (rw e at m) in (there n, t)
    | inl e ↦ cons_kept p e (λ n. filter-Has p xs n) (rw e at m)
  ]

  pub Has-filter :
      (p : A → Bool) {a : A} (xs : List A) → Has a xs → p a ≡ true → Has a (filter p xs)
  Has-filter p [] m t = elim m [ ]
  Has-filter p (x ∷ xs) (here f) t = rw (← f) (rw t (here refl))
  Has-filter p (x ∷ xs) (there m) t = elim (Bool-cases (p x)) [
    | inl e ↦ rw e (there (Has-filter p xs m t))
    | inr e ↦ rw e (Has-filter p xs m t)
  ]

  pub any-Has : (p : A → Bool) (xs : List A) → any p xs ≡ true → (a : A) × Has a xs × (p a ≡ true)
  any-Has p [] h = cc
  any-Has p (x ∷ xs) h = elim (Bool-cases (p x)) [
    | inl e ↦ (x, here refl, e)
    | inr e ↦ let (a, m, t) = any-Has p xs (rw e at h) in (a, there m, t)
  ]

  pub Has-append_left : {a : A} (xs ys : List A) → Has a xs → Has a (xs ++ ys)
  Has-append_left [] ys m = elim m [ ]
  Has-append_left (x ∷ xs) ys (here f) = here f
  Has-append_left (x ∷ xs) ys (there m) = there (Has-append_left xs ys m)

  pub Has-append_right : {a : A} (xs ys : List A) → Has a ys → Has a (xs ++ ys)
  Has-append_right [] ys m = m
  Has-append_right (x ∷ xs) ys m = there (Has-append_right xs ys m)
