-- ===== src/Prelude/Distinct.antt =====
-- The first element of each key, in the order of the list: what a loop keeps that skips the keys it
-- has seen.
use mathlib.Core.Path.{◌≡◌, refl, sym, ap, ◌∙◌}
use mathlib.Core.Logic.{◌≢◌, inl, inr}
use mathlib.Core.Option.{Option, none, some}
use mathlib.Core.List.{List, [], ◌∷◌, ◌++◌}
use native.Mathlib.Omega.{arith}
use e_r_i_i.Prelude.Equality.{Eq, ◌==◌, Option-cases, if◌then◌else◌}
use e_r_i_i.Prelude.Lists.{Has, here, there, All, find?}

module _ {ℓ κ} {A : Type ℓ} {K : Type κ} ⦃e : Eq K⦄ (key : A → K) where
  -- the kept element of a key
  abbrev pub first : K → List A → Option A
  first k = find? (λ x. k == key x)

  -- `x` at the end, if its key is new
  unfoldable pub keep_new : List A → A → List A
  keep_new acc x = elim (first (key x) acc) [ none ↦ acc ++ (x ∷ []) | some y ↦ acc ]

  -- `acc`, followed by the elements of the list whose key is new
  unfoldable pub distinct_by : List A → List A → List A
  distinct_by acc [] = acc
  distinct_by acc (x ∷ xs) = distinct_by (keep_new acc x) xs

  abbrev pub DistinctKeys : List A → Type κ
  DistinctKeys [] = Unit
  DistinctKeys (x ∷ xs) = All (λ y. key x ≢ key y) xs × DistinctKeys xs

  pub first-append :
      (k : K) (x : A) (xs : List A)
      → first k xs ≡ none
      → first k (xs ++ (x ∷ [])) ≡ (if k == key x then some x else none)
  first-append k x [] h = refl
  first-append k x (y ∷ ys) h = ground (arith, first-append k x ys)

  pub first-append_ne :
      (k : K) (x : A) (xs : List A) → k ≢ key x → first k (xs ++ (x ∷ [])) ≡ first k xs
  first-append_ne k x [] h = ground arith
  first-append_ne k x (y ∷ ys) h = ground (arith, first-append_ne k x ys h)

  pub first-append_some :
      (k : K) (x y : A) (xs : List A) → first k xs ≡ some y → first k (xs ++ (x ∷ [])) ≡ some y
  first-append_some k x y [] h = cc
  first-append_some k x y (z ∷ zs) h = ground (arith, first-append_some k x y zs)

  pub All-append {μ} :
      (P : A → Type μ) (x : A) (xs : List A) → All P xs → P x → All P (xs ++ (x ∷ []))
  All-append P x [] h p = (p, tt)
  All-append P x (y ∷ ys) h p = (h.0, All-append P x ys h.1 p)

  DistinctKeys-append :
      (x : A) (xs : List A)
      → first (key x) xs ≡ none
      → DistinctKeys xs
      → DistinctKeys (xs ++ (x ∷ []))
  DistinctKeys-append x [] h d = (tt, tt)
  DistinctKeys-append x (y ∷ ys) h d = (
    All-append (λ z. key y ≢ key z) x ys d.0 (ground arith),
    DistinctKeys-append x ys (ground arith) d.1,
  )

  pub keep_new_fresh :
      (acc : List A) (x : A) → first (key x) acc ≡ none → keep_new acc x ≡ acc ++ (x ∷ [])
  unfolding keep_new
  keep_new_fresh acc x h = ground arith

  pub keep_new_seen : (acc : List A) (x y : A) → first (key x) acc ≡ some y → keep_new acc x ≡ acc
  unfolding keep_new
  keep_new_seen acc x y h = ground arith

  keep_new-DistinctKeys : (acc : List A) (x : A) → DistinctKeys acc → DistinctKeys (keep_new acc x)
  keep_new-DistinctKeys acc x d = elim (Option-cases (first (key x) acc)) [
    | inl h ↦ rw (keep_new_fresh acc x h) (DistinctKeys-append x acc h d)
    | inr (y, h) ↦ rw (keep_new_seen acc x y h) d
  ]

  pub distinct_by-DistinctKeys :
      (acc xs : List A) → DistinctKeys acc → DistinctKeys (distinct_by acc xs)
  unfolding distinct_by
  distinct_by-DistinctKeys acc [] d = d
  distinct_by-DistinctKeys acc (x ∷ xs) d =
      distinct_by-DistinctKeys (keep_new acc x) xs (keep_new-DistinctKeys acc x d)

  keep_new-All {μ} :
      (P : A → Type μ) (acc : List A) (x : A) → All P acc → P x → All P (keep_new acc x)
  keep_new-All P acc x h p = elim (Option-cases (first (key x) acc)) [
    | inl e ↦ rw (keep_new_fresh acc x e) (All-append P x acc h p)
    | inr (y, e) ↦ rw (keep_new_seen acc x y e) h
  ]

  pub distinct_by-All {μ} :
      (P : A → Type μ) (acc xs : List A) → All P acc → All P xs → All P (distinct_by acc xs)
  unfolding distinct_by
  distinct_by-All P acc [] h k = h
  distinct_by-All P acc (x ∷ xs) h k =
      distinct_by-All P (keep_new acc x) xs (keep_new-All P acc x h k.0) k.1

  -- What is found is in the list, under its key.
  pub first-Has : (k : K) (x : A) (xs : List A) → first k xs ≡ some x → Has x xs × (k ≡ key x)
  first-Has k x [] h = cc
  first-Has k x (y ∷ ys) h = elim (e.dec k (key y)) [
    | yes p ↦ let q : y ≡ x = ground arith in (here (sym q), p ∙ ap key q)
    | no n ↦ let (m, p) = first-Has k x ys (ground arith) in (there m, p)
  ]
