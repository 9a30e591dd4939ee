-- ===== src/Prelude/Sort.antt =====
-- Python's `sorted(xs, key=...)`: a stable sort by a key with a total order.
use mathlib.Core.Path.{◌≡◌, refl, ◌∙◌}
use mathlib.Core.Bool.{true}
use mathlib.Core.Logic.{inl, inr}
use mathlib.Core.List.Permᴰ
use mathlib.Core.List.{List, [], ◌∷◌, Permᴰ}
use native.Mathlib.Omega.{arith}
use e_r_i_i.Prelude.Equality.{Bool-cases, if◌then◌else◌}
use e_r_i_i.Prelude.Lists.{Has, here, there, All}
use e_r_i_i.Prelude.Order.{Ord}

Has-perm {ℓ} : {A : Type ℓ} {a : A} {xs ys : List A} → Permᴰ xs ys → Has a xs → Has a ys
Has-perm Permᴰ.nil m = elim m [ ]
Has-perm (Permᴰ.cons e p) (here f) = here (f ∙ e)
Has-perm (Permᴰ.cons e p) (there m) = there (Has-perm p m)
Has-perm (Permᴰ.swap e f) (here g) = there (here (g ∙ e))
Has-perm (Permᴰ.swap e f) (there (here g)) = here (g ∙ f)
Has-perm (Permᴰ.swap e f) (there (there m)) = there (there m)
Has-perm (Permᴰ.trans p q) m = Has-perm q (Has-perm p m)

module _ {ℓ κ} {A : Type ℓ} {K : Type κ} ⦃o : Ord K⦄ (key : A → K) where
  -- `x` came before the elements of the sorted list, so it goes before its equals
  unfoldable pub insort : A → List A → List A
  insort x [] = x ∷ []
  insort x (y ∷ ys) = if o.le (key x) (key y) then x ∷ y ∷ ys else y ∷ insort x ys

  unfoldable pub sorted : List A → List A
  unfolding insort
  sorted [] = []
  sorted (x ∷ xs) = insort x (sorted xs)

  -- Elements with one key are one element.
  abbrev pub KeyInjective : List A → Type (ℓ ⊔ κ)
  KeyInjective xs = (a b : A) → Has a xs → Has b xs → key a ≡ key b → a ≡ b

  abbrev pub IsSorted : List A → Type κ
  IsSorted [] = Unit
  IsSorted (x ∷ xs) = All (λ y. o.le (key x) (key y) ≡ true) xs × IsSorted xs

  insort_comm :
      (x y : A) (l : List A)
      → (key x ≡ key y → x ≡ y)
      → insort x (insort y l) ≡ insort y (insort x l)
  unfolding insort
  insort_comm x y [] h = ground (arith, o.le_total (key x) (key y), o.le_antisymm (key x) (key y))
  insort_comm x y (z ∷ l) h = ground (
    arith,
    insort_comm x y l h,
    o.le_total (key x) (key y),
    o.le_antisymm (key x) (key y),
    o.le_trans (key x) (key y) (key z),
    o.le_trans (key y) (key x) (key z),
  )

  -- The order of the input does not show in the output.
  pub sorted-perm : {xs ys : List A} → Permᴰ xs ys → KeyInjective xs → sorted xs ≡ sorted ys
  unfolding sorted
  sorted-perm Permᴰ.nil h = refl
  sorted-perm (Permᴰ.cons {b = b} e p) h =
      rw (e, sorted-perm p (λ a c m n. h a c (there m) (there n)))
  sorted-perm (Permᴰ.swap {a = a} {b = b} {l = l} e f) h =
      rw (← e, ← f) (insort_comm a b (sorted l) (h a b (here refl) (there (here refl))))
  sorted-perm (Permᴰ.trans p q) h =
      sorted-perm p h
      ∙ sorted-perm q (λ a b m n. h a b (Has-perm (Permᴰ.symm p) m) (Has-perm (Permᴰ.symm p) n))

  All-insort {μ} : (P : A → Type μ) (x : A) (l : List A) → P x → All P l → All P (insort x l)
  unfolding insort
  All-insort P x [] h k = (h, tt)
  All-insort P x (y ∷ l) h k = ground (arith, All-insort P x l h k.1)

  pub All-sorted {μ} : (P : A → Type μ) (l : List A) → All P l → All P (sorted l)
  unfolding sorted
  All-sorted P [] h = tt
  All-sorted P (x ∷ l) h = All-insort P x (sorted l) h.0 (All-sorted P l h.1)

  All-le_trans :
      (x y : A) (l : List A)
      → o.le (key x) (key y) ≡ true
      → All (λ z. o.le (key y) (key z) ≡ true) l
      → All (λ z. o.le (key x) (key z) ≡ true) l
  All-le_trans x y [] h k = tt
  All-le_trans x y (z ∷ l) h k =
      (o.le_trans (key x) (key y) (key z) h k.0, All-le_trans x y l h k.1)

  insort-IsSorted : (x : A) (l : List A) → IsSorted l → IsSorted (insort x l)
  unfolding insort
  insort-IsSorted x [] h = (tt, tt)
  insort-IsSorted x (y ∷ l) h = elim (Bool-cases (o.le (key x) (key y))) [
    | inl e ↦ rw e (((e, All-le_trans x y l e h.0), h))
    | inr e ↦ rw e (
      All-insort (λ z. o.le (key y) (key z) ≡ true) x l (o.le_total (key x) (key y) e) h.0,
      insort-IsSorted x l h.1,
    )
  ]

  -- The output is in the order of the keys.
  pub sorted-IsSorted : (l : List A) → IsSorted (sorted l)
  unfolding sorted
  sorted-IsSorted [] = tt
  sorted-IsSorted (x ∷ l) = insort-IsSorted x (sorted l) (sorted-IsSorted l)

  insort_below :
      (x : A) (l : List A) → All (λ y. o.le (key x) (key y) ≡ true) l → insort x l ≡ x ∷ l
  unfolding insort
  insort_below x [] h = refl
  insort_below x (y ∷ l) h = rw h.0

  pub sorted_of_IsSorted : (l : List A) → IsSorted l → sorted l ≡ l
  unfolding sorted
  sorted_of_IsSorted [] h = refl
  sorted_of_IsSorted (x ∷ l) h = rw (sorted_of_IsSorted l h.1) (insort_below x l h.0)

  pub sorted_idem : (l : List A) → sorted (sorted l) ≡ sorted l
  sorted_idem l = sorted_of_IsSorted (sorted l) (sorted-IsSorted l)

  insort-perm : (x : A) (l : List A) → Permᴰ (x ∷ l) (insort x l)
  unfolding insort
  insort-perm x [] = Permᴰ.refl (x ∷ [])
  insort-perm x (y ∷ l) = elim (Bool-cases (o.le (key x) (key y))) [
    | inl e ↦ rw e (Permᴰ.refl (x ∷ y ∷ l))
    | inr e ↦ rw e (Permᴰ.trans (Permᴰ.swap refl refl) (Permᴰ.cons refl (insort-perm x l)))
  ]

  -- The output has the elements of the input, as often.
  pub sorted_perm_self : (l : List A) → Permᴰ l (sorted l)
  unfolding sorted
  sorted_perm_self [] = Permᴰ.nil
  sorted_perm_self (x ∷ l) =
      Permᴰ.trans (Permᴰ.cons refl (sorted_perm_self l)) (insort-perm x (sorted l))

  pub Has-sorted : {a : A} (l : List A) → Has a l → Has a (sorted l)
  Has-sorted l m = Has-perm (sorted_perm_self l) m

  pub sorted-Has : {a : A} (l : List A) → Has a (sorted l) → Has a l
  sorted-Has l m = Has-perm (Permᴰ.symm (sorted_perm_self l)) m
