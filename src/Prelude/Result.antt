-- ===== src/Prelude/Result.antt =====
-- Exceptions as values: a call returns, or raises one of its module's errors.
use mathlib.Core.Path.{◌≡◌, refl}
use mathlib.Core.Logic.{◌⊎◌, inl, inr}
use mathlib.Core.Bool.{Bool, true, false}
use mathlib.Core.List.{List, [], ◌∷◌, map}
use e_r_i_i.Prelude.Lists.{Has, here, there}

pub data Result (E A : Type 0) : Type 0 where
  ok : A → Result E A
  err : E → Result E A

infixl 5 ◌>>=◌ ◌>>◌
abbrev pub ◌>>=◌ : {E A B : Type 0} → Result E A → (A → Result E B) → Result E B
err error >>= next = err error
ok value >>= next = next value

abbrev pub ◌>>◌ : {E B : Type 0} → Result E (Unit {0}) → Result E B → Result E B
action >> rest = action >>= λ done. rest

-- `if test: raise error`
abbrev pub raise_if : {E : Type 0} → Bool → E → Result E (Unit {0})
raise_if false error = ok tt
raise_if true error = err error

-- `[f(x) for x in xs]`, where `f` may raise
unfoldable pub map_ok : {E A B : Type 0} → (A → Result E B) → List A → Result E (List B)
map_ok f [] = ok []
map_ok f (x ∷ xs) = do y ← f x; ys ← map_ok f xs; ok (y ∷ ys)

pub >>=-eq-ok :
    {E A B : Type 0} (action : Result E A) (next : A → Result E B) {result : B}
    → (action >>= next) ≡ ok result
    → (value : A) × (action ≡ ok value) × (next value ≡ ok result)
>>=-eq-ok (err error) next returns = cc
>>=-eq-ok (ok value) next returns = (value, refl, returns)

pub raise_if-eq-ok :
    {E B : Type 0} (t : Bool) (e : E) (k : Result E B) {b : B}
    → (raise_if t e >> k) ≡ ok b
    → (t ≡ false) × (k ≡ ok b)
raise_if-eq-ok true e k h = cc
raise_if-eq-ok false e k h = (refl, h)

pub raise_if-ok : {E : Type 0} (t : Bool) (e : E) → raise_if t e ≡ ok tt → t ≡ false
raise_if-ok true e h = cc
raise_if-ok false e h = refl

-- In a sequence that returns, both actions return.
pub >>-eq-ok :
    {E B : Type 0} (a : Result E (Unit {0})) (k : Result E B) {b : B}
    → (a >> k) ≡ ok b
    → (a ≡ ok tt) × (k ≡ ok b)
>>-eq-ok (err e) k h = cc
>>-eq-ok (ok tt) k h = (refl, h)

pub map_ok_of :
    {E A B : Type 0} (f : A → Result E B) (g : A → B) (xs : List A)
    → ((x : A) → Has x xs → f x ≡ ok (g x))
    → map_ok f xs ≡ ok (map g xs)
unfolding map_ok
map_ok_of f g [] h = refl
map_ok_of f g (x ∷ xs) h = rw (h x (here refl)) (rw (map_ok_of f g xs (λ y m. h y (there m))))

pub ok-injective : {E A : Type 0} {a b : A} → ◌≡◌ {A = Result E A} (ok a) (ok b) → a ≡ b
ok-injective h = cc

-- Two continuations that agree on what is returned.
pub bind_cong :
    {E A B : Type 0} (m : Result E A) (f g : A → Result E B)
    → ((a : A) → m ≡ ok a → f a ≡ g a)
    → (m >>= f) ≡ (m >>= g)
bind_cong (ok a) f g h = h a refl
bind_cong (err e) f g h = refl

pub Result-cases :
    {E A : Type 0} (m : Result E A) → ((a : A) × (m ≡ ok a)) ⊎ ((e : E) × (m ≡ err e))
Result-cases (ok a) = inl (a, refl)
Result-cases (err e) = inr (e, refl)
