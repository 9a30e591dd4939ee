-- ===== src/TaskQueue/Table.antt =====
-- Lemmas on the statements that update the table, and on rows with distinct identities.
use e_r_i_i.Prelude.{
  ◌≡◌, refl, sym, ap, ◌∙◌, ◌≢◌, String, List, [], ◌∷◌, ◌++◌, Bool, true, ◌&&◌, inl, inr, none, some,
  arith,
}
use mathlib.Core.Path.{subst}
use e_r_i_i.Prelude.Distinct.{DistinctKeys, All-append}
use e_r_i_i.Prelude.Equality.{◌==◌, string_eq, nat_eq, leb, Bool-cases, Option-cases}
use e_r_i_i.Prelude.Lists.{Has, here, there, All, All-Has, length, filter, find?}
use e_r_i_i.TaskQueue.{TaskRow, update_where, has_id, earlier, earliest, task_status_eq}

pub update_where-All :
    (P : TaskRow → Type 0) (p : TaskRow → Bool) (f : TaskRow → TaskRow) (ts : List TaskRow)
    → ((t : TaskRow) → Has t ts → p t ≡ true → P t → P (f t))
    → All P ts
    → All P (update_where p f ts)
unfolding update_where
update_where-All P p f [] h k = tt
update_where-All P p f (t ∷ ts) h k = elim (Bool-cases (p t)) [
  | inl e ↦ rw e (h t (here refl) e k.0, update_where-All P p f ts (λ u m. h u (there m)) k.1)
  | inr e ↦ rw e (k.0, update_where-All P p f ts (λ u m. h u (there m)) k.1)
]

-- No row loses its identity.
pub update_where-DistinctKeys :
    (p : TaskRow → Bool) (f : TaskRow → TaskRow) (ts : List TaskRow)
    → ((t : TaskRow) → (f t).task_id ≡ t.task_id)
    → DistinctKeys (λ t. t.task_id) ts
    → DistinctKeys (λ t. t.task_id) (update_where p f ts)
unfolding update_where
update_where-DistinctKeys p f [] h d = tt
update_where-DistinctKeys p f (t ∷ ts) h d = elim (Bool-cases (p t)) [
  | inl e ↦ rw e (rw (h t) (others t.task_id ts d.0), update_where-DistinctKeys p f ts h d.1)
  | inr e ↦ rw e (others t.task_id ts d.0, update_where-DistinctKeys p f ts h d.1)
]
  where
    others :
        (k : String) (us : List TaskRow)
        → All (λ u. k ≢ u.task_id) us
        → All (λ u. k ≢ u.task_id) (update_where p f us)
    others k us n = update_where-All (λ u. k ≢ u.task_id) p f us (λ u m e q. rw (h u) q) n

-- an identity that no row has goes behind
pub append-DistinctKeys :
    (t : TaskRow) (ts : List TaskRow)
    → find? (has_id t.task_id) ts ≡ none
    → DistinctKeys (λ u. u.task_id) ts
    → DistinctKeys (λ u. u.task_id) (ts ++ (t ∷ []))
append-DistinctKeys t [] h d = (tt, tt)
append-DistinctKeys t (u ∷ ts) h d = (
  All-append (λ (v : TaskRow). v.task_id) (λ v. u.task_id ≢ v.task_id) t ts d.0 (ground arith),
  append-DistinctKeys t ts (ground arith) d.1,
)

pub find-Has :
    (k : String) (t : TaskRow) (ts : List TaskRow)
    → find? (has_id k) ts ≡ some t
    → Has t ts × (t.task_id ≡ k)
find-Has k t [] h = cc
find-Has k t (u ∷ ts) h = elim (string_eq.dec u.task_id k) [
  | yes p ↦ let q : u ≡ t = ground arith in (here (sym q), rw (← q) p)
  | no n ↦ let (m, e) = find-Has k t ts (ground arith) in (there m, e)
]

-- the row of an identity is the only one
pub only_one :
    (ts : List TaskRow) (t u : TaskRow)
    → DistinctKeys (λ v. v.task_id) ts
    → Has t ts
    → Has u ts
    → t.task_id ≡ u.task_id
    → t ≡ u
only_one [] t u d m n e = elim m [ ]
only_one (x ∷ ts) t u d (here p) (here q) e = p ∙ sym q
only_one (x ∷ ts) t u d (here p) (there n) e =
    absurd (All-Has (λ v. x.task_id ≢ v.task_id) d.0 n (ap (λ v. v.task_id) (sym p) ∙ e))
only_one (x ∷ ts) t u d (there m) (here q) e =
    absurd (All-Has (λ v. x.task_id ≢ v.task_id) d.0 m (ap (λ v. v.task_id) (sym q) ∙ sym e))
only_one (x ∷ ts) t u d (there m) (there n) e = only_one ts t u d.1 m n e

none_chosen :
    (k : String) (p : TaskRow → Bool) (ts : List TaskRow)
    → All (λ u. k ≢ u.task_id) ts
    → length (filter (λ u. u.task_id == k && p u) ts) ≡ 0
none_chosen k p [] h = refl
none_chosen k p (u ∷ ts) h = ground (arith, none_chosen k p ts h.1, h.0)

-- the `rowcount` of an update of one row
pub one_chosen :
    (p : TaskRow → Bool) (ts : List TaskRow) (t : TaskRow)
    → DistinctKeys (λ v. v.task_id) ts
    → Has t ts
    → p t ≡ true
    → length (filter (λ u. u.task_id == t.task_id && p u) ts) ≡ 1
one_chosen p [] t d m h = elim m [ ]
one_chosen p (x ∷ ts) t d (here q) h =
    let none_else =
      none_chosen t.task_id p ts (subst (λ v. All (λ u. v.task_id ≢ u.task_id) ts) (sym q) d.0) in
    let e : p x ≡ true = subst (λ v. p v ≡ true) q h in
    let f : x.task_id ≡ t.task_id = ap (λ v. v.task_id) (sym q) in ground (arith, none_else, e, f)
one_chosen p (x ∷ ts) t d (there m) h =
    let n = All-Has (λ v. x.task_id ≢ v.task_id) d.0 m in ground (arith, one_chosen p ts t d.1 m h)

-- The row that is chosen comes no later than another.
pub earliest-some :
    (ts : List TaskRow) (t : TaskRow)
    → earliest ts ≡ some t
    → Has t ts × All (λ u. leb t.created_at u.created_at ≡ true) ts
unfolding earliest earlier
earliest-some [] t h = cc
earliest-some (x ∷ ts) t h = elim (Option-cases (earliest ts)) [
  | inl e ↦ chosen x (ground arith) (here refl) (none_left ts e)
  | inr (u, e) ↦
      let (m, later) = earliest-some ts u e in
      elim (Bool-cases (leb x.created_at u.created_at)) [
        | inl f ↦ chosen x (ground arith) (here refl) (ground arith, no_later x u ts f later)
        | inr f ↦ chosen u (ground arith) (there m) (ground arith, later)
      ]
]
  where
    chosen :
        (v : TaskRow)
        → v ≡ t
        → Has v (x ∷ ts)
        → All (λ u. leb v.created_at u.created_at ≡ true) (x ∷ ts)
        → Has t (x ∷ ts) × All (λ u. leb t.created_at u.created_at ≡ true) (x ∷ ts)
    chosen v q m l =
        subst (λ w. Has w (x ∷ ts) × All (λ u. leb w.created_at u.created_at ≡ true) (x ∷ ts)) q
          (m, l)

    no_later :
        (a b : TaskRow) (us : List TaskRow)
        → leb a.created_at b.created_at ≡ true
        → All (λ u. leb b.created_at u.created_at ≡ true) us
        → All (λ u. leb a.created_at u.created_at ≡ true) us
    no_later a b [] f h = tt
    no_later a b (v ∷ us) f h = (ground (arith, h.0), no_later a b us f h.1)

    none_left :
        (us : List TaskRow)
        → earliest us ≡ none
        → All (λ u. leb x.created_at u.created_at ≡ true) (x ∷ us)
    none_left [] h = (ground arith, tt)
    none_left (v ∷ us) h = absurd (ground arith)

pub earliest-none : (ts : List TaskRow) → earliest ts ≡ none → ts ≡ []
unfolding earliest earlier
earliest-none [] h = refl
earliest-none (t ∷ ts) h = absurd (ground arith)
