-- ===== src/Archival/World/Table.antt =====
-- Lemmas on the list of records: a search, and the replacement of what is found, among records of
-- distinct identities.
use e_r_i_i.Prelude.{
  ◌≡◌, refl, sym, ap, ◌∙◌, ◌≢◌, ◌⊎◌, inl, inr, String, List, [], ◌∷◌, Bool, true, none, some, arith,
}
use e_r_i_i.Prelude.Distinct.{DistinctKeys}
use e_r_i_i.Prelude.Equality.{Bool-cases, string_eq}
use e_r_i_i.Prelude.Lists.{Has, here, there, All, All-Has, find?}
use e_r_i_i.Archival.Types.{ArchivalRecord}
pub use e_r_i_i.Archival.Store.Returned.{find-Has}
use e_r_i_i.Archival.Store.{has_id, replace_first}

abbrev pub id_of : ArchivalRecord → String
id_of r = r.receipt.archival_id

pub find-none :
    (p : ArchivalRecord → Bool) {e : ArchivalRecord} (rs : List ArchivalRecord)
    → find? p rs ≡ none
    → Has e rs
    → p e ≢ true
find-none p [] h m f = elim m [ ]
find-none p (r ∷ rs) h (here q) f = ground (arith, ap p q)
find-none p (r ∷ rs) h (there m) f = find-none p rs (ground arith) m f

pub All-of_Has {κ} :
    (P : ArchivalRecord → Type κ) (rs : List ArchivalRecord)
    → ((e : ArchivalRecord) → Has e rs → P e)
    → All P rs
All-of_Has P [] h = tt
All-of_Has P (r ∷ rs) h = (h r (here refl), All-of_Has P rs (λ e m. h e (there m)))

-- the record of an identity is the only one
pub only_record :
    {e f : ArchivalRecord} (rs : List ArchivalRecord)
    → DistinctKeys id_of rs
    → Has e rs
    → Has f rs
    → id_of e ≡ id_of f
    → e ≡ f
only_record [] d m n q = elim m [ ]
only_record (r ∷ rs) d (here p) (here q) g = p ∙ sym q
only_record (r ∷ rs) d (here p) (there n) g =
    absurd (All-Has (λ v. id_of r ≢ id_of v) d.0 n (ap id_of (sym p) ∙ g))
only_record (r ∷ rs) d (there m) (here q) g =
    absurd (All-Has (λ v. id_of r ≢ id_of v) d.0 m (ap id_of (sym q) ∙ sym g))
only_record (r ∷ rs) d (there m) (there n) g = only_record rs d.1 m n g

replace_first-All {κ} :
    (P : ArchivalRecord → Type κ) (p : ArchivalRecord → Bool) (new : ArchivalRecord)
    (rs : List ArchivalRecord)
    → P new
    → All P rs
    → All P (replace_first p new rs)
unfolding replace_first
replace_first-All P p new [] n h = tt
replace_first-All P p new (r ∷ rs) n h = elim (Bool-cases (p r)) [
  | inl f ↦ rw f (n, h.1)
  | inr f ↦ rw f (h.0, replace_first-All P p new rs n h.1)
]

-- Identities stay distinct when the new record has that of the old.
pub replace_first-DistinctKeys :
    (p : ArchivalRecord → Bool) (new e : ArchivalRecord) (rs : List ArchivalRecord)
    → find? p rs ≡ some e
    → id_of new ≡ id_of e
    → DistinctKeys id_of rs
    → DistinctKeys id_of (replace_first p new rs)
unfolding replace_first
replace_first-DistinctKeys p new e [] h q d = cc
replace_first-DistinctKeys p new e (r ∷ rs) h q d = elim (Bool-cases (p r)) [
  | inl f ↦
      let same : r ≡ e = ground arith in
      let g : id_of new ≡ id_of r = q ∙ ap id_of (sym same) in rw f (rw g d.0, d.1)
  | inr f ↦
      let found : find? p rs ≡ some e = ground arith in
      let (m, _) = find-Has p e rs found in
      let other : id_of r ≢ id_of new = rw q (All-Has (λ v. id_of r ≢ id_of v) d.0 m) in
      rw f (
        replace_first-All (λ v. id_of r ≢ id_of v) p new rs other d.0,
        replace_first-DistinctKeys p new e rs found q d.1,
      )
]

-- A record after the replacement is the new one, or an old one of another identity.
pub replace_first-Has :
    (p : ArchivalRecord → Bool) (new e : ArchivalRecord) {x : ArchivalRecord}
    (rs : List ArchivalRecord)
    → find? p rs ≡ some e
    → DistinctKeys id_of rs
    → Has x (replace_first p new rs)
    → (x ≡ new) ⊎ (Has x rs × (id_of x ≢ id_of e))
unfolding replace_first
replace_first-Has p new e [] h d m = elim m [ ]
replace_first-Has p new e {x} (r ∷ rs) h d m = elim (Bool-cases (p r)) [
  | inl f ↦ first_replaced (ground arith) (rw f at m)
  | inr f ↦
      let found : find? p rs ≡ some e = ground arith in
      rest_replaced found (λ n. replace_first-Has p new e rs found d.1 n) (rw f at m)
]
  where
    first_replaced : r ≡ e → Has x (new ∷ rs) → (x ≡ new) ⊎ (Has x (r ∷ rs) × (id_of x ≢ id_of e))
    first_replaced same (here q) = inl q
    first_replaced same (there n) =
        inr (there n, λ g. All-Has (λ v. id_of r ≢ id_of v) d.0 n (ap id_of same ∙ sym g))

    rest_replaced :
        find? p rs ≡ some e
        → (Has x (replace_first p new rs) → (x ≡ new) ⊎ (Has x rs × (id_of x ≢ id_of e)))
        → Has x (r ∷ replace_first p new rs)
        → (x ≡ new) ⊎ (Has x (r ∷ rs) × (id_of x ≢ id_of e))
    rest_replaced found rest (here q) = inr (
      here q,
      λ g. All-Has (λ v. id_of r ≢ id_of v) d.0 (find-Has p e rs found).0 (ap id_of (sym q) ∙ g),
    )
    rest_replaced found rest (there n) = elim (rest n) [
      | inl q ↦ inl q
      | inr (k, g) ↦ inr (there k, g)
    ]

pub replace_first_new-Has :
    (p : ArchivalRecord → Bool) (new e : ArchivalRecord) (rs : List ArchivalRecord)
    → find? p rs ≡ some e
    → Has new (replace_first p new rs)
unfolding replace_first
replace_first_new-Has p new e [] h = cc
replace_first_new-Has p new e (r ∷ rs) h = elim (Bool-cases (p r)) [
  | inl f ↦ rw f (here refl)
  | inr f ↦ rw f (there (replace_first_new-Has p new e rs (ground arith)))
]

-- The new record is found under its identity.
pub find-replace_first :
    (k : String) (new e : ArchivalRecord) (rs : List ArchivalRecord)
    → id_of new ≡ k
    → find? (has_id k) rs ≡ some e
    → find? (has_id k) (replace_first (has_id k) new rs) ≡ some new
unfolding replace_first
find-replace_first k new e [] q h = cc
find-replace_first k new e (r ∷ rs) q h = ground (arith, find-replace_first k new e rs q)
