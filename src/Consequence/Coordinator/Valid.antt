-- ===== src/Consequence/Coordinator/Valid.antt =====
-- Every call of the coordinator keeps the journals of every relationship valid.
use e_r_i_i.Prelude.{◌⊎◌, ◌≡◌, refl, sym, ◌∙◌, inl, inr, String, List, [], ◌∷◌, ◌++◌, not, arith}
use mathlib.Core.Path.{subst}
use e_r_i_i.Prelude.Dict.{insert, lookup-insert}
use e_r_i_i.Prelude.Equality.{◌==◌, contains, string_eq, if◌then◌else◌, Option-cases}
use e_r_i_i.Prelude.Lists.{here, find?, Has-append_right}
use e_r_i_i.Prelude.Result.{ok, >>=-eq-ok, raise_if-eq-ok}
use e_r_i_i.Consequence.Types.{
  RelationshipConsequence, NarrativeTensionLink, NarrativeTensionProjection,
  same_consequence_payload, same_link_payload, persisted_differs, unknown_relationship,
}
use e_r_i_i.Consequence.Journal.{
  Storage, validate_journal, append_relationship_consequence, append_narrative_tension_link,
  list_relationship_consequences, list_narrative_tension_links, list_turn_records,
  list_relationship_adjudications, file, write_consequence, write_link, same_link,
}
use e_r_i_i.Consequence.Journal.Backed.{validate_journal-IsValidated}
use e_r_i_i.Consequence.Coordinator.{
  append_consequence_locked, append_consequence, append_tension_link_locked, append_tension_link,
}

file-insert :
    {A : Type 0} (r k : String) (xs : List A) (d : List (String × List A))
    → file r (insert k xs d) ≡ (if r == k then xs else file r d)
unfolding file
file-insert r k xs d = ground (arith, lookup-insert r k xs d)

-- what an append returns: the same storage, or one record more
append_relationship_consequence-cases :
    (s : Storage) (c : RelationshipConsequence) {s' : Storage} {stored : RelationshipConsequence}
    → append_relationship_consequence s c ≡ ok (s', stored)
    → (s' ≡ s) ⊎ (s' ≡ write_consequence s c)
unfolding append_relationship_consequence
append_relationship_consequence-cases s c h =
    let (e1, k1) =
      raise_if-eq-ok (not (contains s.relationships c.relationship_id)) unknown_relationship _ h in
    elim (Option-cases (
      find? (λ old. old.consequence_id == c.consequence_id)
        (list_relationship_consequences s c.relationship_id))) [
          | inl e ↦ inr (ground arith)
          | inr (old, e) ↦ inl (ground arith)
        ]

append_narrative_tension_link-cases :
    (s : Storage) (l : NarrativeTensionLink) {s' : Storage} {stored : NarrativeTensionLink}
    → append_narrative_tension_link s l ≡ ok (s', stored)
    → (s' ≡ s) ⊎ (s' ≡ write_link s l)
unfolding append_narrative_tension_link
append_narrative_tension_link-cases s l h =
    let (e1, k1) =
      raise_if-eq-ok (not (contains s.relationships l.relationship_id)) unknown_relationship _ h in
    elim (Option-cases (find? (same_link l) (list_narrative_tension_links s l.relationship_id))) [
      | inl e ↦ inr (ground arith)
      | inr (old, e) ↦ inl (ground arith)
    ]

module _ (sha256 : String → String) where
  -- the stored journals of the relationship pass `validate_journal`
  abbrev pub IsValidAt : Storage → String → Type 0
  IsValidAt s r =
      (ps : List NarrativeTensionProjection) × (validate_journal sha256 r
          (list_relationship_consequences s r) (list_narrative_tension_links s r)
          (list_turn_records s r) (list_relationship_adjudications s r)
        ≡ ok ps)

  abbrev pub IsValid : Storage → Type 0
  IsValid s = (r : String) → IsValidAt s r

  own_consequence :
      (s : Storage) (r : String) (c : RelationshipConsequence)
      {ps : List NarrativeTensionProjection}
      → validate_journal sha256 r
          (list_relationship_consequences s r ++ (c ∷ []))
          (list_narrative_tension_links s r)
          (list_turn_records s r)
          (list_relationship_adjudications s r)
        ≡ ok ps
      → c.relationship_id ≡ r
  own_consequence s r c e =
      let v = validate_journal-IsValidated sha256 r _ _ _ _ e in
      let b =
        v.consequences c
          (Has-append_right (list_relationship_consequences s r) (c ∷ []) (here refl)) in
      b.own

  own_link :
      (s : Storage) (r : String) (l : NarrativeTensionLink) {ps : List NarrativeTensionProjection}
      → validate_journal sha256 r
          (list_relationship_consequences s r)
          (list_narrative_tension_links s r ++ (l ∷ []))
          (list_turn_records s r)
          (list_relationship_adjudications s r)
        ≡ ok ps
      → l.relationship_id ≡ r
  own_link s r l e =
      let v = validate_journal-IsValidated sha256 r _ _ _ _ e in
      let b =
        v.links l (Has-append_right (list_narrative_tension_links s r) (l ∷ []) (here refl)) in
      b.own

  write_consequence-IsValid :
      (s : Storage) (r : String) (c : RelationshipConsequence)
      {ps : List NarrativeTensionProjection}
      → c.relationship_id ≡ r
      → validate_journal sha256 r
          (list_relationship_consequences s r ++ (c ∷ []))
          (list_narrative_tension_links s r)
          (list_turn_records s r)
          (list_relationship_adjudications s r)
        ≡ ok ps
      → IsValid s
      → IsValid (write_consequence s c)
  write_consequence-IsValid s r c {ps} own e valid q = elim (string_eq.dec q c.relationship_id) [
    | yes p ↦
        let f : list_relationship_consequences (write_consequence s c) q
            ≡ list_relationship_consequences s r ++ (c ∷ []) =
          ground (
            arith,
            file-insert q c.relationship_id
                (list_relationship_consequences s c.relationship_id ++ (c ∷ [])) s.consequences,
          ) in
        (ps, rw f (rw (p ∙ own) e))
    | no n ↦
        let f : list_relationship_consequences (write_consequence s c) q
            ≡ list_relationship_consequences s q =
          ground (
            arith,
            file-insert q c.relationship_id
                (list_relationship_consequences s c.relationship_id ++ (c ∷ [])) s.consequences,
          ) in
        ((valid q).0, rw f ((valid q).1))
  ]

  write_link-IsValid :
      (s : Storage) (r : String) (l : NarrativeTensionLink) {ps : List NarrativeTensionProjection}
      → l.relationship_id ≡ r
      → validate_journal sha256 r
          (list_relationship_consequences s r)
          (list_narrative_tension_links s r ++ (l ∷ []))
          (list_turn_records s r)
          (list_relationship_adjudications s r)
        ≡ ok ps
      → IsValid s
      → IsValid (write_link s l)
  write_link-IsValid s r l {ps} own e valid q = elim (string_eq.dec q l.relationship_id) [
    | yes p ↦
        let f : list_narrative_tension_links (write_link s l) q
            ≡ list_narrative_tension_links s r ++ (l ∷ []) =
          ground (
            arith,
            file-insert q l.relationship_id
                (list_narrative_tension_links s l.relationship_id ++ (l ∷ [])) s.links,
          ) in
        (ps, rw f (rw (p ∙ own) e))
    | no n ↦
        let f : list_narrative_tension_links (write_link s l) q ≡ list_narrative_tension_links s q =
          ground (
            arith,
            file-insert q l.relationship_id
                (list_narrative_tension_links s l.relationship_id ++ (l ∷ [])) s.links,
          ) in
        ((valid q).0, rw f ((valid q).1))
  ]

  -- An append that returns keeps the journals of every relationship valid.
  pub append_consequence-IsValid :
      (s : Storage) (r : String) (c : RelationshipConsequence) {s' : Storage}
      {stored : RelationshipConsequence}
      → append_consequence sha256 s r c ≡ ok (s', stored)
      → IsValid s
      → IsValid s'
  unfolding append_consequence append_consequence_locked
  append_consequence-IsValid s r c {s'} h valid =
      let (ps, e1, k1) =
        >>=-eq-ok
          (validate_journal sha256 r (list_relationship_consequences s r ++ (c ∷ []))
            (list_narrative_tension_links s r) (list_turn_records s r)
            (list_relationship_adjudications s r))
          _ h in
      let ((t, old), e2, k2) = >>=-eq-ok (append_relationship_consequence s c) _ k1 in
      let (e3, k3) = raise_if-eq-ok (not (same_consequence_payload old c)) persisted_differs _ k2 in
      let q : t ≡ s' = ground arith in
      elim (append_relationship_consequence-cases s c e2) [
        | inl e ↦ subst IsValid (sym e ∙ q) valid
        | inr e ↦
            subst IsValid (sym e ∙ q)
              (write_consequence-IsValid s r c (own_consequence s r c e1) e1 valid)
      ]

  -- So does an append of a link.
  pub append_tension_link-IsValid :
      (s : Storage) (r : String) (l : NarrativeTensionLink) {s' : Storage}
      {stored : NarrativeTensionLink}
      → append_tension_link sha256 s r l ≡ ok (s', stored)
      → IsValid s
      → IsValid s'
  unfolding append_tension_link append_tension_link_locked
  append_tension_link-IsValid s r l {s'} h valid =
      let (ps, e1, k1) =
        >>=-eq-ok
          (validate_journal sha256 r (list_relationship_consequences s r)
            (list_narrative_tension_links s r ++ (l ∷ [])) (list_turn_records s r)
            (list_relationship_adjudications s r))
          _ h in
      let ((t, old), e2, k2) = >>=-eq-ok (append_narrative_tension_link s l) _ k1 in
      let (e3, k3) = raise_if-eq-ok (not (same_link_payload old l)) persisted_differs _ k2 in
      let q : t ≡ s' = ground arith in
      elim (append_narrative_tension_link-cases s l e2) [
        | inl e ↦ subst IsValid (sym e ∙ q) valid
        | inr e ↦ subst IsValid (sym e ∙ q) (write_link-IsValid s r l (own_link s r l e1) e1 valid)
      ]
