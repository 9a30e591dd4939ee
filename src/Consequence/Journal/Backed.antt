-- ===== src/Consequence/Journal/Backed.antt =====
-- What a validated journal says of each of its records.
use e_r_i_i.Prelude.{
  ◌≡◌, refl, sym, inl, inr, String, List, [], ◌∷◌, true, false, ◌&&◌, not, none, some, arith,
}
use mathlib.Core.Path.{subst}
use e_r_i_i.Prelude.Dict.{Dict, lookup, insert, lookup-insert, lookup-nil}
use e_r_i_i.Prelude.Equality.{◌==◌, ◌!=◌, string_eq, Option-cases}
use e_r_i_i.Prelude.Lists.{Has, here, there, any}
use e_r_i_i.Prelude.Result.{ok, >>=-eq-ok, raise_if-eq-ok}
use e_r_i_i.Turn.Types.{TurnRecord}
use e_r_i_i.Consequence.Sources.{AdjudicationRecord, user, agent}
use e_r_i_i.Consequence.Types.{
  RelationshipConsequence, NarrativeTensionLink, NarrativeTensionProjection, mutually_reconciled,
  boundary_stabilized, tension_outcome_eq, crosses_relationship, event_not_referenced,
  missing_both_roles, missing_agent_role,
}
use e_r_i_i.Consequence.Gate.{AcceptedSource, resolve_accepted_event_source}
use e_r_i_i.Consequence.Journal.{
  consequence_by_id, references_event, has_role, validate_consequences, validate_link,
  validate_links, validate_journal,
}
use e_r_i_i.Consequence.Project.{project}

-- No element of the other relationship.
pub none_crosses :
    {A : Type 0} (of_ : A → String) (r : String) (xs : List A)
    → any (λ x. of_ x != r) xs ≡ false
    → (x : A) → Has x xs
    → of_ x ≡ r
none_crosses of_ r [] h x m = elim m [ ]
none_crosses of_ r (y ∷ ys) h x (here e) = rw e (ground arith)
none_crosses of_ r (y ∷ ys) h x (there m) = none_crosses of_ r ys (ground arith) x m

-- what the dict holds is in the list, under its identity
consequence_by_id-Has :
    (cs : List RelationshipConsequence) (d : Dict String RelationshipConsequence)
    (P : RelationshipConsequence → Type 0)
    → ((c : RelationshipConsequence) → Has c cs → P c)
    → ((k : String) (c : RelationshipConsequence)
        → lookup k d ≡ some c
        → P c × (c.consequence_id ≡ k))
    → (k : String) (c : RelationshipConsequence) → lookup k (consequence_by_id cs d) ≡ some c
    → P c × (c.consequence_id ≡ k)
unfolding consequence_by_id
consequence_by_id-Has [] d P h g k c e = g k c e
consequence_by_id-Has (b ∷ cs) d P h g k c e =
    consequence_by_id-Has cs (insert b.consequence_id b d) P (λ a m. h a (there m))
      (λ j a f. entry j a f (string_eq.dec j b.consequence_id)) k c e
  where
    entry :
        (j : String) (a : RelationshipConsequence)
        → lookup j (insert b.consequence_id b d) ≡ some a
        → Dec (j ≡ b.consequence_id)
        → P a × (a.consequence_id ≡ j)
    entry j a f (yes p) =
        let q : b ≡ a = ground (arith, lookup-insert j b.consequence_id b d) in
        (subst P q (h b (here refl)), rw (← q) (sym p))
    entry j a f (no n) = g j a (ground (arith, lookup-insert j b.consequence_id b d))

module _ (sha256 : String → String) where
  -- the gate accepts the source of the consequence
  pub record IsBacked (r : String) (turns : List TurnRecord)
      (adjudications : List AdjudicationRecord) (c : RelationshipConsequence) : Type 0 where
    pub own : c.relationship_id ≡ r
    pub source : AcceptedSource
    pub resolved :
        resolve_accepted_event_source sha256 r c.source_turn_id
          (some c.source_revision)
          c.source_decision_id
          c.source_event_id
          turns
          adjudications
          (some c.source_message_id)
        ≡ ok source

  -- the gate accepts the source of the link, whose event refers to the event of the consequence that
  -- the link names, and whose evidence has the roles that the outcome needs
  pub record IsBackedLink (r : String) (consequences : List RelationshipConsequence)
      (turns : List TurnRecord) (adjudications : List AdjudicationRecord) (l : NarrativeTensionLink)
      : Type 0 where
    pub own : l.relationship_id ≡ r
    pub source : AcceptedSource
    pub resolved :
        resolve_accepted_event_source sha256 r l.source_turn_id
          (some l.source_revision)
          l.source_decision_id
          l.source_event_id
          turns
          adjudications
          none
        ≡ ok source
    pub consequence : RelationshipConsequence
    pub among : Has consequence consequences
    pub named : consequence.consequence_id ≡ l.consequence_id
    pub refers : references_event source.event consequence.source_event_id ≡ true
    pub both_roles :
        l.outcome ≡ mutually_reconciled
        → (has_role source.record_.receipt.evidence user ≡ true)
          × (has_role source.record_.receipt.evidence agent ≡ true)
    pub agent_role :
        l.outcome ≡ boundary_stabilized → has_role source.record_.receipt.evidence agent ≡ true

  validate_consequences-IsBacked :
      (r : String) (turns : List TurnRecord) (adjudications : List AdjudicationRecord)
      (cs : List RelationshipConsequence)
      → validate_consequences sha256 r turns adjudications cs ≡ ok tt
      → (c : RelationshipConsequence) → Has c cs
      → c.relationship_id ≡ r
      → IsBacked r turns adjudications c
  unfolding validate_consequences
  validate_consequences-IsBacked r turns adjudications [] h c m own = elim m [ ]
  validate_consequences-IsBacked r turns adjudications (b ∷ cs) h c (here e) own =
      let (source, e1, k1) =
        >>=-eq-ok
          (resolve_accepted_event_source sha256 r b.source_turn_id (some b.source_revision)
            b.source_decision_id b.source_event_id turns adjudications (some b.source_message_id))
          _ h in
      record { own = own; source = source; resolved = rw e e1 }
  validate_consequences-IsBacked r turns adjudications (b ∷ cs) h c (there m) own =
      let (source, e1, k1) =
        >>=-eq-ok
          (resolve_accepted_event_source sha256 r b.source_turn_id (some b.source_revision)
            b.source_decision_id b.source_event_id turns adjudications (some b.source_message_id))
          _ h in
      validate_consequences-IsBacked r turns adjudications cs k1 c m own

  validate_link-IsBackedLink :
      (r : String) (consequences : List RelationshipConsequence) (turns : List TurnRecord)
      (adjudications : List AdjudicationRecord) (l : NarrativeTensionLink)
      → validate_link sha256 r turns adjudications (consequence_by_id consequences []) l ≡ ok tt
      → l.relationship_id ≡ r
      → IsBackedLink r consequences turns adjudications l
  unfolding validate_link
  validate_link-IsBackedLink r cs turns adjudications l h own =
      elim (Option-cases (lookup l.consequence_id (consequence_by_id cs []))) [
        | inl e ↦ absurd (ground arith)
        | inr (c, e) ↦
            let (source, e1, k1) =
              >>=-eq-ok
                (resolve_accepted_event_source sha256 r l.source_turn_id (some l.source_revision)
                  l.source_decision_id l.source_event_id turns adjudications none)
                _ (rw (e, validate_link) at h) in
            let evidence = source.record_.receipt.evidence in
            let (e2, k2) =
              raise_if-eq-ok (not (references_event source.event c.source_event_id))
                event_not_referenced _ k1 in
            let (e3, k3) =
              raise_if-eq-ok
                (l.outcome == mutually_reconciled
                  && not (has_role evidence user && has_role evidence agent))
                missing_both_roles _ k2 in
            let (e4, k4) =
              raise_if-eq-ok (l.outcome == boundary_stabilized && not (has_role evidence agent))
                missing_agent_role _ k3 in
            let (among, named) =
              consequence_by_id-Has cs [] (λ b. Has b cs) (λ b m. m)
                (λ k b f. cc (lookup-nil {V = RelationshipConsequence} k)) l.consequence_id c e in
            record {
              own = own;
              source = source;
              resolved = e1;
              consequence = c;
              among = among;
              named = named;
              refers = ground arith;
              both_roles = λ p. (ground arith, ground arith);
              agent_role = λ p. ground arith;
            }
      ]

  validate_links-IsBackedLink :
      (r : String) (consequences : List RelationshipConsequence) (turns : List TurnRecord)
      (adjudications : List AdjudicationRecord) (ls : List NarrativeTensionLink)
      → validate_links sha256 r turns adjudications (consequence_by_id consequences []) ls ≡ ok tt
      → (l : NarrativeTensionLink) → Has l ls
      → l.relationship_id ≡ r
      → IsBackedLink r consequences turns adjudications l
  unfolding validate_links
  validate_links-IsBackedLink r cs turns adjudications [] h l m own = elim m [ ]
  validate_links-IsBackedLink r cs turns adjudications (k ∷ ls) h l (here e) own =
      let (u, e1, k1) =
        >>=-eq-ok (validate_link sha256 r turns adjudications (consequence_by_id cs []) k) _ h in
      validate_link-IsBackedLink r cs turns adjudications l (rw e e1) own
  validate_links-IsBackedLink r cs turns adjudications (k ∷ ls) h l (there m) own =
      let (u, e1, k1) =
        >>=-eq-ok (validate_link sha256 r turns adjudications (consequence_by_id cs []) k) _ h in
      validate_links-IsBackedLink r cs turns adjudications ls k1 l m own

  -- What `validate_journal` says when it returns.
  pub record IsValidated (r : String) (cs : List RelationshipConsequence)
      (ls : List NarrativeTensionLink) (turns : List TurnRecord)
      (adjudications : List AdjudicationRecord) (ps : List NarrativeTensionProjection)
      : Type 0 where
    pub projected : project cs ls ≡ ok ps
    pub consequences : (c : RelationshipConsequence) → Has c cs → IsBacked r turns adjudications c
    pub links : (l : NarrativeTensionLink) → Has l ls → IsBackedLink r cs turns adjudications l

  -- When `validate_journal` returns, its result is the projection of the two journals, every
  -- consequence is of the relationship and has a source that the gate accepts, and so has every link,
  -- whose source event refers to the event of a consequence of the journal that the link names, and
  -- whose evidence has both roles for a mutual reconciliation and the agent's for a stabilized
  -- boundary.
  pub validate_journal-IsValidated :
      (r : String) (cs : List RelationshipConsequence) (ls : List NarrativeTensionLink)
      (turns : List TurnRecord) (adjudications : List AdjudicationRecord)
      {ps : List NarrativeTensionProjection}
      → validate_journal sha256 r cs ls turns adjudications ≡ ok ps
      → IsValidated r cs ls turns adjudications ps
  unfolding validate_journal
  validate_journal-IsValidated r cs ls turns adjudications {ps} h =
      let (e1, k1) =
        raise_if-eq-ok (any (λ c. c.relationship_id != r) cs) crosses_relationship _ h in
      let (e2, k2) =
        raise_if-eq-ok (any (λ l. l.relationship_id != r) ls) crosses_relationship _ k1 in
      let (qs, e3, k3) = >>=-eq-ok (project cs ls) _ k2 in
      let (u, e4, k4) = >>=-eq-ok (validate_consequences sha256 r turns adjudications cs) _ k3 in
      let (v, e5, k5) =
        >>=-eq-ok (validate_links sha256 r turns adjudications (consequence_by_id cs []) ls) _ k4 in
      record {
        projected = ground arith;
        consequences = λ c m.
            validate_consequences-IsBacked r turns adjudications cs e4 c m
              (none_crosses (λ (b : RelationshipConsequence). b.relationship_id) r cs e1 c m);
        links = λ l m.
            validate_links-IsBackedLink r cs turns adjudications ls e5 l m
              (none_crosses (λ (b : NarrativeTensionLink). b.relationship_id) r ls e2 l m);
      }
