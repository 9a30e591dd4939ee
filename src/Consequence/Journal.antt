-- ===== src/Consequence/Journal.antt =====
-- The journals of a relationship: `validate_journal` of erii/core/consequence.py and the append
-- operations of erii/storage/file_storage.py.
pub mod Backed
use e_r_i_i.Prelude.{
  ◌≡◌, String, List, [], ◌∷◌, ◌++◌, Bool, true, false, ◌&&◌, ◌||◌, not, Option, none, some,
}
use e_r_i_i.Prelude.Dict.{Dict, lookup, insert}
use e_r_i_i.Prelude.Equality.{◌==◌, ◌!=◌, contains, string_eq, if◌then◌else◌}
use e_r_i_i.Prelude.Lists.{any, find?}
use e_r_i_i.Prelude.Result.{ok, err, ◌>>=◌, ◌>>◌, raise_if}
use e_r_i_i.Turn.Types.{TurnRecord}
use e_r_i_i.Consequence.Sources.{
  AdjudicationRecord, EvidenceReference, RelationshipEvent, SourceRole, user, agent, source_role_eq,
}
use e_r_i_i.Consequence.Types.{
  RelationshipConsequence, NarrativeTensionLink, NarrativeTensionProjection, Checked,
  mutually_reconciled, boundary_stabilized, same_consequence_payload, same_link_payload,
  tension_outcome_eq, conflicting_consequence, conflicting_link, link_misses_consequence,
  crosses_relationship, event_not_referenced, missing_both_roles, missing_agent_role,
  unknown_relationship,
}
use e_r_i_i.Consequence.Gate.{AcceptedSource, resolve_accepted_event_source}
use e_r_i_i.Consequence.Project.{project}

-- `{item.consequence_id: item for item in consequences}`: of equal identities the last counts
unfoldable pub consequence_by_id :
    List RelationshipConsequence
    → Dict String RelationshipConsequence
    → Dict String RelationshipConsequence
consequence_by_id [] d = d
consequence_by_id (c ∷ cs) d = consequence_by_id cs (insert c.consequence_id c d)

-- `source_event_id in references`, false if the references are no sequence
unfoldable pub references_event : RelationshipEvent → String → Bool
references_event e source_event_id = elim e.references [
  | none ↦ false
  | some references ↦ contains references source_event_id
]

-- `role in {item.role for item in evidence}`
unfoldable pub has_role : List EvidenceReference → SourceRole → Bool
has_role evidence role = any (λ item. item.role == role) evidence

module _ (sha256 : String → String) where
  -- the loop over the consequences
  unfoldable pub validate_consequences :
      String
      → List TurnRecord
      → List AdjudicationRecord
      → List RelationshipConsequence
      → Checked (Unit {0})
  unfolding resolve_accepted_event_source
  validate_consequences relationship_id turns adjudications [] = ok tt
  validate_consequences relationship_id turns adjudications (c ∷ cs) = do
    source ←
        resolve_accepted_event_source sha256 relationship_id c.source_turn_id
          (some c.source_revision) c.source_decision_id c.source_event_id turns adjudications
          (some c.source_message_id)
    validate_consequences relationship_id turns adjudications cs

  -- one round of the loop over the links
  unfoldable pub validate_link :
      String
      → List TurnRecord
      → List AdjudicationRecord
      → Dict String RelationshipConsequence
      → NarrativeTensionLink
      → Checked (Unit {0})
  unfolding resolve_accepted_event_source references_event has_role
  validate_link relationship_id turns adjudications by_id l = elim (lookup l.consequence_id by_id) [
    | none ↦ err link_misses_consequence
    | some consequence ↦ do
      source ←
          resolve_accepted_event_source sha256 relationship_id l.source_turn_id
            (some l.source_revision) l.source_decision_id l.source_event_id turns adjudications none
      raise_if (not (references_event source.event consequence.source_event_id))
          event_not_referenced
      let evidence = source.record_.receipt.evidence
      raise_if
          (l.outcome == mutually_reconciled
            && not (has_role evidence user && has_role evidence agent))
          missing_both_roles
      raise_if (l.outcome == boundary_stabilized && not (has_role evidence agent))
          missing_agent_role
      ok tt
  ]

  unfoldable pub validate_links :
      String
      → List TurnRecord
      → List AdjudicationRecord
      → Dict String RelationshipConsequence
      → List NarrativeTensionLink
      → Checked (Unit {0})
  unfolding validate_link
  validate_links relationship_id turns adjudications by_id [] = ok tt
  validate_links relationship_id turns adjudications by_id (l ∷ ls) = do
    checked ← validate_link relationship_id turns adjudications by_id l
    validate_links relationship_id turns adjudications by_id ls

  -- `validate_journal`
  unfoldable pub validate_journal :
      String
      → List RelationshipConsequence
      → List NarrativeTensionLink
      → List TurnRecord
      → List AdjudicationRecord
      → Checked (List NarrativeTensionProjection)
  unfolding project consequence_by_id validate_consequences validate_links
  validate_journal relationship_id consequences links turns adjudications = do
    raise_if (any (λ c. c.relationship_id != relationship_id) consequences) crosses_relationship
    raise_if (any (λ l. l.relationship_id != relationship_id) links) crosses_relationship
    projection ← project consequences links
    checked_consequences ← validate_consequences relationship_id turns adjudications consequences
    checked_links ←
        validate_links relationship_id turns adjudications (consequence_by_id consequences []) links
    ok projection

-- The files of the storage that the journals need, one entry for each relationship. A file is kept as
-- the records that it decodes to.
pub record Storage : Type 0 where
  pub relationships : List String
  pub consequences : Dict String (List RelationshipConsequence)
  pub links : Dict String (List NarrativeTensionLink)
  pub turns : Dict String (List TurnRecord)
  pub adjudications : Dict String (List AdjudicationRecord)

-- a missing file is an empty list
unfoldable pub file : {A : Type 0} → String → Dict String (List A) → List A
file relationship_id d = elim (lookup relationship_id d) [ none ↦ [] | some xs ↦ xs ]

abbrev pub list_relationship_consequences : Storage → String → List RelationshipConsequence
list_relationship_consequences s relationship_id = file relationship_id s.consequences

abbrev pub list_narrative_tension_links : Storage → String → List NarrativeTensionLink
list_narrative_tension_links s relationship_id = file relationship_id s.links

abbrev pub list_turn_records : Storage → String → List TurnRecord
list_turn_records s relationship_id = file relationship_id s.turns

abbrev pub list_relationship_adjudications : Storage → String → List AdjudicationRecord
list_relationship_adjudications s relationship_id = file relationship_id s.adjudications

-- the write that adds a consequence to its file
abbrev pub write_consequence : Storage → RelationshipConsequence → Storage
write_consequence s c = record {
  relationships = s.relationships;
  consequences =
      insert c.relationship_id (list_relationship_consequences s c.relationship_id ++ (c ∷ []))
        s.consequences;
  links = s.links;
  turns = s.turns;
  adjudications = s.adjudications;
}

-- `append_relationship_consequence`
unfoldable pub append_relationship_consequence :
    Storage → RelationshipConsequence → Checked (Storage × RelationshipConsequence)
unfolding file
append_relationship_consequence s c = do
  raise_if (not (contains s.relationships c.relationship_id)) unknown_relationship
  elim (find? (λ old. old.consequence_id == c.consequence_id)
      (list_relationship_consequences s c.relationship_id)) [
        | some existing ↦
            if same_consequence_payload existing c
            then ok (s, existing)
            else err conflicting_consequence
        | none ↦ ok (write_consequence s c, c)
      ]

abbrev pub write_link : Storage → NarrativeTensionLink → Storage
write_link s l = record {
  relationships = s.relationships;
  consequences = s.consequences;
  links =
      insert l.relationship_id (list_narrative_tension_links s l.relationship_id ++ (l ∷ []))
        s.links;
  turns = s.turns;
  adjudications = s.adjudications;
}

-- the link has the identity, or the tension and the source event, of the other
unfoldable pub same_link : NarrativeTensionLink → NarrativeTensionLink → Bool
same_link l old =
    old.link_id == l.link_id
    || old.tension_id == l.tension_id && old.source_event_id == l.source_event_id

-- `append_narrative_tension_link`
unfoldable pub append_narrative_tension_link :
    Storage → NarrativeTensionLink → Checked (Storage × NarrativeTensionLink)
unfolding file same_link
append_narrative_tension_link s l = do
  raise_if (not (contains s.relationships l.relationship_id)) unknown_relationship
  elim (find? (same_link l) (list_narrative_tension_links s l.relationship_id)) [
    | some existing ↦
        if same_link_payload existing l then ok (s, existing) else err conflicting_link
    | none ↦
        if any
          (λ c.
            c.relationship_id == l.relationship_id
            && c.consequence_id == l.consequence_id
            && c.tension_id == l.tension_id)
          (list_relationship_consequences s l.relationship_id)
        then ok (write_link s l, l)
        else err link_misses_consequence
  ]
