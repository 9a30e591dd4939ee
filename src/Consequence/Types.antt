-- ===== src/Consequence/Types.antt =====
-- erii/models/consequence.py: the records of the journal, and the errors that its code raises.
use e_r_i_i.Prelude.{String, List, Bool, ◌&&◌}
use e_r_i_i.Prelude.Equality.{Eq, ◌==◌, string_eq}
use e_r_i_i.Prelude.Result.{Result}

pub data RelationshipConsequenceKind : Type 0 where
  harm comfort refusal anger boundary_expression : RelationshipConsequenceKind
  trust_decrease temporary_distance relationship_end : RelationshipConsequenceKind
  repair_attempt repair_refused conflict : RelationshipConsequenceKind

pub data NarrativeTensionOutcome : Type 0 where
  unaddressed addressed_unresolved mutually_reconciled : NarrativeTensionOutcome
  boundary_stabilized relationship_ended superseded : NarrativeTensionOutcome

pub record RelationshipConsequence : Type 0 where
  pub consequence_id : String
  pub relationship_id : String
  pub tension_id : String
  pub source_turn_id : String
  pub source_revision : String
  pub source_decision_id : String
  pub source_event_id : String
  pub source_message_id : String
  pub effects : List RelationshipConsequenceKind
  pub summary : String
  pub recorded_at : String

pub record NarrativeTensionLink : Type 0 where
  pub link_id : String
  pub relationship_id : String
  pub tension_id : String
  pub consequence_id : String
  pub source_turn_id : String
  pub source_revision : String
  pub source_decision_id : String
  pub source_event_id : String
  pub outcome : NarrativeTensionOutcome
  pub summary : String
  pub recorded_at : String

pub record NarrativeTensionProjection : Type 0 where
  pub relationship_id : String
  pub tension_id : String
  pub consequence_id : String
  pub source_turn_id : String
  pub source_revision : String
  pub source_decision_id : String
  pub source_event_id : String
  pub source_message_id : String
  pub effects : List RelationshipConsequenceKind
  pub outcome : NarrativeTensionOutcome
  pub summary : String
  pub link_ids : List String

-- One constructor for each `raise`. The first four are a ConsequenceConflictError or its subclass
-- NarrativeTensionConflictError, the rest a plain ValueError or KeyError.
pub data ConsequenceError : Type 0 where
  -- journal conflicts
  conflicting_consequence tension_already_rooted conflicting_link : ConsequenceError
  link_crosses_relationship link_misses_consequence link_misses_tension : ConsequenceError
  terminal_reopened crosses_relationship ambiguous_consequence : ConsequenceError
  event_not_referenced missing_both_roles missing_agent_role : ConsequenceError
  persisted_differs unknown_relationship : ConsequenceError
  -- the records' own checks
  blank_text : String → ConsequenceError
  no_effects duplicate_effects link_unaddressed duplicate_link_ids : ConsequenceError
  outcome_without_links unaddressed_with_links : ConsequenceError
  -- the source of a consequence
  source_turn_count source_revision_differs source_not_completed : ConsequenceError
  source_not_shown source_not_supported no_agent_message wrong_message : ConsequenceError
  review_not_bound decision_count decision_differs decision_not_accepted : ConsequenceError
  event_not_in_decision no_exact_evidence source_turn_missing : ConsequenceError
  key_error : ConsequenceError

-- a call that returns an `A` or raises
abbrev pub Checked : Type 0 → Type 0
Checked A = Result ConsequenceError A

RelationshipConsequenceKind-discrete : Discrete RelationshipConsequenceKind
RelationshipConsequenceKind-discrete = hlevel

instance unfoldable pub consequence_kind_eq : Eq RelationshipConsequenceKind
unfolding RelationshipConsequenceKind-discrete
consequence_kind_eq = record { dec = RelationshipConsequenceKind-discrete }

NarrativeTensionOutcome-discrete : Discrete NarrativeTensionOutcome
NarrativeTensionOutcome-discrete = hlevel

instance unfoldable pub tension_outcome_eq : Eq NarrativeTensionOutcome
unfolding NarrativeTensionOutcome-discrete
tension_outcome_eq = record { dec = NarrativeTensionOutcome-discrete }

effects-discrete : Discrete (List RelationshipConsequenceKind)
effects-discrete = hlevel

instance unfoldable pub effects_eq : Eq (List RelationshipConsequenceKind)
unfolding effects-discrete
effects_eq = record { dec = effects-discrete }

-- `RelationshipConsequence.same_payload_as`: all but `recorded_at`
unfoldable pub same_consequence_payload : RelationshipConsequence → RelationshipConsequence → Bool
same_consequence_payload a b =
    a.consequence_id == b.consequence_id
    && a.relationship_id == b.relationship_id
    && a.tension_id == b.tension_id
    && a.source_turn_id == b.source_turn_id
    && a.source_revision == b.source_revision
    && a.source_decision_id == b.source_decision_id
    && a.source_event_id == b.source_event_id
    && a.source_message_id == b.source_message_id
    && a.effects == b.effects
    && a.summary == b.summary

-- `NarrativeTensionLink.same_payload_as`: all but `recorded_at`
unfoldable pub same_link_payload : NarrativeTensionLink → NarrativeTensionLink → Bool
same_link_payload a b =
    a.link_id == b.link_id
    && a.relationship_id == b.relationship_id
    && a.tension_id == b.tension_id
    && a.consequence_id == b.consequence_id
    && a.source_turn_id == b.source_turn_id
    && a.source_revision == b.source_revision
    && a.source_decision_id == b.source_decision_id
    && a.source_event_id == b.source_event_id
    && a.outcome == b.outcome
    && a.summary == b.summary
