-- ===== src/Consequence/Sources.antt =====
-- The records of erii/models/adjudication.py and erii/models/relationship.py that bind a consequence
-- to its source, reduced to the fields which the source gate reads.
use e_r_i_i.Prelude.{ℕ, String, List, Option}
use e_r_i_i.Prelude.Equality.{Eq}

pub data SourceRole : Type 0 where
  user agent system tool host : SourceRole

pub data DecisionOutcome : Type 0 where
  accepted corroborated ignored rejected : DecisionOutcome

-- `start` and `end` are checked to be non-negative when the record is built.
pub record EvidenceReference : Type 0 where
  pub evidence_id : String
  pub source_id : String
  pub source_revision : String
  pub role : SourceRole
  pub quote : String
  pub message_sha256 : String
  pub start : ℕ
  pub end : ℕ
  pub occurred_at : Option String

-- the identity of a decision, its outcome, and what it rests on
pub record DecisionReceipt : Type 0 where
  pub decision_id : String
  pub relationship_id : String
  pub source_turn_id : String
  pub source_revision : String
  pub outcome : DecisionOutcome
  pub evidence : List EvidenceReference
  pub event_ids : List String

-- `references` is the entry `metadata["adjudication"]["references"]`, none if it is no sequence
pub record RelationshipEvent : Type 0 where
  pub event_id : String
  pub relationship_id : String
  pub references : Option (List String)

pub record AdjudicationRecord : Type 0 where
  pub receipt : DecisionReceipt
  pub events : List RelationshipEvent

SourceRole-discrete : Discrete SourceRole
SourceRole-discrete = hlevel

instance unfoldable pub source_role_eq : Eq SourceRole
unfolding SourceRole-discrete
source_role_eq = record { dec = SourceRole-discrete }

DecisionOutcome-discrete : Discrete DecisionOutcome
DecisionOutcome-discrete = hlevel

instance unfoldable pub decision_outcome_eq : Eq DecisionOutcome
unfolding DecisionOutcome-discrete
decision_outcome_eq = record { dec = DecisionOutcome-discrete }
