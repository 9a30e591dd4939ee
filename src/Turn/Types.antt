-- ===== src/Turn/Types.antt =====
-- The data types of erii/models/turn.py, and of the records that a Turn holds: the context baseline
-- (erii/models/turn_context.py) and the review record (erii/models/continuity_review.py).
--
-- A field named `remaining` stands for the fields of its class that the modelled code only copies
-- and compares as a whole.
use e_r_i_i.Prelude.{ℕ, String, Option, List}
use e_r_i_i.Prelude.Equality.{Eq, string_eq, nat_eq}

pub data TurnStatus : Type 0 where
  opened completed abandoned : TurnStatus

pub data TurnRole : Type 0 where
  user agent : TurnRole

pub data ContextSignalSource : Type 0 where
  host_observed core_derived evaluator_inferred : ContextSignalSource

-- `_runtime_attestation` and `_trace_context` take no part in comparisons and are left out.
pub record InteractionContextSignal : Type 0 where
  pub signal_id : String
  pub source : ContextSignalSource
  pub signal_type : String
  pub value : String
  pub evidence_refs : List String
  pub recorded_at : String
  pub relationship_id : Option String
  pub source_turn_id : Option String
  pub producer_version : Option String

pub data ContinuityVerdict : Type 0 where
  aligned supported_new_choice review_required unsupported_drift : ContinuityVerdict

pub data DeliveryDisposition : Type 0 where
  shown overridden shown_unreviewed : DeliveryDisposition

pub data SourceProcessingChannel : Type 0 where
  memory_archival relationship_adjudication : SourceProcessingChannel

pub data SourceProcessingState : Type 0 where
  pending artifacts_committed no_output failed : SourceProcessingState

pub record SourceProcessingPlan : Type 0 where
  pub channels : List SourceProcessingChannel
  pub version : String

pub record SourceProcessingOutcome : Type 0 where
  pub channel : SourceProcessingChannel
  pub state : SourceProcessingState
  pub updated_at : String

pub record TurnMessage : Type 0 where
  pub message_id : String
  pub role : TurnRole
  pub content : String
  pub recorded_at : String

pub record SourceTranscript : Type 0 where
  pub user_message : TurnMessage
  pub agent_message : Option TurnMessage

pub record TurnContextBaseline : Type 0 where
  pub relationship_id : String
  pub turn_id : String
  -- the identity of the active Manifest
  pub manifest : Option String
  pub baseline_fingerprint : String
  pub remaining : String

-- What the review of one exact draft is bound to.
pub record ContinuityReviewBinding : Type 0 where
  pub relationship_id : String
  pub turn_id : String
  pub reply_sha256 : String
  pub reply_length : ℕ
  pub remaining : String

-- `verdict` is `assessment.verdict`.
pub record ContinuityReviewReceipt : Type 0 where
  pub review_binding : ContinuityReviewBinding
  pub delivery_disposition : DeliveryDisposition
  pub verdict : Option ContinuityVerdict
  pub remaining : String

pub data ContinuityReviewKind : Type 0 where
  reviewed not_evaluated failed legacy_unavailable : ContinuityReviewKind

-- `remaining` covers the reason, the failure class and the legacy summary.
pub record ContinuityReviewRecord : Type 0 where
  pub kind : ContinuityReviewKind
  pub receipt : Option ContinuityReviewReceipt
  pub remaining : String

pub record DeliveryExceptionRecord : Type 0 where
  pub disposition : DeliveryDisposition
  pub reason_code : String
  pub remaining : String

pub record TurnRecord : Type 0 where
  pub turn_id : String
  pub relationship_id : String
  pub status : TurnStatus
  pub transcript : SourceTranscript
  pub interaction_context : List InteractionContextSignal
  pub source_revision : String
  pub turn_format_version : String
  pub record_version : ℕ
  pub opened_at : String
  pub context_baseline : Option TurnContextBaseline
  pub review_record : Option ContinuityReviewRecord
  pub delivery_disposition : Option DeliveryDisposition
  pub delivery_exception : Option DeliveryExceptionRecord
  pub processing_plan : Option SourceProcessingPlan
  pub processing_outcomes : List SourceProcessingOutcome
  pub completed_at : Option String
  pub abandoned_at : Option String
  pub abandonment_reason : Option String

-- Python compares enum members by identity and dataclasses field by field.
TurnStatus-discrete : Discrete TurnStatus
TurnStatus-discrete = hlevel (string_eq.dec, nat_eq.dec)

instance unfoldable pub turn_status_eq : Eq TurnStatus
unfolding TurnStatus-discrete
turn_status_eq = record { dec = TurnStatus-discrete }

TurnRole-discrete : Discrete TurnRole
TurnRole-discrete = hlevel (string_eq.dec, nat_eq.dec)

instance unfoldable pub turn_role_eq : Eq TurnRole
unfolding TurnRole-discrete
turn_role_eq = record { dec = TurnRole-discrete }

ContextSignalSource-discrete : Discrete ContextSignalSource
ContextSignalSource-discrete = hlevel (string_eq.dec, nat_eq.dec)

instance unfoldable pub context_signal_source_eq : Eq ContextSignalSource
unfolding ContextSignalSource-discrete
context_signal_source_eq = record { dec = ContextSignalSource-discrete }

InteractionContextSignal-discrete : Discrete InteractionContextSignal
InteractionContextSignal-discrete = hlevel (string_eq.dec, nat_eq.dec)

instance unfoldable pub interaction_context_signal_eq : Eq InteractionContextSignal
unfolding InteractionContextSignal-discrete
interaction_context_signal_eq = record { dec = InteractionContextSignal-discrete }

ContinuityVerdict-discrete : Discrete ContinuityVerdict
ContinuityVerdict-discrete = hlevel (string_eq.dec, nat_eq.dec)

instance unfoldable pub continuity_verdict_eq : Eq ContinuityVerdict
unfolding ContinuityVerdict-discrete
continuity_verdict_eq = record { dec = ContinuityVerdict-discrete }

DeliveryDisposition-discrete : Discrete DeliveryDisposition
DeliveryDisposition-discrete = hlevel (string_eq.dec, nat_eq.dec)

instance unfoldable pub delivery_disposition_eq : Eq DeliveryDisposition
unfolding DeliveryDisposition-discrete
delivery_disposition_eq = record { dec = DeliveryDisposition-discrete }

SourceProcessingChannel-discrete : Discrete SourceProcessingChannel
SourceProcessingChannel-discrete = hlevel (string_eq.dec, nat_eq.dec)

instance unfoldable pub source_processing_channel_eq : Eq SourceProcessingChannel
unfolding SourceProcessingChannel-discrete
source_processing_channel_eq = record { dec = SourceProcessingChannel-discrete }

SourceProcessingState-discrete : Discrete SourceProcessingState
SourceProcessingState-discrete = hlevel (string_eq.dec, nat_eq.dec)

instance unfoldable pub source_processing_state_eq : Eq SourceProcessingState
unfolding SourceProcessingState-discrete
source_processing_state_eq = record { dec = SourceProcessingState-discrete }

SourceProcessingPlan-discrete : Discrete SourceProcessingPlan
SourceProcessingPlan-discrete = hlevel (string_eq.dec, nat_eq.dec)

instance unfoldable pub source_processing_plan_eq : Eq SourceProcessingPlan
unfolding SourceProcessingPlan-discrete
source_processing_plan_eq = record { dec = SourceProcessingPlan-discrete }

SourceProcessingOutcome-discrete : Discrete SourceProcessingOutcome
SourceProcessingOutcome-discrete = hlevel (string_eq.dec, nat_eq.dec)

instance unfoldable pub source_processing_outcome_eq : Eq SourceProcessingOutcome
unfolding SourceProcessingOutcome-discrete
source_processing_outcome_eq = record { dec = SourceProcessingOutcome-discrete }

TurnMessage-discrete : Discrete TurnMessage
TurnMessage-discrete = hlevel (string_eq.dec, nat_eq.dec)

instance unfoldable pub turn_message_eq : Eq TurnMessage
unfolding TurnMessage-discrete
turn_message_eq = record { dec = TurnMessage-discrete }

TurnContextBaseline-discrete : Discrete TurnContextBaseline
TurnContextBaseline-discrete = hlevel (string_eq.dec, nat_eq.dec)

instance unfoldable pub turn_context_baseline_eq : Eq TurnContextBaseline
unfolding TurnContextBaseline-discrete
turn_context_baseline_eq = record { dec = TurnContextBaseline-discrete }

ContinuityReviewBinding-discrete : Discrete ContinuityReviewBinding
ContinuityReviewBinding-discrete = hlevel (string_eq.dec, nat_eq.dec)

instance unfoldable pub continuity_review_binding_eq : Eq ContinuityReviewBinding
unfolding ContinuityReviewBinding-discrete
continuity_review_binding_eq = record { dec = ContinuityReviewBinding-discrete }

ContinuityReviewReceipt-discrete : Discrete ContinuityReviewReceipt
ContinuityReviewReceipt-discrete = hlevel (string_eq.dec, nat_eq.dec)

instance unfoldable pub continuity_review_receipt_eq : Eq ContinuityReviewReceipt
unfolding ContinuityReviewReceipt-discrete
continuity_review_receipt_eq = record { dec = ContinuityReviewReceipt-discrete }

ContinuityReviewKind-discrete : Discrete ContinuityReviewKind
ContinuityReviewKind-discrete = hlevel (string_eq.dec, nat_eq.dec)

instance unfoldable pub continuity_review_kind_eq : Eq ContinuityReviewKind
unfolding ContinuityReviewKind-discrete
continuity_review_kind_eq = record { dec = ContinuityReviewKind-discrete }

ContinuityReviewRecord-discrete : Discrete ContinuityReviewRecord
ContinuityReviewRecord-discrete = hlevel (string_eq.dec, nat_eq.dec)

instance unfoldable pub continuity_review_record_eq : Eq ContinuityReviewRecord
unfolding ContinuityReviewRecord-discrete
continuity_review_record_eq = record { dec = ContinuityReviewRecord-discrete }

DeliveryExceptionRecord-discrete : Discrete DeliveryExceptionRecord
DeliveryExceptionRecord-discrete = hlevel (string_eq.dec, nat_eq.dec)

instance unfoldable pub delivery_exception_record_eq : Eq DeliveryExceptionRecord
unfolding DeliveryExceptionRecord-discrete
delivery_exception_record_eq = record { dec = DeliveryExceptionRecord-discrete }

TurnRecord-discrete : Discrete TurnRecord
TurnRecord-discrete = hlevel (string_eq.dec, nat_eq.dec)

instance unfoldable pub turn_record_eq : Eq TurnRecord
unfolding TurnRecord-discrete
turn_record_eq = record { dec = TurnRecord-discrete }
