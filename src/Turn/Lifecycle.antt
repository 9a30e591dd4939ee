-- ===== src/Turn/Lifecycle.antt =====
-- The checks of `TurnRecord.__post_init__` and the comparisons of erii/models/turn.py.
use e_r_i_i.Prelude.{
  ◌+◌, String, List, [], ◌∷◌, map, Bool, true, false, ◌&&◌, ◌||◌, not, Option, none, some,
}
use e_r_i_i.Prelude.Equality.{
  ◌==◌, ◌!=◌, string_eq, nat_eq, option_eq, pair_eq, list_eq, ltb, if◌then◌else◌,
}
use e_r_i_i.Prelude.Lists.{is_empty, has_duplicates}
use e_r_i_i.Prelude.Result.{Result, ok, err, ◌>>◌, raise_if}
use e_r_i_i.Prelude.Text.{strip}
use e_r_i_i.Turn.Types.{
  TurnRecord, TurnStatus, opened, completed, abandoned, InteractionContextSignal,
  ContinuityReviewRecord, reviewed, not_evaluated, failed, DeliveryDisposition, shown, overridden,
  shown_unreviewed, DeliveryExceptionRecord, TurnContextBaseline, SourceProcessingPlan,
  SourceProcessingChannel, SourceProcessingState, SourceProcessingOutcome, turn_status_eq,
  turn_role_eq, context_signal_source_eq, interaction_context_signal_eq, delivery_disposition_eq,
  source_processing_channel_eq, source_processing_state_eq, source_processing_plan_eq,
  turn_message_eq, turn_context_baseline_eq, continuity_review_kind_eq, continuity_review_record_eq,
  delivery_exception_record_eq,
}

-- One constructor for each `raise`.
pub data TurnError : Type 0 where
  turn_not_found turn_conflict turn_terminal_conflict unknown_turn_relationship : TurnError
  blank_field : String → TurnError
  duplicate_signals unsupported_version bad_record_version foreign_baseline : TurnError
  legacy_baseline open_without_baseline open_with_reply open_with_terminal_state : TurnError
  completed_without_reply completed_without_metadata completed_with_abandonment : TurnError
  outcomes_differ_from_plan abandoned_with_reply abandoned_without_reason : TurnError
  abandoned_with_processing shown_unbacked override_unbacked unreviewed_unbacked : TurnError
  legacy_disposition duplicate_channels invalid_key : TurnError

abbrev pub Turned : Type 0 → Type 0
Turned A = Result TurnError A

-- `TURN_RECORD_FORMAT_VERSION` and `LEGACY_TURN_RECORD_FORMAT_VERSION`
abbrev pub modern_version : String
modern_version = "turn-record/v2"

abbrev pub legacy_version : String
legacy_version = "turn-record/v1"

-- `value is not None`
abbrev pub is_some : {A : Type 0} → Option A → Bool
is_some none = false
is_some (some a) = true

-- `_require_text`
unfoldable pub check_text : String → String → Turned (Unit {0})
unfolding strip
check_text value field_name = raise_if (strip value == "") (blank_field field_name)

unfoldable pub check_text_if_given : Option String → String → Turned (Unit {0})
unfolding check_text
check_text_if_given none field_name = ok tt
check_text_if_given (some value) field_name = check_text value field_name

-- the exception is there, and is for this disposition
unfoldable pub matches_exception : Option DeliveryExceptionRecord → DeliveryDisposition → Bool
matches_exception none d = false
matches_exception (some e) d = e.disposition == d

-- the baseline is there, and has an active Manifest
unfoldable pub has_manifest : Option TurnContextBaseline → Bool
has_manifest none = false
has_manifest (some b) = is_some b.manifest

-- `_validate_modern_delivery_review`, on a record that has a review
unfoldable pub validate_modern_delivery_review :
    TurnRecord → ContinuityReviewRecord → Option DeliveryDisposition → Turned (Unit {0})
unfolding matches_exception has_manifest
validate_modern_delivery_review t review (some shown) =
    raise_if
      (review.kind != reviewed
        || is_some t.delivery_exception
        || not (has_manifest t.context_baseline))
      shown_unbacked
validate_modern_delivery_review t review (some overridden) =
    raise_if (review.kind != reviewed || not (matches_exception t.delivery_exception overridden))
      override_unbacked
validate_modern_delivery_review t review (some shown_unreviewed) =
    raise_if
      (not (review.kind == not_evaluated || review.kind == failed)
        || not (matches_exception t.delivery_exception shown_unreviewed))
      unreviewed_unbacked
validate_modern_delivery_review t review none = err legacy_disposition

-- a legacy Turn is not held to the modern rules
unfoldable pub validate_delivery : TurnRecord → ContinuityReviewRecord → Turned (Unit {0})
unfolding validate_modern_delivery_review
validate_delivery t review =
    if t.turn_format_version == modern_version
    then validate_modern_delivery_review t review t.delivery_disposition
    else ok tt

-- the case of a completed Turn, with the fields that it must have
unfoldable pub validate_completed :
    TurnRecord → Option ContinuityReviewRecord → Option SourceProcessingPlan → Turned (Unit {0})
unfolding validate_delivery
validate_completed t (some review) (some plan) = do
  raise_if (not (is_some t.delivery_disposition) || not (is_some t.completed_at))
      completed_without_metadata
  raise_if (is_some t.abandoned_at || is_some t.abandonment_reason) completed_with_abandonment
  validate_delivery t review
  raise_if (map (λ o. o.channel) t.processing_outcomes != plan.channels) outcomes_differ_from_plan
validate_completed t none plan = err completed_without_metadata
validate_completed t (some review) none = err completed_without_metadata

-- `_validate_lifecycle`; the assessment of a record is none when its review is none
unfoldable pub validate_lifecycle : TurnRecord → TurnStatus → Turned (Unit {0})
unfolding validate_completed
validate_lifecycle t opened = do
  raise_if (t.turn_format_version == modern_version && not (is_some t.context_baseline))
      open_without_baseline
  raise_if (is_some t.transcript.agent_message) open_with_reply
  raise_if
      (is_some t.review_record
        || is_some t.delivery_disposition
        || is_some t.delivery_exception
        || is_some t.processing_plan
        || is_some t.completed_at
        || is_some t.abandoned_at
        || is_some t.abandonment_reason
        || not (is_empty t.processing_outcomes))
      open_with_terminal_state
validate_lifecycle t completed = do
  raise_if (not (is_some t.transcript.agent_message)) completed_without_reply
  validate_completed t t.review_record t.processing_plan
validate_lifecycle t abandoned = do
  raise_if (is_some t.transcript.agent_message) abandoned_with_reply
  raise_if (not (is_some t.abandoned_at) || not (is_some t.abandonment_reason))
      abandoned_without_reason
  raise_if
      (is_some t.review_record
        || is_some t.delivery_disposition
        || is_some t.delivery_exception
        || is_some t.processing_plan
        || is_some t.completed_at
        || not (is_empty t.processing_outcomes))
      abandoned_with_processing

-- the baseline is of another Turn
unfoldable pub is_foreign : Option TurnContextBaseline → TurnRecord → Bool
is_foreign none t = false
is_foreign (some b) t = b.relationship_id != t.relationship_id || b.turn_id != t.turn_id

-- `TurnRecord.__post_init__`, on values that are already records
unfoldable pub check_turn : TurnRecord → Turned (Unit {0})
unfolding check_text check_text_if_given is_foreign validate_lifecycle
check_turn t = do
  check_text t.turn_id "turn_id"
  check_text t.relationship_id "relationship_id"
  raise_if (has_duplicates (map (λ s. s.signal_id) t.interaction_context)) duplicate_signals
  check_text t.source_revision "source_revision"
  raise_if
      (not (t.turn_format_version == modern_version || t.turn_format_version == legacy_version))
      unsupported_version
  raise_if (ltb t.record_version 1) bad_record_version
  check_text t.opened_at "opened_at"
  raise_if (is_foreign t.context_baseline t) foreign_baseline
  raise_if (t.turn_format_version == legacy_version && is_some t.context_baseline) legacy_baseline
  check_text_if_given t.completed_at "completed_at"
  check_text_if_given t.abandoned_at "abandoned_at"
  check_text_if_given t.abandonment_reason "abandonment_reason"
  validate_lifecycle t t.status

-- the record is what it was, if it passes
unfoldable pub make_turn : TurnRecord → Turned TurnRecord
unfolding check_turn
make_turn t = check_turn t >> ok t

-- `InteractionContextSignal.same_claim_as`: all but `recorded_at`
unfoldable pub same_claim : InteractionContextSignal → InteractionContextSignal → Bool
same_claim a b =
    a.signal_id == b.signal_id
    && a.source == b.source
    && a.signal_type == b.signal_type
    && a.value == b.value
    && a.evidence_refs == b.evidence_refs
    && a.relationship_id == b.relationship_id
    && a.source_turn_id == b.source_turn_id
    && a.producer_version == b.producer_version

-- equal lengths, and the same claims in order
unfoldable pub same_claims : List InteractionContextSignal → List InteractionContextSignal → Bool
unfolding same_claim
same_claims [] [] = true
same_claims (a ∷ rest) (b ∷ bs) = same_claim a b && same_claims rest bs
same_claims [] (b ∷ bs) = false
same_claims (a ∷ rest) [] = false

-- `same_opening_as`
unfoldable pub same_opening : TurnRecord → TurnRecord → Bool
unfolding same_claims
same_opening a b =
    a.turn_id == b.turn_id
    && a.relationship_id == b.relationship_id
    && a.source_revision == b.source_revision
    && a.context_baseline == b.context_baseline
    && same_claims a.interaction_context b.interaction_context
    && a.transcript.user_message.role == b.transcript.user_message.role
    && a.transcript.user_message.content == b.transcript.user_message.content

-- both are there, with one content
unfoldable pub same_reply : Option String → Option String → Bool
same_reply (some a) (some b) = a == b
same_reply none b = false
same_reply (some a) none = false

-- the content of the agent's message
unfoldable pub reply_of : TurnRecord → Option String
reply_of t = elim t.transcript.agent_message [ none ↦ none | some m ↦ some m.content ]

abbrev pub channel_states :
    List SourceProcessingOutcome → List (SourceProcessingChannel × SourceProcessingState)
channel_states os = map (λ o. (o.channel, o.state)) os

-- `same_terminal_payload_as`
unfoldable pub same_terminal_payload : TurnRecord → TurnRecord → Bool
unfolding same_opening same_reply reply_of
same_terminal_payload a b = same_opening a b && a.status == b.status && elim a.status [
  | completed ↦
      same_reply (reply_of a) (reply_of b)
      && a.review_record == b.review_record
      && a.delivery_disposition == b.delivery_disposition
      && a.delivery_exception == b.delivery_exception
      && a.processing_plan == b.processing_plan
      && channel_states a.processing_outcomes == channel_states b.processing_outcomes
  | abandoned ↦ a.abandonment_reason == b.abandonment_reason
  | opened ↦ true
]

-- `is_terminal_transition_from`: the first record replaces the second
unfoldable pub is_terminal_transition : TurnRecord → TurnRecord → Bool
is_terminal_transition t existing =
    existing.status == opened
    && (t.status == completed || t.status == abandoned)
    && t.turn_id == existing.turn_id
    && t.relationship_id == existing.relationship_id
    && t.source_revision == existing.source_revision
    && t.record_version == existing.record_version + 1
    && t.opened_at == existing.opened_at
    && t.context_baseline == existing.context_baseline
    && t.transcript.user_message == existing.transcript.user_message
    && t.interaction_context == existing.interaction_context
