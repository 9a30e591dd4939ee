-- ===== src/Consequence/Gate.antt =====
-- The source gate of erii/core/consequence.py: `_resolve_accepted_event_source`. The digest of
pub mod Sound
-- `hashlib` is the parameter `sha256`, from the text to its hexadecimal digest.
use Prim.Native.String.{count}
use e_r_i_i.Prelude.{
  ◌≡◌, String, List, [], ◌∷◌, Bool, true, false, ◌&&◌, ◌||◌, not, Option, none, some,
}
use e_r_i_i.Prelude.Equality.{◌==◌, ◌!=◌, contains, string_eq, nat_eq, option_eq, if◌then◌else◌}
use e_r_i_i.Prelude.Lists.{filter, any}
use e_r_i_i.Prelude.Result.{ok, err, ◌>>=◌, ◌>>◌, raise_if}
use e_r_i_i.Turn.Types.{
  TurnRecord, TurnMessage, TurnStatus, completed, shown, ContinuityVerdict, aligned,
  supported_new_choice, ContinuityReviewRecord, ContinuityReviewReceipt, ContinuityReviewBinding,
  ContinuityReviewKind, reviewed, turn_status_eq, delivery_disposition_eq,
  continuity_review_kind_eq,
}
use e_r_i_i.Consequence.Sources.{
  AdjudicationRecord, DecisionReceipt, EvidenceReference, RelationshipEvent, agent, accepted,
  source_role_eq, decision_outcome_eq,
}
use e_r_i_i.Consequence.Types.{
  Checked, ConsequenceError, source_turn_count, source_revision_differs, source_not_completed,
  source_not_shown, source_not_supported, no_agent_message, wrong_message, review_not_bound,
  decision_count, decision_differs, decision_not_accepted, event_not_in_decision, no_exact_evidence,
}

-- `_SUPPORTED_VERDICTS`
unfoldable pub is_supported : Option ContinuityVerdict → Bool
is_supported (some aligned) = true
is_supported (some supported_new_choice) = true
is_supported _ = false

-- `len(xs) != 1` raises, and the one element is the value
unfoldable pub the_only : {A : Type 0} → List A → ConsequenceError → Checked A
the_only (x ∷ []) e = ok x
the_only _ e = err e

-- `value is not None and value != actual`
unfoldable pub differs_if_given : Option String → String → Bool
differs_if_given none actual = false
differs_if_given (some value) actual = value != actual

-- the receipt of a review that supports delivery
unfoldable pub supporting_receipt : Option ContinuityReviewRecord → Checked ContinuityReviewReceipt
unfolding is_supported
supporting_receipt none = err source_not_supported
supporting_receipt (some review) = elim review.receipt [
  | none ↦ err source_not_supported
  | some receipt ↦
      if review.kind == reviewed && is_supported receipt.verdict
      then ok receipt
      else err source_not_supported
]

unfoldable pub final_message : Option TurnMessage → Checked TurnMessage
final_message none = err no_agent_message
final_message (some message) = ok message

-- the review is bound to this message of this Turn
unfoldable pub is_bound : ContinuityReviewBinding → String → String → String → TurnMessage → Bool
is_bound binding relationship_id turn_id digest message =
    binding.relationship_id == relationship_id
    && binding.turn_id == turn_id
    && binding.reply_sha256 == digest
    && binding.reply_length == count message.content

-- the evidence quotes the whole message
unfoldable pub quotes_all : EvidenceReference → String → String → TurnMessage → Bool
quotes_all item revision digest message =
    item.source_id == message.message_id
    && item.source_revision == revision
    && item.role == agent
    && item.quote == message.content
    && item.start == 0
    && item.end == count message.content
    && item.message_sha256 == digest
    && item.occurred_at == some message.recorded_at

pub record AcceptedSource : Type 0 where
  pub turn : TurnRecord
  pub record_ : AdjudicationRecord
  pub event : RelationshipEvent

module _ (sha256 : String → String) where
  -- the first half: the Turn and its final message
  unfoldable pub resolve_turn :
      String
      → String
      → Option String
      → List TurnRecord
      → Option String
      → Checked (TurnRecord × TurnMessage)
  unfolding the_only differs_if_given supporting_receipt final_message is_bound
  resolve_turn relationship_id source_turn_id source_revision turns expected_message_id = do
    turn ←
        the_only
          (filter (λ t. t.turn_id == source_turn_id && t.relationship_id == relationship_id) turns)
          source_turn_count
    raise_if (differs_if_given source_revision turn.source_revision) source_revision_differs
    raise_if (turn.status != completed) source_not_completed
    raise_if (turn.delivery_disposition != some shown) source_not_shown
    receipt ← supporting_receipt turn.review_record
    message ← final_message turn.transcript.agent_message
    raise_if (differs_if_given expected_message_id message.message_id) wrong_message
    raise_if
        (not (
          is_bound receipt.review_binding relationship_id source_turn_id (sha256 message.content)
            message))
        review_not_bound
    ok (turn, message)

  -- the second half: the decision, its event and its evidence
  unfoldable pub resolve_decision :
      String
      → String
      → String
      → String
      → List AdjudicationRecord
      → TurnRecord
      → TurnMessage
      → Checked AcceptedSource
  unfolding the_only quotes_all
  resolve_decision relationship_id source_turn_id decision_id event_id adjudications turn message =
      do
        found ←
            the_only
              (filter
                (λ r.
                  r.receipt.decision_id == decision_id
                  && r.receipt.relationship_id == relationship_id)
                adjudications)
              decision_count
        raise_if
            (found.receipt.source_turn_id != source_turn_id
              || found.receipt.source_revision != turn.source_revision)
            decision_differs
        raise_if (found.receipt.outcome != accepted) decision_not_accepted
        event ← the_only (filter (λ e. e.event_id == event_id) found.events) event_not_in_decision
        raise_if
            (not (contains found.receipt.event_ids event_id)
              || event.relationship_id != relationship_id)
            event_not_in_decision
        raise_if
            (not (
              any (λ item. quotes_all item turn.source_revision (sha256 message.content) message)
                found.receipt.evidence))
            no_exact_evidence
        ok (record { turn = turn; record_ = found; event = event })

  -- `_resolve_accepted_event_source`
  unfoldable pub resolve_accepted_event_source :
      String
      → String
      → Option String
      → String
      → String
      → List TurnRecord
      → List AdjudicationRecord
      → Option String
      → Checked AcceptedSource
  unfolding resolve_turn resolve_decision
  resolve_accepted_event_source relationship_id source_turn_id source_revision decision_id event_id
        turns adjudications expected_message_id =
      do
        (turn, message) ←
            resolve_turn relationship_id source_turn_id source_revision turns expected_message_id
        resolve_decision relationship_id source_turn_id decision_id event_id adjudications turn
            message
