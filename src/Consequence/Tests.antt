-- ===== src/Consequence/Tests.antt =====
-- A small relationship: one shown Turn, one accepted decision, a consequence and links.
use mathlib.Core.List.Permᴰ
use mathlib.Core.List.{Permᴰ}
use e_r_i_i.Prelude.{
  ◌≡◌, ◌≢◌, refl, sym, ap, ◌∙◌, ◌↔◌, String, List, [], ◌∷◌, ◌++◌, Bool, true, false, Option, none,
  some, arith,
}
use e_r_i_i.Prelude.Dict.{lookup, insert}
use e_r_i_i.Prelude.Equality.{string_eq, pair_eq, nat_eq, option_eq, ne_of_test}
use e_r_i_i.Prelude.Lists.{Has, here, there}
use e_r_i_i.Prelude.Order.{pair_ord, nat_ord}
use e_r_i_i.Prelude.Result.{ok, map_ok}
use e_r_i_i.Prelude.Sort.{sorted, insort, KeyInjective}
use e_r_i_i.Prelude.Text.{string_ord, strip, text_le, lstrip, rstrip}
use e_r_i_i.Turn.Types.{
  TurnRecord, TurnMessage, completed, user, agent, shown, aligned, reviewed, ContinuityReviewRecord,
  ContinuityReviewReceipt,
}
use e_r_i_i.Consequence.Built.{IsBuilt, make_consequence_iff-IsBuilt}
use e_r_i_i.Consequence.Types.{
  RelationshipConsequence, NarrativeTensionLink, NarrativeTensionProjection, harm, anger,
  addressed_unresolved, mutually_reconciled, superseded, consequence_kind_eq, tension_outcome_eq,
  effects_eq,
}
use e_r_i_i.Consequence.Sources.{AdjudicationRecord, EvidenceReference, RelationshipEvent, accepted}
use e_r_i_i.Consequence.Gate.{AcceptedSource, resolve_accepted_event_source}
use e_r_i_i.Consequence.Gate.Sound.{IsResolved, resolve_accepted_event_source_sound}
use e_r_i_i.Consequence.Journal.{Storage, validate_journal, list_relationship_consequences, file}
use e_r_i_i.Consequence.Journal.Backed.{IsValidated, validate_journal-IsValidated}
use e_r_i_i.Consequence.Coordinator.{append_consequence, project_stored}
use e_r_i_i.Consequence.Coordinator.Steps.{
  Reaches, start, next, appends_consequence, IsShown, Reaches-IsShown, Reaches-projects,
}
use e_r_i_i.Consequence.Validate.{make_consequence, make_link}
use e_r_i_i.Consequence.Normal.{
  IsNormalConsequence, IsNormalLink, make_consequence-IsNormal, make_link-IsNormal,
}
use e_r_i_i.Consequence.Project.{project, consequence_sort_key, link_sort_key}
use e_r_i_i.Consequence.Spec.{projections_of}
use e_r_i_i.Consequence.Consistent.{IsConsistent}
use e_r_i_i.Consequence.Consistent.Exact.{project_iff_IsConsistent}
use e_r_i_i.Consequence.Replay.{project-perm, project-replay}
use e_r_i_i.Consequence.Types.{same_consequence_payload}

-- stands for the digest
abbrev digest : String → String
digest s = s

abbrev insult : RelationshipConsequence
insult = record {
  consequence_id = "c1";
  relationship_id = "r";
  tension_id = "t1";
  source_turn_id = "turn";
  source_revision = "1";
  source_decision_id = "d1";
  source_event_id = "e1";
  source_message_id = "turn:agent";
  effects = harm ∷ anger ∷ [];
  summary = "an insult";
  recorded_at = "10";
}

abbrev insult_again : RelationshipConsequence
insult_again = record insult { recorded_at = "20" }

abbrev insult_typed : RelationshipConsequence
insult_typed = record insult { effects = anger ∷ harm ∷ []; summary = " an insult " }

abbrev apology : NarrativeTensionLink
apology = record {
  link_id = "l1";
  relationship_id = "r";
  tension_id = "t1";
  consequence_id = "c1";
  source_turn_id = "turn";
  source_revision = "1";
  source_decision_id = "d1";
  source_event_id = "e1";
  outcome = addressed_unresolved;
  summary = "an apology";
  recorded_at = "30";
}

abbrev peace : NarrativeTensionLink
peace = record apology {
  link_id = "l2";
  outcome = mutually_reconciled;
  summary = "peace";
  recorded_at = "40";
}

abbrev reply : TurnMessage
reply = record { message_id = "turn:agent"; role = agent; content = "go away"; recorded_at = "5" }

abbrev shown_turn : TurnRecord
shown_turn = record {
  turn_id = "turn";
  relationship_id = "r";
  status = completed;
  transcript = record {
    user_message = record {
      message_id = "turn:user";
      role = user;
      content = "hello";
      recorded_at = "4";
    };
    agent_message = some reply;
  };
  interaction_context = [];
  source_revision = "1";
  turn_format_version = "turn-record/v2";
  record_version = 2;
  opened_at = "4";
  context_baseline = none;
  review_record = some (record {
    kind = reviewed;
    receipt = some (record {
      review_binding = record {
        relationship_id = "r";
        turn_id = "turn";
        reply_sha256 = "go away";
        reply_length = 7;
        remaining = "";
      };
      delivery_disposition = shown;
      verdict = some aligned;
      remaining = "";
    });
    remaining = "";
  });
  delivery_disposition = some shown;
  delivery_exception = none;
  processing_plan = none;
  processing_outcomes = [];
  completed_at = some "5";
  abandoned_at = none;
  abandonment_reason = none;
}

abbrev event : RelationshipEvent
event = record { event_id = "e1"; relationship_id = "r"; references = some ("e1" ∷ []) }

abbrev decision : AdjudicationRecord
decision = record {
  receipt = record {
    decision_id = "d1";
    relationship_id = "r";
    source_turn_id = "turn";
    source_revision = "1";
    outcome = accepted;
    evidence =
        record {
          evidence_id = "v1";
          source_id = "turn:agent";
          source_revision = "1";
          role = e_r_i_i.Consequence.Sources.agent;
          quote = "go away";
          message_sha256 = "go away";
          start = 0;
          end = 7;
          occurred_at = some "5";
        }
        ∷ [];
    event_ids = "e1" ∷ [];
  };
  events = event ∷ [];
}

abbrev storage : Storage
storage = record {
  relationships = "r" ∷ [];
  consequences = [];
  links = [];
  turns = ("r", shown_turn ∷ []) ∷ [];
  adjudications = ("r", decision ∷ []) ∷ [];
}

abbrev storage_after : Storage
storage_after = record storage { consequences = ("r", insult ∷ []) ∷ [] }

insult-IsNormal : IsNormalConsequence insult
unfolding make_consequence strip string_eq consequence_kind_eq nat_ord
insult-IsNormal = make_consequence-IsNormal insult_typed refl

insult_again-IsNormal : IsNormalConsequence insult_again
unfolding make_consequence strip string_eq consequence_kind_eq nat_ord
insult_again-IsNormal = make_consequence-IsNormal insult_again refl

apology-IsNormal : IsNormalLink apology
unfolding make_link strip string_eq tension_outcome_eq
apology-IsNormal = make_link-IsNormal apology refl

make_consequence_iff-IsBuilt_example :
    (make_consequence insult_typed ≡ ok insult) ↔ IsBuilt insult_typed insult
make_consequence_iff-IsBuilt_example = make_consequence_iff-IsBuilt insult_typed insult

project_iff_IsConsistent_example :
    (project (insult ∷ insult_again ∷ []) (apology ∷ [])
      ≡ ok (projections_of (insult ∷ insult_again ∷ []) (apology ∷ [])))
    ↔ (IsConsistent (insult ∷ insult_again ∷ []) (apology ∷ [])
        × (projections_of (insult ∷ insult_again ∷ []) (apology ∷ [])
            ≡ projections_of (insult ∷ insult_again ∷ []) (apology ∷ [])))
project_iff_IsConsistent_example =
    project_iff_IsConsistent (insult ∷ insult_again ∷ []) (apology ∷ [])
      (projections_of (insult ∷ insult_again ∷ []) (apology ∷ []))
      (insult-IsNormal, (insult_again-IsNormal, tt)) (apology-IsNormal, tt)

project-replay_example :
    project (insult_again ∷ insult ∷ []) (apology ∷ []) ≡ project (insult ∷ []) (apology ∷ [])
unfolding string_eq effects_eq same_consequence_payload string_ord pair_ord pair_eq
project-replay_example =
    project-replay (insult ∷ []) (apology ∷ []) insult insult_again (here refl) refl refl

one_link : KeyInjective link_sort_key (apology ∷ [])
one_link a b (here p) (here q) e = rw (p, q)
one_link a b (there m) n e = elim m [ ]
one_link a b (here p) (there n) e = elim n [ ]

two_differ : consequence_sort_key insult ≢ consequence_sort_key insult_again
unfolding string_eq
two_differ e = ne_of_test "10" "20" refl (λ i. (e i).0)

two_consequences : KeyInjective consequence_sort_key (insult ∷ insult_again ∷ [])
two_consequences a b (here p) (here q) e = p ∙ sym q
two_consequences a b (here p) (there (here q)) e =
    absurd (two_differ (ap consequence_sort_key (sym p) ∙ e ∙ ap consequence_sort_key q))
two_consequences a b (there (here p)) (here q) e =
    absurd (two_differ (ap consequence_sort_key (sym q) ∙ sym e ∙ ap consequence_sort_key p))
two_consequences a b (there (here p)) (there (here q)) e = p ∙ sym q
two_consequences a b (there (there m)) n e = elim m [ ]
two_consequences a b (here p) (there (there n)) e = elim n [ ]
two_consequences a b (there (here p)) (there (there n)) e = elim n [ ]

project-perm_example :
    project (insult ∷ insult_again ∷ []) (apology ∷ [])
    ≡ project (insult_again ∷ insult ∷ []) (apology ∷ [])
project-perm_example =
    project-perm (Permᴰ.swap refl refl) (Permᴰ.refl (apology ∷ [])) two_consequences one_link

resolve_accepted_event_source_sound_example :
    IsResolved digest "r" "turn"
      (some "1")
      "d1"
      "e1"
      (shown_turn ∷ [])
      (decision ∷ [])
      (some "turn:agent")
      (record { turn = shown_turn; record_ = decision; event = event })
unfolding resolve_accepted_event_source e_r_i_i.Consequence.Gate.resolve_decision
    e_r_i_i.Consequence.Gate.resolve_turn e_r_i_i.Consequence.Gate.supporting_receipt
    e_r_i_i.Consequence.Gate.the_only e_r_i_i.Consequence.Gate.differs_if_given
    e_r_i_i.Consequence.Gate.final_message e_r_i_i.Consequence.Gate.is_bound
    e_r_i_i.Consequence.Gate.is_supported e_r_i_i.Consequence.Gate.quotes_all string_eq nat_eq
    e_r_i_i.Turn.Types.turn_status_eq option_eq e_r_i_i.Turn.Types.delivery_disposition_eq
    e_r_i_i.Turn.Types.continuity_review_kind_eq e_r_i_i.Consequence.Sources.decision_outcome_eq
    e_r_i_i.Consequence.Sources.source_role_eq native.Mathlib.Decide.ℕ_discrete
resolve_accepted_event_source_sound_example =
    resolve_accepted_event_source_sound digest "r" "turn" (some "1") "d1" "e1" (shown_turn ∷ [])
      (decision ∷ []) (some "turn:agent") refl

validate_journal-IsValidated_example :
    IsValidated digest "r"
      (insult ∷ [])
      (apology ∷ [])
      (shown_turn ∷ [])
      (decision ∷ [])
      (projections_of (insult ∷ []) (apology ∷ []))
unfolding validate_journal e_r_i_i.Consequence.Project.root_all sorted
    e_r_i_i.Consequence.Project.root_consequence lookup e_r_i_i.Consequence.Project.admit_all
    e_r_i_i.Consequence.Project.admit_link e_r_i_i.Consequence.Project.apply_all
    e_r_i_i.Consequence.Project.apply_link insert pair_eq e_r_i_i.Consequence.Project.start_tensions
    map_ok e_r_i_i.Consequence.Project.project_one e_r_i_i.Consequence.Validate.make_projection
    consequence_kind_eq tension_outcome_eq e_r_i_i.Consequence.Journal.consequence_by_id
    e_r_i_i.Consequence.Journal.has_role e_r_i_i.Consequence.Journal.references_event
    e_r_i_i.Consequence.Journal.validate_consequences e_r_i_i.Consequence.Journal.validate_link
    e_r_i_i.Consequence.Journal.validate_links e_r_i_i.Consequence.Project.add_relationship
    e_r_i_i.Consequence.Project.is_terminal e_r_i_i.Consequence.Project.item project effects_eq
    same_consequence_payload e_r_i_i.Consequence.Types.same_link_payload
    e_r_i_i.Consequence.Validate.require_effects e_r_i_i.Consequence.Validate.require_text nat_ord
    pair_ord insort lstrip rstrip string_ord strip text_le resolve_accepted_event_source
    e_r_i_i.Consequence.Gate.resolve_decision e_r_i_i.Consequence.Gate.resolve_turn
    e_r_i_i.Consequence.Gate.supporting_receipt e_r_i_i.Consequence.Gate.the_only
    e_r_i_i.Consequence.Gate.differs_if_given e_r_i_i.Consequence.Gate.final_message
    e_r_i_i.Consequence.Gate.is_bound e_r_i_i.Consequence.Gate.is_supported
    e_r_i_i.Consequence.Gate.quotes_all string_eq nat_eq e_r_i_i.Turn.Types.turn_status_eq option_eq
    e_r_i_i.Turn.Types.delivery_disposition_eq e_r_i_i.Turn.Types.continuity_review_kind_eq
    e_r_i_i.Consequence.Sources.decision_outcome_eq e_r_i_i.Consequence.Sources.source_role_eq
    native.Mathlib.Decide.ℕ_discrete e_r_i_i.Prelude.Distinct.distinct_by
    e_r_i_i.Prelude.Distinct.keep_new
validate_journal-IsValidated_example =
    validate_journal-IsValidated digest "r" (insult ∷ []) (apology ∷ []) (shown_turn ∷ [])
      (decision ∷ []) refl

one_step : Reaches digest digest storage storage_after
unfolding append_consequence e_r_i_i.Consequence.Coordinator.append_consequence_locked
    e_r_i_i.Consequence.Journal.append_relationship_consequence file validate_journal
    e_r_i_i.Consequence.Project.root_all sorted e_r_i_i.Consequence.Project.root_consequence lookup
    e_r_i_i.Consequence.Project.admit_all e_r_i_i.Consequence.Project.admit_link
    e_r_i_i.Consequence.Project.apply_all e_r_i_i.Consequence.Project.apply_link insert pair_eq
    e_r_i_i.Consequence.Project.start_tensions map_ok e_r_i_i.Consequence.Project.project_one
    e_r_i_i.Consequence.Validate.make_projection consequence_kind_eq tension_outcome_eq
    e_r_i_i.Consequence.Journal.consequence_by_id e_r_i_i.Consequence.Journal.has_role
    e_r_i_i.Consequence.Journal.references_event e_r_i_i.Consequence.Journal.validate_consequences
    e_r_i_i.Consequence.Journal.validate_link e_r_i_i.Consequence.Journal.validate_links
    e_r_i_i.Consequence.Project.add_relationship e_r_i_i.Consequence.Project.is_terminal
    e_r_i_i.Consequence.Project.item project effects_eq same_consequence_payload
    e_r_i_i.Consequence.Types.same_link_payload e_r_i_i.Consequence.Validate.require_effects
    e_r_i_i.Consequence.Validate.require_text nat_ord pair_ord insort lstrip rstrip string_ord strip
    text_le resolve_accepted_event_source e_r_i_i.Consequence.Gate.resolve_decision
    e_r_i_i.Consequence.Gate.resolve_turn e_r_i_i.Consequence.Gate.supporting_receipt
    e_r_i_i.Consequence.Gate.the_only e_r_i_i.Consequence.Gate.differs_if_given
    e_r_i_i.Consequence.Gate.final_message e_r_i_i.Consequence.Gate.is_bound
    e_r_i_i.Consequence.Gate.is_supported e_r_i_i.Consequence.Gate.quotes_all string_eq nat_eq
    e_r_i_i.Turn.Types.turn_status_eq option_eq e_r_i_i.Turn.Types.delivery_disposition_eq
    e_r_i_i.Turn.Types.continuity_review_kind_eq e_r_i_i.Consequence.Sources.decision_outcome_eq
    e_r_i_i.Consequence.Sources.source_role_eq native.Mathlib.Decide.ℕ_discrete
one_step =
    next start (appends_consequence {s = storage} {s' = storage_after} "r" insult insult refl)

insult-Has : Has insult (list_relationship_consequences storage_after "r")
unfolding file lookup string_eq
insult-Has = here refl

Reaches-IsShown_example : IsShown digest digest storage_after "r" insult
Reaches-IsShown_example = Reaches-IsShown digest digest one_step (refl, refl) "r" insult insult-Has

Reaches-projects_example :
    (ps : List NarrativeTensionProjection) × (project_stored storage_after "r" ≡ ok ps)
Reaches-projects_example = Reaches-projects digest digest one_step (refl, refl) "r"
