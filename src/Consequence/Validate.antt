-- ===== src/Consequence/Validate.antt =====
-- The `__post_init__` checks of erii/models/consequence.py, which every record passes when it is
-- built: texts are stripped and not empty, effects are distinct and in the order of the enumeration.
use e_r_i_i.Prelude.{ℕ, String, List, ◌&&◌, not}
use e_r_i_i.Prelude.Equality.{◌==◌, string_eq, if◌then◌else◌}
use e_r_i_i.Prelude.Lists.{is_empty, has_duplicates}
use e_r_i_i.Prelude.Order.{nat_ord}
use e_r_i_i.Prelude.Result.{ok, err, ◌>>=◌, ◌>>◌, raise_if, map_ok}
use e_r_i_i.Prelude.Sort.{sorted}
use e_r_i_i.Prelude.Text.{strip}
use e_r_i_i.Consequence.Types.{
  RelationshipConsequenceKind, harm, comfort, refusal, anger, boundary_expression, trust_decrease,
  temporary_distance, relationship_end, repair_attempt, repair_refused, conflict,
  RelationshipConsequence, NarrativeTensionLink, NarrativeTensionProjection, unaddressed, Checked,
  blank_text, no_effects, duplicate_effects, link_unaddressed, duplicate_link_ids,
  outcome_without_links, unaddressed_with_links, consequence_kind_eq, tension_outcome_eq,
}

-- `_require_text`
unfoldable pub require_text : String → String → Checked String
unfolding strip
require_text value field_name =
    if strip value == "" then err (blank_text field_name) else ok (strip value)

-- the place of a kind in its enumeration
unfoldable pub effect_order : RelationshipConsequenceKind → ℕ
effect_order harm = 0
effect_order comfort = 1
effect_order refusal = 2
effect_order anger = 3
effect_order boundary_expression = 4
effect_order trust_decrease = 5
effect_order temporary_distance = 6
effect_order relationship_end = 7
effect_order repair_attempt = 8
effect_order repair_refused = 9
effect_order conflict = 10

-- the checks on `effects`, which two of the records share
unfoldable pub require_effects :
    List RelationshipConsequenceKind → Checked (List RelationshipConsequenceKind)
unfolding effect_order sorted
require_effects effects = do
  raise_if (is_empty effects) no_effects
  raise_if (has_duplicates effects) duplicate_effects
  ok (sorted effect_order effects)

-- `RelationshipConsequence.__post_init__`
unfoldable pub make_consequence : RelationshipConsequence → Checked RelationshipConsequence
unfolding require_text require_effects
make_consequence c = do
  consequence_id ← require_text c.consequence_id "consequence_id"
  relationship_id ← require_text c.relationship_id "relationship_id"
  tension_id ← require_text c.tension_id "tension_id"
  source_turn_id ← require_text c.source_turn_id "source_turn_id"
  source_revision ← require_text c.source_revision "source_revision"
  source_decision_id ← require_text c.source_decision_id "source_decision_id"
  source_event_id ← require_text c.source_event_id "source_event_id"
  source_message_id ← require_text c.source_message_id "source_message_id"
  summary ← require_text c.summary "summary"
  recorded_at ← require_text c.recorded_at "recorded_at"
  effects ← require_effects c.effects
  ok (record {
    consequence_id = consequence_id;
    relationship_id = relationship_id;
    tension_id = tension_id;
    source_turn_id = source_turn_id;
    source_revision = source_revision;
    source_decision_id = source_decision_id;
    source_event_id = source_event_id;
    source_message_id = source_message_id;
    effects = effects;
    summary = summary;
    recorded_at = recorded_at;
  })

-- `NarrativeTensionLink.__post_init__`
unfoldable pub make_link : NarrativeTensionLink → Checked NarrativeTensionLink
unfolding require_text
make_link l = do
  link_id ← require_text l.link_id "link_id"
  relationship_id ← require_text l.relationship_id "relationship_id"
  tension_id ← require_text l.tension_id "tension_id"
  consequence_id ← require_text l.consequence_id "consequence_id"
  source_turn_id ← require_text l.source_turn_id "source_turn_id"
  source_revision ← require_text l.source_revision "source_revision"
  source_decision_id ← require_text l.source_decision_id "source_decision_id"
  source_event_id ← require_text l.source_event_id "source_event_id"
  summary ← require_text l.summary "summary"
  recorded_at ← require_text l.recorded_at "recorded_at"
  raise_if (l.outcome == unaddressed) link_unaddressed
  ok (record {
    link_id = link_id;
    relationship_id = relationship_id;
    tension_id = tension_id;
    consequence_id = consequence_id;
    source_turn_id = source_turn_id;
    source_revision = source_revision;
    source_decision_id = source_decision_id;
    source_event_id = source_event_id;
    outcome = l.outcome;
    summary = summary;
    recorded_at = recorded_at;
  })

-- `NarrativeTensionProjection.__post_init__`
unfoldable pub make_projection : NarrativeTensionProjection → Checked NarrativeTensionProjection
unfolding require_text require_effects map_ok
make_projection p = do
  relationship_id ← require_text p.relationship_id "relationship_id"
  tension_id ← require_text p.tension_id "tension_id"
  consequence_id ← require_text p.consequence_id "consequence_id"
  source_turn_id ← require_text p.source_turn_id "source_turn_id"
  source_revision ← require_text p.source_revision "source_revision"
  source_decision_id ← require_text p.source_decision_id "source_decision_id"
  source_event_id ← require_text p.source_event_id "source_event_id"
  source_message_id ← require_text p.source_message_id "source_message_id"
  summary ← require_text p.summary "summary"
  effects ← require_effects p.effects
  link_ids ← map_ok (λ i. require_text i "link_ids") p.link_ids
  raise_if (has_duplicates link_ids) duplicate_link_ids
  raise_if (is_empty link_ids && not (p.outcome == unaddressed)) outcome_without_links
  raise_if (not (is_empty link_ids) && p.outcome == unaddressed) unaddressed_with_links
  ok (record {
    relationship_id = relationship_id;
    tension_id = tension_id;
    consequence_id = consequence_id;
    source_turn_id = source_turn_id;
    source_revision = source_revision;
    source_decision_id = source_decision_id;
    source_event_id = source_event_id;
    source_message_id = source_message_id;
    effects = effects;
    outcome = p.outcome;
    summary = summary;
    link_ids = link_ids;
  })
