-- ===== src/Consequence/Spec.antt =====
-- What a projection says, described without the loops of the code: the first record of each
-- identity counts, in the order of recording, and a tension stands where its last link left it.
use e_r_i_i.Prelude.{String, List, [], ◌∷◌, map}
use e_r_i_i.Prelude.Distinct.{distinct_by}
use e_r_i_i.Prelude.Equality.{◌==◌, pair_eq, string_eq}
use e_r_i_i.Prelude.Lists.{filter}
use e_r_i_i.Prelude.Order.{pair_ord}
use e_r_i_i.Prelude.Sort.{sorted}
use e_r_i_i.Prelude.Text.{string_ord}
use e_r_i_i.Consequence.Types.{
  RelationshipConsequence, NarrativeTensionLink, NarrativeTensionProjection,
  NarrativeTensionOutcome, unaddressed,
}
use e_r_i_i.Consequence.Project.{
  Key, consequence_key, link_key, target_key, consequence_sort_key, link_sort_key,
}

-- the consequences that count, and the links that count
abbrev pub roots_of : List RelationshipConsequence → List RelationshipConsequence
roots_of cs = distinct_by consequence_key [] (sorted consequence_sort_key cs)

abbrev pub updates_of : List NarrativeTensionLink → List NarrativeTensionLink
updates_of ls = distinct_by link_key [] (sorted link_sort_key ls)

-- the links of one consequence
abbrev pub links_for : Key → List NarrativeTensionLink → List NarrativeTensionLink
links_for k = filter (λ l. k == target_key l)

abbrev pub last_outcome :
    NarrativeTensionOutcome → List NarrativeTensionLink → NarrativeTensionOutcome
last_outcome o [] = o
last_outcome o (l ∷ ls) = last_outcome l.outcome ls

abbrev pub last_summary : String → List NarrativeTensionLink → String
last_summary s [] = s
last_summary s (l ∷ ls) = last_summary l.summary ls

abbrev pub link_ids_of : List NarrativeTensionLink → List String
link_ids_of ls = map (λ l. l.link_id) ls

abbrev pub projection_of :
    List NarrativeTensionLink → RelationshipConsequence → NarrativeTensionProjection
projection_of updates c = record {
  relationship_id = c.relationship_id;
  tension_id = c.tension_id;
  consequence_id = c.consequence_id;
  source_turn_id = c.source_turn_id;
  source_revision = c.source_revision;
  source_decision_id = c.source_decision_id;
  source_event_id = c.source_event_id;
  source_message_id = c.source_message_id;
  effects = c.effects;
  outcome = last_outcome unaddressed (links_for (consequence_key c) updates);
  summary = last_summary c.summary (links_for (consequence_key c) updates);
  link_ids = link_ids_of (links_for (consequence_key c) updates);
}

abbrev pub projections_of :
    List RelationshipConsequence → List NarrativeTensionLink → List NarrativeTensionProjection
projections_of cs ls = map (projection_of (updates_of ls)) (roots_of cs)
