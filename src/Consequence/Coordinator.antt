-- ===== src/Consequence/Coordinator.antt =====
-- `RelationshipConsequenceCoordinator` of erii/core/consequence.py. Each call runs under
-- `relationship_processing_guard`, so a call is one step on the storage; a call that raises leaves the
-- storage as it was. `uuid5` is `str(uuid.uuid5(NAMESPACE_URL, name))`, `now` is `utc_now()`.
pub mod Valid
pub mod Steps
use Prim.Native.String as Text
use e_r_i_i.Prelude.{◌≡◌, String, List, [], ◌∷◌, ◌++◌, Bool, true, false, not, Option, none, some}
use e_r_i_i.Prelude.Equality.{◌==◌, string_eq, if◌then◌else◌}
use e_r_i_i.Prelude.Lists.{filter, find?}
use e_r_i_i.Prelude.Result.{ok, err, ◌>>=◌, ◌>>◌, raise_if}
use e_r_i_i.Turn.Types.{TurnRecord, TurnMessage}
use e_r_i_i.Consequence.Sources.{AdjudicationRecord}
use e_r_i_i.Consequence.Types.{
  RelationshipConsequence, RelationshipConsequenceKind, NarrativeTensionLink,
  NarrativeTensionOutcome, NarrativeTensionProjection, Checked, same_consequence_payload,
  same_link_payload, persisted_differs, ambiguous_consequence, source_turn_missing,
}
use e_r_i_i.Consequence.Gate.{the_only, final_message, resolve_accepted_event_source}
use e_r_i_i.Consequence.Journal.{
  Storage, validate_journal, append_relationship_consequence, append_narrative_tension_link,
  list_relationship_consequences, list_narrative_tension_links, list_turn_records,
  list_relationship_adjudications, file,
}
use e_r_i_i.Consequence.Project.{project}
use e_r_i_i.Consequence.Validate.{make_consequence, make_link}

-- `given or fallback`
unfoldable pub text_or : Option String → String → String
text_or none fallback = fallback
text_or (some given) fallback = if given == "" then fallback else given

-- the texts joined by `:`
joined : List String → String
joined [] = ""
joined (s ∷ []) = s
joined (s ∷ t ∷ ss) = Text.◌++◌ s (Text.◌++◌ ":" (joined (t ∷ ss)))

-- the arguments of `record_consequence`
pub record ConsequenceRequest : Type 0 where
  pub source_turn_id : String
  pub source_decision_id : String
  pub source_event_id : String
  pub effects : List RelationshipConsequenceKind
  pub summary : String
  pub consequence_id : Option String
  pub tension_id : Option String
  pub recorded_at : Option String

-- the arguments of `record_tension_link`
pub record LinkRequest : Type 0 where
  pub consequence_id : String
  pub source_turn_id : String
  pub source_decision_id : String
  pub source_event_id : String
  pub outcome : NarrativeTensionOutcome
  pub summary : String
  pub link_id : Option String
  pub recorded_at : Option String

module _ (sha256 : String → String) where
  -- `_append_consequence_locked`, on the journals read before
  unfoldable pub append_consequence_locked :
      Storage
      → String
      → RelationshipConsequence
      → List TurnRecord
      → List AdjudicationRecord
      → Checked (Storage × RelationshipConsequence)
  unfolding validate_journal append_relationship_consequence file
  append_consequence_locked s relationship_id c turns adjudications = do
    checked ←
        validate_journal sha256 relationship_id
          (list_relationship_consequences s relationship_id ++ (c ∷ []))
          (list_narrative_tension_links s relationship_id) turns adjudications
    (s', stored) ← append_relationship_consequence s c
    raise_if (not (same_consequence_payload stored c)) persisted_differs
    ok (s', stored)

  unfoldable pub append_consequence :
      Storage → String → RelationshipConsequence → Checked (Storage × RelationshipConsequence)
  unfolding append_consequence_locked file
  append_consequence s relationship_id c =
      append_consequence_locked s relationship_id c (list_turn_records s relationship_id)
        (list_relationship_adjudications s relationship_id)

  -- `_append_tension_link_locked`, on the journals read before
  unfoldable pub append_tension_link_locked :
      Storage
      → String
      → NarrativeTensionLink
      → List RelationshipConsequence
      → List TurnRecord
      → List AdjudicationRecord
      → Checked (Storage × NarrativeTensionLink)
  unfolding validate_journal append_narrative_tension_link file
  append_tension_link_locked s relationship_id l consequences turns adjudications = do
    checked ←
        validate_journal sha256 relationship_id consequences
          (list_narrative_tension_links s relationship_id ++ (l ∷ [])) turns adjudications
    (s', stored) ← append_narrative_tension_link s l
    raise_if (not (same_link_payload stored l)) persisted_differs
    ok (s', stored)

  unfoldable pub append_tension_link :
      Storage → String → NarrativeTensionLink → Checked (Storage × NarrativeTensionLink)
  unfolding append_tension_link_locked file
  append_tension_link s relationship_id l =
      append_tension_link_locked s relationship_id l
        (list_relationship_consequences s relationship_id) (list_turn_records s relationship_id)
        (list_relationship_adjudications s relationship_id)

-- `project` of the coordinator
unfoldable pub project_stored : Storage → String → Checked (List NarrativeTensionProjection)
unfolding project file
project_stored s relationship_id =
    project (list_relationship_consequences s relationship_id)
      (list_narrative_tension_links s relationship_id)

module _ (uuid5 : String → String) where
  unfoldable pub consequence_id : String → String → String → String
  unfolding joined
  consequence_id relationship_id source_decision_id source_event_id = uuid5 (
      joined (
        "erii" ∷ relationship_id ∷ "relationship-consequence" ∷ source_decision_id ∷ source_event_id
        ∷ []))

  unfoldable pub tension_id : String → String → String
  unfolding joined
  tension_id relationship_id consequence =
      uuid5 (joined ("erii" ∷ relationship_id ∷ "narrative-tension" ∷ consequence ∷ []))

  unfoldable pub link_id : String → String → String → String → String
  unfolding joined
  link_id relationship_id tension source_decision_id source_event_id = uuid5 (
      joined (
        "erii" ∷ relationship_id ∷ "narrative-tension-link" ∷ tension ∷ source_decision_id
        ∷ source_event_id ∷ []))

  -- the record that `record_consequence` builds
  unfoldable pub requested_consequence :
      String
      → String
      → ConsequenceRequest
      → TurnRecord
      → TurnMessage
      → Checked RelationshipConsequence
  unfolding make_consequence text_or consequence_id tension_id
  requested_consequence now relationship_id q turn message =
      let stable =
        text_or q.consequence_id
          (consequence_id relationship_id q.source_decision_id q.source_event_id) in
      make_consequence (record {
        consequence_id = stable;
        relationship_id = relationship_id;
        tension_id = text_or q.tension_id (tension_id relationship_id stable);
        source_turn_id = q.source_turn_id;
        source_revision = turn.source_revision;
        source_decision_id = q.source_decision_id;
        source_event_id = q.source_event_id;
        source_message_id = message.message_id;
        effects = q.effects;
        summary = q.summary;
        recorded_at = text_or q.recorded_at now;
      })

  -- the record that `record_tension_link` builds
  unfoldable pub requested_link :
      String
      → String
      → LinkRequest
      → RelationshipConsequence
      → TurnRecord
      → Checked NarrativeTensionLink
  unfolding make_link text_or link_id
  requested_link now relationship_id q c turn = make_link (record {
    link_id =
        text_or q.link_id
          (link_id relationship_id c.tension_id q.source_decision_id q.source_event_id);
    relationship_id = relationship_id;
    tension_id = c.tension_id;
    consequence_id = c.consequence_id;
    source_turn_id = q.source_turn_id;
    source_revision = turn.source_revision;
    source_decision_id = q.source_decision_id;
    source_event_id = q.source_event_id;
    outcome = q.outcome;
    summary = q.summary;
    recorded_at = text_or q.recorded_at now;
  })

-- the first Turn of the identity
unfoldable pub source_turn : List TurnRecord → String → Checked TurnRecord
source_turn turns source_turn_id = elim (find? (λ item. item.turn_id == source_turn_id) turns) [
  | none ↦ err source_turn_missing
  | some turn ↦ ok turn
]

module _ (sha256 : String → String) (uuid5 : String → String) where
  unfoldable pub record_consequence :
      Storage → String → String → ConsequenceRequest → Checked (Storage × RelationshipConsequence)
  unfolding resolve_accepted_event_source final_message requested_consequence
      append_consequence_locked file
  record_consequence s now relationship_id q = do
    let turns = list_turn_records s relationship_id
    let adjudications = list_relationship_adjudications s relationship_id
    source ←
        resolve_accepted_event_source sha256 relationship_id q.source_turn_id none
          q.source_decision_id q.source_event_id turns adjudications none
    message ← final_message source.turn.transcript.agent_message
    c ← requested_consequence uuid5 now relationship_id q source.turn message
    append_consequence_locked sha256 s relationship_id c turns adjudications

  unfoldable pub record_tension_link :
      Storage → String → String → LinkRequest → Checked (Storage × NarrativeTensionLink)
  unfolding the_only source_turn requested_link append_tension_link_locked file
  record_tension_link s now relationship_id q = do
    let consequences = list_relationship_consequences s relationship_id
    c ←
        the_only (filter (λ item. item.consequence_id == q.consequence_id) consequences)
          ambiguous_consequence
    let turns = list_turn_records s relationship_id
    turn ← source_turn turns q.source_turn_id
    l ← requested_link uuid5 now relationship_id q c turn
    append_tension_link_locked sha256 s relationship_id l consequences turns
        (list_relationship_adjudications s relationship_id)
