-- ===== src/Consequence/Coordinator/Steps.antt =====
-- The coordinator as a transition system over the storage, and what holds of every storage that it
-- can reach from empty journals.
use e_r_i_i.Prelude.{◌≡◌, refl, String, List, [], none, some, arith}
use e_r_i_i.Prelude.Dict.{lookup}
use e_r_i_i.Prelude.Equality.{◌==◌, string_eq}
use e_r_i_i.Prelude.Lists.{Has, filter}
use e_r_i_i.Prelude.Result.{ok, >>=-eq-ok, map_ok}
use e_r_i_i.Turn.Types.{TurnRecord, TurnMessage}
use e_r_i_i.Consequence.Types.{
  RelationshipConsequence, NarrativeTensionLink, NarrativeTensionProjection, ambiguous_consequence,
}
use e_r_i_i.Consequence.Gate.{
  the_only, final_message, resolve_accepted_event_source, differs_if_given,
}
use e_r_i_i.Consequence.Gate.Sound.{
  IsShownTurn, IsAcceptedDecision, resolve_accepted_event_source_sound,
}
use e_r_i_i.Consequence.Journal.{
  Storage, validate_journal, validate_consequences, validate_links, file,
  list_relationship_consequences, list_turn_records, list_relationship_adjudications,
}
use e_r_i_i.Consequence.Journal.Backed.{validate_journal-IsValidated}
use e_r_i_i.Consequence.Coordinator.{
  append_consequence, append_tension_link, record_consequence, record_tension_link,
  ConsequenceRequest, LinkRequest, project_stored, requested_consequence, requested_link,
  source_turn,
}
use e_r_i_i.Consequence.Coordinator.Valid.{
  IsValid, append_consequence-IsValid, append_tension_link-IsValid,
}
use e_r_i_i.Consequence.Project.{project, root_all, admit_all, start_tensions, apply_all}
use e_r_i_i.Prelude.Sort.{sorted}
use e_r_i_i.Consequence.Sources.{AdjudicationRecord, RelationshipEvent}

module _ (sha256 : String → String) (uuid5 : String → String) where
  -- `record_consequence` returns what `append_consequence` returns for the record that it builds.
  record_consequence-append :
      (s : Storage) (now r : String) (q : ConsequenceRequest) {s' : Storage}
      {stored : RelationshipConsequence}
      → record_consequence sha256 uuid5 s now r q ≡ ok (s', stored)
      → (c : RelationshipConsequence) × (append_consequence sha256 s r c ≡ ok (s', stored))
  unfolding record_consequence append_consequence
  record_consequence-append s now r q h =
      let (source, e1, k1) =
        >>=-eq-ok
          (resolve_accepted_event_source sha256 r q.source_turn_id none q.source_decision_id
            q.source_event_id (list_turn_records s r) (list_relationship_adjudications s r) none)
          _ h in
      let (message, e2, k2) = >>=-eq-ok (final_message source.turn.transcript.agent_message) _ k1 in
      let (c, e3, k3) = >>=-eq-ok (requested_consequence uuid5 now r q source.turn message) _ k2 in
      (c, k3)

  record_tension_link-append :
      (s : Storage) (now r : String) (q : LinkRequest) {s' : Storage}
      {stored : NarrativeTensionLink}
      → record_tension_link sha256 uuid5 s now r q ≡ ok (s', stored)
      → (l : NarrativeTensionLink) × (append_tension_link sha256 s r l ≡ ok (s', stored))
  unfolding record_tension_link append_tension_link
  record_tension_link-append s now r q h =
      let (c, e1, k1) =
        >>=-eq-ok
          (the_only
            (filter (λ (item : RelationshipConsequence). item.consequence_id == q.consequence_id)
              (list_relationship_consequences s r))
            ambiguous_consequence)
          _ h in
      let (t, e2, k2) = >>=-eq-ok (source_turn (list_turn_records s r) q.source_turn_id) _ k1 in
      let (l, e3, k3) = >>=-eq-ok (requested_link uuid5 now r q c t) _ k2 in (l, k3)

  -- a call that returns
  pub data Step : Storage → Storage → Type 0 where
    appends_consequence :
        {s s' : Storage} (r : String) (c : RelationshipConsequence)
        (stored : RelationshipConsequence)
        → append_consequence sha256 s r c ≡ ok (s', stored)
        → Step s s'
    appends_link :
        {s s' : Storage} (r : String) (l : NarrativeTensionLink) (stored : NarrativeTensionLink)
        → append_tension_link sha256 s r l ≡ ok (s', stored)
        → Step s s'
    records_consequence :
        {s s' : Storage} (now r : String) (q : ConsequenceRequest)
        (stored : RelationshipConsequence)
        → record_consequence sha256 uuid5 s now r q ≡ ok (s', stored)
        → Step s s'
    records_link :
        {s s' : Storage} (now r : String) (q : LinkRequest) (stored : NarrativeTensionLink)
        → record_tension_link sha256 uuid5 s now r q ≡ ok (s', stored)
        → Step s s'

  Step-IsValid : {s s' : Storage} → Step s s' → IsValid sha256 s → IsValid sha256 s'
  Step-IsValid {s = s} (appends_consequence r c stored e) valid =
      append_consequence-IsValid sha256 s r c e valid
  Step-IsValid {s = s} (appends_link r l stored e) valid =
      append_tension_link-IsValid sha256 s r l e valid
  Step-IsValid {s = s} (records_consequence now r q stored e) valid =
      let (c, f) = record_consequence-append s now r q e in
      append_consequence-IsValid sha256 s r c f valid
  Step-IsValid {s = s} (records_link now r q stored e) valid =
      let (l, f) = record_tension_link-append s now r q e in
      append_tension_link-IsValid sha256 s r l f valid

  -- any number of calls
  pub data Reaches (s : Storage) : Storage → Type 0 where
    start : Reaches s s
    next : {t u : Storage} → Reaches s t → Step t u → Reaches s u

  pub Reaches-IsValid : {s t : Storage} → Reaches s t → IsValid sha256 s → IsValid sha256 t
  Reaches-IsValid start valid = valid
  Reaches-IsValid (next p q) valid = Step-IsValid q (Reaches-IsValid p valid)

  abbrev pub HasNoJournals : Storage → Type 0
  HasNoJournals s = (s.consequences ≡ []) × (s.links ≡ [])

  no_records :
      (r : String) (turns : List TurnRecord) (adjudications : List AdjudicationRecord)
      → validate_journal sha256 r [] [] turns adjudications ≡ ok []
  unfolding validate_journal validate_consequences validate_links project sorted root_all admit_all
      start_tensions apply_all map_ok
  no_records r turns adjudications = refl

  file_nil : {A : Type 0} (r : String) → file {A = A} r [] ≡ []
  unfolding file lookup
  file_nil r = refl

  no_journals-IsValid : (s : Storage) → HasNoJournals s → IsValid sha256 s
  no_journals-IsValid s (p, q) r = (
    [],
    rw (p, q, file_nil {A = RelationshipConsequence} r, file_nil {A = NarrativeTensionLink} r)
        (no_records r (list_turn_records s r) (list_relationship_adjudications s r)),
  )

  -- The consequence has a source: the one completed Turn of its identity, whose reply was shown after
  -- a review that supports it and is the message of the consequence, and an accepted decision on that
  -- Turn that has the event and quotes the whole reply.
  pub record IsShown (t : Storage) (r : String) (c : RelationshipConsequence) : Type 0 where
    pub own : c.relationship_id ≡ r
    pub turn : TurnRecord
    pub message : TurnMessage
    pub of_turn : IsShownTurn sha256 r c.source_turn_id (list_turn_records t r) turn message
    pub revision : c.source_revision ≡ turn.source_revision
    pub reply : c.source_message_id ≡ message.message_id
    pub found : AdjudicationRecord
    pub event : RelationshipEvent
    pub decided :
        IsAcceptedDecision sha256 r c.source_turn_id c.source_decision_id c.source_event_id
          (list_relationship_adjudications t r)
          turn
          message
          found
          event

  -- In every storage that calls of the coordinator reach from empty journals, each consequence stored
  -- for a relationship is of that relationship, and has a source: the one completed Turn of its
  -- identity, whose reply was shown after a review that supports it and is the message of the
  -- consequence, and an accepted decision on that Turn that has the event and quotes the whole reply.
  pub Reaches-IsShown :
      {s t : Storage}
      → Reaches s t
      → HasNoJournals s
      → (r : String) (c : RelationshipConsequence) → Has c (list_relationship_consequences t r)
      → IsShown t r c
  unfolding differs_if_given
  Reaches-IsShown {s = s} {t = t} p empty r c m =
      let (ps, e) = Reaches-IsValid p (no_journals-IsValid s empty) r in
      let v = validate_journal-IsValidated sha256 r _ _ _ _ e in
      let b = v.consequences c m in
      let x =
        resolve_accepted_event_source_sound sha256 r c.source_turn_id (some c.source_revision)
          c.source_decision_id c.source_event_id (list_turn_records t r)
          (list_relationship_adjudications t r) (some c.source_message_id) b.resolved in
      record {
        own = b.own;
        turn = b.source.turn;
        message = x.message;
        of_turn = x.of_turn;
        revision = let e1 = x.same_revision in ground arith;
        reply = let e2 = x.same_reply in ground arith;
        found = b.source.record_;
        event = b.source.event;
        decided = x.decided;
      }

  -- In every storage that calls of the coordinator reach from empty journals, `project` returns.
  pub Reaches-projects :
      {s t : Storage}
      → Reaches s t
      → HasNoJournals s
      → (r : String) → (ps : List NarrativeTensionProjection) × (project_stored t r ≡ ok ps)
  unfolding project_stored
  Reaches-projects {s = s} p empty r =
      let (ps, e) = Reaches-IsValid p (no_journals-IsValid s empty) r in
      let v = validate_journal-IsValidated sha256 r _ _ _ _ e in (ps, v.projected)
