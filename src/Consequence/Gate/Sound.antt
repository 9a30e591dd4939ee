-- ===== src/Consequence/Gate/Sound.antt =====
-- What the source gate lets pass.
use Prim.Native.String.{count}
use e_r_i_i.Prelude.{
  ◌≡◌, refl, ◌∙◌, inl, inr, String, List, [], ◌∷◌, Bool, true, false, ◌&&◌, ◌||◌, not, Option, none,
  some, arith,
}
use e_r_i_i.Prelude.Equality.{
  ◌==◌, ◌!=◌, contains, string_eq, nat_eq, option_eq, Option-cases, Bool-cases,
}
use e_r_i_i.Prelude.Lists.{Has, here, there, filter, any, any-Has, filter-Has, Has-filter}
use e_r_i_i.Prelude.Result.{ok, >>=-eq-ok, raise_if-eq-ok, ok-injective}
use e_r_i_i.Turn.Types.{
  TurnRecord, TurnMessage, completed, shown, ContinuityReviewRecord, ContinuityReviewReceipt,
  reviewed, turn_status_eq, delivery_disposition_eq, continuity_review_kind_eq,
}
use e_r_i_i.Consequence.Sources.{
  AdjudicationRecord, EvidenceReference, RelationshipEvent, agent, accepted, source_role_eq,
  decision_outcome_eq,
}
use e_r_i_i.Consequence.Types.{
  ConsequenceError, source_turn_count, source_revision_differs, source_not_completed,
  source_not_shown, review_not_bound, wrong_message, decision_differs, decision_not_accepted,
  event_not_in_decision, no_exact_evidence, decision_count,
}
use e_r_i_i.Consequence.Gate.{
  AcceptedSource, is_supported, the_only, differs_if_given, supporting_receipt, final_message,
  is_bound, quotes_all, resolve_turn, resolve_decision, resolve_accepted_event_source,
}

the_only-eq-ok :
    {A : Type 0} (xs : List A) (e : ConsequenceError) {x : A} → the_only xs e ≡ ok x → xs ≡ x ∷ []
unfolding the_only
the_only-eq-ok [] e h = cc
the_only-eq-ok (x ∷ []) e h = ground arith
the_only-eq-ok (x ∷ y ∷ ys) e h = cc

-- the one element that passes the test
the_only-filter :
    {A : Type 0} (p : A → Bool) (xs : List A) (e : ConsequenceError) {x : A}
    → the_only (filter p xs) e ≡ ok x
    → Has x xs × (p x ≡ true) × ((y : A) → Has y xs → p y ≡ true → y ≡ x)
the_only-filter p xs e {x} h =
    let q = the_only-eq-ok (filter p xs) e h in
    let (m, t) = filter-Has p xs (rw q (here refl)) in
    (m, t, λ y n u. alone (rw q at (Has-filter p xs n u)))
  where
    alone : {y : _} → Has y (x ∷ []) → y ≡ x
    alone (here f) = f
    alone (there m) = elim m [ ]

-- A completed Turn whose reply was shown, after a review of that reply that supports it.
pub record IsShownTurn (sha256 : String → String) (relationship_id turn_id : String)
    (turns : List TurnRecord) (turn : TurnRecord) (message : TurnMessage) : Type 0 where
  pub among : Has turn turns
  pub identity : (turn.turn_id ≡ turn_id) × (turn.relationship_id ≡ relationship_id)
  pub only :
      (t : TurnRecord)
      → Has t turns
      → t.turn_id ≡ turn_id
      → t.relationship_id ≡ relationship_id
      → t ≡ turn
  pub finished : turn.status ≡ completed
  pub delivered : turn.delivery_disposition ≡ some shown
  pub replied : turn.transcript.agent_message ≡ some message
  pub review : ContinuityReviewRecord
  pub receipt : ContinuityReviewReceipt
  pub has_review : turn.review_record ≡ some review
  pub has_receipt : review.receipt ≡ some receipt
  pub kind : review.kind ≡ reviewed
  pub supported : is_supported receipt.verdict ≡ true
  pub bound_turn :
      (receipt.review_binding.relationship_id ≡ relationship_id)
      × (receipt.review_binding.turn_id ≡ turn_id)
  pub bound_reply :
      (receipt.review_binding.reply_sha256 ≡ sha256 message.content)
      × (receipt.review_binding.reply_length ≡ count message.content)

-- An accepted decision on that Turn, with the event, and with evidence that quotes the whole reply.
pub record IsAcceptedDecision (sha256 : String → String)
    (relationship_id turn_id decision_id event_id : String)
    (adjudications : List AdjudicationRecord) (turn : TurnRecord) (message : TurnMessage)
    (found : AdjudicationRecord) (event : RelationshipEvent) : Type 0 where
  pub among : Has found adjudications
  pub identity :
      (found.receipt.decision_id ≡ decision_id) × (found.receipt.relationship_id ≡ relationship_id)
  pub source :
      (found.receipt.source_turn_id ≡ turn_id)
      × (found.receipt.source_revision ≡ turn.source_revision)
  pub outcome : found.receipt.outcome ≡ accepted
  pub event_among : Has event found.events
  pub event_identity : (event.event_id ≡ event_id) × (event.relationship_id ≡ relationship_id)
  pub listed : contains found.receipt.event_ids event_id ≡ true
  pub evidence : EvidenceReference
  pub evidence_among : Has evidence found.receipt.evidence
  pub by_agent : (evidence.role ≡ agent) × (evidence.source_id ≡ message.message_id)
  pub whole :
      (evidence.quote ≡ message.content)
      × (evidence.start ≡ 0)
      × (evidence.end ≡ count message.content)
      × (evidence.message_sha256 ≡ sha256 message.content)

supporting_receipt-eq-ok :
    (r : Option ContinuityReviewRecord) {receipt : ContinuityReviewReceipt}
    → supporting_receipt r ≡ ok receipt
    → (review : ContinuityReviewRecord) × (r ≡ some review)
      × (review.receipt ≡ some receipt)
      × (review.kind ≡ reviewed)
      × (is_supported receipt.verdict ≡ true)
unfolding supporting_receipt
supporting_receipt-eq-ok none h = cc
supporting_receipt-eq-ok (some review) {receipt} h = elim (Option-cases review.receipt) [
  | inl e ↦ absurd (ground arith)
  | inr (r, e) ↦ elim (Bool-cases (review.kind == reviewed && is_supported r.verdict)) [
    | inr f ↦ absurd (ground arith)
    | inl f ↦
        let q : r ≡ receipt = ground arith in
        (review, refl, e ∙ rw q, ground arith, rw (← q) (ground arith))
  ]
]

final_message-eq-ok :
    (m : Option TurnMessage) {message : TurnMessage}
    → final_message m ≡ ok message
    → m ≡ some message
unfolding final_message
final_message-eq-ok none h = cc
final_message-eq-ok (some m) h = ground arith

module _ (sha256 : String → String) where
  pub resolve_turn_sound :
      (relationship_id turn_id : String) (revision : Option String) (turns : List TurnRecord)
      (expected : Option String) {turn : TurnRecord} {message : TurnMessage}
      → resolve_turn sha256 relationship_id turn_id revision turns expected ≡ ok (turn, message)
      → IsShownTurn sha256 relationship_id turn_id turns turn message
        × (differs_if_given revision turn.source_revision ≡ false)
        × (differs_if_given expected message.message_id ≡ false)
  unfolding resolve_turn is_bound
  resolve_turn_sound rid tid revision turns expected {turn} {message} h =
      let (t, e1, k1) =
        >>=-eq-ok
          (the_only (filter (λ t. t.turn_id == tid && t.relationship_id == rid) turns)
            source_turn_count)
          _ h in
      let (e2, k2) =
        raise_if-eq-ok (differs_if_given revision t.source_revision) source_revision_differs _ k1 in
      let (e3, k3) = raise_if-eq-ok (t.status != completed) source_not_completed _ k2 in
      let (e4, k4) = raise_if-eq-ok (t.delivery_disposition != some shown) source_not_shown _ k3 in
      let (receipt, e5, k5) = >>=-eq-ok (supporting_receipt t.review_record) _ k4 in
      let (m, e6, k6) = >>=-eq-ok (final_message t.transcript.agent_message) _ k5 in
      let (e7, k7) = raise_if-eq-ok (differs_if_given expected m.message_id) wrong_message _ k6 in
      let (e8, k8) =
        raise_if-eq-ok (not (is_bound receipt.review_binding rid tid (sha256 m.content) m))
          review_not_bound _ k7 in
      let q : (t, m) ≡ (turn, message) = ok-injective k8 in
      let pt : t ≡ turn = λ i. (q i).0 in
      let pm : m ≡ message = λ i. (q i).1 in
      let (among, same, only) = the_only-filter _ turns source_turn_count e1 in
      let (review, r1, r2, r3, r4) = supporting_receipt-eq-ok t.review_record e5 in
      rw (← pt) (
        rw (← pm) (
          record {
            among = among;
            identity = ground arith;
            only = λ u n a b. only u n (ground arith);
            finished = ground arith;
            delivered = ground arith;
            replied = final_message-eq-ok t.transcript.agent_message e6;
            review = review;
            receipt = receipt;
            has_review = r1;
            has_receipt = r2;
            kind = r3;
            supported = r4;
            bound_turn = ground arith;
            bound_reply = ground arith;
          },
          e2,
          e7,
        ))

  pub resolve_decision_sound :
      (relationship_id turn_id decision_id event_id : String)
      (adjudications : List AdjudicationRecord) (turn : TurnRecord) (message : TurnMessage)
      {s : AcceptedSource}
      → resolve_decision sha256 relationship_id turn_id decision_id event_id adjudications turn
          message
        ≡ ok s
      → (s.turn ≡ turn)
        × IsAcceptedDecision sha256 relationship_id turn_id decision_id event_id adjudications turn
            message s.record_ s.event
  unfolding resolve_decision quotes_all
  resolve_decision_sound rid tid did eid adjudications turn message {s} h =
      let (r, e1, k1) =
        >>=-eq-ok
          (the_only
            (filter (λ r. r.receipt.decision_id == did && r.receipt.relationship_id == rid)
              adjudications)
            decision_count)
          _ h in
      let (e2, k2) =
        raise_if-eq-ok
          (r.receipt.source_turn_id != tid || r.receipt.source_revision != turn.source_revision)
          decision_differs _ k1 in
      let (e3, k3) = raise_if-eq-ok (r.receipt.outcome != accepted) decision_not_accepted _ k2 in
      let (e, e4, k4) =
        >>=-eq-ok (the_only (filter (λ e. e.event_id == eid) r.events) event_not_in_decision) _
          k3 in
      let (e5, k5) =
        raise_if-eq-ok (not (contains r.receipt.event_ids eid) || e.relationship_id != rid)
          event_not_in_decision _ k4 in
      let quoted = λ (item : EvidenceReference).
        quotes_all item turn.source_revision (sha256 message.content) message in
      let (e6, k6) = raise_if-eq-ok (not (any quoted r.receipt.evidence)) no_exact_evidence _ k5 in
      let (item, among_evidence, exact) = any-Has quoted r.receipt.evidence (ground arith) in
      let q : record { turn = turn; record_ = r; event = e } ≡ s = ok-injective k6 in
      let (among, same, only) = the_only-filter _ adjudications decision_count e1 in
      let (among_events, same_event, only_event) =
        the_only-filter _ r.events event_not_in_decision e4 in
      rw (← q) (
        refl,
        record {
          among = among;
          identity = ground arith;
          source = ground arith;
          outcome = ground arith;
          event_among = among_events;
          event_identity = ground arith;
          listed = ground arith;
          evidence = item;
          evidence_among = among_evidence;
          by_agent = ground arith;
          whole = ground arith;
        },
      )

  -- the Turn, the decision and the message of an accepted source, as the call asked for them
  pub record IsResolved (relationship_id turn_id : String) (revision : Option String)
      (decision_id event_id : String) (turns : List TurnRecord)
      (adjudications : List AdjudicationRecord) (expected : Option String) (s : AcceptedSource)
      : Type 0 where
    pub message : TurnMessage
    pub of_turn : IsShownTurn sha256 relationship_id turn_id turns s.turn message
    pub decided :
        IsAcceptedDecision sha256 relationship_id turn_id decision_id event_id adjudications s.turn
          message s.record_ s.event
    pub same_revision : differs_if_given revision s.turn.source_revision ≡ false
    pub same_reply : differs_if_given expected message.message_id ≡ false

  -- A source that the gate accepts is a completed Turn whose reply was shown after a review of that
  -- reply that supports it, with an accepted decision on that Turn whose evidence quotes the whole
  -- reply and to which the event belongs. No other Turn of the journal has the Turn's identity, its
  -- revision is the one asked for, if one was, and the reply is the message asked for, if one was.
  pub resolve_accepted_event_source_sound :
      (relationship_id turn_id : String) (revision : Option String) (decision_id event_id : String)
      (turns : List TurnRecord) (adjudications : List AdjudicationRecord) (expected : Option String)
      {s : AcceptedSource}
      → resolve_accepted_event_source sha256 relationship_id turn_id revision decision_id event_id
          turns adjudications expected
        ≡ ok s
      → IsResolved relationship_id turn_id revision decision_id event_id turns adjudications
          expected s
  unfolding resolve_accepted_event_source
  resolve_accepted_event_source_sound rid tid revision did eid turns adjudications expected {s} h =
      let ((t, m), e1, k1) = >>=-eq-ok (resolve_turn sha256 rid tid revision turns expected) _ h in
      let (of_turn, e2, e3) = resolve_turn_sound rid tid revision turns expected e1 in
      let (q, decided) = resolve_decision_sound rid tid did eid adjudications t m k1 in
      rw q (record {
        message = m;
        of_turn = of_turn;
        decided = decided;
        same_revision = e2;
        same_reply = e3;
      })
