-- ===== src/Turn/Ledger.antt =====
-- `TurnLedger` of erii/core/turn_ledger.py: `complete` and `abandon`. A call reads the Turn, then
-- transitions it, and, when another process was faster, reads it again. Each of the three storage
-- calls works on the files as they are then: `seen`, `current` and `after`.
--
-- `complete` is modelled from the point where the review record has been built, and `authority` stands
-- for the checks of `transition_reviewed_turn_record` that precede the transition of a reviewed Turn;
-- without a review result it is `ok tt`.
pub mod Winner
use Prim.Native.String as Text
use e_r_i_i.Prelude.{
  ◌≡◌, ℕ, ◌+◌, String, List, [], ◌∷◌, map, Bool, true, false, ◌&&◌, Option, none, some,
}
use e_r_i_i.Prelude.Equality.{◌==◌, string_eq, option_eq, list_eq, if◌then◌else◌}
use e_r_i_i.Prelude.Lists.{has_duplicates}
use e_r_i_i.Prelude.Result.{Result, ok, err, ◌>>=◌, ◌>>◌, raise_if}
use e_r_i_i.Security.{validate_key}
use e_r_i_i.Turn.Types.{
  TurnRecord, TurnStatus, opened, completed, abandoned, TurnMessage, agent, SourceTranscript,
  SourceProcessingChannel, SourceProcessingPlan, SourceProcessingOutcome, pending,
  ContinuityReviewRecord, DeliveryDisposition, DeliveryExceptionRecord, turn_status_eq,
  source_processing_channel_eq, continuity_review_record_eq, delivery_disposition_eq,
  delivery_exception_record_eq,
}
use e_r_i_i.Turn.Lifecycle.{
  Turned, TurnError, turn_terminal_conflict, duplicate_channels, invalid_key, check_text, make_turn,
  same_reply, reply_of,
}
use e_r_i_i.Turn.Store.{TurnFiles, get_turn_record, transition_turn_record}

-- `get`
unfoldable pub get : TurnFiles → String → String → Turned TurnRecord
unfolding validate_key get_turn_record
get s relationship_id turn_id = elim (validate_key turn_id) [
  | err e ↦ err invalid_key
  | ok key ↦ get_turn_record s relationship_id key
]

-- `except TurnTerminalConflictError`
unfoldable pub is_conflict : TurnError → Bool
is_conflict turn_terminal_conflict = true
is_conflict _ = false

unfoldable pub on_conflict : {A : Type 0} → Turned A → Turned A → Turned A
unfolding is_conflict
on_conflict (ok a) k = ok a
on_conflict (err e) k = if is_conflict e then k else err e

-- the arguments of a completion
pub record Completion : Type 0 where
  pub agent_message : String
  pub review_record : ContinuityReviewRecord
  pub disposition : DeliveryDisposition
  pub exception : Option DeliveryExceptionRecord
  pub channels : List SourceProcessingChannel

-- the plan is there, with these channels
unfoldable pub has_channels : Option SourceProcessingPlan → List SourceProcessingChannel → Bool
has_channels none channels = false
has_channels (some plan) channels = plan.channels == channels

-- `_same_completion`
unfoldable pub same_completion : TurnRecord → Completion → Bool
unfolding same_reply reply_of has_channels
same_completion t c =
    same_reply (reply_of t) (some c.agent_message)
    && t.review_record == some c.review_record
    && t.delivery_disposition == some c.disposition
    && t.delivery_exception == c.exception
    && has_channels t.processing_plan c.channels

-- `TurnMessage(...)` for the reply
unfoldable pub make_reply : TurnRecord → Completion → String → Turned TurnMessage
unfolding check_text
make_reply t c now = do
  check_text c.agent_message "content"
  check_text now "recorded_at"
  ok (record {
    message_id = Text.◌++◌ t.turn_id ":agent";
    role = agent;
    content = c.agent_message;
    recorded_at = now;
  })

-- `replace(existing, status=COMPLETED, ...)`
abbrev pub completion_of : TurnRecord → Completion → TurnMessage → TurnRecord
completion_of t c reply = record {
  turn_id = t.turn_id;
  relationship_id = t.relationship_id;
  status = completed;
  transcript = record { user_message = t.transcript.user_message; agent_message = some reply };
  interaction_context = t.interaction_context;
  source_revision = t.source_revision;
  turn_format_version = t.turn_format_version;
  record_version = t.record_version + 1;
  opened_at = t.opened_at;
  context_baseline = t.context_baseline;
  review_record = some c.review_record;
  delivery_disposition = some c.disposition;
  delivery_exception = c.exception;
  processing_plan = some (record { channels = c.channels; version = "source-processing-plan/v1" });
  processing_outcomes =
      map (λ channel. record { channel = channel; state = pending; updated_at = reply.recorded_at })
        c.channels;
  completed_at = some reply.recorded_at;
  abandoned_at = t.abandoned_at;
  abandonment_reason = t.abandonment_reason;
}

unfoldable pub completed_turn : TurnRecord → Completion → TurnMessage → Turned TurnRecord
unfolding make_turn
completed_turn t c reply = make_turn (completion_of t c reply)

-- the transition, and what a call does that comes too late
unfoldable pub settle :
    TurnFiles
    → TurnFiles
    → String
    → String
    → TurnRecord
    → ℕ
    → (TurnRecord → Bool)
    → Turned (TurnFiles × TurnRecord)
unfolding get transition_turn_record on_conflict
settle current after relationship_id turn_id t version is_winner =
    on_conflict (transition_turn_record current t opened version) (do
      winner ← get after relationship_id turn_id
      if is_winner winner then ok (after, winner) else err turn_terminal_conflict)

unfoldable pub complete :
    TurnFiles
    → TurnFiles
    → TurnFiles
    → String
    → String
    → Completion
    → Turned (Unit {0})
    → String
    → Turned (TurnFiles × TurnRecord)
unfolding get same_completion make_reply completed_turn settle
complete seen current after relationship_id turn_id c authority now = do
  existing ← get seen relationship_id turn_id
  elim existing.status [
    | completed ↦
        if same_completion existing c then ok (seen, existing) else err turn_terminal_conflict
    | abandoned ↦ err turn_terminal_conflict
    | opened ↦ do
      raise_if (has_duplicates c.channels) duplicate_channels
      reply ← make_reply existing c now
      t ← completed_turn existing c reply
      authority
      settle current after relationship_id turn_id t existing.record_version
          (λ winner. winner.status == completed && same_completion winner c)
  ]

-- `replace(existing, status=ABANDONED, ...)`
unfoldable pub abandoned_turn : TurnRecord → String → String → Turned TurnRecord
unfolding make_turn
abandoned_turn t reason now = make_turn (record {
  turn_id = t.turn_id;
  relationship_id = t.relationship_id;
  status = abandoned;
  transcript = t.transcript;
  interaction_context = t.interaction_context;
  source_revision = t.source_revision;
  turn_format_version = t.turn_format_version;
  record_version = t.record_version + 1;
  opened_at = t.opened_at;
  context_baseline = t.context_baseline;
  review_record = t.review_record;
  delivery_disposition = t.delivery_disposition;
  delivery_exception = t.delivery_exception;
  processing_plan = t.processing_plan;
  processing_outcomes = t.processing_outcomes;
  completed_at = t.completed_at;
  abandoned_at = some now;
  abandonment_reason = some reason;
})

-- the part of `abandon` behind the check of the reason
unfoldable pub abandon_for :
    TurnFiles
    → TurnRecord
    → TurnFiles
    → TurnFiles
    → String
    → String
    → String
    → String
    → Turned (TurnFiles × TurnRecord)
unfolding abandoned_turn settle
abandon_for seen existing current after relationship_id turn_id reason_code now =
    elim existing.status [
      | abandoned ↦
          if existing.abandonment_reason == some reason_code
          then ok (seen, existing)
          else err turn_terminal_conflict
      | completed ↦ err turn_terminal_conflict
      | opened ↦ do
        t ← abandoned_turn existing reason_code now
        settle current after relationship_id turn_id t existing.record_version
            (λ winner. winner.status == abandoned && winner.abandonment_reason == some reason_code)
    ]

-- a bad reason raises after the Turn was found
unfoldable pub abandon :
    TurnFiles
    → TurnFiles
    → TurnFiles
    → String
    → String
    → String
    → String
    → Turned (TurnFiles × TurnRecord)
unfolding get validate_key abandon_for
abandon seen current after relationship_id turn_id reason now = do
  existing ← get seen relationship_id turn_id
  elim (validate_key reason) [
    | err e ↦ err invalid_key
    | ok reason_code ↦
        abandon_for seen existing current after relationship_id turn_id reason_code now
  ]
