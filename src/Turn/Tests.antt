-- ===== src/Turn/Tests.antt =====
-- A Turn that is opened, completed, and completed again.
use e_r_i_i.Prelude.{◌≡◌, ◌≢◌, ◌↔◌, ◌⊎◌, refl, ◌+◌, String, [], ◌∷◌, false, none, some, arith}
use e_r_i_i.Prelude.Dict.{lookup, insert}
use e_r_i_i.Prelude.Equality.{string_eq, nat_eq, option_eq, list_eq}
use e_r_i_i.Prelude.Result.{ok}
use e_r_i_i.Prelude.Text.{strip}
use e_r_i_i.Security.{validate_key, IsSafeKey, validate_key_iff-IsSafeKey}
use e_r_i_i.Turn.Types.{
  TurnRecord, TurnStatus, opened, completed, user, agent, shown_unreviewed, not_evaluated,
  turn_status_eq, TurnContextBaseline, memory_archival, pending,
}
use e_r_i_i.Turn.Lifecycle.{Turned}
use e_r_i_i.Turn.Store.{
  create_turn_record, TurnFiles, transition_turn_record, list_turns, find_turn,
}
use e_r_i_i.Turn.Store.Calls.{
  Later, now, created, transitioned, stored_turn, Later-terminal, Later-opening,
}
use e_r_i_i.Turn.Ledger.{complete, get, Completion}
use e_r_i_i.Turn.Store.Filed.{IsFiled, Later-IsFiled}
use e_r_i_i.Turn.Ledger.Winner.{complete-final}

abbrev baseline : TurnContextBaseline
baseline = record {
  relationship_id = "r";
  turn_id = "t";
  manifest = none;
  baseline_fingerprint = "f";
  remaining = "";
}

abbrev open_turn : TurnRecord
open_turn = record {
  turn_id = "t";
  relationship_id = "r";
  status = opened;
  transcript = record {
    user_message = record {
      message_id = "t:user";
      role = user;
      content = "hello";
      recorded_at = "1";
    };
    agent_message = none;
  };
  interaction_context = [];
  source_revision = "1";
  turn_format_version = "turn-record/v2";
  record_version = 1;
  opened_at = "1";
  context_baseline = some baseline;
  review_record = none;
  delivery_disposition = none;
  delivery_exception = none;
  processing_plan = none;
  processing_outcomes = [];
  completed_at = none;
  abandoned_at = none;
  abandonment_reason = none;
}

abbrev completion : Completion
completion = record {
  agent_message = "hi";
  review_record = record { kind = not_evaluated; receipt = none; remaining = "" };
  disposition = shown_unreviewed;
  exception =
      some (record { disposition = shown_unreviewed; reason_code = "host"; remaining = "" });
  channels = memory_archival ∷ [];
}

abbrev completed_turn_record : TurnRecord
completed_turn_record = record open_turn {
  status = completed;
  transcript = record {
    user_message = record {
      message_id = "t:user";
      role = user;
      content = "hello";
      recorded_at = "1";
    };
    agent_message =
        some (record { message_id = "t:agent"; role = agent; content = "hi"; recorded_at = "2" });
  };
  record_version = 2;
  review_record = some (record { kind = not_evaluated; receipt = none; remaining = "" });
  delivery_disposition = some shown_unreviewed;
  delivery_exception =
      some (record { disposition = shown_unreviewed; reason_code = "host"; remaining = "" });
  processing_plan =
      some (record { channels = memory_archival ∷ []; version = "source-processing-plan/v1" });
  processing_outcomes =
      record { channel = memory_archival; state = pending; updated_at = "2" } ∷ [];
  completed_at = some "2";
}

abbrev opened_files : TurnFiles
opened_files = record { relationships = "r" ∷ []; records = ("r", open_turn ∷ []) ∷ [] }

abbrev completed_files : TurnFiles
completed_files = record {
  relationships = "r" ∷ [];
  records = ("r", completed_turn_record ∷ []) ∷ [];
}

one_file :
    (t : TurnRecord)
    → t.turn_id ≡ "t"
    → t.relationship_id ≡ "r"
    → IsFiled (record { relationships = "r" ∷ []; records = ("r", t ∷ []) ∷ [] })
unfolding list_turns find_turn lookup
one_file t e f r k u h = ground arith

complete-final_example :
    (get completed_files "r" " t " ≡ ok completed_turn_record)
    × ((v w : TurnFiles) (authority' : Turned (Unit {0})) (now' : String)
        → complete completed_files v w "r" " t " completion authority' now'
          ≡ ok (completed_files, completed_turn_record))
unfolding complete string_eq lookup e_r_i_i.Turn.Types.continuity_review_kind_eq
    e_r_i_i.Turn.Types.delivery_disposition_eq list_eq
    e_r_i_i.Turn.Types.source_processing_channel_eq e_r_i_i.Turn.Types.turn_record_eq turn_status_eq
    option_eq e_r_i_i.Turn.Types.turn_context_baseline_eq e_r_i_i.Turn.Types.turn_message_eq insert
complete-final_example =
    complete-final opened_files opened_files opened_files "r" " t " completion (ok tt) "2"
      (one_file open_turn refl refl) refl now

completes_it : Later opened_files completed_files
unfolding transition_turn_record lookup string_eq e_r_i_i.Turn.Types.turn_record_eq turn_status_eq
    nat_eq option_eq e_r_i_i.Turn.Types.turn_context_baseline_eq e_r_i_i.Turn.Types.turn_message_eq
    list_eq insert
completes_it =
    transitioned {t = opened_files} completed_turn_record completed_turn_record opened 1 now refl

-- a second writer records the same Turn with its own times
replays_it : Later completed_files completed_files
unfolding create_turn_record string_eq lookup turn_status_eq option_eq
    e_r_i_i.Turn.Types.turn_context_baseline_eq e_r_i_i.Turn.Types.turn_role_eq
    e_r_i_i.Turn.Types.continuity_review_record_eq e_r_i_i.Turn.Types.delivery_disposition_eq
    e_r_i_i.Turn.Types.delivery_exception_record_eq e_r_i_i.Turn.Types.source_processing_plan_eq
    list_eq e_r_i_i.Prelude.Equality.pair_eq e_r_i_i.Turn.Types.source_processing_channel_eq
    e_r_i_i.Turn.Types.source_processing_state_eq
replays_it =
    created {t = completed_files} {u = completed_files}
      (record completed_turn_record { opened_at = "7"; completed_at = some "8" })
      completed_turn_record now refl

Later-terminal_example : stored_turn completed_files "r" "t" ≡ some completed_turn_record
unfolding list_turns find_turn lookup string_eq
Later-terminal_example =
    Later-terminal {s = completed_files} {u = completed_files} "r" "t" completed_turn_record
      replays_it refl (λ e. ground arith)

Later-opening_example :
    (v : TurnRecord) × (stored_turn completed_files "r" "t" ≡ some v)
    × (v.turn_id ≡ "t")
    × (v.relationship_id ≡ "r")
    × (v.source_revision ≡ "1")
    × (v.opened_at ≡ "1")
    × (v.context_baseline ≡ some baseline)
    × (v.transcript.user_message ≡ open_turn.transcript.user_message)
    × (v.interaction_context ≡ [])
    × ((v ≡ open_turn) ⊎ ((opened ≡ opened) × (v.status ≢ opened) × (v.record_version ≡ 1 + 1)))
unfolding list_turns find_turn lookup string_eq
Later-opening_example = Later-opening "r" "t" open_turn completes_it refl

validate_key_iff-IsSafeKey_example :
    (validate_key " user_1 " ≡ ok "user_1")
    ↔ (◌≢◌ {A = String} " user_1 " "" × (◌≡◌ {A = String} "user_1" "user_1") × IsSafeKey "user_1")
unfolding strip
validate_key_iff-IsSafeKey_example = validate_key_iff-IsSafeKey " user_1 " "user_1"

Later-IsFiled_example : IsFiled completed_files
Later-IsFiled_example = Later-IsFiled completes_it (one_file open_turn refl refl)
