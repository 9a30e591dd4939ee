-- ===== src/Turn/Store.antt =====
-- The Turn files of erii/storage/file_storage.py: one list of records for each relationship, changed
-- under `_turn_guard`, so that each call is one step. A missing file is an empty list, and a file is
-- kept as the records that it decodes to.
pub mod Terminal
pub mod Calls
pub mod Filed
use e_r_i_i.Prelude.{
  ◌≡◌, ℕ, String, List, [], ◌∷◌, ◌++◌, Bool, true, false, ◌&&◌, ◌||◌, not, Option, none, some,
}
use e_r_i_i.Prelude.Dict.{Dict, lookup, insert}
use e_r_i_i.Prelude.Equality.{◌==◌, ◌!=◌, string_eq, nat_eq, contains, if◌then◌else◌}
use e_r_i_i.Prelude.Lists.{find?}
use e_r_i_i.Prelude.Result.{ok, err, ◌>>=◌, ◌>>◌, raise_if}
use e_r_i_i.Turn.Types.{TurnRecord, TurnStatus, opened, turn_status_eq, turn_record_eq}
use e_r_i_i.Turn.Lifecycle.{
  Turned, turn_not_found, turn_conflict, turn_terminal_conflict, unknown_turn_relationship,
  same_opening, same_terminal_payload, is_terminal_transition,
}

pub record TurnFiles : Type 0 where
  pub relationships : List String
  pub records : Dict String (List TurnRecord)

-- `list_turn_records`
unfoldable pub list_turns : TurnFiles → String → List TurnRecord
list_turns s relationship_id = elim (lookup relationship_id s.records) [ none ↦ [] | some ts ↦ ts ]

unfoldable pub write_turns : TurnFiles → String → List TurnRecord → TurnFiles
write_turns s relationship_id ts = record {
  relationships = s.relationships;
  records = insert relationship_id ts s.records;
}

-- the record of an identity
unfoldable pub find_turn : List TurnRecord → String → Option TurnRecord
find_turn ts turn_id = find? (λ t. t.turn_id == turn_id) ts

-- `create_turn_record`
unfoldable pub create_turn_record : TurnFiles → TurnRecord → Turned (TurnFiles × TurnRecord)
unfolding list_turns write_turns find_turn same_opening same_terminal_payload
create_turn_record s t = do
  raise_if (not (contains s.relationships t.relationship_id)) unknown_turn_relationship
  elim (find_turn (list_turns s t.relationship_id) t.turn_id) [
    | some existing ↦
        if t.status == opened && same_opening existing t
          || t.status != opened && same_terminal_payload existing t
        then ok (s, existing)
        else err turn_conflict
    | none ↦ ok (write_turns s t.relationship_id (list_turns s t.relationship_id ++ (t ∷ [])), t)
  ]

-- `get_turn_record`
unfoldable pub get_turn_record : TurnFiles → String → String → Turned TurnRecord
unfolding list_turns find_turn
get_turn_record s relationship_id turn_id =
    elim (find_turn (list_turns s relationship_id) turn_id) [
      | none ↦ err turn_not_found
      | some t ↦ ok t
    ]

-- the test on the record that stands in the file
unfoldable pub may_replace : TurnRecord → TurnRecord → TurnStatus → ℕ → Bool
unfolding is_terminal_transition
may_replace t existing expected_status expected_version =
    existing.status == expected_status
    && existing.record_version == expected_version
    && is_terminal_transition t existing

-- the loop of `transition_turn_record`: the list that is written, and the record returned
unfoldable pub replace_turn :
    List TurnRecord → TurnRecord → TurnStatus → ℕ → Turned (List TurnRecord × TurnRecord)
unfolding may_replace
replace_turn [] t expected_status expected_version = err turn_not_found
replace_turn (existing ∷ ts) t expected_status expected_version =
    let rest = replace_turn ts t expected_status expected_version in
    if existing.turn_id != t.turn_id
    then (do (us, stored) ← rest; ok (existing ∷ us, stored))
    else (if existing == t
        then ok (existing ∷ ts, existing)
        else (if may_replace t existing expected_status expected_version
            then ok (t ∷ ts, t)
            else err turn_terminal_conflict))

-- `transition_turn_record`
unfoldable pub transition_turn_record :
    TurnFiles → TurnRecord → TurnStatus → ℕ → Turned (TurnFiles × TurnRecord)
unfolding list_turns write_turns replace_turn
transition_turn_record s t expected_status expected_version = do
  (ts, stored) ← replace_turn (list_turns s t.relationship_id) t expected_status expected_version
  ok (write_turns s t.relationship_id ts, stored)
