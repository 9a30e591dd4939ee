-- ===== src/Archival/Tombstone.antt =====
-- `ArchivalTombstone` of erii/models/archival.py: what is kept of a record when its receipt is
-- compacted, and the merge of imported tombstones.
pub mod Merge
pub mod Laws
use e_r_i_i.Prelude.{
  ℕ, String, Option, none, some, List, [], ◌∷◌, ◌++◌, map, Bool, true, false, ◌||◌, ◌&&◌, not,
}
use e_r_i_i.Prelude.Dict.{Dict, lookup, insert}
use e_r_i_i.Prelude.Equality.{
  ◌==◌, ◌!=◌, option_eq, string_eq, pair_eq, list_eq, ltb, if◌then◌else◌,
}
use e_r_i_i.Prelude.Lists.{any, has_duplicates, is_empty}
use e_r_i_i.Prelude.Order.{pair_ord}
use e_r_i_i.Prelude.Result.{Result, ok, err, raise_if, ◌>>◌, ◌>>=◌}
use e_r_i_i.Prelude.Sort.{sorted}
use e_r_i_i.Prelude.Text.{strip, text_length, string_ord}
use e_r_i_i.Archival.Types.{
  ArchivalArtifactKind, timeline_entry, memory_node, ArchivalArtifactReference, ArchivalTombstone,
  ArchivalRecord, ArchivalError, conflict_error, value_error, artifacts_committed, is_terminal,
  archival_status_eq, archival_outcome_code_eq, archival_artifact_kind_eq,
  archival_artifact_reference_eq,
}

-- `_text`
unfoldable pub clean_text : ℕ → String → Result ArchivalError String
clean_text max_length value =
    raise_if (strip value == "" || ltb max_length (text_length (strip value))) value_error
    >> ok (strip value)

abbrev kind_value : ArchivalArtifactKind → String
kind_value timeline_entry = "timeline_entry"
kind_value memory_node = "memory_node"

-- `fingerprint or ""`
abbrev or_empty : Option String → String
or_empty none = ""
or_empty (some s) = s

abbrev is_missing : Option String → Bool
is_missing none = true
is_missing (some s) = false

abbrev reference_key : ArchivalArtifactReference → String × (String × String)
reference_key a = (kind_value a.kind, (a.artifact_id, or_empty a.artifact_fingerprint))

-- the commitments as they are kept
unfoldable pub normalize_commitments :
    Bool
    → Option (List ArchivalArtifactReference)
    → Result ArchivalError (Option (List ArchivalArtifactReference))
normalize_commitments has_artifacts none = ok none
normalize_commitments has_artifacts (some refs) =
    raise_if (any (λ (a : ArchivalArtifactReference). is_missing a.artifact_fingerprint) refs)
      value_error
    >> raise_if
        (has_duplicates {A = ArchivalArtifactKind × String}
          (map (λ (a : ArchivalArtifactReference). (a.kind, a.artifact_id)) refs))
        value_error
    >> raise_if (has_artifacts && is_empty refs) value_error
    >> raise_if (not has_artifacts && not (is_empty refs)) value_error
    >> ok (some (sorted reference_key refs))

-- `ArchivalTombstone.__post_init__`
unfoldable pub make_tombstone : ArchivalTombstone → Result ArchivalError ArchivalTombstone
make_tombstone t = do
  _ ← raise_if (not (is_terminal t.status)) value_error
  archival_id ← clean_text 256 t.archival_id
  relationship_id ← clean_text 256 t.relationship_id
  agent_id ← clean_text 256 t.agent_id
  user_id ← clean_text 256 t.user_id
  source_turn_id ← clean_text 256 t.source_turn_id
  source_revision ← clean_text 256 t.source_revision
  terminal_at ← clean_text 256 t.terminal_at
  request_fingerprint ← clean_text 256 t.request_fingerprint
  idempotency_fingerprint ← clean_text 256 t.idempotency_fingerprint
  commitments ← normalize_commitments (t.outcome_code == artifacts_committed) t.artifact_commitments
  ok (record {
    archival_id = archival_id;
    relationship_id = relationship_id;
    agent_id = agent_id;
    user_id = user_id;
    source_turn_id = source_turn_id;
    source_revision = source_revision;
    status = t.status;
    outcome_code = t.outcome_code;
    terminal_at = terminal_at;
    request_fingerprint = request_fingerprint;
    idempotency_fingerprint = idempotency_fingerprint;
    artifact_commitments = commitments;
  })

-- the manifest, if every artifact in it has a fingerprint
unfoldable pub commitments_of :
    Option (List ArchivalArtifactReference) → Option (List ArchivalArtifactReference)
commitments_of none = none
commitments_of (some refs) =
    if any (λ (a : ArchivalArtifactReference). is_missing a.artifact_fingerprint) refs
    then none
    else some refs

-- `completed_at or updated_at`
unfoldable pub terminal_text : ArchivalRecord → String
terminal_text r = elim r.receipt.completed_at [
  | none ↦ r.receipt.updated_at
  | some t ↦ if t == "" then r.receipt.updated_at else t
]

-- `from_record`
unfoldable pub from_record : ArchivalRecord → Result ArchivalError ArchivalTombstone
from_record r =
    raise_if (not (is_terminal r.receipt.status)) value_error >> elim r.receipt.outcome_code [
      | none ↦ err value_error
      | some code ↦ make_tombstone (record {
        archival_id = r.receipt.archival_id;
        relationship_id = r.receipt.relationship_id;
        agent_id = r.receipt.agent_id;
        user_id = r.receipt.user_id;
        source_turn_id = r.receipt.source_turn_id;
        source_revision = r.receipt.source_revision;
        status = r.receipt.status;
        outcome_code = code;
        terminal_at = terminal_text r;
        request_fingerprint = r.request_fingerprint;
        idempotency_fingerprint = r.idempotency_fingerprint;
        artifact_commitments = commitments_of r.receipt.artifact_manifest;
      })
    ]

abbrev pub commitments_agree :
    Option (List ArchivalArtifactReference) → Option (List ArchivalArtifactReference) → Bool
commitments_agree none other = true
commitments_agree (some refs) none = true
commitments_agree (some refs) (some others) = refs == others

-- the loop of `is_compatible_with` over the identity fields
abbrev pub same_identity : ArchivalTombstone → ArchivalTombstone → Bool
same_identity a b =
    a.archival_id == b.archival_id
    && a.relationship_id == b.relationship_id
    && a.agent_id == b.agent_id
    && a.user_id == b.user_id
    && a.source_turn_id == b.source_turn_id
    && a.source_revision == b.source_revision
    && a.status == b.status
    && a.outcome_code == b.outcome_code
    && a.terminal_at == b.terminal_at
    && a.request_fingerprint == b.request_fingerprint
    && a.idempotency_fingerprint == b.idempotency_fingerprint

-- `is_compatible_with`
unfoldable pub is_compatible_with : ArchivalTombstone → ArchivalTombstone → Bool
is_compatible_with a b =
    same_identity a b && commitments_agree a.artifact_commitments b.artifact_commitments

-- the second has commitments and the first has none
unfoldable pub is_stronger : ArchivalTombstone → ArchivalTombstone → Bool
is_stronger a b = a.artifact_commitments == none && b.artifact_commitments != none

-- `prefer_stronger_commitment`
unfoldable pub prefer_stronger_commitment :
    ArchivalTombstone → ArchivalTombstone → Result ArchivalError ArchivalTombstone
prefer_stronger_commitment a b =
    if is_compatible_with a b then if is_stronger a b then ok b else ok a else err conflict_error
