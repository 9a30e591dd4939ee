-- ===== src/Lib.antt =====
-- E.R.I.I.: a relationship memory for conversation agents.
--
-- The program keeps, for each relationship of an agent and a user, journals of what was said and what
-- followed from it. This development models six of its parts.
--
-- Turns. A Turn is opened with a user message and terminated once, by the reply that was shown or by
-- an abandonment. erii/models/turn.py is Turn/Types (records) and Turn/Lifecycle (the checks of
-- `TurnRecord.__post_init__`, `same_opening_as`, `same_terminal_payload_as`,
-- `is_terminal_transition_from`). The Turn files of erii/storage/file_storage.py are Turn/Store
-- (`create_turn_record`, `get_turn_record`, `transition_turn_record`). `complete` and `abandon` of
-- erii/core/turn_ledger.py are Turn/Ledger: each reads, transitions and, on a conflict, reads again,
-- with other processes between, so a call takes the files at each of those times. `complete` is
-- modelled from where its review record is built; the checks of a reviewed transition that precede
-- it are an argument. Turn/Store/Terminal, Calls and Filed say what storage calls keep,
-- Turn/Ledger/Winner what a completion may rely on.
--
-- Consequences. An accepted event of a shown Turn can have a consequence, the root of a narrative
-- tension, and later links update the tension. erii/models/consequence.py is Consequence/Types and
-- Consequence/Validate, `NarrativeTensionProjector.project` of erii/core/consequence.py is
-- Consequence/Project, `_resolve_accepted_event_source` is Consequence/Gate over the records of
-- Consequence/Sources, `validate_journal` and the append operations of the storage are
-- Consequence/Journal, and the coordinator's calls are Consequence/Coordinator. Consequence/Spec
-- describes a projection without loops, Consequence/Rounds, Normal and Refines relate the two,
-- Consequence/Built describes what the constructor of a consequence accepts,
-- Consequence/Consistent states what journals must satisfy, and Consequence/Coordinator/Steps is the
-- coordinator as a transition system. The gate reads the Turns and the decisions of the same storage.
--
-- Tasks. erii/core/queue/persistent_queue.py is TaskQueue: its table as a list of rows, one function
-- for each operation. TaskQueue/Invariant and TaskQueue/Order say what holds of them, TaskQueue/Aside and
-- TaskQueue/Backoff when a task that has failed comes back, and TaskQueue/Summary what the summary
-- counts.
--
-- Archival. A completed Turn can be archived: an extractor of the host proposes artifacts, which are
-- frozen in a batch and then published. erii/models/archival.py is Archival/Types (records and the
-- checks of receipts) and Archival/Tombstone (what is left of a compacted record, and in
-- Tombstone/Merge the merge of imported ones). The ledger in erii/storage/file_storage.py is
-- Archival/Store: creation and reading there, claims, renewals and the consumer's lease in
-- Store/Lease, the three writes of a record by the holder of its lease in Store/Publish, compaction
-- and tombstones in Store/Compact; Store/Returned, Compacted, Entombed, Ready and Claims say what the
-- calls have done.
-- erii/core/archival.py is Archival/Coordinator (the records that `submit`, `_extract_and_bind`,
-- `_commit` and `_record_failure` write) and Coordinator/Process (`_process_claimed`). Archival/World
-- is the ledger with the records that workers of any number of processes hold, as a transition system
-- of their calls: its invariant (World/Invariant, Calls, Steps, History), the exclusion of stale
-- workers (World/Exclusive), the artifacts (World/Published) and the state machine that the ledger
-- implements (World/Lifecycle, with Lifecycle/Moves and Lifecycle/Implements). The extraction is an argument; `drain`, `close` and the heartbeat
-- thread are not modelled, and a renewal is a call like any other.
--
-- Budgets. erii/core/budget.py is Budget: the sections of a prompt, cut to their budgets.
--
-- Keys. `validate_key` of erii/security/sanitizer.py is Security; the Turn ledger calls it.
--
-- Prelude has the helpers: dicts as association lists, stable sorting by a key with a total order,
-- results for exceptions, Python's `str.strip` and comparison of texts.
--
-- A Python exception is a value, an operation on files takes and returns the files, and a call that
-- raises returns no files, so it changes none. All loops are over lists and are structural; no fuel
-- is used. Numbers are natural: versions, lengths, attempts and, in the queue and the archival ledger,
-- times and delays of one unit, where the program has floats. `sha256` and `uuid5` are parameters,
-- functions of texts; the current time and fresh identities are arguments. A file is the list of
-- records that it decodes to. SQLite does not fix the order of rows of one `created_at`; here the
-- first inserted comes first.
--
-- Not modelled: decoding from JSON and mappings, reply attempts, the decisions of extractors, recall
-- and temporal signals, adjudication, persona and continuity review, memory packs, the data lifecycle
-- and the SQLite storage. Left out: the server, adapters, renderers, vector stores, evaluation reports
-- and demonstrations, which are glue and I/O.
pub mod Prelude
pub mod Security
pub mod Turn
pub mod TaskQueue
pub mod Consequence
pub mod Archival
pub mod Budget
