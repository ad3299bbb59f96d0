-- ===== src/Lib.antt =====
-- safecommit-ai: the validation workflow of repository changes, from the selection of a candidate patch
-- to its merge, and the checks that guard it.
--
-- A validation session is one immutable record (`ValidationSession`). An event takes it to another record
-- or throws (`transitionValidationSession`). Before a pull request can be made, a human approves the exact
-- patch, evidence, policy, commit and target; before it can be merged, an independent review passes for
-- the exact head. In live mode the evidence comes from receipts of a fresh sandbox, sealed with a digest.
--
-- Parts and files:
--   Prelude: equality with its Boolean test, list functions, calls that throw (`Result`).
--   Text: JavaScript texts as lists of UTF-16 code units, with the regular expressions of the program as
--     Boolean functions; Text.Encoding has `encodeURIComponent` and the texts of numbers.
--   Runtime: what Node.js provides and the program does not implement, as a record that is a parameter of
--     every definition which uses it: SHA-256, the URL parser and the test of `Date.parse`.
--   Domain.Types, Domain.Session: packages/domain/src/types.ts. An optional property is an `Option`, a
--     union of literals a data type, `sandboxIdsByCandidate` the list of the entries of the object.
--   Regex: the regular expressions that a pattern of the source is written as, and `test`.
--   Sorting: Array.prototype.sort by a test, and that it gives a sorted permutation.
--   Domain.Evidence (Normal, Print): packages/domain/src/evidence.ts. `Js` is any JavaScript value that is
--     a tree, `normalize_json` is normalizeJson, `json_text` is JSON.stringify of its result. Reading reads
--     such a text back; Quoted, Printable, RoundTrip and Binding say which values and what a digest binds.
--   Domain.Selector (Order, Laws, Ranking, Evaluation, Outcome, Best): packages/domain/src/selector.ts. Numbers and
--     collation are the record `Platform`, what the theorems take from them is `PlatformLaws`.
--   Domain.Approval (Validity, Lifecycle, Binding): packages/domain/src/approval.ts.
--   Domain.Revalidation: packages/domain/src/revalidation.ts.
--   Domain.ReviewGate (Blocking): packages/domain/src/review-gate.ts.
--   Domain.Workflow: packages/domain/src/state-machine.ts. Events has the events, EXPECTED_EVENT and the
--     errors; Gates the two gates; Receipts, Refusals, Attempts, Selection and Repair the conditions under
--     which the code throws and the session that an event makes; Outcome createValidationSession;
--     Transition transitionValidationSession. Steps states the accepted transitions as a relation, with
--     the reachable sessions; Soundness and Completeness relate the two. History, Reservations, Approved,
--     Evidence, FreshApproval, WellFormed, Mergeable, Merge, Terminal and Graph prove what follows. Runs
--     has sequences of events.
--   Domain.DatabaseApproval (Lifecycle, Binding): packages/domain/src/database-approval.ts.
--   Orchestrator.EventStore: verifyEventChain and replayEvents of apps/orchestrator/src/event-store.ts. The
--     loop's local variables are `ChainState`; Cases has the switch, Chain the loop, Tournament, Verified
--     and Winner what an accepted chain establishes of the loop's maps, Recorded and Won what the events
--     themselves then say, Sealed and Tampering what the hashes bind, Replay (Faithful, Replayed) the
--     replay. An event has the fields of `StoredEvent`; the source would also hash further members that a
--     decoded line of the log brings along.
--   Orchestrator.RowDelta (Rows, Told, Complete): computeRowDelta of apps/orchestrator/src/row-delta.ts. A Map
--     is the list of its writes; rows are records of scalars, and a table is an own property of its record.
--   SafetyPolicy.DatabaseInvariants (Contract, Evaluation):
--     packages/safety-policy/src/database-invariants.ts.
--   SafetyPolicy.CommandPolicy (Allowed): packages/safety-policy/src/command-policy.ts.
--   SafetyPolicy.PatchIntegrity: packages/safety-policy/src/patch-integrity.ts. Patterns has the regular
--     expressions, Paths the path rules, Lines the header lines, Variables the variables of the loop and
--     the lines that name no file, Files the `---` and `+++` headers. Progress, Turns, Accepted, Relative,
--     Valid, Calls, Content and Unannounced prove what a verdict means.
--   Examples: a concrete platform, a live session that is repaired and merged, a chain of events and a row delta.
--
-- A session's `at` is the last argument of a transition. A message of an error is a constructor.
-- Functions that run on fuel: `digits_from`, for the decimal digits of a number, with more fuel than the
-- number; `repeat_match`, a repetition of a regular expression, with the length of the text, since each
-- round takes a unit; the reader of canonical JSON, for which `size` is shown to be enough. `toLowerCase`
-- is modelled where its result is an ASCII letter.
--
-- Not modelled: the adapters of the providers, the orchestrator's drivers and the web application, which
-- are input and output around these parts; the file of the event store, the
-- snapshots that `createDatabaseStateSnapshot` makes and the SQL plan policy.
pub mod Prelude
pub mod Text
pub mod Regex
pub mod Sorting
pub mod Runtime
pub mod Domain
pub mod SafetyPolicy
pub mod Orchestrator
pub mod Examples
