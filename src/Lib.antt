-- ===== src/Lib.antt =====
-- Quarters: a model of its core logic, and the theorems about it.
--
-- Quarters keeps named user spaces, each a directory tree with a manifest, in a private store. Spaces
-- can be saved as artifacts (snapshots and templates), rolled back to a snapshot, and carried to another
-- host as authenticated bundles. An MCP server offers the store to clients over a line transport.
--
-- What models what (paths from the repository's root):
-- - Prelude and its children: Boolean tests on numbers, lists, association maps, results, byte strings.
-- - Error: the categories of crates/quarters-core/src/error.rs.
-- - Machine: a process on durable files that can crash, for Rollback and Store.Rename. A run is given a
--   list of Booleans, its fate: false is a crash of the process before the file operation that it meets.
--   An operation that takes place is durable. Its child CrashLogic is a Hoare logic with a crash
--   condition.
-- - Rollback: crates/quarters-core/src/store/artifact/rollback.rs. Model has the marker and the entries
--   of the spaces directory, Disk the file operations as actions on a directory state, Publish the steps
--   of publish_rollback, Recovery those of recover_rollbacks. A run is given a list of Booleans, its
--   fate: false is a crash of the process before the file operation that it meets. An operation that
--   takes place is durable; a file that is created and not yet written holds no marker. CrashLogic is a
--   Hoare logic with a crash condition, in which Steps, PublishSafety, Cleanup, RecoverySafety, Plans,
--   Passes and Settling go through the code in
--   the logic of Machine; States names what a crash can leave, Crash has the results.
--   The model follows one transaction: other spaces and other markers in the directory do not occur,
--   and no other process changes it, which the store's management lock is for.
-- - Bundle: crates/quarters-core/src/store/artifact/bundle/format.rs, with the header of
--   bundle/model.rs, the checks of store/artifact/model.rs, the link resolution of
--   store/lifecycle/walk.rs and the limits of store/lifecycle/policy.rs (all under
--   crates/quarters-core/src). Paths has split_path, ParseState::validate_path (its directories as a
--   stack, the innermost first) and the link targets, Counts the counts, Header the header, Parse the
--   reader and parse_bundle. The MAC and the JSON of the header are parameters without any hypothesis.
--   Bundle.Writer is BundleWriter. Its child Replay says what a list of entries means apart from bytes;
--   Printed has the bytes of an entry, Reads a logic of what the reader makes of given bytes,
--   ReadsEntries and ReadsContent go through the reader with it. There the MAC has 32 bytes.
-- - Discovery: crates/quarters-core/src/discovery. Discovery.antt has the classes of classify.rs, the
--   platform's cache directories being an argument; Report.antt the entries and counts of mod.rs and
--   report.rs with diff; Merge.antt merge of scan.rs; Summary.antt report. A HashMap from keys to entries
--   is an association list, a BTreeMap from selectors a pair of options (PerRoot), and counts saturate
--   at u64::MAX.
-- - Presentation: crates/quarters-core/src/text.rs. A text is the list of its scalar values, and as_bytes
--   its UTF-8.
-- - Names: the ids and names of crates/quarters-core/src/model.rs and store/artifact/model.rs, and the
--   ids in the names of markers, of store/artifact/rollback.rs and store/rename.rs. Randomness is an
--   argument.
-- - Store: Policy is store_policy.rs and store/scan.rs, with the metadata of a path as an argument;
--   Manifest the manifest of a space, of model.rs, with its validation and the manifests that
--   store/create.rs, store/artifact/catalog.rs and store/upgrade.rs write. Rename is store/rename.rs with
--   replace_manifest of store/create.rs: the spaces directory is a function from names to entries, and
--   one rename is followed, with its marker; Places has its three entries over any other entries, States
--   what a crash can leave, Moves, Recovers and Settles go through the code, Runs has the results.
-- - Artifact: the manifest of an artifact with its validation, of store/artifact/model.rs, and the one
--   that execute_artifact of store/artifact/catalog.rs writes; Transfer the header that bundle/export.rs
--   makes of a manifest, and the manifest that bundle/import.rs makes of a header.
-- - Mcp.Admission, Mcp.Family: crates/quarters-mcp/src/lifecycle.rs, each method under its mutex as one
--   function on the state; a session is a sequence of calls.
-- - Mcp.Transport, Mcp.Framing: crates/quarters-mcp/src/transport.rs, the loop of receive turn by turn
--   with the time as an argument, the decoder of a line, and the encoder of a message. The texts of JSON
--   values and the schema of the messages are parameters.
-- - Examples: each theorem at a concrete input, and small tests.
--
-- Bounds and fuel: numbers are natural numbers, with the checks and the saturation of u64 written out
-- where the source has them; lengths of usize are 64 bits wide. The loop over the entries of a bundle
-- runs on one turn more than there are bytes to come, and the loop over the chunks of a file on as many
-- turns as the file has bytes; parse_bundle-Authentic says that this is enough. The writer's loop over
-- the chunks of a file has as many turns as well, which parse_bundle-write_bundle shows to be enough.
-- The digits of a scalar value are at most six.
--
-- Not modelled: reading and writing of files beyond their outcome, the copy into a staging tree, the
-- listing of a directory with several transactions, asynchronous tasks and
-- time-outs, the command line, the walk of discovery over directories, the agent, platform confinement, and packaging.
pub mod Prelude
pub mod Error
pub mod Machine
pub mod Mcp
pub mod Rollback
pub mod Bundle
pub mod Presentation
pub mod Names
pub mod Store
pub mod Artifact
pub mod Discovery
pub mod Examples
