-- ===== src/Lib.antt =====
-- Portcode is a desktop coding agent with a phone companion. This library models Phone Sync, what the
-- desktop lets a paired phone see and do; what the desktop keeps of the events of the Codex app-server;
-- and how it parses what git prints into a review.
--
-- Parts and files. Paths are from the repository's root.
--   Common      lists, tests, signed integers, and Rust text as scalar values with its UTF-8 sizes.
--   Wire        crates/portcode-sync/src/wire.rs and protocol.rs: events, rows, frames and commands.
--   External    what is not in the repository: the regex, sha2 and serde_json crates, as a record of
--               operations, and records of the documented laws that the properties rely on.
--   Scrub       src-tauri/src/scrub.rs: the redaction passes and the two truncations.
--   Tools       src-tauri/src/tool_names.rs: the names of the tools.
--   Public      src-tauri/src/sync/public.rs: the projection of every desktop value to a public one.
--               Bounded, Labels, Activity, Project and Rows hold the pure projections, Frames the frames
--               built within a byte budget, Boundary and Stream the live projector. The other modules
--               below Public hold proofs.
--   Session     crates/portcode-sync/src/session.rs and src-tauri/src/sync/session.rs: catch-up from both
--               ends (Exchange) and the live loops (Loops), over a channel whose answers are written
--               down (Transport). Agreement and Intake hold proofs.
--   Pairing     src-tauri/src/sync/pairing_gate.rs (Gate), the table of paired devices in
--               src-tauri/src/db.rs (Devices), and from src-tauri/src/lib.rs the trust gate of
--               `serve_connection`, `confirm_pairing` and `reject_pairing` (Serve). The other modules
--               hold proofs; Steps has the step relation of the shared state.
--   Framing     crates/portcode-sync/src/transport_native.rs: `write_framed` and `read_framed` on streams of
--               bytes. RoundTrip and Refusals hold proofs.
--   Hub         src-tauri/src/sync/mod.rs: `SyncHub`, which mirrors live events to the phones. Mirror holds
--               proofs.
--   Codex       src-tauri/src/codex_engine.rs: the deferred queues of events (Queue and Waiting) and the
--               sanitizer of their parameters (Sanitize, Nodes and Params) on JSON values (Json). The
--               rest holds proofs: Room, Enqueue and Protection of one queue, Trim and Bounds of
--               all queues, Secrets and Redaction, Shape and Walk of the sanitizer. Items
--               reads the items of the app-server, Turns projects a turn into blocks, and Policy has what
--               a mode of src-tauri/src/permissions.rs asks of the app-server. No property is about
--               these three.
--   Review      src-tauri/src/git_review.rs: the types of a review (Types) and the parsers of status
--               records (Records), of changes and counts (Changes), of unified patches (Patch), and the
--               quoted paths (Quote), on Rust's readers of text (Text). The other modules hold proofs:
--               Headers, Numbering, Anchors and Reference of patches, the others of their names.
--   Remote      src-tauri/src/sync/server.rs: the handler of a phone's commands (Handler), with the rows of
--               src-tauri/src/db.rs that it reads (Messages and State). Answers,
--               Creates, Newest and Pages hold proofs.
--   Tests       inputs at which the properties are applied, and runs.
--
-- A desktop value reaches the phone by one way: `project_event` for live events, `project_message` and
-- `project_session` for rows; all of them cut text by `bounded_public_text`, which redacts first. The
-- live projector `PhoneEventProjector` holds text deltas back until they can be cut safely; its state is
-- a map from public session identifiers to held texts, and every operation takes and returns it.
--
-- A connection of a phone passes the pairing gate first: `connect` serves a confirmed device, prompts
-- inside an open window, and drops the rest. `await_decision` then waits for the user. A peer that is let
-- through gets the catch-up of `serve_catch_up`, and the loops `forward_live` and `handle_commands` run
-- until one ends. Tasks interleave only at the gate and the devices, so the step relation `Step` ranges
-- over the operations of both, and over the parts of `connect` and `confirm_pairing` that take a lock each.
--
-- An event of the Codex app-server is sanitized first, then dispatched; while its thread has no route, it
-- waits in a deferred queue. A queue evicts by its own bounds, the table of queues by those on threads and
-- on the total; both loops run on fuel, the number of events (and threads) and one more, since each round
-- removes one. The order in which a map iterates is the order of the list that stands for it.
--
-- A loop is structural recursion where the code walks a list or an index. `drain_ready_text` and `append_text` run
-- on fuel: the number of characters, and one more, since each round takes a character or stops. A
-- `usize` that the code adds up is bounded by the length of a text in memory, so it is a natural number;
-- the counters of a diff saturate at 32 bits as in the code.
--
-- Not modelled: matching of regular expressions, JSON encoding, cryptography, QUIC, SQLite, child
-- processes and files, and the other parts of the desktop.
pub mod Common
pub mod Remote
pub mod Codex
pub mod Review
pub mod Wire
pub mod External
pub mod Scrub
pub mod Tools
pub mod Public
pub mod Session
pub mod Pairing
pub mod Framing
pub mod Hub
pub mod Tests
