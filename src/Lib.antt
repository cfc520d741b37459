-- ===== src/Lib.antt =====
-- freenet-migrate: moving an application's state and secrets from the key of an older WASM build to the
-- key of its successor on Freenet. Paths are from the repository's root.
--
-- The parts. A contract's successor probes its predecessors through a driver without I/O
-- (freenet-migrate/src/driver.rs), over the lineage that the build registers
-- (freenet-migrate/src/lineage.rs). A delegate's successor takes its predecessors' secrets: a store
-- imports a set of secrets in two phases between markers (freenet-migrate/src/delegate.rs), and a walk
-- asks one predecessor after the other, newest first, and writes item by item
-- (freenet-migrate/src/delegate_migrate.rs). The journal (freenet-migrate/src/journal.rs) is what the
-- successor stores of which predecessors it has dealt with; two sessions may write it, so every store
-- merges the stored copy in first. A journaled run is the walk with an observer that writes the journal
-- before an import starts. The pointer contract (contracts/pointer-contract/src/lib.rs) keeps one signed
-- record per application, which names the code hash of the current build. At build time the registry
-- (freenet-migrate-build/src/registry.rs) is validated, and a guard (guard.rs) refuses a changed hash
-- whose predecessor is not registered. A successor pointer (freenet-migrate/src/successor.rs) is a signed
-- step to the next generation. An application finds the current build through the pointer resolver
-- (freenet-migrate/src/pointer.rs), which fetches the pointer contract's state and keeps a floor below
-- which no answer takes it.
--
-- The files.
-- Prelude and its children: Boolean tests, lists and numbers under native arithmetic, `u32` as bytes and
--   the order of byte strings (Words), `BTreeMap` on byte strings (Maps), `Result` with its `?`, and
--   panics as `none` (Fault), text literals as their bytes and decimal numbers (Text).
-- Lineage: the two entry types.
-- CarryForward: freenet-migrate/src/contract.rs, the step that merges a predecessor's state into the
--   successor's and checks it, and which predecessors are asked for.
-- Driver: the record `ProbeDriver` and one function per method. A method on `&mut self` returns the new
--   driver. Driver/Ordering: `NewestFirst::from_lineage`, the stable sort as an insertion sort.
--   Driver/Invariant: any sequence of calls. Driver/Pump: `contract_probe` and `migrate_contract`, over
--   a transport that is a function on a world. Driver/Pump/Outcomes: a walk over the candidates for each
--   policy, against which Refinement, Migration and Guarantees set the pump.
-- PointerContract: constants, parameters, record and merge. Params, Records, Field and Merge prove what
--   their names say. PointerContract/Contract: the contract's four entry points; Updates describes
--   `update_state` without its loop flag, and Promise, Order, Winner and Sync stand on that.
-- Journal: entries, bindings, `effective`, `merge_states` and the operations. Journal/Merge: the merge
--   of two states. Journal/Status: `status` and its readings. Journal/Wire: the stored form.
--   Journal/Steps: any sequence of changes to a journal; its children say what the changes keep.
-- Pointer: the floor and the outcomes; Pointer/Order sets the floor against the contract's merge.
--   Pointer/Resolver: the resolver and `resolve_app_pointer`; Resolution describes it without its loop,
--   and Resolution/Evidence is about what stands behind an outcome. The record code of pointer.rs is a
--   copy of the contract's, which stands for it.
-- Registry: rows, decoding, `validate` and lookup. Registry/Guard: the guard. Strings are their bytes.
-- Successor: signing and verifying a successor pointer; Binding and Acceptance are its theorems.
-- Secrets: freenet-migrate/src/delegate.rs, the trait `SecretStore` as a record, markers and their
--   readings, export requests. Secrets/Import: the two imports on one two-phase core. Markers, Export and
--   Mem (the store of the tests) go with the first; Import/Writes and Import/Phases carry the invariant of
--   the write loop, on which Once, Sealed and Completes stand.
-- Migration: freenet-migrate/src/delegate_migrate.rs, the report's rows and the traits of the two sides.
--   Migration/Store: a delegate's own store as the successor. Migration/Walk/Turns and Items: the
--   variables of the walk and of its inner loop; Walk/Visits: the body of the loop as a chain of steps;
--   Migration/Walk: the loop and its entry points. Walk/Visits/Fits, Rules and Visited say what a visit
--   keeps, Report what the report lists, Walk/Stored and its children what stands in the store behind a row.
--   Migration/Journaled: the interface of a journaled successor and `store_merged`. Journaled/Start: how a
--   run gets its journal; Outcomes: what a row is to the journal; Run: the observer and the run; App:
--   `note_app_import_started`. Journaled/Acts, Fresh and Stores, Start/Begins and Run/Kept carry a
--   property of the journal through a run, Run/Recorded is the instance for a recorded import;
--   Run/Flagged is about what is stored before an import, Run/Reported about the report.
-- The files named Examples run the code at concrete inputs.
--
-- Machine integers are numbers; where the source saturates, the model does. `Vec<u8>` and byte arrays
-- are lists of numbers, and a length or a bound that a type gives is a hypothesis where it is used
-- (`IsTyped`, `IsBytes`). Errors are values of the source's error types; an error's text is kept as the
-- value that it prints.
--
-- An `async` function is a function on the state of the two sides: it runs to its end. Where the source
-- calls the two sides one after the other, both states are passed along in that order.
--
-- Fuel. The pump is given one round for each predecessor and one to stop. That is enough: every round
-- takes a candidate off the list. The resolver is given two rounds, a fetch and a stop. The walk over the
-- predecessors of a delegate recurses on its list and needs no fuel.
--
-- Parameters. Ed25519 (`ed25519_dalek`) is a record of functions; `KeepsKeyBytes` says that a key keeps the
-- bytes it was read from. CBOR (`ciborium`) is a record of functions; `RoundTrips` says that what is
-- written reads back; the CBOR of an export is another such pair of functions. `SecretStore` is a record of
-- functions on a world: `IsLawful` says that a write that reports success is read back and that no call
-- changes another key, `ListsKeys` that a listing has only keys under its prefix and, while the store lists
-- fewer keys than the host's cap of 4096, each of those that has a value (at the cap the host leaves keys
-- out). `StoresJournal` says that the journal of a successor is the bytes that it stored last. The two
-- sides of a walk and its observer (`SuccessorSecretsIo`, `PredecessorSecretsIo`, `WalkObserver`) are
-- records of functions too, and so is the text of a `JournalError`. Base58 and blake3 are functions, with
-- no hypothesis. The contract identifier, the transport and the application's operations on its state are
-- functions that the theorems quantify over.
--
-- Not modelled: a run that is cancelled at an await point, the `[[entry]]` form of the registry, code
-- generation, command line tools, the forwarding of `SecretStore` to the host, and the texts of errors.
pub mod Prelude
pub mod Lineage
pub mod CarryForward
pub mod Driver
pub mod Journal
pub mod Migration
pub mod Pointer
pub mod PointerContract
pub mod Registry
pub mod Secrets
pub mod Successor
