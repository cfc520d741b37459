-- ===== src/Migration/Journaled/Start.antt =====
-- How a journaled run of freenet-migrate/src/delegate_migrate.rs gets its journal: `start_journal`,
-- `begin_migration_journal` and the status with what could not be checked.
pub mod Begins
pub mod Readable
use freenet_migrate.Prelude.{
  ℕ, Bool, true, false, ◌||◌, Option, none, some, List, [], ◌∷◌, ◌++◌, map, Bytes, if◌then◌else◌,
  get,
}
use freenet_migrate.Prelude.Result.{Result, ok, err}
use freenet_migrate.Lineage.{DelegateLineageEntry}
use freenet_migrate.Journal.{
  SecretSelectionPolicy, DelegateKey, JournalEntry, JournalBinding, binding_of, MigrationJournal,
  lineage_key, mark_import_started, merge_stored,
}
use freenet_migrate.Journal.Status.{
  JournalDecodeError, unknown_version, corrupt, JournalStatus, status,
}
use freenet_migrate.Journal.Wire.{Cbor}
use freenet_migrate.Migration.{exact_generation_only, MigrationMarker}
use freenet_migrate.Migration.Journaled.{
  JournaledSuccessorIo, JournalError, successor_failed, load_failed, foreign_version, Act, pure,
  fail, ◌>>=◌, or_fail, says_in_progress, entry_state, is_resolved_without_data, marker_at,
  fresh_journal, decoded, store_merged,
}

pub data Started : Type 0 where
  existing new : MigrationJournal → Started

pub record MarkerChecks : Type 0 where
  pub read : List DelegateKey
  pub unverified : List (DelegateKey × ℕ)

-- The variables of the loop over the predecessors in `start_journal`.
pub record Verified : Type 0 where
  pub journal : MigrationJournal
  pub changed : Bool
  pub checks : MarkerChecks

abbrev lacks : Option JournalEntry → Bool
lacks none = true
lacks (some _) = false

-- `unseen`
unfoldable pub unseen : MigrationJournal → List DelegateLineageEntry → List DelegateLineageEntry
unseen journal [] = []
unseen journal (e ∷ es) =
    if lacks (get e.delegate_key journal) then e ∷ unseen journal es else unseen journal es

-- What an exact marker says of a predecessor that the journal has as resolved without data.
unfoldable pub note_exact :
    DelegateLineageEntry → Result Bytes (Option MigrationMarker) → Verified → Verified
note_exact e (ok marker) v =
    let read' = v.checks.read ++ lineage_key e ∷ [] in
    if says_in_progress marker
    then record {
      journal = (mark_import_started v.journal (lineage_key e) e.generation).0;
      changed = v.changed || (mark_import_started v.journal (lineage_key e) e.generation).1;
      checks = record (v.checks) { read = read' };
    }
    else record v { checks = record (v.checks) { read = read' } }
note_exact e (err x) v = record v {
  checks = record (v.checks) {
    unverified = v.checks.unverified ++ (lineage_key e, e.generation) ∷ [];
  };
}

module _ {W : Type 0} (cbor : Cbor) (succ : JournaledSuccessorIo W)
    (policy : SecretSelectionPolicy) where
  noted : DelegateLineageEntry → Verified → W × Result Bytes (Option MigrationMarker) → W × Verified
  unfolding note_exact
  noted e v (s, r) = (s, note_exact e r v)

  verify_one : DelegateLineageEntry → Verified → W → W × Verified
  unfolding noted
  verify_one e v s =
      if is_resolved_without_data (entry_state v.journal (lineage_key e))
      then noted e v (marker_at succ policy (lineage_key e) e.generation exact_generation_only s)
      else (s, v)

  unfoldable pub verify : List DelegateLineageEntry → Verified → W → W × Verified
  unfolding verify_one
  verify [] v s = (s, v)
  verify (e ∷ es) v s = let (s', v') = verify_one e v s in verify es v' s'

  abbrev started_as : Bool → MigrationJournal → Started
  started_as true journal = new journal
  started_as false journal = existing journal

  -- From `unseen` on.
  seed_unseen :
      JournalBinding → Verified → List DelegateLineageEntry → Act W (Started × MarkerChecks)
  seed_unseen binding v [] = pure (started_as v.changed v.journal, v.checks)
  seed_unseen binding v (e ∷ es) = do
    seeded ← fresh_journal succ policy (e ∷ es)
    pure (
      new (merge_stored seeded v.journal (some binding)),
      record (v.checks) { read = v.checks.read ++ map lineage_key (e ∷ es) },
    )

  abbrev unchecked : MigrationJournal → Verified
  unchecked journal = record {
    journal = journal;
    changed = false;
    checks = record { read = []; unverified = [] };
  }

  resume :
      List DelegateLineageEntry → JournalBinding → MigrationJournal → Act W (Started × MarkerChecks)
  unfolding verify seed_unseen unseen
  resume predecessors binding journal s =
      let (s', v) = verify predecessors (unchecked journal) s in
      seed_unseen binding v (unseen v.journal predecessors) s'

  start_fresh : List DelegateLineageEntry → Act W (Started × MarkerChecks)
  start_fresh predecessors = do
    journal ← fresh_journal succ policy predecessors
    pure (new journal, record { read = map lineage_key predecessors; unverified = [] })

  start_from :
      List DelegateLineageEntry
      → JournalBinding
      → Option (Result JournalDecodeError MigrationJournal)
      → Act W (Started × MarkerChecks)
  unfolding resume start_fresh
  start_from predecessors binding none = start_fresh predecessors
  start_from predecessors binding (some (ok journal)) = resume predecessors binding journal
  start_from predecessors binding (some (err (unknown_version v))) = fail (foreign_version v)
  start_from predecessors binding (some (err (corrupt text))) = start_fresh predecessors

  unfoldable pub start_journal :
      List DelegateLineageEntry → JournalBinding → Act W (Started × MarkerChecks)
  unfolding start_from
  start_journal predecessors binding = do
    loaded ← or_fail (λ e. successor_failed (load_failed e)) succ.load_journal
    start_from predecessors binding (decoded cbor succ policy loaded)

-- `for (key, generation) in unverified { view.mark_import_started(…) }`
mark_all : List (DelegateKey × ℕ) → MigrationJournal → MigrationJournal
mark_all [] journal = journal
mark_all ((key, generation) ∷ rest) journal =
    mark_all rest (mark_import_started journal key generation).0

unfoldable pub status_with_unverified :
    MigrationJournal
    → List (DelegateKey × ℕ)
    → List DelegateLineageEntry
    → JournalBinding
    → JournalStatus
unfolding mark_all
status_with_unverified journal unverified predecessors binding =
    status (mark_all unverified journal) predecessors binding

module _ {W : Type 0} (cbor : Cbor) (succ : JournaledSuccessorIo W)
    (policy : SecretSelectionPolicy) where
  -- A new journal is stored first.
  unfoldable pub store_new :
      List DelegateLineageEntry
      → JournalBinding
      → Started
      → W
      → (W × MigrationJournal) × Result JournalError (Unit {0})
  store_new predecessors binding (existing journal) s = ((s, journal), ok tt)
  store_new predecessors binding (new journal) s =
      store_merged cbor succ policy (some binding) (some predecessors) (s, journal)

  begun :
      List DelegateLineageEntry
      → JournalBinding
      → MarkerChecks
      → (W × MigrationJournal) × Result JournalError (Unit {0})
      → W × Result JournalError JournalStatus
  begun predecessors binding checks ((s, journal), ok _) =
      (s, ok (status_with_unverified journal checks.unverified predecessors binding))
  begun predecessors binding checks ((s, journal), err e) = (s, err e)

  unfoldable pub begin_migration_journal : List DelegateLineageEntry → Act W JournalStatus
  unfolding store_new begun
  begin_migration_journal predecessors = do
    let binding = binding_of policy succ.import_revision
    x ← start_journal cbor succ policy predecessors binding
    λ s. begun predecessors binding x.1 (store_new predecessors binding x.0 s)
