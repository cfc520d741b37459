-- ===== src/Migration/Walk.antt =====
-- `AppSideRoundTrip::walk` of freenet-migrate/src/delegate_migrate.rs and the entry points on it. A set of
-- keys is the list of its members.
pub mod Turns
pub mod Items
pub mod Visits
pub mod Report
pub mod Stored
use freenet_migrate.Prelude.{
  ℕ, ◌+◌, min, Bool, true, false, not, ◌&&◌, ◌||◌, Option, none, some, List, [], ◌∷◌, ◌++◌, map,
  Bytes, ltb, nat_beq, if◌then◌else◌, list_beq, nat_eq, list_eq, bytes, contains, is_empty, length,
  u32_max, Map, insert,
}
use freenet_migrate.Prelude.Result.{Result, ok, err}
use freenet_migrate.Lineage.{DelegateLineageEntry}
use freenet_migrate.Journal.{SecretSelectionPolicy, DelegateKey, JournalResolution, lineage_key}
use freenet_migrate.Driver.Ordering.{sort_newest}
use freenet_migrate.Secrets.{SecretPair, is_marker}
use freenet_migrate.Migration.{
  LegacyBridge, at_or_above_generation, exact_generation_only, data_bearing_is_authoritative,
  unresponsive_terminates, legacy_bridge, ProbeVerdict, executable, no_reply, not_installed,
  MigrationMarker, in_progress, done, MarkerQuery, RecoveredSecret, RetryAdvice, retryable,
  permanent, ItemWrite, written, already_authoritative, failed, SuccessorSecretsIo,
  PredecessorSecretsIo, ImportTally, no_items, is_clean, WriterStage, reads_marker, begin_marker,
  item, flush, complete_marker, journal_flag, is_item, FailureText, printed, marker_store_reads,
  WriterFailure, PredecessorMigration, imported, no_data, already_migrated, superseded,
  unresponsive, incomplete, writer_unavailable, DelegateMigrationReport,
  exported_nothing_after_data, fewer_text,
}
use freenet_migrate.Migration.Walk.Turns.{
  Walk, Turn, goes_on, ends, Visit, pure, ◌>>=◌, ◌>>◌, WalkObserver,
}
use freenet_migrate.Migration.Walk.Visits.{visit}

module _ {W P O : Type 0} (succ : SuccessorSecretsIo W) (preds : PredecessorSecretsIo P)
    (watch : WalkObserver W O) (policy : SecretSelectionPolicy) where
  -- The loop over `ordered`, on `terminated`: the rows that it pushes.
  unfoldable pub walk_rows :
      List (ℕ × DelegateKey) → Bool → Walk W P O → List PredecessorMigration × Walk W P O
  walk_rows [] over w = ([], w)
  walk_rows ((generation, key) ∷ rest) true w =
      let (rows, w') = walk_rows rest true w in (superseded key generation ∷ rows, w')
  walk_rows ((generation, key) ∷ rest) false w =
      let ((row, over), w') = visit succ preds watch policy key generation w in
      let (rows, w'') = walk_rows rest over w' in (row ∷ rows, w'')

-- `ordered`, before it is sorted
abbrev pub with_generation : DelegateLineageEntry → ℕ × DelegateKey
with_generation e = (e.generation, lineage_key e)

unfoldable pub ordered : List DelegateLineageEntry → List (ℕ × DelegateKey)
ordered predecessors = sort_newest (map with_generation predecessors)

abbrev pub at_start : {W P O : Type 0} → W → P → O → Walk W P O
at_start s p o = record {
  successor = s;
  io = p;
  observer = o;
  withheld_keys = [];
  absent = [];
  done_with_data = [];
  journal_resolved = [];
  bridged = [];
}

-- `walk`: the rows of the report, and all that the walk has kept.
unfoldable pub walk :
    {W P O : Type 0}
    → SuccessorSecretsIo W
    → PredecessorSecretsIo P
    → WalkObserver W O
    → SecretSelectionPolicy
    → List DelegateLineageEntry
    → W
    → P
    → O
    → DelegateMigrationReport × Walk W P O
unfolding walk_rows ordered
walk succ preds watch policy predecessors s p o =
    walk_rows succ preds watch policy (ordered predecessors) false (at_start s p o)

-- `NoObserver`
abbrev pub no_observer : {W : Type 0} → WalkObserver W (Unit {0})
no_observer = record {
  journaled = false;
  withholds = λ o k. false;
  resolved_with_data = λ o k. none;
  import_started = λ o k. false;
  items_seen = λ o k. 0;
  before_import = λ os k g n. (os, ok tt);
}

-- `migrate_from`, which `migrate_delegate_secrets` returns
unfoldable pub migrate_delegate_secrets :
    {W P : Type 0}
    → SuccessorSecretsIo W
    → PredecessorSecretsIo P
    → List DelegateLineageEntry
    → SecretSelectionPolicy
    → W
    → P
    → DelegateMigrationReport × W × P
unfolding walk
migrate_delegate_secrets succ preds predecessors policy s p =
    let (rows, w) = walk succ preds no_observer policy predecessors s p tt in
    (rows, w.successor, w.io)

abbrev entry_with_generation : DelegateLineageEntry → ℕ × DelegateLineageEntry
entry_with_generation e = (e.generation, e)

-- `newest_first`
abbrev entry_of : ℕ × DelegateLineageEntry → DelegateLineageEntry
entry_of x = x.1

pub newest_first_entries : List DelegateLineageEntry → List DelegateLineageEntry
newest_first_entries predecessors =
    map entry_of (sort_newest (map entry_with_generation predecessors))

module _ {W P : Type 0} (succ : SuccessorSecretsIo W) (preds : PredecessorSecretsIo P) where
  migrate_registered :
      List DelegateLineageEntry
      → SecretSelectionPolicy
      → W
      → P × Result Bytes (Unit {0})
      → Result Bytes DelegateMigrationReport × W × P
  migrate_registered predecessors policy s (p, err e) = (err e, s, p)
  migrate_registered predecessors policy s (p, ok _) =
      let (rows, s', p') = migrate_delegate_secrets succ preds predecessors policy s p in
      (ok rows, s', p')

  -- `register_successor` is the method of `RegisterAndMigrateIo`.
  pub register_delegate_with_migration :
      (P → List DelegateLineageEntry → SecretSelectionPolicy → P × Result Bytes (Unit {0}))
      → List DelegateLineageEntry
      → SecretSelectionPolicy
      → W
      → P
      → Result Bytes DelegateMigrationReport × W × P
  unfolding migrate_registered newest_first_entries
  register_delegate_with_migration register_successor predecessors policy s p =
      migrate_registered predecessors policy s
        (register_successor p (newest_first_entries predecessors) policy)
