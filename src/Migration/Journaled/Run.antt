-- ===== src/Migration/Journaled/Run.antt =====
-- `JournalObserver` and `migrate_delegate_secrets_journaled` of freenet-migrate/src/delegate_migrate.rs.
pub mod Flagged
pub mod Kept
pub mod Recorded
pub mod Reported
use freenet_migrate.Prelude.{
  ℕ, Bool, true, false, not, ◌&&◌, ◌||◌, Option, none, some, List, [], ◌∷◌, ◌++◌, Bytes, list_beq,
  nat_eq, list_eq, contains, bytes, if◌then◌else◌, get, is_some,
}
use freenet_migrate.Prelude.Result.{Result, ok, err}
use freenet_migrate.Lineage.{DelegateLineageEntry}
use freenet_migrate.Journal.{
  SecretSelectionPolicy, DelegateKey, JournalResolution, JournalState, pending, resolved,
  JournalBinding, binding_of, MigrationJournal, RunOutcome, is_data_bearing, is_started,
  lineage_key, mark_import_started, note_items_seen, items_seen_of, rebind, record_outcome,
}
use freenet_migrate.Journal.Status.{JournalStatus}
use freenet_migrate.Journal.Wire.{Cbor}
use freenet_migrate.Secrets.{delegate_key_beq}
use freenet_migrate.Migration.{
  exact_generation_only, MigrationMarker, journal_unavailable, is_reads_marker, printed,
  PredecessorSecretsIo, PredecessorMigration, superseded, writer_unavailable, row_key,
  row_generation, DelegateMigrationReport,
}
use freenet_migrate.Migration.Walk.{newest_first_entries, walk}
use freenet_migrate.Migration.Walk.Turns.{Walk, WalkObserver}
use freenet_migrate.Migration.Journaled.{
  JournaledSuccessorIo, JournalError, says_in_progress, entry_state, marker_at, store_merged,
}
use freenet_migrate.Migration.Journaled.Start.{
  MarkerChecks, Started, start_journal, status_with_unverified, store_new,
}
use freenet_migrate.Migration.Journaled.Outcomes.{WalkSets, resolve_outcomes}

-- What a `JournalObserver` changes.
pub record Observed : Type 0 where
  pub journal : MigrationJournal
  pub first_error : Option Bytes

pub record JournaledMigrationReport : Type 0 where
  pub report : DelegateMigrationReport
  pub status : Option JournalStatus
  pub journal_error : Option Bytes

abbrev pub started_state : Option JournalState → Bool
started_state (some (pending p)) = is_started p.flag
started_state _ = false

unfoldable pub with_data : Option JournalState → Option JournalResolution
unfolding is_data_bearing
with_data (some (resolved r)) = if is_data_bearing r then some r else none
with_data _ = none

-- The match on `unchecked`.
unfoldable pub may_hide_data : Option JournalState → Bool
unfolding is_data_bearing
may_hide_data (some (pending p)) = not (is_started p.flag)
may_hide_data (some (resolved r)) = not (is_data_bearing r)
may_hide_data none = false

abbrev first_of : Option Bytes → Bytes → Option Bytes
first_of none e = some e
first_of (some f) e = some f

-- `self.journal.note_items_seen(…)` under `items.is_some_and`
unfoldable pub note_items : MigrationJournal → DelegateKey → Option ℕ → MigrationJournal × Bool
note_items journal key none = (journal, false)
note_items journal key (some n) = note_items_seen journal key n

-- The predecessors that are not `key`.
without : DelegateKey → List (DelegateKey × ℕ) → List (DelegateKey × ℕ)
unfolding delegate_key_beq
without key [] = []
without key (x ∷ xs) = if delegate_key_beq x.0 key then without key xs else x ∷ without key xs

listed : List DelegateKey → DelegateKey → Bool
unfolding delegate_key_beq
listed [] key = false
listed (k ∷ ks) key = delegate_key_beq k key || listed ks key

without_all : List DelegateKey → List (DelegateKey × ℕ) → List (DelegateKey × ℕ)
unfolding listed
without_all reached [] = []
without_all reached (x ∷ xs) =
    if listed reached x.0 then without_all reached xs else x ∷ without_all reached xs

keys_of : List (DelegateKey × ℕ) → List DelegateKey
keys_of [] = []
keys_of (x ∷ xs) = x.0 ∷ keys_of xs

abbrev read_failed : PredecessorMigration → Bool
read_failed (writer_unavailable _ _ f) = is_reads_marker f.stage
read_failed _ = false

-- The marker of the row was read by the walk itself.
unfoldable pub walk_read_it : WalkSets → PredecessorMigration → Bool
walk_read_it sets (superseded _ _) = false
walk_read_it sets row =
    not (read_failed row)
    && not (contains sets.bridged (row_key row).key)
    && not (is_some (get (row_key row).key sets.journal_resolved))

-- The variables of the loop over the rows.
pub record Reached : Type 0 where
  pub journal : MigrationJournal
  pub unverified : List (DelegateKey × ℕ)
  pub reached : List DelegateKey

unfoldable pub note_row :
    PredecessorMigration × Result Bytes (Option MigrationMarker) → Reached → Reached
unfolding without keys_of listed
note_row (row, ok marker) x = record x {
  unverified = without (row_key row) x.unverified;
  journal =
      if says_in_progress marker
      then (mark_import_started x.journal (row_key row) (row_generation row)).0
      else x.journal;
}
note_row (row, err e) x =
    if listed (keys_of x.unverified) (row_key row)
    then x
    else record x { unverified = x.unverified ++ (row_key row, row_generation row) ∷ [] }

-- `for (row, run_outcome) in … .zip(&outcomes)`
unfoldable pub record_all :
    DelegateMigrationReport → List RunOutcome → MigrationJournal → MigrationJournal
record_all (row ∷ rows) (o ∷ outcomes) journal =
    record_all rows outcomes (record_outcome journal (row_key row) (row_generation row) o)
record_all _ _ journal = journal

module _ {W P : Type 0} (cbor : Cbor) (display : JournalError → Bytes)
    (succ : JournaledSuccessorIo W) (preds : PredecessorSecretsIo P)
    (policy : SecretSelectionPolicy) (predecessors : List DelegateLineageEntry) where
  -- The binding of a run.
  abbrev pub run_binding : JournalBinding
  run_binding = binding_of policy succ.import_revision

  flag_stored :
      Option Bytes
      → (W × MigrationJournal) × Result JournalError (Unit {0})
      → (Observed × W) × Result Bytes (Unit {0})
  flag_stored first ((s, journal), ok _) =
      ((record { journal = journal; first_error = first }, s), ok tt)
  flag_stored first ((s, journal), err e) =
      let text = bytes "journal import flag failed: " ++ display e in
      ((record { journal = journal; first_error = first_of first text }, s), err text)

  -- `before_import`, from the flag and the count on.
  flag_and_store :
      Bool
      → Observed × W
      → MigrationJournal × Bool
      → Bool
      → (Observed × W) × Result Bytes (Unit {0})
  unfolding flag_stored
  flag_and_store flagged (o, s) (journal, counted) retry =
      if not flagged && not counted && not retry
      then ((record o { journal = journal }, s), ok tt)
      else flag_stored o.first_error
          (store_merged cbor succ policy (some run_binding) (some predecessors) (s, journal))

  unfoldable pub journal_before_import :
      Observed × W → DelegateKey → ℕ → Option ℕ → (Observed × W) × Result Bytes (Unit {0})
  unfolding flag_and_store
  journal_before_import (o, s) key generation items =
      let retry = is_some items && started_state (entry_state o.journal key) in
      let (marked, flagged) = mark_import_started o.journal key generation in
      flag_and_store flagged (o, s) (note_items marked key items) retry

  -- `impl WalkObserver for JournalObserver`
  abbrev pub journal_observer : WalkObserver W Observed
  journal_observer = record {
    journaled = true;
    withholds = λ o k. list_beq succ.journal_key k;
    resolved_with_data = λ o k. with_data (entry_state o.journal k);
    import_started = λ o k. started_state (entry_state o.journal k);
    items_seen = λ o k. items_seen_of o.journal k;
    before_import = journal_before_import;
  }

  unavailable_rows : Bytes → List DelegateLineageEntry → DelegateMigrationReport
  unavailable_rows error [] = []
  unavailable_rows error (e ∷ es) =
      writer_unavailable (lineage_key e) e.generation
        (record { stage = journal_unavailable; error = printed error })
      ∷ unavailable_rows error es

  -- `refused`
  unfoldable pub refused : Bytes → JournaledMigrationReport
  unfolding unavailable_rows
  refused error = record {
    report = unavailable_rows error (newest_first_entries predecessors);
    status = none;
    journal_error = some error;
  }

  ask : PredecessorMigration → Reached → W × Result Bytes (Option MigrationMarker) → W × Reached
  unfolding note_row
  ask row x (s, r) = (s, note_row (row, r) x)

  -- One turn of the loop over the rows.
  check_row : WalkSets → MarkerChecks → PredecessorMigration → W × Reached → W × Reached
  unfolding listed ask walk_read_it
  check_row sets checks row (s, x) =
      if walk_read_it sets row
      then (s, record x { reached = row_key row ∷ x.reached })
      else if listed checks.read (row_key row)
      then (s, x)
      else if may_hide_data (entry_state x.journal (row_key row))
      then ask row x
          (marker_at succ policy (row_key row) (row_generation row) exact_generation_only s)
      else (s, x)

  unfoldable pub check_rows :
      WalkSets → MarkerChecks → DelegateMigrationReport → W × Reached → W × Reached
  unfolding check_row
  check_rows sets checks [] acc = acc
  check_rows sets checks (row ∷ rows) acc =
      check_rows sets checks rows (check_row sets checks row acc)

  abbrev sets_of : Walk W P Observed → WalkSets
  sets_of w = record {
    absent = w.absent;
    done_with_data = w.done_with_data;
    journal_resolved = w.journal_resolved;
    bridged = w.bridged;
  }

  stored_last :
      DelegateMigrationReport
      → Option Bytes
      → List (DelegateKey × ℕ)
      → (W × MigrationJournal) × Result JournalError (Unit {0})
      → JournaledMigrationReport × W
  stored_last report first unverified ((s, journal), ok _) = (
    record {
      report = report;
      status = some (status_with_unverified journal unverified predecessors run_binding);
      journal_error = first;
    },
    s,
  )
  stored_last report first unverified ((s, journal), err e) =
      (record { report = report; status = none; journal_error = first_of first (display e) }, s)

  -- From the last store on.
  store_reached :
      DelegateMigrationReport → Option Bytes → W × Reached → JournaledMigrationReport × W
  unfolding stored_last without_all
  store_reached report first (s, x) =
      stored_last report first (without_all x.reached x.unverified)
        (store_merged cbor succ policy (some run_binding) (some predecessors) (s, x.journal))

  -- After the walk.
  unfoldable pub after_walk :
      MarkerChecks → DelegateMigrationReport × Walk W P Observed → JournaledMigrationReport × W × P
  unfolding store_reached
  after_walk checks (report, w) =
      let outcomes = resolve_outcomes (sets_of w) policy succ.import_revision report in
      let (result, s) = store_reached report w.observer.first_error (
        check_rows (sets_of w) checks report (
          w.successor,
          record {
            journal = record_all report outcomes w.observer.journal;
            unverified = checks.unverified;
            reached = [];
          },
        )) in
      (result, s, w.io)

  walk_journaled :
      MarkerChecks
      → P
      → (W × MigrationJournal) × Result JournalError (Unit {0})
      → JournaledMigrationReport × W × P
  walk_journaled checks p ((s, journal), ok _) = after_walk checks (
      walk succ.secrets_io preds journal_observer policy predecessors s p
        (record { journal = rebind run_binding journal; first_error = none }))
  walk_journaled checks p ((s, journal), err e) =
      (refused (bytes "journal start failed: " ++ display e), s, p)

  run_from : P → W × Result JournalError (Started × MarkerChecks) → JournaledMigrationReport × W × P
  unfolding walk_journaled
  run_from p (s, err e) = (refused (display e), s, p)
  run_from p (s, ok (started, checks)) =
      walk_journaled checks p (store_new cbor succ policy predecessors run_binding started s)

  unfoldable pub migrate_delegate_secrets_journaled : W → P → JournaledMigrationReport × W × P
  unfolding run_from
  migrate_delegate_secrets_journaled s p =
      run_from p (start_journal cbor succ policy predecessors run_binding s)
