-- ===== src/Migration/Journaled/Run/Kept.antt =====
-- A journaled run of freenet-migrate/src/delegate_migrate.rs and an import that the journal records.
use freenet_migrate.Prelude.{
  ℕ, not, ◌&&◌, Bool, Option, none, some, List, [], ◌∷◌, arith, Bytes, Bool-cases, inl, inr,
}
use freenet_migrate.Prelude.Result.{Result, ok, err}
use freenet_migrate.Lineage.{DelegateLineageEntry}
use freenet_migrate.Journal.{
  SecretSelectionPolicy, DelegateKey, JournalBinding, MigrationJournal, RunOutcome, rebind,
  mark_import_started, binding_of,
}
use freenet_migrate.Journal.Wire.{Cbor}
use freenet_migrate.Journal.Steps.{mark, note, outcome, stored, bind, change}
use freenet_migrate.Migration.{
  MigrationMarker, PredecessorSecretsIo, PredecessorMigration, row_key, row_generation,
  DelegateMigrationReport,
}
use freenet_migrate.Migration.Walk.{walk, ordered, at_start}
use freenet_migrate.Migration.Walk.Turns.{Walk}
use freenet_migrate.Migration.Walk.Visits.Fits.{Keeps}
use freenet_migrate.Migration.Walk.Report.{walk_rows-Reports}
use freenet_migrate.Migration.Journaled.{
  JournaledSuccessorIo, JournalError, says_in_progress, store_merged, entry_state,
}
use freenet_migrate.Migration.Journaled.Start.{Started, existing, new, MarkerChecks}
use freenet_migrate.Migration.Journaled.Start.Begins.{
  LoadsGood, Begins, start_journal-Begins, store_new-Stored,
}
use freenet_migrate.Migration.Journaled.Stores.{KeepsJournal, IsKept, store_merged-Preserves}
use freenet_migrate.Migration.Journaled.Outcomes.{WalkSets}
use freenet_migrate.Migration.Journaled.Run.{
  Observed, Reached, note_items, flag_stored, flag_and_store, journal_before_import,
  journal_observer, record_all, note_row, ask, check_row, check_rows, walk_read_it, listed,
  may_hide_data, stored_last, store_reached, after_walk, walk_journaled, run_from,
  migrate_delegate_secrets_journaled,
}

module _ {W P : Type 0} (cbor : Cbor) (display : JournalError → Bytes)
    (succ : JournaledSuccessorIo W) (preds : PredecessorSecretsIo P)
    (policy : SecretSelectionPolicy) (predecessors : List DelegateLineageEntry)
    (Good : MigrationJournal → Type 0) (kept : IsKept (binding_of policy succ.import_revision) Good)
    (I : W → Type 0) (keeps : KeepsJournal cbor succ Good I)
    (loads : (s : W) → I s → LoadsGood cbor Good (succ.load_journal s).1) where
  abbrev binding : JournalBinding
  binding = binding_of policy succ.import_revision

  store-keeps :
      (s : W) (journal : MigrationJournal)
      → I s × Good journal
      → let r = store_merged cbor succ policy (some binding) (some predecessors) (s, journal) in
        I r.0.0 × Good r.0.1
  unfolding change
  store-keeps s journal h =
      store_merged-Preserves cbor succ policy Good binding
        (λ other m g. kept.changed (stored other (some binding)) m g) I keeps (some predecessors)
        (s, journal) h

  mark-keeps :
      (key : DelegateKey) (g : ℕ) (m : MigrationJournal)
      → Good m
      → Good (mark_import_started m key g).0
  unfolding change
  mark-keeps key g m h = kept.changed (mark key g) m h

  note_items-keeps :
      (m : MigrationJournal) (key : DelegateKey) (n : Option ℕ)
      → Good m
      → Good (note_items m key n).0
  unfolding note_items change
  note_items-keeps m key none h = h
  note_items-keeps m key (some n) h = kept.changed (note key n) m h

  record_all-keeps :
      (report : DelegateMigrationReport) (outcomes : List RunOutcome) (m : MigrationJournal)
      → Good m
      → Good (record_all report outcomes m)
  unfolding record_all change
  record_all-keeps (row ∷ rows) (o ∷ outcomes) m h =
      record_all-keeps rows outcomes _
        (kept.changed (outcome (row_key row) (row_generation row) o) m h)
  record_all-keeps [] outcomes m h = h
  record_all-keeps (row ∷ rows) [] m h = h

  -- Of the observer and the successor.
  abbrev Watched : Observed → W → Type 0
  Watched o s = I s × Good o.journal

  flag_stored-keeps :
      (first : Option Bytes) (r : (W × MigrationJournal) × Result JournalError (Unit {0}))
      → I r.0.0 × Good r.0.1
      → let x = flag_stored cbor display succ preds policy predecessors first r in
        Watched x.0.0 x.0.1
  unfolding flag_stored
  flag_stored-keeps first ((s, journal), ok u) h = h
  flag_stored-keeps first ((s, journal), err e) h = h

  flag_and_store-keeps :
      (flagged : Bool) (o : Observed) (s : W) (journal : MigrationJournal) (counted retry : Bool)
      → I s
      → Good journal
      → let x =
          flag_and_store cbor display succ preds policy predecessors flagged
            (o, s)
            (journal, counted)
            retry in
        Watched x.0.0 x.0.1
  unfolding flag_and_store
  flag_and_store-keeps flagged o s journal counted retry i h =
      elim (Bool-cases (not flagged && not counted && not retry)) [
        | inl q ↦ rw q (i, h)
        | inr q ↦ rw q (flag_stored-keeps o.first_error _ (store-keeps s journal (i, h)))
      ]

  before_import-keeps :
      (o : Observed) (s : W) (key : DelegateKey) (g : ℕ) (n : Option ℕ)
      → Watched o s
      → let r = journal_before_import cbor display succ preds policy predecessors (o, s) key g n in
        Watched r.0.0 r.0.1
  unfolding journal_before_import
  before_import-keeps o s key g n (i, h) =
      flag_and_store-keeps _ o s _ _ _ i (note_items-keeps _ key n (mark-keeps key g o.journal h))

  observer-Keeps :
      Keeps succ.secrets_io (journal_observer cbor display succ preds policy predecessors) Watched
  observer-Keeps = record {
    reads = λ o s q (i, h). (keeps.reads s q i, h);
    marks = λ o s key m (i, h). (keeps.marks s key m i, h);
    writes = λ o s x m (i, h). (keeps.writes s x m i, h);
    flushes = λ o s key (i, h). (keeps.flushes s key i, h);
    flags = before_import-keeps;
  }

  note_row-keeps :
      (row : PredecessorMigration) (r : Result Bytes (Option MigrationMarker)) (x : Reached)
      → Good x.journal
      → Good (note_row (row, r) x).journal
  unfolding note_row
  note_row-keeps row (ok marker) x h = elim (Bool-cases (says_in_progress marker)) [
    | inl q ↦ rw q (mark-keeps (row_key row) (row_generation row) x.journal h)
    | inr q ↦ rw q h
  ]
  note_row-keeps row (err e) x h = ground arith

  check_row-keeps :
      (sets : WalkSets) (checks : MarkerChecks) (row : PredecessorMigration) (s : W) (x : Reached)
      → I s × Good x.journal
      → let r = check_row cbor display succ preds policy predecessors sets checks row (s, x) in
        I r.0 × Good r.1.journal
  unfolding check_row ask
  check_row-keeps sets checks row s x (i, h) = elim (Bool-cases (walk_read_it sets row)) [
    | inl q ↦ rw q (i, h)
    | inr q ↦ elim (Bool-cases (listed checks.read (row_key row))) [
      | inl r ↦ rw q (rw r (i, h))
      | inr r ↦ elim (Bool-cases (may_hide_data (entry_state x.journal (row_key row)))) [
        | inl m ↦ rw q (rw r (rw m (keeps.reads s _ i, note_row-keeps row _ x h)))
        | inr m ↦ rw q (rw r (rw m (i, h)))
      ]
    ]
  ]

  check_rows-keeps :
      (sets : WalkSets) (checks : MarkerChecks) (rows : DelegateMigrationReport) (s : W)
      (x : Reached)
      → I s × Good x.journal
      → let r = check_rows cbor display succ preds policy predecessors sets checks rows (s, x) in
        I r.0 × Good r.1.journal
  unfolding check_rows
  check_rows-keeps sets checks [] s x h = h
  check_rows-keeps sets checks (row ∷ rows) s x h =
      check_rows-keeps sets checks rows _ _ (check_row-keeps sets checks row s x h)

  stored_last-keeps :
      (report : DelegateMigrationReport) (first : Option Bytes)
      (unverified : List (DelegateKey × ℕ))
      (r : (W × MigrationJournal) × Result JournalError (Unit {0}))
      → I r.0.0
      → I (stored_last cbor display succ preds policy predecessors report first unverified r).1
  unfolding stored_last
  stored_last-keeps report first unverified ((s, journal), ok u) i = i
  stored_last-keeps report first unverified ((s, journal), err e) i = i

  after_walk-keeps :
      (checks : MarkerChecks) (report : DelegateMigrationReport) (w : Walk W P Observed)
      → Watched w.observer w.successor
      → I (after_walk cbor display succ preds policy predecessors checks (report, w)).1
  unfolding after_walk store_reached
  after_walk-keeps checks report w (i, h) =
      let (i', h') =
        check_rows-keeps _ checks report w.successor _ (i, record_all-keeps report _ _ h) in
      stored_last-keeps report _ _ _ (store-keeps _ _ (i', h')).0

  walk_journaled-keeps :
      (checks : MarkerChecks) (p : P) (r : (W × MigrationJournal) × Result JournalError (Unit {0}))
      → I r.0.0 × Good r.0.1
      → I (walk_journaled cbor display succ preds policy predecessors checks p r).1
  unfolding walk_journaled walk change
  walk_journaled-keeps checks p ((s, journal), err e) h = h.0
  walk_journaled-keeps checks p ((s, journal), ok u) (i, h) =
      let (names, after) =
        walk_rows-Reports succ.secrets_io preds
          (journal_observer cbor display succ preds policy predecessors) policy Watched
          observer-Keeps (ordered predecessors)
          (at_start s p (record { journal = rebind binding journal; first_error = none }))
          (i, kept.changed (bind binding) journal h) in
      after_walk-keeps checks _ _ after

  run_from-keeps :
      (p : P) (r : W × Result JournalError (Started × MarkerChecks))
      → Begins cbor succ policy Good binding kept I keeps loads r
      → I (run_from cbor display succ preds policy predecessors p r).1
  unfolding run_from
  run_from-keeps p (s, err e) h = h
  run_from-keeps p (s, ok (existing journal, checks)) h = walk_journaled-keeps checks p _ (
      store_new-Stored cbor succ policy Good binding kept I keeps loads predecessors
        (existing journal) s checks h)
  run_from-keeps p (s, ok (new journal, checks)) h = walk_journaled-keeps checks p _ (
      store_new-Stored cbor succ policy Good binding kept I keeps loads predecessors (new journal) s
        checks h)

  pub run-keeps :
      (s : W) (p : P)
      → I s
      → I (migrate_delegate_secrets_journaled cbor display succ preds policy predecessors s p).1
  unfolding migrate_delegate_secrets_journaled
  run-keeps s p i =
      run_from-keeps p _
        (start_journal-Begins cbor succ policy Good binding kept I keeps loads predecessors s i)
