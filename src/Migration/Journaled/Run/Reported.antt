-- ===== src/Migration/Journaled/Run/Reported.antt =====
-- The report of a journaled run of freenet-migrate/src/delegate_migrate.rs.
use freenet_migrate.Prelude.{
  ℕ, ◌||◌, ◌≡◌, ◌⊎◌, refl, sym, ap, subst, ◌∙◌, Bool, true, false, Option, none, some, List, [],
  ◌∷◌, map, All, Bytes, inl, inr, is_some, bytes, ◌++◌, Bool-cases, false,
}
use freenet_migrate.Prelude.Result.{Result, ok, err}
use freenet_migrate.Lineage.{DelegateLineageEntry}
use freenet_migrate.Journal.{SecretSelectionPolicy, DelegateKey, MigrationJournal, rebind}
use freenet_migrate.Journal.Wire.{Cbor}
use freenet_migrate.Driver.Ordering.{IsNewestFirst, of_generation}
use freenet_migrate.Migration.{
  PredecessorSecretsIo, PredecessorMigration, writer_unavailable, journal_unavailable,
  DelegateMigrationReport, row_key, row_generation,
}
use freenet_migrate.Migration.Walk.{
  walk, walk_rows, ordered, at_start, with_generation, newest_first_entries,
}
use freenet_migrate.Migration.Walk.Turns.{Walk, WalkObserver}
use freenet_migrate.Migration.Walk.Report.{
  Walked, named, anything-Keeps, walk_rows-Reports, walk_rows-Walked, entries-ordered,
  ordered-IsNewestFirst,
}
use freenet_migrate.Migration.Journaled.{JournaledSuccessorIo, JournalError}
use freenet_migrate.Migration.Journaled.Start.{Started, MarkerChecks, start_journal, store_new}
use freenet_migrate.Migration.Journaled.Start.Readable.{is_readable, start_journal-fails}
use freenet_migrate.Migration.Journaled.Run.{
  Observed, JournaledMigrationReport, journal_observer, run_binding, unavailable_rows, refused,
  stored_last, store_reached, after_walk, walk_journaled, run_from,
  migrate_delegate_secrets_journaled,
}

abbrev pub is_unavailable : PredecessorMigration → Bool
is_unavailable (writer_unavailable _ _ f) = elim f.stage [ journal_unavailable ↦ true | _ ↦ false ]
is_unavailable _ = false

module _ {W P : Type 0} (cbor : Cbor) (display : JournalError → Bytes)
    (succ : JournaledSuccessorIo W) (preds : PredecessorSecretsIo P)
    (policy : SecretSelectionPolicy) (predecessors : List DelegateLineageEntry) where
  -- No predecessor was asked, and the report, the status and the error say so.
  abbrev pub IsRefused : Bytes → P → JournaledMigrationReport × W × P → Type 0
  IsRefused error p out =
      (out.2 ≡ p)
      × (out.0.status ≡ none)
      × (out.0.journal_error ≡ some error)
      × All (λ row. is_unavailable row ≡ true) out.0.report

  abbrev started_at : W → W × Result JournalError (Started × MarkerChecks)
  started_at s =
      start_journal cbor succ policy predecessors
        (run_binding cbor display succ preds policy predecessors) s

  abbrev stored_at : Started → W → (W × MigrationJournal) × Result JournalError (Unit {0})
  stored_at started s =
      store_new cbor succ policy predecessors
        (run_binding cbor display succ preds policy predecessors) started s

  abbrev observed : MigrationJournal → Observed
  observed journal = record {
    journal = rebind (run_binding cbor display succ preds policy predecessors) journal;
    first_error = none;
  }

  -- What a run comes to: the journal was not started, or was not stored first, and the successor is as
  -- that left it; or the rows and the predecessors' state are those of a walk that begins after both.
  pub data Comes (s : W) (p : P) : JournaledMigrationReport × W × P → Type 0 where
    no_start :
        {s' : W} {e : JournalError} {out : JournaledMigrationReport × W × P}
        → started_at s ≡ (s', err e)
        → out.1 ≡ s'
        → IsRefused (display e) p out
        → Comes s p out
    no_store :
        {s' s'' : W} {x : Started × MarkerChecks} {journal : MigrationJournal} {e : JournalError}
        {out : JournaledMigrationReport × W × P}
        → started_at s ≡ (s', ok x)
        → stored_at x.0 s' ≡ ((s'', journal), err e)
        → out.1 ≡ s''
        → IsRefused (bytes "journal start failed: " ++ display e) p out
        → Comes s p out
    walked :
        {s' s'' : W} {x : Started × MarkerChecks} {journal : MigrationJournal}
        {w : Walk W P Observed} {out : JournaledMigrationReport × W × P}
        → started_at s ≡ (s', ok x)
        → stored_at x.0 s' ≡ ((s'', journal), ok tt)
        → Walked succ.secrets_io preds
            (journal_observer cbor display succ preds policy predecessors)
            policy
            (ordered predecessors)
            (at_start s'' p (observed journal))
            out.0.report
            w
        → out.2 ≡ w.io
        → Comes s p out

  -- The rows are named in their order, and a run without a status has an error.
  abbrev Says : JournaledMigrationReport × W × P → Type 0
  Says out =
      (map named out.0.report ≡ ordered predecessors)
      × ((is_some out.0.status || is_some out.0.journal_error) ≡ true)

  unavailable_rows-named :
      (error : Bytes) (es : List DelegateLineageEntry)
      → (map named (unavailable_rows cbor display succ preds policy predecessors error es)
          ≡ map with_generation es)
        × All
            (λ row. is_unavailable row ≡ true)
            (unavailable_rows cbor display succ preds policy predecessors error es)
  unfolding unavailable_rows row_key row_generation
  unavailable_rows-named error [] = (refl, tt)
  unavailable_rows-named error (e ∷ es) =
      let (names, all) = unavailable_rows-named error es in
      (ap (λ xs. with_generation e ∷ xs) names, (refl, all))

  refused-Says :
      (error : Bytes) (s : W) (p : P)
      → let out : JournaledMigrationReport × W × P =
          (refused cbor display succ preds policy predecessors error, s, p) in
        Says out × IsRefused error p out
  unfolding refused
  refused-Says error s p =
      let (names, all) = unavailable_rows-named error (newest_first_entries predecessors) in
      ((names ∙ entries-ordered predecessors, refl), (refl, refl, refl, all))

  stored_last-says :
      (report : DelegateMigrationReport) (first : Option Bytes)
      (unverified : List (DelegateKey × ℕ))
      (r : (W × MigrationJournal) × Result JournalError (Unit {0}))
      → let out =
          (stored_last cbor display succ preds policy predecessors report first unverified r).0 in
        (out.report ≡ report) × ((is_some out.status || is_some out.journal_error) ≡ true)
  unfolding stored_last
  stored_last-says report first unverified ((s, journal), ok u) = (refl, refl)
  stored_last-says report none unverified ((s, journal), err e) = (refl, refl)
  stored_last-says report (some f) unverified ((s, journal), err e) = (refl, refl)

  after_walk-says :
      (checks : MarkerChecks) (report : DelegateMigrationReport) (w : Walk W P Observed)
      → let out = after_walk cbor display succ preds policy predecessors checks (report, w) in
        (out.0.report ≡ report)
        × ((is_some out.0.status || is_some out.0.journal_error) ≡ true)
        × (out.2 ≡ w.io)
  unfolding after_walk store_reached
  after_walk-says checks report w =
      let (same, said) = stored_last-says report w.observer.first_error _ _ in (same, said, refl)

  abbrev observer : WalkObserver W Observed
  observer = journal_observer cbor display succ preds policy predecessors

  walk_journaled-Comes :
      (s s' : W) (x : Started × MarkerChecks) (p : P)
      (r : (W × MigrationJournal) × Result JournalError (Unit {0}))
      → started_at s ≡ (s', ok x)
      → stored_at x.0 s' ≡ r
      → let out = walk_journaled cbor display succ preds policy predecessors x.1 p r in
        Says out × Comes s p out
  unfolding walk_journaled walk
  walk_journaled-Comes s s' x p ((s'', journal), err e) h q =
      let (said, refusal) = refused-Says (bytes "journal start failed: " ++ display e) s'' p in
      (said, no_store h q refl refusal)
  walk_journaled-Comes s s' x p ((s'', journal), ok u) h q =
      let start : Walk W P Observed = at_start s'' p (observed journal) in
      let (names, kept) =
        walk_rows-Reports succ.secrets_io preds observer policy (λ o s. Unit)
          (anything-Keeps succ.secrets_io preds observer policy) (ordered predecessors) start tt in
      let steps =
        walk_rows-Walked succ.secrets_io preds observer policy (ordered predecessors) start in
      let (rows, w) =
        walk_rows succ.secrets_io preds observer policy (ordered predecessors) false start in
      let (same, said, io) = after_walk-says x.1 rows w in
      (
        (ap (map named) same ∙ names, said),
        walked h q
            (subst
              (λ report.
                Walked succ.secrets_io preds observer policy (ordered predecessors) start report w)
              (sym same) steps)
            io,
      )

  run_from-Comes :
      (s : W) (p : P) (r : W × Result JournalError (Started × MarkerChecks))
      → started_at s ≡ r
      → let out = run_from cbor display succ preds policy predecessors p r in
        Says out × Comes s p out
  unfolding run_from
  run_from-Comes s p (s', err e) h =
      let (said, refusal) = refused-Says (display e) s' p in (said, no_start h refl refusal)
  run_from-Comes s p (s', ok x) h = walk_journaled-Comes s s' x p (stored_at x.0 s') h refl

  -- A start that failed refuses the run.
  run_from-refuses :
      (p : P) (r : W × Result JournalError (Started × MarkerChecks)) (e : JournalError)
      → r.1 ≡ err e
      → (f : JournalError) × IsRefused
          (display f)
          p
          (run_from cbor display succ preds policy predecessors p r)
  unfolding run_from
  run_from-refuses p (s, err f) e h = (f, (refused-Says (display f) s p).1)
  run_from-refuses p (s, ok x) e h = cc

  -- The report of a journaled run has one row for each predecessor, from the newest generation to the
  -- oldest, and for one generation in the order of the lineage, and a run without a status has an error
  -- of the journal. If the load of the journal fails, or gives one of another version, the run is
  -- refused: no predecessor is asked, there is no status but an error, and every row says that the
  -- journal was not available. In any case one of three things happens. The start fails, or the first
  -- store of a new journal does, and the run is refused with that error, the successor as that left it;
  -- or the rows and the predecessors' final state are those of visits that begin with the journal that
  -- was started, made one after the other until one that may end the walk, and of none after it.
  pub migrate_delegate_secrets_journaled-reports :
      (s : W) (p : P)
      → let out =
          migrate_delegate_secrets_journaled cbor display succ preds policy predecessors s p in
        IsNewestFirst (map named out.0.report)
        × ((g : ℕ)
            → of_generation g (map named out.0.report)
              ≡ of_generation g (map with_generation predecessors))
        × ((is_some out.0.status || is_some out.0.journal_error) ≡ true)
        × ((is_readable cbor (succ.load_journal s).1 ≡ true)
            ⊎ ((e : JournalError) × IsRefused (display e) p out))
        × Comes s p out
  unfolding migrate_delegate_secrets_journaled
  migrate_delegate_secrets_journaled-reports s p =
      let ((names, said), comes) = run_from-Comes s p (started_at s) refl in
      let (newest, stable) = ordered-IsNewestFirst predecessors in
      (
        subst IsNewestFirst (sym names) newest,
        λ g. ap (of_generation g) names ∙ stable g,
        said,
        elim (Bool-cases (is_readable cbor (succ.load_journal s).1)) [
          | inl readable ↦ inl readable
          | inr unreadable ↦
              let (e, failed) =
                start_journal-fails cbor succ policy predecessors
                  (run_binding cbor display succ preds policy predecessors) s unreadable in
              inr (run_from-refuses p (started_at s) e failed)
        ],
        comes,
      )
