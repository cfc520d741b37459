-- ===== src/Migration/Journaled/Outcomes.antt =====
-- `resolve_outcomes` of freenet-migrate/src/delegate_migrate.rs: what each row of a walk's report is to the
-- journal.
use freenet_migrate.Prelude.{
  ℕ, min, Bool, true, false, not, ◌&&◌, ◌||◌, Option, none, some, List, [], ◌∷◌, ◌++◌, Bytes, ltb,
  nat_beq, if◌then◌else◌, contains, nat_eq, list_eq, u32_max, Map, get,
}
use freenet_migrate.Journal.{
  SecretSelectionPolicy, PolicyFamily, newest_snapshot, union, family_of, JournalResolution,
  imported_with_rejections, superseded_by_authoritative, is_data_bearing, RunOutcome, resolved_as,
  unresolved, unexamined,
}
use freenet_migrate.Migration.{
  ImportTally, WriterFailure, failed_elsewhere, PredecessorMigration, imported, no_data,
  already_migrated, superseded, incomplete, writer_unavailable, is_unresponsive, row_key,
  DelegateMigrationReport,
}

-- The parts of a `WalkOutcome` beside its report.
pub record WalkSets : Type 0 where
  pub absent : List Bytes  -- `not_installed`
  pub done_with_data : List Bytes
  pub journal_resolved : Map JournalResolution
  pub bridged : List Bytes

abbrev is_snapshot : PolicyFamily → Bool
is_snapshot newest_snapshot = true
is_snapshot union = false

-- `resolved.iter().flatten().any(|r| r.is_data_bearing())`
any_data : List (Option JournalResolution) → Bool
unfolding is_data_bearing
any_data [] = false
any_data (none ∷ rs) = any_data rs
any_data (some r ∷ rs) = is_data_bearing r || any_data rs

-- All that is missing was refused for good.
only_rejections : ImportTally → Option WriterFailure → Bool
only_rejections tally failure =
    ltb 0 tally.rejected
    && nat_beq tally.failed 0
    && nat_beq tally.withheld 0
    && not (failed_elsewhere failure)

module _ (sets : WalkSets) (policy : SecretSelectionPolicy) (import_revision : ℕ) where
  -- `resolution`, of a row that is neither resolved by the journal nor bridged
  resolution_of : List (Option JournalResolution) → PredecessorMigration → Option JournalResolution
  unfolding any_data only_rejections
  resolution_of before (imported key _ _) = some JournalResolution.imported
  resolution_of before (no_data key _) = some JournalResolution.no_data
  resolution_of before (already_migrated key _) = some (
      if contains sets.done_with_data key.key
      then JournalResolution.imported
      else JournalResolution.no_data)
  resolution_of before (incomplete key _ tally failure) =
      if only_rejections tally failure
      then some (imported_with_rejections (min tally.rejected u32_max) import_revision 0)
      else none
  resolution_of before (superseded key _) =
      if is_snapshot (family_of policy) && any_data before
      then some superseded_by_authoritative
      else none
  resolution_of before _ = none

  outcome_of : Option JournalResolution → PredecessorMigration → RunOutcome
  outcome_of (some r) row = resolved_as r
  outcome_of none (superseded _ _) = unexamined
  outcome_of none (writer_unavailable _ _ _) = unexamined
  outcome_of none row = unresolved (is_unresponsive row && contains sets.absent (row_key row).key)

  -- The outcome of a row, and what the loop notes as its resolution.
  row_outcome :
      List (Option JournalResolution)
      → PredecessorMigration
      → Option JournalResolution
      → RunOutcome × Option JournalResolution
  unfolding resolution_of outcome_of
  row_outcome before row (some r) = (unexamined, some r)
  row_outcome before row none =
      let resolution = resolution_of before row in
      if contains sets.bridged (row_key row).key
      then (resolved_as superseded_by_authoritative, some JournalResolution.imported)
      else (outcome_of resolution row, resolution)

  outcomes_from : List (Option JournalResolution) → DelegateMigrationReport → List RunOutcome
  unfolding row_outcome
  outcomes_from before [] = []
  outcomes_from before (row ∷ rows) =
      let (outcome, resolution) =
        row_outcome before row (get (row_key row).key sets.journal_resolved) in
      outcome ∷ outcomes_from (before ++ resolution ∷ []) rows

  unfoldable pub resolve_outcomes : DelegateMigrationReport → List RunOutcome
  unfolding outcomes_from
  resolve_outcomes report = outcomes_from [] report
