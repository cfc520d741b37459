-- ===== src/Migration.antt =====
-- freenet-migrate/src/delegate_migrate.rs: what the walk over the predecessors of a delegate reports, and
-- the interfaces that it calls. A `usize` is a number, and an error of an interface is its `Debug` text.
pub mod Store
pub mod Walk
pub mod Journaled
mod Examples
use freenet_migrate.Prelude.{
  ℕ, ◌+◌, Bool, true, false, not, ◌&&◌, ◌||◌, Option, none, some, List, [], ◌∷◌, ◌++◌, Bytes, ltb,
  nat_beq, if◌then◌else◌, list_beq, nat_eq, bytes, starts_with, to_decimal,
}
use freenet_migrate.Prelude.Result.{Result, ok, err}
use freenet_migrate.Lineage.{DelegateLineageEntry}
use freenet_migrate.Journal.{
  SecretSelectionPolicy, newest_snapshot_wins, newest_snapshot_wins_continue_past_unresponsive,
  union_all_generations, DelegateKey, JournalResolution,
}
use freenet_migrate.Secrets.{SecretPair}

pub data LegacyBridge : Type 0 where
  at_or_above_generation exact_generation_only : LegacyBridge

-- The methods of `SecretSelectionPolicy`.
unfoldable pub data_bearing_is_authoritative : SecretSelectionPolicy → Bool → Bool
data_bearing_is_authoritative newest_snapshot_wins had_data = had_data
data_bearing_is_authoritative newest_snapshot_wins_continue_past_unresponsive had_data = had_data
data_bearing_is_authoritative union_all_generations had_data = false

unfoldable pub unresponsive_terminates : SecretSelectionPolicy → Bool → Bool
unresponsive_terminates newest_snapshot_wins prior_saw_data = true
unresponsive_terminates newest_snapshot_wins_continue_past_unresponsive prior_saw_data =
    prior_saw_data
unresponsive_terminates union_all_generations prior_saw_data = false

unfoldable pub legacy_bridge : SecretSelectionPolicy → LegacyBridge
legacy_bridge newest_snapshot_wins = at_or_above_generation
legacy_bridge newest_snapshot_wins_continue_past_unresponsive = at_or_above_generation
legacy_bridge union_all_generations = exact_generation_only

pub data ProbeVerdict : Type 0 where
  executable no_reply not_installed : ProbeVerdict

-- The default of `probe_verdict`, from what `probe_executable` says.
pub verdict_of_probe : Result Bytes Bool → Result Bytes ProbeVerdict
verdict_of_probe (ok true) = ok executable
verdict_of_probe (ok false) = ok no_reply
verdict_of_probe (err e) = err e

pub data MigrationMarker : Type 0 where
  in_progress done : Bool → MigrationMarker  -- saw_data, had_data

pub record MarkerQuery : Type 0 where
  pub predecessor : DelegateKey
  pub generation : ℕ
  pub bridge : LegacyBridge

pub record RecoveredSecret : Type 0 where
  pub predecessor : DelegateKey
  pub generation : ℕ
  pub key : Bytes
  pub value : Bytes
  pub retry : Bool

pub data RetryAdvice : Type 0 where
  retryable permanent : RetryAdvice

pub data ItemWrite : Type 0 where
  written already_authoritative : ItemWrite
  failed : Bytes → RetryAdvice → ItemWrite

-- The trait `SuccessorSecretsIo`, on successors of the type `W`: each call returns the new successor
-- with its result.
pub record SuccessorSecretsIo (W : Type 0) : Type 0 where
  pub migration_marker : W → MarkerQuery → W × Result Bytes (Option MigrationMarker)
  pub record_marker : W → DelegateKey → MigrationMarker → W × Result Bytes (Unit {0})
  pub write_secret : W → RecoveredSecret → W × ItemWrite
  pub flush_predecessor : W → DelegateKey → W × Result Bytes (Unit {0})

-- The trait `PredecessorSecretsIo`.
pub record PredecessorSecretsIo (P : Type 0) : Type 0 where
  pub probe_verdict : P → DelegateKey → P × Result Bytes ProbeVerdict
  pub fetch_secrets : P → DelegateKey → P × Result Bytes (List SecretPair)

pub record ImportTally : Type 0 where
  pub written : ℕ
  pub skipped : ℕ
  pub failed : ℕ
  pub rejected : ℕ
  pub withheld : ℕ

abbrev pub no_items : ImportTally
no_items = record { written = 0; skipped = 0; failed = 0; rejected = 0; withheld = 0 }

unfoldable pub offered : ImportTally → ℕ
offered t = t.written + t.skipped + t.failed + t.rejected + t.withheld

unfoldable pub is_clean : ImportTally → Bool
is_clean t = nat_beq t.failed 0 && nat_beq t.rejected 0 && nat_beq t.withheld 0

unfoldable pub tally_retry_may_help : ImportTally → Bool
tally_retry_may_help t = ltb 0 t.failed || ltb 0 t.withheld

pub data WriterStage : Type 0 where
  reads_marker begin_marker item flush complete_marker journal_flag journal_unavailable :
      WriterStage

abbrev pub is_item : WriterStage → Bool
is_item item = true
is_item _ = false

abbrev pub is_reads_marker : WriterStage → Bool
is_reads_marker reads_marker = true
is_reads_marker _ = false

-- The text of a failure, or the reading that it prints.
pub data FailureText : Type 0 where
  printed : Bytes → FailureText
  marker_store_reads : Result Bytes (Option MigrationMarker) → FailureText

pub record WriterFailure : Type 0 where
  pub stage : WriterStage
  pub error : FailureText

pub data PredecessorMigration : Type 0 where
  imported : DelegateKey → ℕ → ImportTally → PredecessorMigration
  no_data already_migrated superseded : DelegateKey → ℕ → PredecessorMigration
  unresponsive : DelegateKey → ℕ → Option Bytes → PredecessorMigration
  incomplete : DelegateKey → ℕ → ImportTally → Option WriterFailure → PredecessorMigration
  writer_unavailable : DelegateKey → ℕ → WriterFailure → PredecessorMigration

abbrev pub exported_nothing_after_data : Bytes
exported_nothing_after_data = bytes "exported nothing, but an earlier attempt saw data"

abbrev pub exported_fewer_after_data : Bytes
exported_fewer_after_data =
    bytes "exported fewer items than an earlier attempt that started an import saw"

-- `format!("{EXPORTED_FEWER_AFTER_DATA}: {exported} of {items_seen}")`
pub fewer_text : ℕ → ℕ → Bytes
fewer_text exported items_seen =
    exported_fewer_after_data
    ++ (bytes ": " ++ (to_decimal exported ++ (bytes " of " ++ to_decimal items_seen)))

-- The methods of `PredecessorMigration`.
pub says_exported_nothing : PredecessorMigration → Bool
says_exported_nothing (unresponsive _ _ (some e)) = list_beq e exported_nothing_after_data
says_exported_nothing _ = false

pub says_exported_fewer : PredecessorMigration → Bool
says_exported_fewer (unresponsive _ _ (some e)) = starts_with e exported_fewer_after_data
says_exported_fewer _ = false

unfoldable pub row_key : PredecessorMigration → DelegateKey
row_key (imported key _ _) = key
row_key (no_data key _) = key
row_key (already_migrated key _) = key
row_key (unresponsive key _ _) = key
row_key (incomplete key _ _ _) = key
row_key (writer_unavailable key _ _) = key
row_key (superseded key _) = key

unfoldable pub row_generation : PredecessorMigration → ℕ
row_generation (imported _ generation _) = generation
row_generation (no_data _ generation) = generation
row_generation (already_migrated _ generation) = generation
row_generation (unresponsive _ generation _) = generation
row_generation (incomplete _ generation _ _) = generation
row_generation (writer_unavailable _ generation _) = generation
row_generation (superseded _ generation) = generation

unfoldable pub row_tally : PredecessorMigration → Option ImportTally
row_tally (imported _ _ tally) = some tally
row_tally (incomplete _ _ tally _) = some tally
row_tally _ = none

-- A `DelegateMigrationReport` is the list of its rows; its methods.
abbrev pub DelegateMigrationReport : Type 0
DelegateMigrationReport = List PredecessorMigration

pub is_unresponsive : PredecessorMigration → Bool
is_unresponsive (unresponsive _ _ _) = true
is_unresponsive _ = false

pub any_unresponsive : DelegateMigrationReport → Bool
any_unresponsive [] = false
any_unresponsive (p ∷ ps) = is_unresponsive p || any_unresponsive ps

pub unresponsive_rows : DelegateMigrationReport → List PredecessorMigration
unresponsive_rows [] = []
unresponsive_rows (p ∷ ps) =
    if is_unresponsive p then p ∷ unresponsive_rows ps else unresponsive_rows ps

count_of : (ImportTally → ℕ) → Option ImportTally → ℕ
count_of count none = 0
count_of count (some t) = count t

total_of : (ImportTally → ℕ) → DelegateMigrationReport → ℕ
total_of count [] = 0
total_of count (p ∷ ps) = count_of count (row_tally p) + total_of count ps

pub imported_total : DelegateMigrationReport → ℕ
imported_total report = total_of (λ t. t.written) report

pub rejected_total : DelegateMigrationReport → ℕ
rejected_total report = total_of (λ t. t.rejected) report

pub failed_total : DelegateMigrationReport → ℕ
failed_total report = total_of (λ t. t.failed) report

-- A row that leaves something to do.
unfoldable pub is_open : PredecessorMigration → Bool
is_open (unresponsive _ _ _) = true
is_open (incomplete _ _ _ _) = true
is_open (writer_unavailable _ _ _) = true
is_open _ = false

unfoldable pub is_complete : DelegateMigrationReport → Bool
is_complete [] = true
is_complete (p ∷ ps) = not (is_open p) && is_complete ps

-- `failure.as_ref().is_some_and(|f| !matches!(f.stage, WriterStage::Item))`
abbrev pub failed_elsewhere : Option WriterFailure → Bool
failed_elsewhere none = false
failed_elsewhere (some f) = not (is_item f.stage)

pub row_retry_may_help : PredecessorMigration → Bool
row_retry_may_help (unresponsive _ _ _) = true
row_retry_may_help (writer_unavailable _ _ _) = true
row_retry_may_help (incomplete _ _ tally failure) =
    tally_retry_may_help tally || failed_elsewhere failure
row_retry_may_help _ = false

pub retry_may_help : DelegateMigrationReport → Bool
retry_may_help [] = false
retry_may_help (p ∷ ps) = row_retry_may_help p || retry_may_help ps
