-- ===== src/Secrets/Import.antt =====
-- The two imports of freenet-migrate/src/delegate.rs over their shared two-phase core. The store after
-- the call stands beside what the call returns.
pub mod Writes
pub mod Phases
pub mod Once
pub mod Sealed
pub mod Completes
use freenet_migrate.Prelude.{
  ℕ, suc, ◌+◌, Bool, true, false, not, ◌&&◌, ◌||◌, Option, none, some, List, [], ◌∷◌, Bytes, ltb,
  leb, nat_beq, if◌then◌else◌, bytes,
}
use freenet_migrate.Prelude.Result.{Result, ok, err}
use freenet_migrate.Journal.{DelegateKey}
use freenet_migrate.Secrets.{
  SecretPair, SecretStore, ExportedSecrets, MigrateError, partial_import, implausible_generation,
  is_marker, wip_marker, done_marker, pred_wip_marker, pred_done_marker, flag_value, holds_data,
  predecessor_already_migrated, newest_completed_generation,
}

pub record TwoPhaseWrite : Type 0 where
  pub imported : ℕ
  pub skipped : ℕ
  pub failed : ℕ
  pub completed : Bool

pub data ImportOutcome : Type 0 where
  imported : ℕ → ℕ → ℕ → ImportOutcome  -- generation, imported, skipped
  already_migrated : ℕ → ImportOutcome
  stale_generation : ℕ → ℕ → ImportOutcome  -- attempted, newest_completed

pub data PredecessorImportOutcome : Type 0 where
  pred_imported : ℕ → ℕ → PredecessorImportOutcome
  pred_already_migrated : PredecessorImportOutcome
  pred_incomplete : ℕ → ℕ → ℕ → PredecessorImportOutcome

-- `secrets.iter().any(|(k, _)| !is_marker(k))`
unfoldable pub any_secret : List SecretPair → Bool
any_secret [] = false
any_secret ((k, v) ∷ secrets) = not (is_marker k) || any_secret secrets

-- The counters of the write loop.
pub record Counts : Type 0 where
  pub imported : ℕ
  pub skipped : ℕ
  pub failed : ℕ

abbrev pub nothing_written : Counts
nothing_written = record { imported = 0; skipped = 0; failed = 0 }

abbrev count_write : Bool → Counts → Counts
count_write true c = record c { imported = c.imported + 1 }
count_write false c = record c { failed = c.failed + 1 }

-- `if let Some(newest) = … { if newest > generation { … } }`
abbrev stale : Option ℕ → ℕ → Option ImportOutcome
stale none generation = none
stale (some newest) generation =
    if ltb generation newest then some (stale_generation generation newest) else none

module _ {S : Type 0} (ops : SecretStore S) where
  -- One turn of the loop over `secrets`.
  unfoldable pub write_one : SecretPair → S × Counts → S × Counts
  write_one (k, v) (s, c) =
      if is_marker k
      then (s, c)
      else if ops.has_secret s k
      then (s, record c { skipped = c.skipped + 1 })
      else ((ops.set_secret s k v).0, count_write (ops.set_secret s k v).1 c)

  unfoldable pub write_all : List SecretPair → S × Counts → S × Counts
  unfolding write_one
  write_all [] acc = acc
  write_all (p ∷ secrets) acc = write_all secrets (write_one p acc)

  -- Phase 2: `failed == 0 && store.set_secret(done_marker, marker_value)`.
  unfoldable pub finish : Bytes → Bytes → S × Counts → S × TwoPhaseWrite
  finish done value (s, c) =
      if nat_beq c.failed 0
      then (
        (ops.set_secret s done value).0,
        record {
          imported = c.imported;
          skipped = c.skipped;
          failed = c.failed;
          completed = (ops.set_secret s done value).1;
        },
      )
      else (
        s,
        record { imported = c.imported; skipped = c.skipped; failed = c.failed; completed = false },
      )

  unfoldable pub write_secrets_two_phase :
      S → Bytes → Bytes → Bytes → List SecretPair → S × TwoPhaseWrite
  write_secrets_two_phase s wip done value secrets =
      let (begun, marked) = ops.set_secret s wip value in
      if marked
      then finish done value (write_all secrets (begun, nothing_written))
      else (begun, record { imported = 0; skipped = 0; failed = 0; completed = false })

  unfoldable pub conclude_import : ℕ → S × TwoPhaseWrite → S × Result MigrateError ImportOutcome
  conclude_import generation (s, w) =
      if w.completed
      then (s, ok (imported generation w.imported w.skipped))
      else (s, err (partial_import generation w.imported w.skipped w.failed))

  unfoldable pub import_unless_stale :
      S → ExportedSecrets → Option ImportOutcome → S × Result MigrateError ImportOutcome
  unfolding conclude_import
  import_unless_stale s exported (some outcome) = (s, ok outcome)
  import_unless_stale s exported none = conclude_import exported.source_generation (
      write_secrets_two_phase s (wip_marker exported.source_generation)
        (done_marker exported.source_generation) (bytes "1") exported.secrets)

  unfoldable pub import_secrets_once :
      S → ExportedSecrets → ℕ → S × Result MigrateError ImportOutcome
  unfolding import_unless_stale
  import_secrets_once s exported successor_generation =
      let generation = exported.source_generation in
      if leb successor_generation generation
      then (s, err (implausible_generation generation successor_generation))
      else if ops.has_secret s (done_marker generation)
      then (s, ok (already_migrated generation))
      else import_unless_stale s exported (stale (newest_completed_generation ops s) generation)

  unfoldable pub conclude_predecessor : S × TwoPhaseWrite → S × PredecessorImportOutcome
  conclude_predecessor (s, w) =
      if w.completed
      then (s, pred_imported w.imported w.skipped)
      else (s, pred_incomplete w.imported w.skipped w.failed)

  unfoldable pub import_predecessor_secrets_once :
      S → DelegateKey → List SecretPair → S × PredecessorImportOutcome
  import_predecessor_secrets_once s predecessor secrets =
      let prior_saw_data = holds_data (ops.get_secret s (pred_wip_marker predecessor)) in
      let current_had_data = any_secret secrets in
      if predecessor_already_migrated ops s predecessor
      then (s, pred_already_migrated)
      else if prior_saw_data && not current_had_data
      then (s, pred_incomplete 0 0 0)
      else conclude_predecessor (
          write_secrets_two_phase s (pred_wip_marker predecessor) (pred_done_marker predecessor)
            (flag_value (prior_saw_data || current_had_data)) secrets)
