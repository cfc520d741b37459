-- ===== src/Migration/Store.antt =====
-- `SecretStoreIo` of freenet-migrate/src/delegate_migrate.rs: the successor that is a delegate's own store.
use freenet_migrate.Prelude.{ℕ, Bool, true, false, Option, none, some, Bytes, if◌then◌else◌}
use freenet_migrate.Prelude.Result.{Result, ok, err}
use freenet_migrate.Journal.{DelegateKey}
use freenet_migrate.Secrets.{
  SecretStore, pred_wip_marker, pred_done_marker, flag_value, says_data, holds_data,
  empty_seal_contradicted, legacy_generation_migrated, legacy_generation_migrated_exact,
}
use freenet_migrate.Migration.{
  LegacyBridge, at_or_above_generation, exact_generation_only, MigrationMarker, in_progress, done,
  MarkerQuery, RecoveredSecret, retryable, ItemWrite, written, already_authoritative, failed,
  SuccessorSecretsIo,
}

module _ {S : Type 0} (ops : SecretStore S) where
  legacy_migrated : S → LegacyBridge → ℕ → Bool
  legacy_migrated s at_or_above_generation generation = legacy_generation_migrated ops s generation
  legacy_migrated s exact_generation_only generation =
      legacy_generation_migrated_exact ops s generation

  -- `.map(|value| MigrationMarker::InProgress { … })`
  in_progress_of : Option Bytes → Option MigrationMarker
  in_progress_of none = none
  in_progress_of (some value) = some (in_progress (says_data value))

  -- From the second `else if` on.
  unsealed_marker : S → MarkerQuery → Option MigrationMarker
  unfolding legacy_migrated in_progress_of
  unsealed_marker s query =
      if legacy_migrated s query.bridge query.generation
      then some (done true)
      else in_progress_of (ops.get_secret s (pred_wip_marker query.predecessor))

  sealed_marker : Option Bytes → Option MigrationMarker → Option MigrationMarker
  sealed_marker none other = other
  sealed_marker (some value) other = some (done (says_data value))

  unfoldable pub store_marker : S → MarkerQuery → Option MigrationMarker
  unfolding unsealed_marker sealed_marker
  store_marker s query =
      if empty_seal_contradicted ops s query.predecessor
      then some (in_progress true)
      else sealed_marker (ops.get_secret s (pred_done_marker query.predecessor))
          (unsealed_marker s query)

  -- `SecretStoreWriteFailed` is its key.
  abbrev pub write_result : Bytes → S × Bool → S × Result Bytes (Unit {0})
  write_result key (s, true) = (s, ok tt)
  write_result key (s, false) = (s, err key)

  -- An in-progress marker without data does not take the place of one with data.
  unfoldable pub store_record_marker :
      S → DelegateKey → MigrationMarker → S × Result Bytes (Unit {0})
  store_record_marker s predecessor (in_progress false) =
      let key = pred_wip_marker predecessor in
      if holds_data (ops.get_secret s key)
      then (s, ok tt)
      else write_result key (ops.set_secret s key (flag_value false))
  store_record_marker s predecessor (in_progress true) =
      let key = pred_wip_marker predecessor in
      write_result key (ops.set_secret s key (flag_value true))
  store_record_marker s predecessor (done had_data) =
      let key = pred_done_marker predecessor in
      write_result key (ops.set_secret s key (flag_value had_data))

  abbrev pub item_result : Bytes → S × Bool → S × ItemWrite
  item_result key (s, true) = (s, written)
  item_result key (s, false) = (s, failed key retryable)

  unfoldable pub store_write_secret : S → RecoveredSecret → S × ItemWrite
  store_write_secret s item =
      if ops.has_secret s item.key
      then (s, already_authoritative)
      else item_result item.key (ops.set_secret s item.key item.value)

  -- The flush is the trait's own, which does nothing.
  abbrev pub secret_store_io : SuccessorSecretsIo S
  secret_store_io = record {
    migration_marker = λ s query. (s, ok (store_marker s query));
    record_marker = store_record_marker;
    write_secret = store_write_secret;
    flush_predecessor = λ s predecessor. (s, ok tt);
  }
