-- ===== src/Migration/Walk/Stored.antt =====
-- The walk of freenet-migrate/src/delegate_migrate.rs into a delegate's own store.
pub mod Items
pub mod Arrived
pub mod Whole
use freenet_migrate.Prelude.{
  ℕ, ◌≡◌, refl, ap, ◌∙◌, Bool, true, false, Option, none, some, List, arith, Bytes, is_some,
  list_beq, list_beq_iff, nat_eq, Bool-cases, inl, inr,
}
use freenet_migrate.Lineage.{DelegateLineageEntry}
use freenet_migrate.Journal.{SecretSelectionPolicy, DelegateKey}
use freenet_migrate.Secrets.{
  SecretStore, IsLawful, is_marker, pred_wip_marker, pred_done_marker, flag_value, holds_data,
}
use freenet_migrate.Secrets.Markers.{
  reserved-ne, pred_done_marker-reserved, pred_wip_marker-reserved,
}
use freenet_migrate.Migration.{
  MigrationMarker, in_progress, done, RecoveredSecret, PredecessorSecretsIo,
}
use freenet_migrate.Migration.Store.{
  secret_store_io, write_result, store_record_marker, store_write_secret,
}
use freenet_migrate.Migration.Walk.{ordered, walk, at_start, no_observer, migrate_delegate_secrets}
use freenet_migrate.Migration.Walk.Visits.Fits.{Keeps}
use freenet_migrate.Migration.Walk.Report.{walk_rows-Reports}

module _ {S : Type 0} (ops : SecretStore S) (lawful : IsLawful ops) where
  -- A value under a key that is not reserved.
  abbrev pub HasValue : Bytes → Bytes → Unit {0} → S → Type 0
  HasValue j v o s = ops.get_secret s j ≡ some v

  abbrev pub HasKey : Bytes → Unit {0} → S → Type 0
  HasKey j o s = is_some (ops.get_secret s j) ≡ true

  write_result-store : (key : Bytes) (x : S × Bool) → (write_result ops key x).0 ≡ x.0
  write_result-store key (s, true) = refl
  write_result-store key (s, false) = refl

  store_record_marker-other :
      (s : S) (k : DelegateKey) (x : MigrationMarker) (j : Bytes)
      → list_beq (pred_wip_marker k) j ≡ false
      → list_beq (pred_done_marker k) j ≡ false
      → ops.get_secret (store_record_marker ops s k x).0 j ≡ ops.get_secret s j
  unfolding store_record_marker
  store_record_marker-other s k (in_progress true) j w d =
      rw write_result-store (lawful.others s (pred_wip_marker k) (flag_value true) j w)
  store_record_marker-other s k (in_progress false) j w d =
      elim (Bool-cases (holds_data (ops.get_secret s (pred_wip_marker k)))) [
        | inl kept ↦ rw kept
        | inr free ↦
            rw (free, write_result-store)
              (lawful.others s (pred_wip_marker k) (flag_value false) j w)
      ]
  store_record_marker-other s k (done had) j w d =
      rw write_result-store (lawful.others s (pred_done_marker k) (flag_value had) j d)

  -- A write removes no key.
  pub set-present :
      (s : S) (k v j : Bytes)
      → is_some (ops.get_secret s j) ≡ true
      → is_some (ops.get_secret (ops.set_secret s k v).0 j) ≡ true
  set-present s k v j h =
      ground
        (arith, lawful.others s k v j, lawful.stored s k v, lawful.refused s k v, list_beq_iff k j)

  store_record_marker-present :
      (s : S) (k : DelegateKey) (x : MigrationMarker) (j : Bytes)
      → is_some (ops.get_secret s j) ≡ true
      → is_some (ops.get_secret (store_record_marker ops s k x).0 j) ≡ true
  unfolding store_record_marker
  store_record_marker-present s k (in_progress true) j h =
      rw write_result-store (set-present s (pred_wip_marker k) (flag_value true) j h)
  store_record_marker-present s k (in_progress false) j h =
      elim (Bool-cases (holds_data (ops.get_secret s (pred_wip_marker k)))) [
        | inl kept ↦ rw kept h
        | inr free ↦
            rw (free, write_result-store) (set-present s (pred_wip_marker k) (flag_value false) j h)
      ]
  store_record_marker-present s k (done had) j h =
      rw write_result-store (set-present s (pred_done_marker k) (flag_value had) j h)

  pub HasValue-Keeps :
      (j v : Bytes) → is_marker j ≡ false → Keeps (secret_store_io ops) no_observer (HasValue j v)
  unfolding store_record_marker store_write_secret
  HasValue-Keeps j v m = record {
    reads = λ o s q h. h;
    marks = λ o s k x h. marked s k x h;
    writes = λ o s i r h.
        ground
          (arith, lawful.present s i.key, lawful.others s i.key i.value j, list_beq_iff i.key j);
    flushes = λ o s k h. h;
    flags = λ o s k g n h. h;
  }
    where
      marked :
          (s : S) (k : DelegateKey) (x : MigrationMarker)
          → ops.get_secret s j ≡ some v
          → ops.get_secret (store_record_marker ops s k x).0 j ≡ some v
      marked s k x h =
          store_record_marker-other s k x j
            (reserved-ne (pred_wip_marker k) j (pred_wip_marker-reserved k) m)
            (reserved-ne (pred_done_marker k) j (pred_done_marker-reserved k) m)
          ∙ h

  pub HasKey-Keeps : (j : Bytes) → Keeps (secret_store_io ops) no_observer (HasKey j)
  unfolding store_write_secret
  HasKey-Keeps j = record {
    reads = λ o s q h. h;
    marks = λ o s k x h. store_record_marker-present s k x j h;
    writes = λ o s i r h. ground (arith, set-present s i.key i.value j);
    flushes = λ o s k h. h;
    flags = λ o s k g n h. h;
  }

  -- A value that is there under a key that is not reserved is there still when the walk is over.
  pub migrate-keeps_values :
      {P : Type 0} (preds : PredecessorSecretsIo P) (policy : SecretSelectionPolicy)
      (predecessors : List DelegateLineageEntry) (s : S) (p : P) (j v : Bytes)
      → is_marker j ≡ false
      → ops.get_secret s j ≡ some v
      → let (rows, s', p') =
          migrate_delegate_secrets (secret_store_io ops) preds predecessors policy s p in
        ops.get_secret s' j ≡ some v
  unfolding migrate_delegate_secrets walk
  migrate-keeps_values preds policy predecessors s p j v m h =
      (walk_rows-Reports (secret_store_io ops) preds no_observer policy (HasValue j v)
        (HasValue-Keeps j v m) (ordered predecessors) (at_start s p tt) h).1
