-- ===== src/Migration/Walk/Stored/Arrived.antt =====
-- What stands behind a row of the report of freenet-migrate/src/delegate_migrate.rs, over a delegate's store.
use freenet_migrate.Prelude.{
  ℕ, ◌≡◌, refl, ap, subst, Bool, true, false, not, ◌||◌, Option, some, List, Bytes, is_some,
  is_empty, Bool-cases, inl, inr,
}
use freenet_migrate.Prelude.Result.{Result, ok, err}
use freenet_migrate.Journal.{SecretSelectionPolicy, DelegateKey}
use freenet_migrate.Secrets.{SecretPair, SecretStore, IsLawful, pred_done_marker, flag_value}
use freenet_migrate.Secrets.Markers.{pred_done_marker-reserved}
use freenet_migrate.Secrets.Import.Writes.{AllPresent}
use freenet_migrate.Secrets.Import.Phases.{AllPresent-set}
use freenet_migrate.Migration.{
  MigrationMarker, PredecessorSecretsIo, PredecessorMigration, imported, no_data, already_migrated,
  superseded, unresponsive, incomplete, writer_unavailable, data_bearing_is_authoritative,
}
use freenet_migrate.Migration.Store.{secret_store_io, store_record_marker, write_result}
use freenet_migrate.Migration.Walk.{no_observer}
use freenet_migrate.Migration.Walk.Turns.{Walk, Turn, goes_on, ends}
use freenet_migrate.Migration.Walk.Items.{Items, all_taken, exported_count, prior_attempt}
use freenet_migrate.Migration.Walk.Visits.{
  known_data, fetch, fetch_case, observed_items, kept_items, import_items, seal, sealed_case,
  migrated, import_all, visit_asking, visit_steps, visit, settle,
}
use freenet_migrate.Migration.Walk.Visits.Fits.{
  Ensures, Ensures-bind, Ensures-map, Keeps, is_import,
}
use freenet_migrate.Migration.Walk.Visits.Rules.{
  Ended, check_journal-Ensures, read_marker-Ensures, check_seal-Ensures, flag_prior-Ensures,
  probe-Ensures, check_export-Ensures, begin_import-Ensures, mark_begun-Ensures,
  confirm_begun-Ensures,
}
use freenet_migrate.Migration.Walk.Report.{anything-Keeps}
use freenet_migrate.Migration.Walk.Stored.Items.{write_and_flush-AllPresent, kept_items-AllPresent}

-- A predecessor that answers an export answers it with the same secrets.
pub record Answers {P : Type 0} (preds : PredecessorSecretsIo P)
    (exports : DelegateKey → List SecretPair) : Type 0 where
  pub same :
      (p : P) (k : DelegateKey) (secrets : List SecretPair)
      → (preds.fetch_secrets p k).1 ≡ ok secrets
      → secrets ≡ exports k

module _ {S : Type 0} (ops : SecretStore S) (exports : DelegateKey → List SecretPair) where
  -- The predecessor's marker is there, and each of its secrets that is not under a reserved key.
  abbrev pub Has : S → DelegateKey → Type 0
  Has s k = (is_some (ops.get_secret s (pred_done_marker k)) ≡ true) × AllPresent ops s (exports k)

  -- What a row promises.
  abbrev pub Arrived : S → PredecessorMigration → Type 0
  Arrived s (imported k _ _) = Has s k
  Arrived s (no_data k _) = Has s k
  Arrived s _ = Unit

  not_import-Arrived : (s : S) (row : PredecessorMigration) → is_import row ≡ false → Arrived s row
  not_import-Arrived s (imported k g t) h = cc
  not_import-Arrived s (no_data k g) h = cc
  not_import-Arrived s (already_migrated k g) h = tt
  not_import-Arrived s (superseded k g) h = tt
  not_import-Arrived s (unresponsive k g e) h = tt
  not_import-Arrived s (incomplete k g t f) h = tt
  not_import-Arrived s (writer_unavailable k g f) h = tt

module _ {S P : Type 0} (ops : SecretStore S) (lawful : IsLawful ops)
    (preds : PredecessorSecretsIo P) (exports : DelegateKey → List SecretPair)
    (answers : Answers preds exports) (policy : SecretSelectionPolicy) (key : DelegateKey)
    (generation : ℕ) where
  abbrev End : PredecessorMigration → Bool → Walk S P (Unit {0}) → Type 0
  End row over w = Arrived ops exports w.successor row

  abbrev On : {A : Type 0} → A → Walk S P (Unit {0}) → Type 0
  On a w = Unit

  abbrev Final : PredecessorMigration × Bool → Walk S P (Unit {0}) → Type 0
  Final r w = Arrived ops exports w.successor r.0

  -- The items on the list are all that the predecessor exports, but for reserved keys.
  abbrev Offers : List SecretPair → Walk S P (Unit {0}) → Type 0
  Offers items w =
      items
      ≡ kept_items (secret_store_io ops) preds no_observer policy key generation tt (exports key)

  early :
      {A : Type 0} (r : Turn A × Walk S P (Unit {0}))
      → Ensures
          (λ a w. Unit)
          (Ended
            (secret_store_io ops)
            preds
            no_observer
            policy
            (λ o s. Unit)
            (anything-Keeps (secret_store_io ops) preds no_observer policy)
            key
            generation)
          r
      → Ensures On End r
  early {A} r h =
      Ensures-map (λ a w. Unit) On
        (Ended (secret_store_io ops) preds no_observer policy (λ o s. Unit)
          (anything-Keeps (secret_store_io ops) preds no_observer policy) key generation)
        End r h (λ a s x. tt) (λ row over w x. not_import-Arrived ops exports w.successor row x.2)

  fetch-Offers :
      (prior : Bool) (w : Walk S P (Unit {0}))
      → Ensures
          (λ secrets w'. secrets ≡ exports key)
          End
          (fetch (secret_store_io ops) preds no_observer policy key generation prior w)
  unfolding fetch fetch_case
  fetch-Offers prior w = go (preds.fetch_secrets w.io key) refl
    where
      go :
          (r : P × Result Bytes (List SecretPair))
          → (preds.fetch_secrets w.io key) ≡ r
          → Ensures
              (λ secrets w'. secrets ≡ exports key)
              End
              (fetch_case (secret_store_io ops) preds no_observer policy key generation prior r w)
      go (p, ok secrets) e = answers.same w.io key secrets (ap (λ x. x.1) e)
      go (p, err x) e = tt

  Taken : List SecretPair → Items → Walk S P (Unit {0}) → Type 0
  Taken items x w = all_taken x ≡ true → AllPresent ops w.successor items

  import_items-Taken :
      (retry : Bool) (items : List SecretPair) (w : Walk S P (Unit {0}))
      → Ensures
          (Taken items)
          End
          (import_items (secret_store_io ops) preds no_observer policy key generation retry items w)
  unfolding import_items Taken
  import_items-Taken retry items w =
      write_and_flush-AllPresent ops lawful preds policy key generation w.withheld_keys retry items
        w.successor

  seal-Final :
      (saw_data : Bool) (items : List SecretPair) (x : Items) (w : Walk S P (Unit {0}))
      → Offers items w
      → Taken items x w
      → Ensures
          (λ row w'. Final (row, data_bearing_is_authoritative policy saw_data) w')
          End
          (seal (secret_store_io ops) preds no_observer policy key generation saw_data x w)
  unfolding seal Taken store_record_marker
  seal-Final saw_data items x w offers taken = elim (Bool-cases (all_taken x)) [
    | inr left ↦ rw left tt
    | inl clean ↦ rw clean (
        go (ops.set_secret w.successor (pred_done_marker key) (flag_value saw_data))
          (lawful.stored w.successor (pred_done_marker key) (flag_value saw_data))
          (AllPresent-set ops lawful w.successor (pred_done_marker key) (flag_value saw_data)
            (exports key) (pred_done_marker-reserved key)
            (kept_items-AllPresent ops preds policy key generation w.successor (exports key)
              (subst (AllPresent ops w.successor) offers (taken clean)))))
  ]
    where
      go :
          (r : S × Bool)
          → (r.1 ≡ true → ops.get_secret r.0 (pred_done_marker key) ≡ some (flag_value saw_data))
          → AllPresent ops r.0 (exports key)
          → Ensures
              (λ row w'. Final (row, data_bearing_is_authoritative policy saw_data) w')
              End
              (sealed_case
                (secret_store_io ops)
                preds
                no_observer
                policy
                key
                generation
                saw_data
                x
                (write_result ops (pred_done_marker key) r)
                w)
      go (s, false) stored there = tt
      go (s, true) stored there = row saw_data
        where
          row :
              (b : Bool)
              → Arrived ops exports s
                  (migrated (secret_store_io ops) preds no_observer policy key generation b x.tally)
          row true = (ap is_some (stored refl), there)
          row false = (ap is_some (stored refl), there)

  abbrev kept : Keeps (secret_store_io ops) no_observer (λ o s. Unit)
  kept = anything-Keeps (secret_store_io ops) preds no_observer policy

  import_all-Final :
      (marker : Option MigrationMarker) (retry prior : Bool) (items : List SecretPair)
      (w : Walk S P (Unit {0}))
      → Offers items w
      → Ensures Final End (
          import_all
            (secret_store_io ops)
            preds
            no_observer
            policy
            key
            generation
            marker
            retry
            prior
            items
            w)
  unfolding import_all
  import_all-Final marker retry prior items w offers =
      let saw_data = prior || not (is_empty items) in
      Ensures-bind On Final End _ _ w
        (early _ (
          begin_import-Ensures (secret_store_io ops) preds no_observer policy (λ o s. Unit) kept key
            generation saw_data (exported_count items) w tt))
        λ _ w1 _.
          Ensures-bind On Final End _ _ w1
            (early _ (
              mark_begun-Ensures (secret_store_io ops) preds no_observer policy (λ o s. Unit) kept
                key generation saw_data w1 tt))
            λ _ w2 _.
              Ensures-bind On Final End _ _ w2
                (early _ (
                  confirm_begun-Ensures (secret_store_io ops) preds no_observer policy (λ o s. Unit)
                    kept key generation marker w2 tt))
                λ _ w3 _.
                  Ensures-bind (Taken items) Final End _ _ w3 (import_items-Taken retry items w3)
                    λ x w4 taken.
                      Ensures-bind
                        (λ row w'. Final (row, data_bearing_is_authoritative policy saw_data) w')
                        Final End _ _ w4 (seal-Final saw_data items x w4 offers taken)
                        λ row w5 there. there

  offered_items :
      (secrets : List SecretPair) (w : Walk S P (Unit {0}))
      → secrets ≡ exports key
      → Ensures Offers End
          (observed_items (secret_store_io ops) preds no_observer policy key generation secrets w)
  unfolding observed_items
  offered_items secrets w same =
      ap (kept_items (secret_store_io ops) preds no_observer policy key generation tt) same

  known_data-On :
      (w : Walk S P (Unit {0}))
      → Ensures On End (known_data (secret_store_io ops) preds no_observer policy key generation w)
  unfolding known_data
  known_data-On w = tt

  visit_asking-Final :
      (marker : Option MigrationMarker) (a : Bool × Bool) (w : Walk S P (Unit {0}))
      → Ensures Final End
          (visit_asking (secret_store_io ops) preds no_observer policy key generation marker a w)
  unfolding visit_asking
  visit_asking-Final marker (retry, prior) w =
      Ensures-bind On Final End _ _ w
        (early _ (
          flag_prior-Ensures (secret_store_io ops) preds no_observer policy (λ o s. Unit) kept key
            generation prior w tt))
        λ _ w1 _.
          Ensures-bind On Final End _ _ w1
            (early _ (
              probe-Ensures (secret_store_io ops) preds no_observer policy (λ o s. Unit) kept key
                generation prior w1 tt))
            λ _ w2 _.
              Ensures-bind (λ secrets w'. secrets ≡ exports key) Final End _ _ w2
                (fetch-Offers prior w2)
                λ secrets w3 same.
                  Ensures-bind Offers Final End _ _ w3 (offered_items secrets w3 same)
                    λ items w4 offers.
                      Ensures-bind On Final End _ _ w4
                        (early _ (
                          check_export-Ensures (secret_store_io ops) preds no_observer policy
                            (λ o s. Unit) kept key generation prior items w4 tt))
                        λ _ w5 _. import_all-Final marker retry prior items w5 offers

  visit_steps-Final :
      (w : Walk S P (Unit {0}))
      → Ensures Final End
          (visit_steps (secret_store_io ops) preds no_observer policy key generation w)
  unfolding visit_steps
  visit_steps-Final w =
      Ensures-bind On Final End _ _ w
        (early _ (
          check_journal-Ensures (secret_store_io ops) preds no_observer policy (λ o s. Unit) kept
            key generation w tt))
        λ _ w1 _.
          Ensures-bind On Final End _ _ w1
            (early _ (
              read_marker-Ensures (secret_store_io ops) preds no_observer policy (λ o s. Unit) kept
                key generation w1 tt))
            λ marker w2 _. Ensures-bind On Final End _ _ w2 (known_data-On w2) λ known w3 _.
              Ensures-bind On Final End _ _ w3
                (early _ (
                  check_seal-Ensures (secret_store_io ops) preds no_observer policy (λ o s. Unit)
                    kept key generation marker known w3 tt))
                λ _ w4 _. visit_asking-Final marker (prior_attempt marker known) w4

  pub visit-Arrived :
      (w : Walk S P (Unit {0}))
      → let (r, w') = visit (secret_store_io ops) preds no_observer policy key generation w in
        Arrived ops exports w'.successor r.0
  unfolding visit
  visit-Arrived w =
      go (visit_steps (secret_store_io ops) preds no_observer policy key generation w)
        (visit_steps-Final w)
    where
      go :
          (x : Turn (PredecessorMigration × Bool) × Walk S P (Unit {0}))
          → Ensures Final End x
          → Final (settle (secret_store_io ops) preds no_observer policy x.0) x.1
      go (goes_on (row, over), w') k = k
      go (ends row over, w') k = k
