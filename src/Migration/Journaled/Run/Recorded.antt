-- ===== src/Migration/Journaled/Run/Recorded.antt =====
-- What a journaled run of freenet-migrate/src/delegate_migrate.rs leaves in the stored journal.
use freenet_migrate.Prelude.{
  ◌≡◌, ◌⊎◌, refl, sym, subst, ◌∙◌, false, Option, some, List, [], ◌∷◌, arith, Bytes, get, inl, inr,
  IsSorted, nat_eq,
}
use freenet_migrate.Prelude.Result.{Result, ok, err}
use freenet_migrate.Lineage.{DelegateLineageEntry}
use freenet_migrate.Journal.{
  SecretSelectionPolicy, DelegateKey, JournalState, resolved, imported, JournalBinding,
  MigrationJournal, effective, merge_states, binding_of,
}
use freenet_migrate.Journal.Wire.{Cbor, RoundTrips, encode}
use freenet_migrate.Journal.Wire.RoundTrip.{decode-encode}
use freenet_migrate.Journal.Steps.{changes, Holds}
use freenet_migrate.Journal.Steps.Stable.{changes-Holds}
use freenet_migrate.Journal.Steps.Merged.{Survives, merge_stored-brings}
use freenet_migrate.Journal.Steps.Sorted.{change-IsSorted, merge_stored-IsSorted}
use freenet_migrate.Journal.Steps.Persistence.{IsImported, IsImported-stable, Brings-anything}
use freenet_migrate.Secrets.{is_marker}
use freenet_migrate.Migration.{MigrationMarker, MarkerQuery, RecoveredSecret, PredecessorSecretsIo}
use freenet_migrate.Migration.Journaled.{JournaledSuccessorIo, JournalError}
use freenet_migrate.Migration.Journaled.Stores.{IsKept, KeepsJournal}
use freenet_migrate.Migration.Journaled.Start.Begins.{ReadsGood, LoadsGood}
use freenet_migrate.Migration.Journaled.Run.{migrate_delegate_secrets_journaled}
use freenet_migrate.Migration.Journaled.Run.Kept.{run-keeps}

-- The journal is the bytes `stored`: a load gives them or fails, a store replaces them or fails, and
-- nothing else changes them, a secret written under a key that is not
-- reserved included.
pub record StoresJournal {W : Type 0} (succ : JournaledSuccessorIo W) (stored : W → Option Bytes)
    : Type 0 where
  pub loads : (s : W) → stored (succ.load_journal s).0 ≡ stored s
  pub loaded :
      (s : W) (bytes : Option Bytes) → (succ.load_journal s).1 ≡ ok bytes → bytes ≡ stored s
  pub stores :
      (s : W) (bytes : Bytes)
      → (stored (succ.store_journal s bytes).0 ≡ some bytes)
        ⊎ (stored (succ.store_journal s bytes).0 ≡ stored s)
  pub reads : (s : W) (q : MarkerQuery) → stored (succ.secrets_io.migration_marker s q).0 ≡ stored s
  pub marks :
      (s : W) (k : DelegateKey) (m : MigrationMarker)
      → stored (succ.secrets_io.record_marker s k m).0 ≡ stored s
  pub writes :
      (s : W) (i : RecoveredSecret)
      → is_marker i.key ≡ false
      → stored (succ.secrets_io.write_secret s i).0 ≡ stored s
  pub flushes :
      (s : W) (k : DelegateKey) → stored (succ.secrets_io.flush_predecessor s k).0 ≡ stored s

-- The journal has the predecessor as imported, and its keys in order.
abbrev pub Records : Bytes → MigrationJournal → Type 0
Records k m = IsSorted m × Holds (λ s. s ≡ resolved imported) (get k m)

IsImported-Survives : (b : JournalBinding) → Survives IsImported b
unfolding merge_states effective
IsImported-Survives b t s h = ground arith

IsImported-brought :
    (b : JournalBinding) (t s : JournalState)
    → IsImported t
    → IsImported (merge_states (effective t b) (effective s b))
unfolding merge_states effective
IsImported-brought b t s h = ground arith

IsImported-evaluated :
    (b : JournalBinding) (t : JournalState) → IsImported t → IsImported (effective t b)
unfolding effective
IsImported-evaluated b t h = ground arith

Records-IsKept : (k : Bytes) (b : JournalBinding) → IsKept b (Records k)
unfolding changes
Records-IsKept k b = record {
  changed = λ c m (s, h). (
    change-IsSorted c m s,
    changes-Holds IsImported (λ t. Unit) (λ o. Unit) IsImported-stable k (c ∷ []) m
        (Brings-anything k (c ∷ [])) h,
  );
  seeded = λ other m o (s, h). (
    merge_stored-IsSorted m other (some b) o,
    merge_stored-brings IsImported b (IsImported-Survives b) (IsImported-brought b)
        (IsImported-evaluated b) k m other h,
  );
}

module _ {W P : Type 0} (cbor : Cbor) (codec : RoundTrips cbor) (display : JournalError → Bytes)
    (succ : JournaledSuccessorIo W) (stored : W → Option Bytes)
    (journal_store : StoresJournal succ stored) (preds : PredecessorSecretsIo P)
    (policy : SecretSelectionPolicy) (predecessors : List DelegateLineageEntry) where
  -- The stored bytes are those of a journal that has the predecessor as imported.
  abbrev pub HasRecorded : Bytes → W → Type 0
  HasRecorded k s = (m : MigrationJournal) × (stored s ≡ some (encode cbor m)) × Records k m

  HasRecorded-same :
      (k : Bytes) (s s' : W) → stored s' ≡ stored s → HasRecorded k s → HasRecorded k s'
  HasRecorded-same k s s' e (m, q, r) = (m, e ∙ q, r)

  HasRecorded-KeepsJournal : (k : Bytes) → KeepsJournal cbor succ (Records k) (HasRecorded k)
  HasRecorded-KeepsJournal k = record {
    loads = λ s h. HasRecorded-same k s _ (journal_store.loads s) h;
    stores = λ s m good h. elim (journal_store.stores s (encode cbor m)) [
      | inl q ↦ (m, q, good)
      | inr q ↦ HasRecorded-same k s _ q h
    ];
    reads = λ s q h. HasRecorded-same k s _ (journal_store.reads s q) h;
    marks = λ s p m h. HasRecorded-same k s _ (journal_store.marks s p m) h;
    writes = λ s i u h. HasRecorded-same k s _ (journal_store.writes s i u) h;
    flushes = λ s p h. HasRecorded-same k s _ (journal_store.flushes s p) h;
  }

  HasRecorded-loads :
      (k : Bytes) (s : W) → HasRecorded k s → LoadsGood cbor (Records k) (succ.load_journal s).1
  HasRecorded-loads k s (m, q, r) = go (succ.load_journal s).1 (journal_store.loaded s)
    where
      go :
          (x : Result Bytes (Option Bytes))
          → ((bytes : Option Bytes) → x ≡ ok bytes → bytes ≡ stored s)
          → LoadsGood cbor (Records k) x
      go (err e) h = tt
      go (ok bytes) h =
          subst (λ y. LoadsGood cbor (Records k) (ok y)) (sym (h bytes refl ∙ q))
            (subst (ReadsGood (Records k)) (sym (decode-encode cbor codec m r.0)) r)

  -- Where the codec reads back what it wrote and nothing but a store changes the stored journal: if the
  -- journal, in the order of its keys, has a predecessor as imported, so has the one that is stored after
  -- a journaled run, whichever calls of the successor fail, whatever the markers say and the predecessors
  -- answer, and under any policy, lineage and import revision.
  pub migrate_delegate_secrets_journaled-keeps_imported :
      (k : Bytes) (s : W) (p : P) (m : MigrationJournal)
      → IsSorted m
      → Holds (λ t. t ≡ resolved imported) (get k m)
      → stored s ≡ some (encode cbor m)
      → let s' =
          (migrate_delegate_secrets_journaled cbor display succ preds policy predecessors s p).1 in
        (m' : MigrationJournal) × (stored s' ≡ some (encode cbor m'))
        × IsSorted m'
        × Holds (λ t. t ≡ resolved imported) (get k m')
  migrate_delegate_secrets_journaled-keeps_imported k s p m o h q =
      let (m', q', r') =
        run-keeps cbor display succ preds policy predecessors (Records k)
          (Records-IsKept k (binding_of policy succ.import_revision)) (HasRecorded k)
          (HasRecorded-KeepsJournal k) (HasRecorded-loads k) s p (m, q, (o, h)) in
      (m', q', r'.0, r'.1)
