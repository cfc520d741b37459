-- ===== src/Migration/Journaled/Run/Flagged.antt =====
-- `JournalObserver::before_import` of freenet-migrate/src/delegate_migrate.rs: what is stored before an
-- import starts.
use freenet_migrate.Prelude.{
  ℕ, not, ◌&&◌, ◌||◌, ◌≡◌, refl, Bool, true, false, Option, none, some, List, arith, Bytes, get,
  ltb, nat_eq,
}
use freenet_migrate.Prelude.Result.{Result, ok, err}
use freenet_migrate.Lineage.{DelegateLineageEntry}
use freenet_migrate.Journal.{
  SecretSelectionPolicy, DelegateKey, JournalEntry, JournalState, JournalBinding, MigrationJournal,
  imported, no_data, imported_with_rejections, superseded_by_authoritative, pending, resolved,
  completeness_rank, is_data_bearing, binding_of,
}
use freenet_migrate.Journal.Wire.{Cbor, encode}
use freenet_migrate.Journal.Merge.{rank, is_partial}
use freenet_migrate.Journal.Steps.{Holds}
use freenet_migrate.Journal.Steps.Merged.{merge_stored-Holds}
use freenet_migrate.Journal.Steps.Marked.{
  says_data, says_partial, mark_import_started-flags, note_items_seen-keeps_flag, IsRecorded,
  IsRecorded-Survives, IsPartial-IsRecorded, IsRecorded-says,
}
use freenet_migrate.Journal.Steps.Persistence.{IsPartial}
use freenet_migrate.Migration.{PredecessorSecretsIo}
use freenet_migrate.Migration.Journaled.{
  JournaledSuccessorIo, JournalError, store_merged, entry_state,
}
use freenet_migrate.Migration.Journaled.Stores.{store_merged-Preserves, Wrote, store_merged-Wrote}
use freenet_migrate.Migration.Journaled.Run.{
  Observed, note_items, flag_stored, flag_and_store, journal_before_import, started_state,
  with_data,
}

with_data-none :
    (m : MigrationJournal) (key : DelegateKey)
    → with_data (entry_state m key) ≡ none
    → says_data (get key.key m) ≡ false
unfolding with_data rank is_data_bearing completeness_rank
with_data-none m key h = go (get key.key m) h
  where
    go :
        (o : Option JournalEntry)
        → let state : Option JournalState = elim o [ none ↦ none | some e ↦ some e.state ] in
          with_data state ≡ none → says_data o ≡ false
    go none q = refl
    go (some e) q = of_state e.state q
      where
        of_state : (t : JournalState) → with_data (some t) ≡ none → ltb 0 (rank t) ≡ false
        of_state (pending p) q = refl
        of_state (resolved imported) q = cc
        of_state (resolved no_data) q = refl
        of_state (resolved superseded_by_authoritative) q = refl
        of_state (resolved (imported_with_rejections n r i)) q = cc

-- A flag that is new, or was there and is asked for with the number of items, is stored.
asks_to_store :
    (flagged started partial counted : Bool)
    → flagged ≡ not partial
    → started ≡ partial
    → (not flagged && not counted && not started) ≡ false
asks_to_store flagged started partial counted f s = ground arith

started_state-eq :
    (m : MigrationJournal) (key : DelegateKey)
    → started_state (entry_state m key) ≡ says_partial (get key.key m)
unfolding is_partial
started_state-eq m key = go (get key.key m)
  where
    go :
        (o : Option JournalEntry)
        → let state : Option JournalState = elim o [ none ↦ none | some e ↦ some e.state ] in
          started_state state ≡ says_partial o
    go none = refl
    go (some e) = ground arith

module _ {W P : Type 0} (cbor : Cbor) (display : JournalError → Bytes)
    (succ : JournaledSuccessorIo W) (preds : PredecessorSecretsIo P)
    (policy : SecretSelectionPolicy) (predecessors : List DelegateLineageEntry) where
  abbrev binding : JournalBinding
  binding = binding_of policy succ.import_revision

  -- The journal is what was stored last, and has the import.
  abbrev pub IsStored : DelegateKey → (Observed × W) × Result Bytes (Unit {0}) → Type 0
  IsStored key x =
      ((t : W) × (succ.store_journal t (encode cbor x.0.0.journal) ≡ (x.0.1, ok tt)))
      × Holds (λ t. (is_partial t || ltb 0 (rank t)) ≡ true) (get key.key x.0.0.journal)

  flag_stored-IsStored :
      (key : DelegateKey) (first : Option Bytes)
      (r : (W × MigrationJournal) × Result JournalError (Unit {0}))
      → Wrote cbor succ policy r
      → Holds (IsRecorded binding) (get key.key r.0.1)
      → (flag_stored cbor display succ preds policy predecessors first r).1 ≡ ok tt
      → IsStored key (flag_stored cbor display succ preds policy predecessors first r)
  unfolding flag_stored
  flag_stored-IsStored key first ((s, journal), ok u) w h q =
      (w, IsRecorded-says binding (get key.key journal) h)
  flag_stored-IsStored key first ((s, journal), err e) w h q = cc

  -- The store under the journal in memory keeps the flag.
  store-IsRecorded :
      (key : DelegateKey) (s : W) (m : MigrationJournal)
      → Holds IsPartial (get key.key m)
      → Holds (IsRecorded binding) (
          get key.key (store_merged cbor succ policy (some binding) (some predecessors) (s, m)).0.1)
  store-IsRecorded key s m h =
      (store_merged-Preserves cbor succ policy (λ n. Holds (IsRecorded binding) (get key.key n))
        binding
        (λ other n g.
          merge_stored-Holds (IsRecorded binding) binding (IsRecorded-Survives binding) key.key
            other n g)
        (λ t. Unit)
        (record {
          loads = λ t u. tt;
          stores = λ t n g u. tt;
          reads = λ t q u. tt;
          marks = λ t k n u. tt;
          writes = λ t i n u. tt;
          flushes = λ t k u. tt;
        })
        (some predecessors) (s, m) (tt, IsPartial-IsRecorded binding (get key.key m) h)).1

  flag_and_store-IsStored :
      (key : DelegateKey) (flagged : Bool) (o : Observed) (s : W) (m : MigrationJournal)
      (counted retry : Bool)
      → (not flagged && not counted && not retry) ≡ false
      → Holds IsPartial (get key.key m)
      → (flag_and_store cbor display succ preds policy predecessors flagged
          (o, s)
          (m, counted)
          retry).1
        ≡ ok tt
      → IsStored key (
          flag_and_store cbor display succ preds policy predecessors flagged
            (o, s)
            (m, counted)
            retry)
  unfolding flag_and_store
  flag_and_store-IsStored key flagged o s m counted retry c p h = rw c (
      flag_stored-IsStored key o.first_error _
        (store_merged-Wrote cbor succ policy (some binding) (some predecessors) (s, m))
        (store-IsRecorded key s m p) (rw c at h))

  -- Where the journal in memory does not say that the predecessor's data arrived, and the call before an
  -- import with the number of its items succeeds, the last call of the successor stored the journal that
  -- is now in memory, and in it the import has started or, as another session stored, has brought data.
  pub journal_before_import-stores :
      (o : Observed) (s : W) (key : DelegateKey) (generation items : ℕ)
      → with_data (entry_state o.journal key) ≡ none
      → (journal_before_import cbor display succ preds policy predecessors
          (o, s)
          key
          generation
          (some items)).1
        ≡ ok tt
      → IsStored key (
          journal_before_import cbor display succ preds policy predecessors
            (o, s)
            key
            generation
            (some items))
  unfolding journal_before_import note_items
  journal_before_import-stores o s key generation items d h =
      let (flagged, changed) =
        mark_import_started-flags o.journal key generation (with_data-none o.journal key d) in
      let noted = note_items_seen-keeps_flag _ key items flagged in
      flag_and_store-IsStored key _ o s _ _ _
        (asks_to_store _ _ _ _ changed (started_state-eq o.journal key)) noted h
