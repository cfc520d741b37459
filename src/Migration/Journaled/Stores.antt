-- ===== src/Migration/Journaled/Stores.antt =====
-- What storing the journal, as freenet-migrate/src/delegate_migrate.rs does, keeps of an entry.
use freenet_migrate.Prelude.{◌≡◌, refl, false, Option, none, some, List, Bytes, IsSorted}
use freenet_migrate.Prelude.Result.{Result, ok, err}
use freenet_migrate.Lineage.{DelegateLineageEntry}
use freenet_migrate.Journal.{
  SecretSelectionPolicy, DelegateKey, JournalBinding, MigrationJournal, merge_stored,
}
use freenet_migrate.Journal.Status.{JournalDecodeError, unknown_version, corrupt}
use freenet_migrate.Journal.Wire.{Cbor, encode}
use freenet_migrate.Journal.Steps.{Change, change}
use freenet_migrate.Secrets.{is_marker}
use freenet_migrate.Migration.{MigrationMarker, MarkerQuery, RecoveredSecret}
use freenet_migrate.Migration.Journaled.{
  JournaledSuccessorIo, JournalError, Act, Held, ◌>>=◌, or_fail, successor_failed, reread_failed,
  store_failed, fresh_journal, merge_in, merge_rebuilt, merge_loaded, write_back, store_merged,
  with_successor, decoded,
}
use freenet_migrate.Migration.Journaled.Fresh.{fresh_journal-Yields}
use freenet_migrate.Migration.Journaled.Acts.{
  Preserves, Preserves-bind, Preserves-or_fail, Outcome-safe,
}

-- No change of a journal loses the property, and a merge into a journal of other entries does not.
pub record IsKept (b : JournalBinding) (Good : MigrationJournal → Type 0) : Type 0 where
  pub changed : (c : Change) (m : MigrationJournal) → Good m → Good (change c m)
  pub seeded :
      (other m : MigrationJournal) → IsSorted other → Good m → Good (merge_stored other m (some b))

-- What the successor's calls keep, where only journals that satisfy `Good` are stored.
pub record KeepsJournal {W : Type 0} (cbor : Cbor) (succ : JournaledSuccessorIo W)
    (Good : MigrationJournal → Type 0) (I : W → Type 0) : Type 0 where
  pub loads : (s : W) → I s → I (succ.load_journal s).0
  pub stores :
      (s : W) (journal : MigrationJournal)
      → Good journal
      → I s
      → I (succ.store_journal s (encode cbor journal)).0
  pub reads : (s : W) (q : MarkerQuery) → I s → I (succ.secrets_io.migration_marker s q).0
  pub marks :
      (s : W) (k : DelegateKey) (m : MigrationMarker)
      → I s
      → I (succ.secrets_io.record_marker s k m).0
  pub writes :
      (s : W) (i : RecoveredSecret)
      → is_marker i.key ≡ false
      → I s
      → I (succ.secrets_io.write_secret s i).0
  pub flushes : (s : W) (k : DelegateKey) → I s → I (succ.secrets_io.flush_predecessor s k).0

module _ {W : Type 0} (cbor : Cbor) (succ : JournaledSuccessorIo W) (policy : SecretSelectionPolicy)
    (Good : MigrationJournal → Type 0) (b : JournalBinding)
    (merged : (other m : MigrationJournal) → Good m → Good (merge_stored m other (some b)))
    (I : W → Type 0) (keeps : KeepsJournal cbor succ Good I) where
  -- The successor, and the journal in the hands of the code.
  abbrev pub Safe : Held W → Type 0
  Safe (s, journal) = I s × Good journal

  with_successor-Preserves :
      {A : Type 0} (m : Act W A)
      → Preserves I m
      → Preserves Safe (with_successor cbor succ policy m)
  with_successor-Preserves m h (s, journal) (i, p) = (h s i, p)

  merge_in-Preserves :
      (other : MigrationJournal) → Preserves Safe (merge_in cbor succ policy other (some b))
  unfolding merge_in
  merge_in-Preserves other (s, journal) (i, p) = (i, merged other journal p)

  merge_loaded-Preserves :
      (rebuild : Option (List DelegateLineageEntry))
      (r : Option (Result JournalDecodeError MigrationJournal))
      → Preserves Safe (merge_loaded cbor succ policy (some b) rebuild r)
  unfolding merge_loaded merge_rebuilt
  merge_loaded-Preserves rebuild none = λ s h. h
  merge_loaded-Preserves rebuild (some (ok theirs)) = merge_in-Preserves theirs
  merge_loaded-Preserves rebuild (some (err (unknown_version v))) = λ s h. h
  merge_loaded-Preserves none (some (err (corrupt text))) = λ s h. h
  merge_loaded-Preserves (some lineage) (some (err (corrupt text))) =
      Preserves-bind Safe _ _
        (with_successor-Preserves (fresh_journal succ policy lineage) (λ s i.
          Outcome-safe I IsSorted _
            (fresh_journal-Yields cbor succ policy I (λ s q. keeps.reads s q) lineage s i)))
        merge_in-Preserves

  write_back-Preserves : Preserves Safe (write_back cbor succ policy)
  unfolding write_back
  write_back-Preserves (s, journal) (i, p) = (
    Preserves-or_fail I (λ e. successor_failed (store_failed e))
        (λ t. succ.store_journal t (encode cbor journal)) (λ t. keeps.stores t journal p) s i,
    p,
  )

  pub store_merged-Preserves :
      (rebuild : Option (List DelegateLineageEntry))
      → Preserves Safe (store_merged cbor succ policy (some b) rebuild)
  unfolding store_merged
  store_merged-Preserves rebuild =
      Preserves-bind Safe _ _
        (with_successor-Preserves
          (or_fail (λ e. successor_failed (reread_failed e)) succ.load_journal)
          (Preserves-or_fail I _ succ.load_journal (λ s h. keeps.loads s h)))
        (λ loaded.
          Preserves-bind Safe _ _ (merge_loaded-Preserves rebuild (decoded cbor succ policy loaded))
            (λ x. write_back-Preserves))

-- What a store that succeeds has stored last: the journal in the hands of the code.
module _ {W : Type 0} (cbor : Cbor) (succ : JournaledSuccessorIo W)
    (policy : SecretSelectionPolicy) where
  abbrev pub Wrote : Held W × Result JournalError (Unit {0}) → Type 0
  Wrote ((s, journal), ok u) = (t : W) × (succ.store_journal t (encode cbor journal) ≡ (s, ok tt))
  Wrote (x, err e) = Unit

  Wrote-bind :
      {A : Type 0} (m : Act (Held W) A) (f : A → Act (Held W) (Unit {0}))
      → ((a : A) (x : Held W) → Wrote (f a x))
      → (x : Held W) → Wrote ((m >>= f) x)
  unfolding ◌>>=◌
  Wrote-bind {A} m f h x = go (m x)
    where
      go :
          (r : Held W × Result JournalError A)
          → let out : Held W × Result JournalError (Unit {0}) = elim r.1 [
            | ok a ↦ f a r.0
            | err e ↦ (r.0, err e)
          ] in
            Wrote out
      go (y, ok a) = h a y
      go (y, err e) = tt

  write_back-Wrote : (x : Held W) → Wrote (write_back cbor succ policy x)
  unfolding write_back
  write_back-Wrote (s, journal) = go (succ.store_journal s (encode cbor journal)) refl
    where
      go :
          (r : W × Result Bytes (Unit {0}))
          → succ.store_journal s (encode cbor journal) ≡ r
          → let out : W × Result JournalError (Unit {0}) = elim r.1 [
            | ok u ↦ (r.0, ok u)
            | err e ↦ (r.0, err (successor_failed (store_failed e)))
          ] in
            Wrote ((out.0, journal), out.1)
      go (t, ok u) q = (s, q)
      go (t, err e) q = tt

  pub store_merged-Wrote :
      (binding : Option JournalBinding) (rebuild : Option (List DelegateLineageEntry)) (x : Held W)
      → Wrote (store_merged cbor succ policy binding rebuild x)
  unfolding store_merged
  store_merged-Wrote binding rebuild =
      Wrote-bind _ _ (λ loaded. Wrote-bind _ _ (λ u. write_back-Wrote))
