-- ===== src/Migration/Journaled/Fresh.antt =====
-- The journal that freenet-migrate/src/delegate_migrate.rs makes from the markers.
use freenet_migrate.Migration.Journaled.Acts.{
  Preserves, Preserves-or_fail, Yields, Yields-bind, Yields-anything,
}
use freenet_migrate.Prelude.{ℕ, true, false, Option, none, some, List, [], ◌∷◌, Bytes, IsSorted}
use freenet_migrate.Lineage.{DelegateLineageEntry}
use freenet_migrate.Journal.{
  SecretSelectionPolicy, DelegateKey, MigrationJournal, lineage_key, new_pending,
}
use freenet_migrate.Journal.Wire.{Cbor}
use freenet_migrate.Journal.Steps.{mark, outcome, change}
use freenet_migrate.Journal.Steps.Sorted.{change-IsSorted, new_pending-IsSorted}
use freenet_migrate.Migration.{
  LegacyBridge, at_or_above_generation, exact_generation_only, legacy_bridge, MigrationMarker,
  in_progress, done, MarkerQuery,
}
use freenet_migrate.Migration.Journaled.{
  JournaledSuccessorIo, JournalError, or_fail, fresh_journal, fresh_from, take_marker, seal_marker,
  take_seal, marker_at,
}

module _ {W : Type 0} (cbor : Cbor) (succ : JournaledSuccessorIo W) (policy : SecretSelectionPolicy)
    (I : W → Type 0)
    (reads : (s : W) (q : MarkerQuery) → I s → I (succ.secrets_io.migration_marker s q).0) where
  marker_at-Preserves :
      (text : Bytes → JournalError) (key : DelegateKey) (g : ℕ) (bridge : LegacyBridge)
      → Preserves I (or_fail text (marker_at succ policy key g bridge))
  marker_at-Preserves text key g bridge =
      Preserves-or_fail I text (marker_at succ policy key g bridge) (λ s h. reads s _ h)

  marker_at-Yields :
      (text : Bytes → JournalError) (key : DelegateKey) (g : ℕ) (bridge : LegacyBridge)
      → Yields I (λ m. Unit) (or_fail text (marker_at succ policy key g bridge))
  marker_at-Yields text key g bridge =
      Yields-anything I (or_fail text (marker_at succ policy key g bridge))
        (marker_at-Preserves text key g bridge)

  take_seal-IsSorted :
      (e : DelegateLineageEntry) (m : Option MigrationMarker) (journal : MigrationJournal)
      → IsSorted journal
      → IsSorted (take_seal succ policy e m journal)
  unfolding take_seal change
  take_seal-IsSorted e (some (done true)) journal s =
      change-IsSorted (outcome (lineage_key e) e.generation _) journal s
  take_seal-IsSorted e (some (done false)) journal s =
      change-IsSorted (outcome (lineage_key e) e.generation _) journal s
  take_seal-IsSorted e (some (in_progress true)) journal s =
      change-IsSorted (mark (lineage_key e) e.generation) journal s
  take_seal-IsSorted e (some (in_progress false)) journal s =
      change-IsSorted (outcome (lineage_key e) e.generation _) journal s
  take_seal-IsSorted e none journal s =
      change-IsSorted (outcome (lineage_key e) e.generation _) journal s

  seal_marker-Yields :
      (bridge : LegacyBridge) (key : DelegateKey) (g : ℕ)
      → Yields I (λ m. Unit) (seal_marker succ policy bridge key g)
  unfolding seal_marker
  seal_marker-Yields at_or_above_generation key g = marker_at-Yields _ key g exact_generation_only
  seal_marker-Yields exact_generation_only key g = λ s i. (i, tt)

  take_marker-Yields :
      (e : DelegateLineageEntry) (journal : MigrationJournal) (m : Option MigrationMarker)
      → IsSorted journal
      → Yields I IsSorted (take_marker succ policy e journal m)
  unfolding take_marker change
  take_marker-Yields e journal (some (in_progress true)) o =
      λ s i. (i, change-IsSorted (mark (lineage_key e) e.generation) journal o)
  take_marker-Yields e journal (some (in_progress false)) o = λ s i. (i, o)
  take_marker-Yields e journal (some (done false)) o =
      λ s i. (i, change-IsSorted (outcome (lineage_key e) e.generation _) journal o)
  take_marker-Yields e journal (some (done true)) o =
      Yields-bind I (λ m. Unit) IsSorted _ _
        (seal_marker-Yields (legacy_bridge policy) (lineage_key e) e.generation)
        (λ exact u s i. (i, take_seal-IsSorted e exact journal o))
  take_marker-Yields e journal none o = λ s i. (i, o)

  fresh_from-Yields :
      (es : List DelegateLineageEntry) (journal : MigrationJournal)
      → IsSorted journal
      → Yields I IsSorted (fresh_from succ policy es journal)
  unfolding fresh_from
  fresh_from-Yields [] journal o = λ s i. (i, o)
  fresh_from-Yields (e ∷ es) journal o =
      Yields-bind I (λ m. Unit) IsSorted _ _
        (marker_at-Yields _ (lineage_key e) e.generation (legacy_bridge policy))
        (λ m u.
          Yields-bind I IsSorted IsSorted _ _ (take_marker-Yields e journal m o)
            (λ journal' o'. fresh_from-Yields es journal' o'))

  pub fresh_journal-Yields :
      (es : List DelegateLineageEntry) → Yields I IsSorted (fresh_journal succ policy es)
  unfolding fresh_journal
  fresh_journal-Yields es = fresh_from-Yields es (new_pending es) (new_pending-IsSorted es)
