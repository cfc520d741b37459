-- ===== src/Migration/Journaled.antt =====
-- The journaled entry points of freenet-migrate/src/delegate_migrate.rs: their interface and errors, and
-- how a journal is made from the markers and stored. The error's text is the value that it prints.
pub mod Start
pub mod Outcomes
pub mod Fresh
pub mod Acts
pub mod Stores
pub mod Run
pub mod App
pub mod Examples
use freenet_migrate.Prelude.{
  ℕ, Bool, true, false, not, ◌&&◌, ◌||◌, Option, none, some, List, [], ◌∷◌, Bytes, if◌then◌else◌,
  get,
}
use freenet_migrate.Prelude.Result.{Result, ok, err}
use freenet_migrate.Lineage.{DelegateLineageEntry}
use freenet_migrate.Journal.{
  SecretSelectionPolicy, DelegateKey, JournalResolution, JournalState, resolved, pending,
  JournalEntry, JournalBinding, MigrationJournal, RunOutcome, resolved_as, imported, no_data,
  superseded_by_authoritative, is_data_bearing, is_started, lineage_key, new_pending,
  mark_import_started, merge_stored, record_outcome,
}
use freenet_migrate.Journal.Status.{
  CorruptText, JournalDecodeError, unknown_version, corrupt, JournalStatus, status,
}
use freenet_migrate.Journal.Wire.{Cbor, encode, decode}
use freenet_migrate.Migration.{
  LegacyBridge, at_or_above_generation, exact_generation_only, legacy_bridge, MigrationMarker,
  in_progress, done, MarkerQuery, SuccessorSecretsIo,
}

-- `JournaledSuccessorIo`, beside its supertrait.
pub record JournaledSuccessorIo (W : Type 0) : Type 0 where
  pub secrets_io : SuccessorSecretsIo W
  pub load_journal : W → W × Result Bytes (Option Bytes)
  pub store_journal : W → Bytes → W × Result Bytes (Unit {0})
  pub journal_key : Bytes
  pub import_revision : ℕ

-- What the text of `JournalError::Successor` prints.
pub data SuccessorText : Type 0 where
  load_failed reread_failed store_failed marker_read_failed start_marker_read_failed :
      Bytes → SuccessorText
  newer_marker_read_failed in_progress_marker_failed : Bytes → SuccessorText
  stored_corrupt : CorruptText → SuccessorText
  none_stored no_entry : SuccessorText
  reads_back : Result Bytes (Option MigrationMarker) → SuccessorText

-- What the text of `JournalError::NotImportable` prints.
pub data NotImportableText : Type 0 where
  not_in_lineage superseded_by_legacy_seal : NotImportableText
  superseded_by not_answered : ℕ → NotImportableText

pub data JournalError : Type 0 where
  successor_failed : SuccessorText → JournalError
  foreign_version : ℕ → JournalError
  not_importable : NotImportableText → JournalError

pub data AppImport : Type 0 where
  flagged already_imported : AppImport

-- Code on a state that can fail; the state stays as it is.
abbrev pub Act : Type 0 → Type 0 → Type 0
Act S A = S → S × Result JournalError A

module _ {S : Type 0} where
  infixl 5 ◌>>=◌ ◌>>◌
  abbrev pub pure : {A : Type 0} → A → Act S A
  pure a s = (s, ok a)

  abbrev pub fail : {A : Type 0} → JournalError → Act S A
  fail e s = (s, err e)

  unfoldable pub ◌>>=◌ : {A B : Type 0} → Act S A → (A → Act S B) → Act S B
  ◌>>=◌ m f s = let (s', r) = m s in elim r [ ok a ↦ f a s' | err e ↦ (s', err e) ]

  abbrev pub ◌>>◌ : {A B : Type 0} → Act S A → Act S B → Act S B
  m >> k = m >>= λ _. k

  -- `map_err(…)?` on a call of the successor
  abbrev pub or_fail : {A : Type 0} → (Bytes → JournalError) → (S → S × Result Bytes A) → Act S A
  or_fail text call s =
      let (s', r) = call s in elim r [ ok a ↦ (s', ok a) | err e ↦ (s', err (text e)) ]

abbrev pub says_in_progress : Option MigrationMarker → Bool
says_in_progress (some (in_progress true)) = true
says_in_progress _ = false

abbrev pub entry_state : MigrationJournal → DelegateKey → Option JournalState
entry_state journal key = elim (get key.key journal) [ none ↦ none | some e ↦ some e.state ]

-- `matches!(…, Some(JournalState::Resolved(r)) if r.is_data_bearing())`, and with `!`
unfoldable pub is_resolved_with_data : Option JournalState → Bool
unfolding is_data_bearing
is_resolved_with_data (some (resolved r)) = is_data_bearing r
is_resolved_with_data _ = false

unfoldable pub is_resolved_without_data : Option JournalState → Bool
unfolding is_data_bearing
is_resolved_without_data (some (resolved r)) = not (is_data_bearing r)
is_resolved_without_data _ = false

module _ {W : Type 0} (succ : JournaledSuccessorIo W) (policy : SecretSelectionPolicy) where
  abbrev pub marker_at :
      DelegateKey → ℕ → LegacyBridge → W → W × Result Bytes (Option MigrationMarker)
  marker_at key generation bridge s =
      succ.secrets_io.migration_marker s
        (record { predecessor = key; generation = generation; bridge = bridge })

  -- The marker of a seal with data: the exact one, where the seal may be of a newer generation.
  seal_marker : LegacyBridge → DelegateKey → ℕ → Act W (Option MigrationMarker)
  seal_marker at_or_above_generation key generation =
      or_fail (λ e. successor_failed (start_marker_read_failed e))
        (marker_at key generation exact_generation_only)
  seal_marker exact_generation_only key generation = pure (some (done true))

  -- The inner `match` of `fresh_journal`.
  take_seal : DelegateLineageEntry → Option MigrationMarker → MigrationJournal → MigrationJournal
  take_seal e (some (done true)) journal =
      record_outcome journal (lineage_key e) e.generation (resolved_as imported)
  take_seal e (some (in_progress true)) journal =
      (mark_import_started journal (lineage_key e) e.generation).0
  take_seal e _ journal =
      record_outcome journal (lineage_key e) e.generation (resolved_as superseded_by_authoritative)

  -- The outer `match`.
  take_marker :
      DelegateLineageEntry → MigrationJournal → Option MigrationMarker → Act W MigrationJournal
  unfolding seal_marker take_seal
  take_marker e journal (some (in_progress true)) =
      pure (mark_import_started journal (lineage_key e) e.generation).0
  take_marker e journal (some (done false)) =
      pure (record_outcome journal (lineage_key e) e.generation (resolved_as no_data))
  take_marker e journal (some (done true)) = do
    exact ← seal_marker (legacy_bridge policy) (lineage_key e) e.generation
    pure (take_seal e exact journal)
  take_marker e journal _ = pure journal

  fresh_from : List DelegateLineageEntry → MigrationJournal → Act W MigrationJournal
  unfolding take_marker
  fresh_from [] journal = pure journal
  fresh_from (e ∷ es) journal = do
    marker ←
        or_fail (λ x. successor_failed (start_marker_read_failed x))
          (marker_at (lineage_key e) e.generation (legacy_bridge policy))
    journal' ← take_marker e journal marker
    fresh_from es journal'

  unfoldable pub fresh_journal : List DelegateLineageEntry → Act W MigrationJournal
  unfolding fresh_from
  fresh_journal predecessors = fresh_from predecessors (new_pending predecessors)

-- The journal in the hands of the code, beside the successor.
abbrev pub Held : Type 0 → Type 0
Held W = W × MigrationJournal

module _ {W : Type 0} (cbor : Cbor) (succ : JournaledSuccessorIo W)
    (policy : SecretSelectionPolicy) where
  -- On the successor alone.
  abbrev pub with_successor : {A : Type 0} → Act W A → Act (Held W) A
  with_successor act (s, journal) = let (s', r) = act s in ((s', journal), r)

  merge_in : MigrationJournal → Option JournalBinding → Act (Held W) (Unit {0})
  merge_in other binding (s, journal) = ((s, merge_stored journal other binding), ok tt)

  -- `rebuild` of a corrupt journal
  merge_rebuilt :
      Option JournalBinding
      → Option (List DelegateLineageEntry)
      → CorruptText
      → Act (Held W) (Unit {0})
  unfolding merge_in
  merge_rebuilt binding (some lineage) text = do
    rebuilt ← with_successor (fresh_journal succ policy lineage)
    merge_in rebuilt binding
  merge_rebuilt binding none text = fail (successor_failed (stored_corrupt text))

  -- What is stored, if it is read.
  merge_loaded :
      Option JournalBinding
      → Option (List DelegateLineageEntry)
      → Option (Result JournalDecodeError MigrationJournal)
      → Act (Held W) (Unit {0})
  unfolding merge_in merge_rebuilt
  merge_loaded binding rebuild none = pure tt
  merge_loaded binding rebuild (some (ok stored)) = merge_in stored binding
  merge_loaded binding rebuild (some (err (unknown_version v))) = fail (foreign_version v)
  merge_loaded binding rebuild (some (err (corrupt text))) = merge_rebuilt binding rebuild text

  abbrev pub decoded : Option Bytes → Option (Result JournalDecodeError MigrationJournal)
  decoded none = none
  decoded (some bytes) = some (decode cbor bytes)

  write_back : Act (Held W) (Unit {0})
  write_back (s, journal) =
      with_successor
        (or_fail (λ e. successor_failed (store_failed e))
          (λ s. succ.store_journal s (encode cbor journal)))
        (s, journal)

  -- `rebuild` is the lineage, where the code gives it with the policy.
  unfoldable pub store_merged :
      Option JournalBinding → Option (List DelegateLineageEntry) → Act (Held W) (Unit {0})
  unfolding merge_loaded write_back
  store_merged binding rebuild = do
    loaded ← with_successor (or_fail (λ e. successor_failed (reread_failed e)) succ.load_journal)
    merge_loaded binding rebuild (decoded loaded)
    write_back
