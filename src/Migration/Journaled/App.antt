-- ===== src/Migration/Journaled/App.antt =====
-- `note_app_import_started` of freenet-migrate/src/delegate_migrate.rs: an application that imports a
-- predecessor's data by itself says so first.
use freenet_migrate.Prelude.{
  ℕ, Bool, true, false, not, ◌||◌, Option, none, some, List, [], ◌∷◌, ◌++◌, Bytes, ltb,
  if◌then◌else◌, get, is_some,
}
use freenet_migrate.Prelude.Result.{Result, ok, err}
use freenet_migrate.Lineage.{DelegateLineageEntry}
use freenet_migrate.Journal.{
  SecretSelectionPolicy, PolicyFamily, newest_snapshot, union, family_of, DelegateKey, JournalState,
  pending, resolved, JournalBinding, binding_of, MigrationJournal, is_data_bearing, is_started,
  lineage_key, mark_import_started, rebind,
}
use freenet_migrate.Journal.Status.{JournalDecodeError, unknown_version, corrupt}
use freenet_migrate.Journal.Wire.{Cbor}
use freenet_migrate.Secrets.{delegate_key_beq}
use freenet_migrate.Migration.{
  LegacyBridge, at_or_above_generation, exact_generation_only, legacy_bridge,
  unresponsive_terminates, MigrationMarker, in_progress, done,
}
use freenet_migrate.Migration.Journaled.{
  JournaledSuccessorIo, JournalError, successor_failed, load_failed, marker_read_failed,
  newer_marker_read_failed, in_progress_marker_failed, stored_corrupt, none_stored, no_entry,
  reads_back, not_importable, not_in_lineage, superseded_by_legacy_seal, superseded_by,
  not_answered, foreign_version, AppImport, flagged, already_imported, Act, pure, fail, ◌>>=◌, ◌>>◌,
  or_fail, entry_state, is_resolved_with_data, marker_at, decoded, store_merged,
}
use freenet_migrate.Migration.Journaled.Run.{note_items}

-- `.find(|e| lineage_key(e) == *predecessor).map(|e| e.generation)`
unfoldable pub generation_of : List DelegateLineageEntry → DelegateKey → Option ℕ
generation_of [] key = none
generation_of (e ∷ es) key =
    if delegate_key_beq (lineage_key e) key then some e.generation else generation_of es key

-- A newer generation whose data is in the successor, or on its way.
unfoldable pub holds_snapshot : Option JournalState → Bool
unfolding is_data_bearing
holds_snapshot (some (resolved r)) = is_data_bearing r
holds_snapshot (some (pending p)) = is_started p.flag || ltb 0 p.rejected
holds_snapshot none = false

abbrev says_done_data : Option MigrationMarker → Bool
says_done_data (some (done true)) = true
says_done_data _ = false

module _ {W : Type 0} (cbor : Cbor) (succ : JournaledSuccessorIo W)
    (policy : SecretSelectionPolicy) where
  -- The first loop over the newer generations: those that the journal does not decide.
  undecided :
      ℕ
      → MigrationJournal
      → List DelegateLineageEntry
      → List DelegateLineageEntry
      → Result JournalError (List DelegateLineageEntry)
  unfolding holds_snapshot
  undecided generation journal [] acc = ok acc
  undecided generation journal (e ∷ es) acc =
      let skipped = undecided generation journal es acc in
      let taken = undecided generation journal es (acc ++ e ∷ []) in
      if not (ltb generation e.generation)
      then skipped
      else if holds_snapshot (entry_state journal (lineage_key e))
      then err (not_importable (superseded_by e.generation))
      else taken

  -- What the exact marker of a newer generation says.
  decide : ℕ → Option MigrationMarker → Result JournalError (Unit {0})
  decide newer (some (in_progress true)) = err (not_importable (superseded_by newer))
  decide newer (some (done true)) = err (not_importable (superseded_by newer))
  decide newer (some (done false)) = ok tt
  decide newer _ =
      if unresponsive_terminates policy false
      then err (not_importable (not_answered newer))
      else ok tt

  -- The second loop.
  ask_undecided : List DelegateLineageEntry → Act W (Unit {0})
  unfolding decide
  ask_undecided [] = pure tt
  ask_undecided (e ∷ es) = do
    marker ←
        or_fail (λ x. successor_failed (newer_marker_read_failed x))
          (marker_at succ policy (lineage_key e) e.generation exact_generation_only)
    λ s. (s, decide e.generation marker)
    ask_undecided es

  -- The check against newer generations, under a snapshot policy.
  unfoldable pub check_newer :
      PolicyFamily → List DelegateLineageEntry → ℕ → MigrationJournal → Act W (Unit {0})
  unfolding undecided ask_undecided
  check_newer union predecessors generation journal = pure tt
  check_newer newest_snapshot predecessors generation journal = do
    open_ones ← λ s. (s, undecided generation journal predecessors [])
    ask_undecided open_ones

  -- A seal with data: its own, or that of a newer generation.
  after_seal : LegacyBridge → DelegateKey → ℕ → Act W AppImport
  after_seal exact_generation_only key generation = pure already_imported
  after_seal at_or_above_generation key generation = do
    exact ←
        or_fail (λ e. successor_failed (marker_read_failed e))
          (marker_at succ policy key generation exact_generation_only)
    λ s.
        if says_done_data exact
        then (s, ok already_imported)
        else (s, err (not_importable superseded_by_legacy_seal))

  read_back : W × Result Bytes (Option MigrationMarker) → W × Result JournalError AppImport
  read_back (s, ok (some (in_progress true))) = (s, ok flagged)
  read_back (s, r) = (s, err (successor_failed (reads_back r)))

  -- The marker, and its reading back.
  mark_and_confirm : DelegateKey → ℕ → Act W AppImport
  unfolding read_back
  mark_and_confirm key generation = do
    or_fail (λ e. successor_failed (in_progress_marker_failed e))
        (λ s. succ.secrets_io.record_marker s key (in_progress true))
    λ s. read_back (marker_at succ policy key generation (legacy_bridge policy) s)

  after_store :
      DelegateKey
      → ℕ
      → (W × MigrationJournal) × Result JournalError (Unit {0})
      → W × Result JournalError AppImport
  unfolding mark_and_confirm
  after_store key generation ((s, journal), err e) = (s, err e)
  after_store key generation ((s, journal), ok _) =
      if is_resolved_with_data (entry_state journal key)
      then (s, ok already_imported)
      else mark_and_confirm key generation s

  -- From `flagged` on.
  flag_import : DelegateKey → ℕ → JournalBinding → Bool → MigrationJournal × Bool → Act W AppImport
  unfolding after_store mark_and_confirm
  flag_import key generation binding flagged_now (journal, counted) s =
      if flagged_now || counted
      then after_store key generation
          (store_merged cbor succ policy (some binding) none (s, journal))
      else mark_and_confirm key generation s

  -- From the binding on.
  unfoldable pub import_bound : DelegateKey → ℕ → Option ℕ → MigrationJournal → Act W AppImport
  unfolding after_seal flag_import
  import_bound key generation items journal = do
    marker ←
        or_fail (λ e. successor_failed (marker_read_failed e))
          (marker_at succ policy key generation (legacy_bridge policy))
    if says_done_data marker
        then after_seal (legacy_bridge policy) key generation
        else flag_import key generation (binding_of policy succ.import_revision)
            (mark_import_started journal key generation).1
            (note_items (mark_import_started journal key generation).0 key items)

  with_binding : DelegateKey → ℕ → Option ℕ → MigrationJournal → Act W AppImport
  unfolding import_bound
  with_binding key generation items journal s =
      if is_resolved_with_data (entry_state journal key)
      then (s, ok already_imported)
      else import_bound key generation items journal s

  with_journal :
      List DelegateLineageEntry
      → DelegateKey
      → ℕ
      → Option ℕ
      → Option (Result JournalDecodeError MigrationJournal)
      → Act W AppImport
  unfolding check_newer with_binding
  with_journal predecessors key generation items none = fail (successor_failed none_stored)
  with_journal predecessors key generation items (some (err (unknown_version v))) =
      fail (foreign_version v)
  with_journal predecessors key generation items (some (err (corrupt e))) =
      fail (successor_failed (stored_corrupt e))
  with_journal predecessors key generation items (some (ok journal)) =
      if is_some (get key.key journal)
      then (do
        check_newer (family_of policy) predecessors generation journal
        with_binding key generation items (rebind (binding_of policy succ.import_revision) journal))
      else fail (successor_failed no_entry)

  with_generation : List DelegateLineageEntry → DelegateKey → Option ℕ → Option ℕ → Act W AppImport
  unfolding with_journal
  with_generation predecessors key items none = fail (not_importable not_in_lineage)
  with_generation predecessors key items (some generation) = do
    loaded ← or_fail (λ e. successor_failed (load_failed e)) succ.load_journal
    with_journal predecessors key generation items (decoded cbor succ policy loaded)

  unfoldable pub note_app_import_started :
      List DelegateLineageEntry → DelegateKey → Option ℕ → Act W AppImport
  unfolding with_generation
  note_app_import_started predecessors key items =
      with_generation predecessors key items (generation_of predecessors key)
