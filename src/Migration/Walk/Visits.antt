-- ===== src/Migration/Walk/Visits.antt =====
-- The body of the loop of `AppSideRoundTrip::walk` in freenet-migrate/src/delegate_migrate.rs, as a chain
-- of steps: one that ends the visit to a predecessor gives its row, and whether the walk is over.
pub mod Fits
pub mod Rules
pub mod Visited
use freenet_migrate.Prelude.{
  ℕ, ◌+◌, min, Bool, true, false, not, ◌&&◌, ◌||◌, Option, none, some, List, [], ◌∷◌, ◌++◌, map,
  Bytes, ltb, nat_beq, if◌then◌else◌, list_beq, nat_eq, list_eq, bytes, contains, is_empty, length,
  u32_max, Map, insert,
}
use freenet_migrate.Prelude.Result.{Result, ok, err}
use freenet_migrate.Lineage.{DelegateLineageEntry}
use freenet_migrate.Journal.{SecretSelectionPolicy, DelegateKey, JournalResolution, lineage_key}
use freenet_migrate.Driver.Ordering.{sort_newest}
use freenet_migrate.Secrets.{SecretPair, is_marker}
use freenet_migrate.Migration.{
  LegacyBridge, at_or_above_generation, exact_generation_only, data_bearing_is_authoritative,
  unresponsive_terminates, legacy_bridge, ProbeVerdict, executable, no_reply, not_installed,
  MigrationMarker, in_progress, done, MarkerQuery, RecoveredSecret, RetryAdvice, retryable,
  permanent, ItemWrite, written, already_authoritative, failed, SuccessorSecretsIo,
  PredecessorSecretsIo, ImportTally, no_items, is_clean, WriterStage, reads_marker, begin_marker,
  item, flush, complete_marker, journal_flag, is_item, FailureText, printed, marker_store_reads,
  WriterFailure, PredecessorMigration, imported, no_data, already_migrated, superseded,
  unresponsive, incomplete, writer_unavailable, DelegateMigrationReport,
  exported_nothing_after_data, fewer_text,
}
use freenet_migrate.Migration.Walk.Turns.{
  Walk, Turn, goes_on, ends, Visit, pure, ◌>>=◌, ◌>>◌, WalkObserver,
}
use freenet_migrate.Migration.Walk.Items.{
  exported_count, prior_attempt, Items, no_items_yet, note_write, note_flush, held_back, all_taken,
}

module _ {W P O : Type 0} (succ : SuccessorSecretsIo W) (preds : PredecessorSecretsIo P)
    (watch : WalkObserver W O) (policy : SecretSelectionPolicy) where
  abbrev pub query_of : DelegateKey → ℕ → LegacyBridge → MarkerQuery
  query_of key generation bridge = record {
    predecessor = key;
    generation = generation;
    bridge = bridge;
  }

  -- `exact_marker`
  unfoldable pub exact_marker : W → DelegateKey → ℕ → W × Result Bytes (Option MigrationMarker)
  exact_marker s key generation =
      succ.migration_marker s (query_of key generation exact_generation_only)

  abbrev pub says_done : Result Bytes (Option MigrationMarker) → Bool
  says_done (ok (some (done true))) = true
  says_done _ = false

  -- `seal_is_bridged`
  bridged_under : LegacyBridge → W → DelegateKey → ℕ → W × Bool
  unfolding exact_marker
  bridged_under exact_generation_only s key generation = (s, false)
  bridged_under at_or_above_generation s key generation =
      let (s', r) = exact_marker s key generation in (s', not (says_done r))

  unfoldable pub seal_is_bridged : W → DelegateKey → ℕ → W × Bool
  unfolding bridged_under
  seal_is_bridged s key generation = bridged_under (legacy_bridge policy) s key generation

  module _ (key : DelegateKey) (generation : ℕ) where
    -- A failure of the successor, which ends the walk.
    abbrev pub stops : WriterStage → FailureText → PredecessorMigration
    stops stage error = writer_unavailable key generation (record { stage = stage; error = error })

    journal_case : Option JournalResolution → Visit (Walk W P O) (Unit {0})
    journal_case none w = (goes_on tt, w)
    journal_case (some r) w = (
      ends (already_migrated key generation) (data_bearing_is_authoritative policy true),
      record w { journal_resolved = insert key.key r w.journal_resolved },
    )

    unfoldable pub check_journal : Visit (Walk W P O) (Unit {0})
    unfolding journal_case
    check_journal w = journal_case (watch.resolved_with_data w.observer key) w

    marker_case :
        W × Result Bytes (Option MigrationMarker) → Visit (Walk W P O) (Option MigrationMarker)
    marker_case (s, ok m) w = (goes_on m, record w { successor = s })
    marker_case (s, err e) w =
        (ends (stops reads_marker (printed e)) true, record w { successor = s })

    unfoldable pub read_marker : Visit (Walk W P O) (Option MigrationMarker)
    unfolding marker_case
    read_marker w =
        marker_case
          (succ.migration_marker w.successor (query_of key generation (legacy_bridge policy))) w

    unfoldable pub known_data : Visit (Walk W P O) Bool
    known_data w = (
      goes_on (watch.import_started w.observer key || ltb 0 (watch.items_seen w.observer key)),
      w,
    )

    -- `bridged` or `done_with_data` takes the key of a seal that says there was data.
    note_seal : W × Bool → Walk W P O → Walk W P O
    note_seal (s, true) w = record w { successor = s; bridged = key.key ∷ w.bridged }
    note_seal (s, false) w = record w { successor = s; done_with_data = key.key ∷ w.done_with_data }

    seal_case : Bool → Walk W P O → Walk W P O
    unfolding note_seal seal_is_bridged
    seal_case false w = w
    seal_case true w =
        if watch.journaled
        then note_seal (seal_is_bridged w.successor key generation) w
        else note_seal (w.successor, false) w

    unfoldable pub check_seal : Option MigrationMarker → Bool → Visit (Walk W P O) (Unit {0})
    unfolding seal_case
    check_seal (some (done had_data)) known w =
        if had_data || not known
        then (
          ends (already_migrated key generation) (data_bearing_is_authoritative policy had_data),
          seal_case had_data w,
        )
        else (goes_on tt, w)
    check_seal _ known w = (goes_on tt, w)

    flag_case : (O × W) × Result Bytes (Unit {0}) → Visit (Walk W P O) (Unit {0})
    flag_case ((o, s), ok _) w = (goes_on tt, record w { observer = o; successor = s })
    flag_case ((o, s), err e) w =
        (ends (stops journal_flag (printed e)) true, record w { observer = o; successor = s })

    unfoldable pub before_import : Option ℕ → Visit (Walk W P O) (Unit {0})
    unfolding flag_case
    before_import items w =
        flag_case (watch.before_import (w.observer, w.successor) key generation items) w

    unfoldable pub flag_prior : Bool → Visit (Walk W P O) (Unit {0})
    unfolding before_import
    flag_prior prior_saw_data w = if prior_saw_data then before_import none w else (goes_on tt, w)

    verdict_case : Bool → P × Result Bytes ProbeVerdict → Visit (Walk W P O) (Unit {0})
    verdict_case prior (p, ok executable) w = (goes_on tt, record w { io = p })
    verdict_case prior (p, ok not_installed) w = (
      ends (unresponsive key generation (some (bytes "not installed on this node")))
          (unresponsive_terminates policy prior),
      record w { io = p; absent = key.key ∷ w.absent },
    )
    verdict_case prior (p, ok no_reply) w = (
      ends (unresponsive key generation none) (unresponsive_terminates policy prior),
      record w { io = p },
    )
    verdict_case prior (p, err e) w = (
      ends (unresponsive key generation (some e)) (unresponsive_terminates policy prior),
      record w { io = p },
    )

    unfoldable pub probe : Bool → Visit (Walk W P O) (Unit {0})
    unfolding verdict_case
    probe prior w = verdict_case prior (preds.probe_verdict w.io key) w

    unfoldable pub fetch_case :
        Bool → P × Result Bytes (List SecretPair) → Visit (Walk W P O) (List SecretPair)
    fetch_case prior (p, ok secrets) w = (goes_on secrets, record w { io = p })
    fetch_case prior (p, err e) w = (
      ends (unresponsive key generation (some e)) (unresponsive_terminates policy prior),
      record w { io = p },
    )

    unfoldable pub fetch : Bool → Visit (Walk W P O) (List SecretPair)
    unfolding fetch_case
    fetch prior w = fetch_case prior (preds.fetch_secrets w.io key) w

    -- `items`
    unfoldable pub kept_items : O → List SecretPair → List SecretPair
    kept_items o [] = []
    kept_items o (p ∷ ps) =
        let rest = kept_items o ps in
        if not (is_marker p.0) && not (watch.withholds o p.0) then p ∷ rest else rest

    unfoldable pub observed_items : List SecretPair → Visit (Walk W P O) (List SecretPair)
    observed_items secrets w = (goes_on (kept_items w.observer secrets), w)

    abbrev shrunk_text : Bool → ℕ → ℕ → Bytes
    shrunk_text nothing exported seen =
        if nothing then exported_nothing_after_data else fewer_text exported seen

    unfoldable pub check_export : Bool → List SecretPair → Visit (Walk W P O) (Unit {0})
    check_export prior items w =
        let seen = watch.items_seen w.observer key in
        if prior && (is_empty items || ltb (exported_count items) seen)
        then (
          ends
              (unresponsive key generation
                (some (shrunk_text (is_empty items) (exported_count items) seen)))
              (unresponsive_terminates policy prior),
          w,
        )
        else (goes_on tt, w)

    -- The count may have grown by what another session stored.
    unfoldable pub check_again : ℕ → Visit (Walk W P O) (Unit {0})
    check_again exported w =
        let seen = watch.items_seen w.observer key in
        if ltb exported seen
        then (
          ends (unresponsive key generation (some (fewer_text exported seen)))
              (unresponsive_terminates policy true),
          w,
        )
        else (goes_on tt, w)

    unfoldable pub begin_import : Bool → ℕ → Visit (Walk W P O) (Unit {0})
    unfolding before_import check_again
    begin_import true exported = before_import (some exported) >> check_again exported
    begin_import false exported = pure tt

    mark_case : WriterStage → W × Result Bytes (Unit {0}) → Visit (Walk W P O) (Unit {0})
    mark_case stage (s, ok _) w = (goes_on tt, record w { successor = s })
    mark_case stage (s, err e) w = (ends (stops stage (printed e)) true, record w { successor = s })

    unfoldable pub mark_begun : Bool → Visit (Walk W P O) (Unit {0})
    unfolding mark_case
    mark_begun saw_data w =
        mark_case begin_marker (succ.record_marker w.successor key (in_progress saw_data)) w

    read_back_case : W × Result Bytes (Option MigrationMarker) → Visit (Walk W P O) (Unit {0})
    read_back_case (s, ok (some (in_progress true))) w = (goes_on tt, record w { successor = s })
    read_back_case (s, r) w =
        (ends (stops begin_marker (marker_store_reads r)) true, record w { successor = s })

    -- Over an empty seal the marker is read back.
    unfoldable pub confirm_begun : Option MigrationMarker → Visit (Walk W P O) (Unit {0})
    unfolding read_back_case
    confirm_begun (some (done false)) w =
        read_back_case
          (succ.migration_marker w.successor (query_of key generation (legacy_bridge policy))) w
    confirm_begun _ w = (goes_on tt, w)

    -- One turn of the loop over the items; `held` are the keys that a newer predecessor left.
    unfoldable pub write_item : List Bytes → Bool → SecretPair → W × Items → W × Items
    write_item held retry (k, v) (s, x) =
        if contains held k
        then (s, record x { tally = record (x.tally) { withheld = x.tally.withheld + 1 } })
        else let (s', r) = succ.write_secret s (record {
          predecessor = key;
          generation = generation;
          key = k;
          value = v;
          retry = retry;
        }) in
          (s', note_write k r x)

    unfoldable pub write_items : List Bytes → Bool → List SecretPair → W × Items → W × Items
    unfolding write_item
    write_items held retry [] acc = acc
    write_items held retry (p ∷ ps) acc = write_items held retry ps (write_item held retry p acc)

    -- The items, and the flush after them.
    unfoldable pub write_and_flush :
        List Bytes → Bool → List SecretPair → W → W × List Bytes × Items
    unfolding write_items note_flush held_back
    write_and_flush held retry items s =
        let (s', x) = write_items held retry items (s, no_items_yet) in
        let (s'', r) = succ.flush_predecessor s' key in (s'', held_back r x, note_flush r x)

    unfoldable pub import_items : Bool → List SecretPair → Visit (Walk W P O) Items
    unfolding write_and_flush
    import_items retry items w =
        let (s, held, x) = write_and_flush w.withheld_keys retry items w.successor in
        (goes_on x, record w { successor = s; withheld_keys = held ++ w.withheld_keys })

    abbrev pub migrated : Bool → ImportTally → PredecessorMigration
    migrated true tally = imported key generation tally
    migrated false tally = no_data key generation

    unfoldable pub sealed_case :
        Bool → Items → W × Result Bytes (Unit {0}) → Visit (Walk W P O) PredecessorMigration
    sealed_case saw_data x (s, ok _) w =
        (goes_on (migrated saw_data x.tally), record w { successor = s })
    sealed_case saw_data x (s, err e) w = (
      goes_on (
          incomplete key generation x.tally
            (some (record { stage = complete_marker; error = printed e }))),
      record w { successor = s },
    )

    unfoldable pub seal : Bool → Items → Visit (Walk W P O) PredecessorMigration
    unfolding all_taken sealed_case
    seal saw_data x w =
        if all_taken x
        then sealed_case saw_data x (succ.record_marker w.successor key (done saw_data)) w
        else (goes_on (incomplete key generation x.tally x.failure), w)

    -- From the items on: the markers, the writes and the row.
    unfoldable pub import_all :
        Option MigrationMarker
        → Bool
        → Bool
        → List SecretPair
        → Visit (Walk W P O) (PredecessorMigration × Bool)
    import_all marker retry prior items = do
      let saw_data = prior || not (is_empty items)
      begin_import saw_data (exported_count items)
      mark_begun saw_data
      confirm_begun marker
      x ← import_items retry items
      row ← seal saw_data x
      pure (row, data_bearing_is_authoritative policy saw_data)

    unfoldable pub visit_asking :
        Option MigrationMarker → Bool × Bool → Visit (Walk W P O) (PredecessorMigration × Bool)
    visit_asking marker (retry, prior) = do
      flag_prior prior
      probe prior
      secrets ← fetch prior
      items ← observed_items secrets
      check_export prior items
      import_all marker retry prior items

    -- The body of the loop, where the walk is not over.
    unfoldable pub visit_steps : Visit (Walk W P O) (PredecessorMigration × Bool)
    visit_steps = do
      check_journal
      marker ← read_marker
      known ← known_data
      check_seal marker known
      visit_asking marker (prior_attempt marker known)

  abbrev pub settle : Turn (PredecessorMigration × Bool) → PredecessorMigration × Bool
  settle (goes_on r) = r
  settle (ends row over) = (row, over)

  unfoldable pub visit : DelegateKey → ℕ → Walk W P O → (PredecessorMigration × Bool) × Walk W P O
  visit key generation w = let (t, w') = visit_steps key generation w in (settle t, w')
