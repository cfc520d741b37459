-- ===== src/Migration/Walk/Visits/Rules.antt =====
-- What a visit of freenet-migrate/src/delegate_migrate.rs leaves behind, by its steps.
use freenet_migrate.Prelude.{
  ℕ, ◌≡◌, refl, Bool, true, false, ◌&&◌, ◌||◌, Option, none, some, List, arith, Bytes, ltb,
  Bool-cases, inl, inr, if◌then◌else◌, is_empty, list_eq, nat_eq,
}
use freenet_migrate.Prelude.Result.{Result, ok, err}
use freenet_migrate.Journal.{SecretSelectionPolicy, DelegateKey, JournalResolution}
use freenet_migrate.Secrets.{SecretPair}
use freenet_migrate.Migration.{
  data_bearing_is_authoritative, already_migrated, LegacyBridge, at_or_above_generation,
  exact_generation_only, unresponsive_terminates, legacy_bridge, ProbeVerdict, executable, no_reply,
  not_installed, MigrationMarker, in_progress, done, SuccessorSecretsIo, PredecessorSecretsIo,
  begin_marker, PredecessorMigration, unresponsive, row_key, row_generation,
}
use freenet_migrate.Migration.Walk.Turns.{Walk, WalkObserver}
use freenet_migrate.Migration.Walk.Items.{exported_count}
use freenet_migrate.Migration.Walk.Visits.{
  exact_marker, seal_is_bridged, check_journal, read_marker, check_seal, before_import, flag_prior,
  probe, fetch, check_export, check_again, begin_import, mark_begun, confirm_begun, bridged_under,
  journal_case, marker_case, note_seal, seal_case, flag_case, verdict_case, fetch_case, mark_case,
  read_back_case,
}
use freenet_migrate.Migration.Walk.Visits.Fits.{
  Ensures, Ensures-bind, must_stop, may_stop, Fits, is_import, Keeps,
}

module _ {W P O : Type 0} (succ : SuccessorSecretsIo W) (preds : PredecessorSecretsIo P)
    (watch : WalkObserver W O) (policy : SecretSelectionPolicy) (I : O → W → Type 0)
    (keeps : Keeps succ watch I) where
  abbrev pub Kept : Walk W P O → Type 0
  Kept w = I w.observer w.successor

  bridged-keeps :
      (b : LegacyBridge) (o : O) (s : W) (key : DelegateKey) (generation : ℕ)
      → I o s
      → I o (bridged_under succ preds watch policy b s key generation).0
  unfolding bridged_under exact_marker
  bridged-keeps at_or_above_generation o s key generation h = keeps.reads o s _ h
  bridged-keeps exact_generation_only o s key generation h = h

  module _ (key : DelegateKey) (generation : ℕ) where
    abbrev pub Ended : PredecessorMigration → Bool → Walk W P O → Type 0
    Ended row over w = Fits policy key generation row over × Kept w × (is_import row ≡ false)

    abbrev pub On : {A : Type 0} → A → Walk W P O → Type 0
    On a w = Kept w

    done-Fits :
        (had_data : Bool)
        → Fits policy key generation
            (already_migrated key generation)
            (data_bearing_is_authoritative policy had_data)
    unfolding must_stop may_stop row_key row_generation data_bearing_is_authoritative
    done-Fits had_data = ground arith

    pub check_journal-Ensures :
        (w : Walk W P O)
        → Kept w
        → Ensures On Ended (check_journal succ preds watch policy key generation w)
    unfolding check_journal journal_case must_stop may_stop row_key row_generation
    check_journal-Ensures w h = go (watch.resolved_with_data w.observer key)
      where
        go :
            (o : Option JournalResolution)
            → Ensures On Ended (journal_case succ preds watch policy key generation o w)
        go none = h
        go (some r) = (done-Fits true, h, refl)

    pub read_marker-Ensures :
        (w : Walk W P O)
        → Kept w
        → Ensures On Ended (read_marker succ preds watch policy key generation w)
    unfolding read_marker marker_case must_stop may_stop row_key row_generation
    read_marker-Ensures w h = go _ (keeps.reads w.observer w.successor _ h)
      where
        go :
            (r : W × Result Bytes (Option MigrationMarker))
            → I w.observer r.0
            → Ensures On Ended (marker_case succ preds watch policy key generation r w)
        go (s, ok m) k = k
        go (s, err e) k = ((refl, refl, refl), k, refl)

    seal_case-Kept :
        (had_data : Bool) (w : Walk W P O)
        → Kept w
        → Kept (seal_case succ preds watch policy key generation had_data w)
    unfolding seal_case note_seal seal_is_bridged
    seal_case-Kept false w h = h
    seal_case-Kept true w h = go watch.journaled
      where
        noted :
            (r : W × Bool)
            → I w.observer r.0
            → Kept (note_seal succ preds watch policy key generation r w)
        noted (s, true) k = k
        noted (s, false) k = k

        bridged : W × Bool
        bridged = seal_is_bridged succ preds watch policy w.successor key generation

        go :
            (j : Bool)
            → Kept (
                if j
                then note_seal succ preds watch policy key generation bridged w
                else note_seal succ preds watch policy key generation (w.successor, false) w)
        go true =
            noted bridged
              (bridged-keeps (legacy_bridge policy) w.observer w.successor key generation h)
        go false = noted (w.successor, false) h

    pub check_seal-Ensures :
        (m : Option MigrationMarker) (known : Bool) (w : Walk W P O)
        → Kept w
        → Ensures On Ended (check_seal succ preds watch policy key generation m known w)
    unfolding check_seal must_stop may_stop row_key row_generation
    check_seal-Ensures none known w h = h
    check_seal-Ensures (some (in_progress saw)) known w h = h
    check_seal-Ensures (some (done true)) known w h =
        (done-Fits true, seal_case-Kept true w h, refl)
    check_seal-Ensures (some (done false)) true w h = h
    check_seal-Ensures (some (done false)) false w h =
        (done-Fits false, seal_case-Kept false w h, refl)

    before_import-Ensures :
        (items : Option ℕ) (w : Walk W P O)
        → Kept w
        → Ensures On Ended (before_import succ preds watch policy key generation items w)
    unfolding before_import flag_case must_stop may_stop row_key row_generation
    before_import-Ensures items w h =
        go _ (keeps.flags w.observer w.successor key generation items h)
      where
        go :
            (r : (O × W) × Result Bytes (Unit {0}))
            → I r.0.0 r.0.1
            → Ensures On Ended (flag_case succ preds watch policy key generation r w)
        go ((o, s), ok _) k = k
        go ((o, s), err e) k = ((refl, refl, refl), k, refl)

    pub flag_prior-Ensures :
        (prior : Bool) (w : Walk W P O)
        → Kept w
        → Ensures On Ended (flag_prior succ preds watch policy key generation prior w)
    unfolding flag_prior
    flag_prior-Ensures true w h = before_import-Ensures none w h
    flag_prior-Ensures false w h = h

    silence-Fits :
        (error : Option Bytes) (prior : Bool)
        → Fits policy key generation
            (unresponsive key generation error)
            (unresponsive_terminates policy prior)
    unfolding must_stop may_stop unresponsive_terminates row_key row_generation
    silence-Fits error prior = ground arith

    pub probe-Ensures :
        (prior : Bool) (w : Walk W P O)
        → Kept w
        → Ensures On Ended (probe succ preds watch policy key generation prior w)
    unfolding probe verdict_case
    probe-Ensures prior w h = go (preds.probe_verdict w.io key)
      where
        go :
            (r : P × Result Bytes ProbeVerdict)
            → Ensures On Ended (verdict_case succ preds watch policy key generation prior r w)
        go (p, ok executable) = h
        go (p, ok not_installed) = (silence-Fits _ prior, h, refl)
        go (p, ok no_reply) = (silence-Fits _ prior, h, refl)
        go (p, err e) = (silence-Fits _ prior, h, refl)

    pub fetch-Ensures :
        (prior : Bool) (w : Walk W P O)
        → Kept w
        → Ensures On Ended (fetch succ preds watch policy key generation prior w)
    unfolding fetch fetch_case
    fetch-Ensures prior w h = go (preds.fetch_secrets w.io key)
      where
        go :
            (r : P × Result Bytes (List SecretPair))
            → Ensures On Ended (fetch_case succ preds watch policy key generation prior r w)
        go (p, ok secrets) = h
        go (p, err e) = (silence-Fits _ prior, h, refl)

    pub check_export-Ensures :
        (prior : Bool) (items : List SecretPair) (w : Walk W P O)
        → Kept w
        → Ensures On Ended (check_export succ preds watch policy key generation prior items w)
    unfolding check_export
    check_export-Ensures prior items w h =
        elim (Bool-cases (
          prior
          && (is_empty items || ltb (exported_count items) (watch.items_seen w.observer key)))) [
            | inl shrunk ↦ rw shrunk (silence-Fits _ prior, h, refl)
            | inr grown ↦ rw grown h
          ]

    check_again-Ensures :
        (exported : ℕ) (w : Walk W P O)
        → Kept w
        → Ensures On Ended (check_again succ preds watch policy key generation exported w)
    unfolding check_again
    check_again-Ensures exported w h =
        elim (Bool-cases (ltb exported (watch.items_seen w.observer key))) [
          | inl shrunk ↦ rw shrunk (silence-Fits _ true, h, refl)
          | inr grown ↦ rw grown h
        ]

    pub begin_import-Ensures :
        (saw_data : Bool) (exported : ℕ) (w : Walk W P O)
        → Kept w
        → Ensures On Ended (begin_import succ preds watch policy key generation saw_data exported w)
    unfolding begin_import
    begin_import-Ensures false exported w h = h
    begin_import-Ensures true exported w h =
        Ensures-bind On On Ended
          (before_import succ preds watch policy key generation (some exported))
          (λ _. check_again succ preds watch policy key generation exported) w
          (before_import-Ensures (some exported) w h) (λ _ t k. check_again-Ensures exported t k)

    pub mark_begun-Ensures :
        (saw_data : Bool) (w : Walk W P O)
        → Kept w
        → Ensures On Ended (mark_begun succ preds watch policy key generation saw_data w)
    unfolding mark_begun mark_case must_stop may_stop row_key row_generation
    mark_begun-Ensures saw_data w h =
        go _ (keeps.marks w.observer w.successor key (in_progress saw_data) h)
      where
        go :
            (r : W × Result Bytes (Unit {0}))
            → I w.observer r.0
            → Ensures On Ended (mark_case succ preds watch policy key generation begin_marker r w)
        go (s, ok _) k = k
        go (s, err e) k = ((refl, refl, refl), k, refl)

    pub confirm_begun-Ensures :
        (m : Option MigrationMarker) (w : Walk W P O)
        → Kept w
        → Ensures On Ended (confirm_begun succ preds watch policy key generation m w)
    unfolding confirm_begun read_back_case must_stop may_stop row_key row_generation
    confirm_begun-Ensures none w h = h
    confirm_begun-Ensures (some (in_progress saw)) w h = h
    confirm_begun-Ensures (some (done true)) w h = h
    confirm_begun-Ensures (some (done false)) w h = go _ (keeps.reads w.observer w.successor _ h)
      where
        go :
            (r : W × Result Bytes (Option MigrationMarker))
            → I w.observer r.0
            → Ensures On Ended (read_back_case succ preds watch policy key generation r w)
        go (s, ok (some (in_progress true))) k = k
        go (s, ok (some (in_progress false))) k = ((refl, refl, refl), k, refl)
        go (s, ok (some (done had))) k = ((refl, refl, refl), k, refl)
        go (s, ok none) k = ((refl, refl, refl), k, refl)
        go (s, err e) k = ((refl, refl, refl), k, refl)
