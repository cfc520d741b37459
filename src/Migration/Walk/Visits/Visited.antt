-- ===== src/Migration/Walk/Visits/Visited.antt =====
-- A whole visit of freenet-migrate/src/delegate_migrate.rs: its row fits, and what the calls keep is kept.
use freenet_migrate.Prelude.{
  ℕ, ◌≡◌, refl, Bool, true, false, not, ◌&&◌, ◌||◌, Option, List, [], ◌∷◌, arith, Bytes, All, ltb,
  Bool-cases, inl, inr, is_empty, contains, list_eq, nat_eq,
}
use freenet_migrate.Prelude.Result.{Result, ok, err}
use freenet_migrate.Journal.{SecretSelectionPolicy, DelegateKey}
use freenet_migrate.Secrets.{SecretPair, is_marker}
use freenet_migrate.Migration.{
  data_bearing_is_authoritative, MigrationMarker, done, SuccessorSecretsIo, PredecessorSecretsIo,
  ImportTally, WriterFailure, offered, PredecessorMigration, incomplete, row_key, row_generation,
}
use freenet_migrate.Migration.Walk.Turns.{Walk, Turn, goes_on, ends, WalkObserver}
use freenet_migrate.Migration.Walk.Items.{Items, no_items_yet, note_flush, all_taken, prior_attempt}
use freenet_migrate.Migration.Walk.Visits.{
  known_data, kept_items, observed_items, write_item, write_items, write_and_flush, import_items,
  seal, import_all, visit_asking, visit_steps, sealed_case, migrated,
}
use freenet_migrate.Migration.Walk.Visits.Fits.{
  Ensures, Ensures-bind, must_stop, may_stop, Fits, Keeps, is_import,
}
use freenet_migrate.Migration.Walk.Visits.Rules.{
  check_journal-Ensures, read_marker-Ensures, check_seal-Ensures, flag_prior-Ensures, probe-Ensures,
  fetch-Ensures, check_export-Ensures, begin_import-Ensures, mark_begun-Ensures,
  confirm_begun-Ensures,
}
use freenet_migrate.Migration.Walk.Visits.{visit, settle}

abbrev pub NotReserved : List SecretPair → Type 0
NotReserved = All (λ (p : SecretPair). is_marker p.0 ≡ false)

module _ {W P O : Type 0} (succ : SuccessorSecretsIo W) (preds : PredecessorSecretsIo P)
    (watch : WalkObserver W O) (policy : SecretSelectionPolicy) where
  pub kept_items-NotReserved :
      (key : DelegateKey) (generation : ℕ) (o : O) (ps : List SecretPair)
      → NotReserved (kept_items succ preds watch policy key generation o ps)
  unfolding kept_items
  kept_items-NotReserved key generation o [] = tt
  kept_items-NotReserved key generation o (p ∷ ps) =
      elim (Bool-cases (not (is_marker p.0) && not (watch.withholds o p.0))) [
        | inl kept ↦ rw kept (ground arith, kept_items-NotReserved key generation o ps)
        | inr left ↦ rw left (kept_items-NotReserved key generation o ps)
      ]

module _ {W P O : Type 0} (succ : SuccessorSecretsIo W) (preds : PredecessorSecretsIo P)
    (watch : WalkObserver W O) (policy : SecretSelectionPolicy) (I : O → W → Type 0)
    (keeps : Keeps succ watch I) (key : DelegateKey) (generation : ℕ) where
  write_item-keeps :
      (held : List Bytes) (retry : Bool) (p : SecretPair) (o : O) (s : W) (x : Items)
      → is_marker p.0 ≡ false
      → I o s
      → I o (write_item succ preds watch policy key generation held retry p (s, x)).0
  unfolding write_item
  write_item-keeps held retry (k, v) o s x m h = elim (Bool-cases (contains held k)) [
    | inl withheld ↦ rw withheld h
    | inr free ↦ rw free (keeps.writes o s _ m h)
  ]

  write_items-keeps :
      (held : List Bytes) (retry : Bool) (ps : List SecretPair) (o : O) (acc : W × Items)
      → NotReserved ps
      → I o acc.0
      → I o (write_items succ preds watch policy key generation held retry ps acc).0
  unfolding write_items
  write_items-keeps held retry [] o acc m h = h
  write_items-keeps held retry (p ∷ ps) o (s, x) m h =
      write_items-keeps held retry ps o
        (write_item succ preds watch policy key generation held retry p (s, x)) m.1
        (write_item-keeps held retry p o s x m.0 h)

  abbrev Nothing : List SecretPair → Items → Type 0
  Nothing items x = (is_empty items && ltb 0 (offered x.tally)) ≡ false

  write_and_flush-keeps :
      (held : List Bytes) (retry : Bool) (items : List SecretPair) (o : O) (s : W)
      → NotReserved items
      → I o s
      → I o (write_and_flush succ preds watch policy key generation held retry items s).0
  unfolding write_and_flush
  write_and_flush-keeps held retry items o s m h =
      keeps.flushes o _ key (write_items-keeps held retry items o (s, no_items_yet) m h)

  write_and_flush-no_items :
      (held : List Bytes) (retry : Bool) (items : List SecretPair) (s : W)
      → Nothing items (write_and_flush succ preds watch policy key generation held retry items s).2
  unfolding write_and_flush write_items note_flush offered
  write_and_flush-no_items held retry [] s = go (succ.flush_predecessor s key).1
    where
      go : (r : Result Bytes (Unit {0})) → ltb 0 (offered (note_flush r no_items_yet).tally) ≡ false
      go (ok _) = refl
      go (err e) = refl
  write_and_flush-no_items held retry (p ∷ ps) s = refl

  abbrev Final : PredecessorMigration × Bool → Walk W P O → Type 0
  Final r w = Fits policy key generation r.0 r.1 × I w.observer w.successor

  abbrev Ending : PredecessorMigration → Bool → Walk W P O → Type 0
  Ending row over w =
      Fits policy key generation row over × I w.observer w.successor × (is_import row ≡ false)

  abbrev On : {A : Type 0} → A → Walk W P O → Type 0
  On a w = I w.observer w.successor

  row-Fits :
      (saw_data : Bool) (tally : ImportTally)
      → Fits policy key generation
          (migrated succ preds watch policy key generation saw_data tally)
          (data_bearing_is_authoritative policy saw_data)
  unfolding must_stop may_stop row_key row_generation data_bearing_is_authoritative
  row-Fits true tally = ground arith
  row-Fits false tally = ground arith

  incomplete-Fits :
      (prior : Bool) (items : List SecretPair) (x : Items) (f : Option WriterFailure)
      → Nothing items x
      → Fits policy key generation
          (incomplete key generation x.tally f)
          (data_bearing_is_authoritative policy (prior || not (is_empty items)))
  unfolding must_stop may_stop row_key row_generation data_bearing_is_authoritative
  incomplete-Fits prior items x f n = ground arith

  abbrev SealedAs : Bool → List SecretPair → PredecessorMigration → Walk W P O → Type 0
  SealedAs prior items row w =
      Final (row, data_bearing_is_authoritative policy (prior || not (is_empty items))) w

  seal-Ensures :
      (prior : Bool) (items : List SecretPair) (x : Items) (w : Walk W P O)
      → Nothing items x
      → I w.observer w.successor
      → Ensures
          (SealedAs prior items)
          Ending
          (seal succ preds watch policy key generation (prior || not (is_empty items)) x w)
  unfolding seal
  seal-Ensures prior items x w n h = elim (Bool-cases (all_taken x)) [
    | inl clean ↦ rw clean (go _ (keeps.marks w.observer w.successor key (done saw_data) h))
    | inr open_items ↦ rw open_items (incomplete-Fits prior items x x.failure n, h)
  ]
    where
      saw_data : Bool
      saw_data = prior || not (is_empty items)

      go :
          (r : W × Result Bytes (Unit {0}))
          → I w.observer r.0
          → Ensures
              (SealedAs prior items)
              Ending
              (sealed_case succ preds watch policy key generation saw_data x r w)
      go (s, ok _) k = (row-Fits saw_data x.tally, k)
      go (s, err e) k = (incomplete-Fits prior items x _ n, k)

  import_items-Ensures :
      (retry : Bool) (items : List SecretPair) (w : Walk W P O)
      → NotReserved items
      → I w.observer w.successor
      → Ensures
          (λ x w'. Nothing items x × On x w')
          Ending
          (import_items succ preds watch policy key generation retry items w)
  unfolding import_items
  import_items-Ensures retry items w m h = (
    write_and_flush-no_items w.withheld_keys retry items w.successor,
    write_and_flush-keeps w.withheld_keys retry items w.observer w.successor m h,
  )

  import_all-Ensures :
      (marker : Option MigrationMarker) (retry prior : Bool) (items : List SecretPair)
      (w : Walk W P O)
      → NotReserved items
      → I w.observer w.successor
      → Ensures Final Ending
          (import_all succ preds watch policy key generation marker retry prior items w)
  unfolding import_all
  import_all-Ensures marker retry prior items w m h =
      Ensures-bind On Final Ending _ _ w
        (begin_import-Ensures succ preds watch policy I keeps key generation _ _ w h)
        λ _ w1 h1.
          Ensures-bind On Final Ending _ _ w1
            (mark_begun-Ensures succ preds watch policy I keeps key generation _ w1 h1)
            λ _ w2 h2.
              Ensures-bind On Final Ending _ _ w2
                (confirm_begun-Ensures succ preds watch policy I keeps key generation marker w2 h2)
                λ _ w3 h3.
                  Ensures-bind (λ x w. Nothing items x × On x w) Final Ending _ _ w3
                    (import_items-Ensures retry items w3 m h3)
                    λ x w4 h4.
                      Ensures-bind (SealedAs prior items) Final Ending _ _ w4
                        (seal-Ensures prior items x w4 h4.0 h4.1) λ row w5 h5. h5

  known_data-Ensures :
      (w : Walk W P O)
      → I w.observer w.successor
      → Ensures On Ending (known_data succ preds watch policy key generation w)
  unfolding known_data
  known_data-Ensures w h = h

  observed_items-Ensures :
      (secrets : List SecretPair) (w : Walk W P O)
      → I w.observer w.successor
      → Ensures
          (λ items w'. NotReserved items × On items w')
          Ending
          (observed_items succ preds watch policy key generation secrets w)
  unfolding observed_items
  observed_items-Ensures secrets w h =
      (kept_items-NotReserved succ preds watch policy key generation w.observer secrets, h)

  visit_asking-Ensures :
      (marker : Option MigrationMarker) (a : Bool × Bool) (w : Walk W P O)
      → I w.observer w.successor
      → Ensures Final Ending (visit_asking succ preds watch policy key generation marker a w)
  unfolding visit_asking
  visit_asking-Ensures marker (retry, prior) w h =
      Ensures-bind On Final Ending _ _ w
        (flag_prior-Ensures succ preds watch policy I keeps key generation prior w h)
        λ _ w1 h1.
          Ensures-bind On Final Ending _ _ w1
            (probe-Ensures succ preds watch policy I keeps key generation prior w1 h1)
            λ _ w2 h2.
              Ensures-bind On Final Ending _ _ w2
                (fetch-Ensures succ preds watch policy I keeps key generation prior w2 h2)
                λ secrets w3 h3.
                  Ensures-bind (λ items w. NotReserved items × On items w) Final Ending _ _ w3
                    (observed_items-Ensures secrets w3 h3)
                    λ items w4 h4.
                      Ensures-bind On Final Ending _ _ w4
                        (check_export-Ensures succ preds watch policy I keeps key generation prior
                          items w4 h4.1)
                        λ _ w5 h5. import_all-Ensures marker retry prior items w5 h4.0 h5

  visit_steps-Ensures :
      (w : Walk W P O)
      → I w.observer w.successor
      → Ensures Final Ending (visit_steps succ preds watch policy key generation w)
  unfolding visit_steps
  visit_steps-Ensures w h =
      Ensures-bind On Final Ending _ _ w
        (check_journal-Ensures succ preds watch policy I keeps key generation w h)
        λ _ w1 h1.
          Ensures-bind On Final Ending _ _ w1
            (read_marker-Ensures succ preds watch policy I keeps key generation w1 h1)
            λ marker w2 h2.
              Ensures-bind On Final Ending _ _ w2 (known_data-Ensures w2 h2) λ known w3 h3.
                Ensures-bind On Final Ending _ _ w3
                  (check_seal-Ensures succ preds watch policy I keeps key generation marker known w3
                    h3)
                  λ _ w4 h4. visit_asking-Ensures marker (prior_attempt marker known) w4 h4

  -- The row of a visit is that of the predecessor, ends the walk where it must, and the property that
  -- the calls keep still holds.
  pub visit-Final :
      (w : Walk W P O)
      → I w.observer w.successor
      → let (r, w') = visit succ preds watch policy key generation w in
        Fits policy key generation r.0 r.1 × I w'.observer w'.successor
  unfolding visit
  visit-Final w h =
      go (visit_steps succ preds watch policy key generation w) (visit_steps-Ensures w h)
    where
      go :
          (x : Turn (PredecessorMigration × Bool) × Walk W P O)
          → Ensures Final Ending x
          → Final (settle succ preds watch policy x.0) x.1
      go (goes_on (row, over), w') k = k
      go (ends row over, w') k = (k.0, k.1)
