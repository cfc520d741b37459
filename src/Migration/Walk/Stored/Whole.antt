-- ===== src/Migration/Walk/Stored/Whole.antt =====
-- What a whole walk of freenet-migrate/src/delegate_migrate.rs leaves in a delegate's store.
use freenet_migrate.Prelude.{ℕ, ◌≡◌, Bool, true, false, List, [], ◌∷◌, arith, Bytes, All, is_some}
use freenet_migrate.Lineage.{DelegateLineageEntry}
use freenet_migrate.Journal.{SecretSelectionPolicy, DelegateKey}
use freenet_migrate.Secrets.{SecretPair, SecretStore, IsLawful, pred_done_marker}
use freenet_migrate.Secrets.Import.Writes.{AllPresent}
use freenet_migrate.Migration.{
  PredecessorSecretsIo, PredecessorMigration, imported, no_data, already_migrated, superseded,
  unresponsive, incomplete, writer_unavailable,
}
use freenet_migrate.Migration.Store.{secret_store_io}
use freenet_migrate.Migration.Walk.{
  ordered, walk, walk_rows, at_start, no_observer, migrate_delegate_secrets,
}
use freenet_migrate.Migration.Walk.Turns.{Walk}
use freenet_migrate.Migration.Walk.Visits.{visit}
use freenet_migrate.Migration.Walk.Report.{walk_rows-Reports, over-Reports}
use freenet_migrate.Migration.Walk.Stored.{HasKey, HasKey-Keeps}
use freenet_migrate.Migration.Walk.Stored.Arrived.{Answers, Arrived, visit-Arrived}

module _ {S : Type 0} (ops : SecretStore S) (exports : DelegateKey → List SecretPair) where
  -- The second store has every key of the first.
  abbrev Extends : S → S → Type 0
  Extends s s' =
      (j : Bytes) → is_some (ops.get_secret s j) ≡ true → is_some (ops.get_secret s' j) ≡ true

  AllPresent-Extends :
      (s s' : S) (ps : List SecretPair) → Extends s s' → AllPresent ops s ps → AllPresent ops s' ps
  AllPresent-Extends s s' [] e h = tt
  AllPresent-Extends s s' (p ∷ ps) e h =
      (ground (arith, e p.0, h.0), AllPresent-Extends s s' ps e h.1)

  Arrived-Extends :
      (s s' : S) (row : PredecessorMigration)
      → Extends s s'
      → Arrived ops exports s row
      → Arrived ops exports s' row
  Arrived-Extends s s' (imported k g t) e h =
      (e (pred_done_marker k) h.0, AllPresent-Extends s s' (exports k) e h.1)
  Arrived-Extends s s' (no_data k g) e h =
      (e (pred_done_marker k) h.0, AllPresent-Extends s s' (exports k) e h.1)
  Arrived-Extends s s' (already_migrated k g) e h = tt
  Arrived-Extends s s' (superseded k g) e h = tt
  Arrived-Extends s s' (unresponsive k g x) e h = tt
  Arrived-Extends s s' (incomplete k g t x) e h = tt
  Arrived-Extends s s' (writer_unavailable k g x) e h = tt

module _ {S P : Type 0} (ops : SecretStore S) (lawful : IsLawful ops)
    (preds : PredecessorSecretsIo P) (policy : SecretSelectionPolicy)
    (exports : DelegateKey → List SecretPair) (answers : Answers preds exports) where
  walk_rows-Extends :
      (order : List (ℕ × DelegateKey)) (over : Bool) (w : Walk S P (Unit {0}))
      → Extends ops exports w.successor
          (walk_rows (secret_store_io ops) preds no_observer policy order over w).1.successor
  walk_rows-Extends order true w j h =
      (over-Reports (secret_store_io ops) preds no_observer policy (HasKey ops lawful j)
        (HasKey-Keeps ops lawful j) order w h).1
  walk_rows-Extends order false w j h =
      (walk_rows-Reports (secret_store_io ops) preds no_observer policy (HasKey ops lawful j)
        (HasKey-Keeps ops lawful j) order w h).1

  walk_rows-Arrived :
      (order : List (ℕ × DelegateKey)) (over : Bool) (w : Walk S P (Unit {0}))
      → let (rows, w') = walk_rows (secret_store_io ops) preds no_observer policy order over w in
        All (Arrived ops exports w'.successor) rows
  unfolding walk_rows
  walk_rows-Arrived [] over w = tt
  walk_rows-Arrived ((g, k) ∷ order) true w = (tt, walk_rows-Arrived order true w)
  walk_rows-Arrived ((g, k) ∷ order) false w =
      let (r, w') = visit (secret_store_io ops) preds no_observer policy k g w in
      (
        Arrived-Extends ops exports _ _ r.0 (walk_rows-Extends order r.1 w')
            (visit-Arrived ops lawful preds exports answers policy k g w),
        walk_rows-Arrived order r.1 w',
      )

  -- Where each predecessor answers with the same secrets whenever it answers, every row that says that
  -- a predecessor was imported, or that it has no data, is true of the store when the walk is over: the
  -- predecessor's completion marker is there, and a value for each of its secrets that is not under a
  -- reserved key.
  pub migrate_delegate_secrets-arrives :
      (predecessors : List DelegateLineageEntry) (s : S) (p : P)
      → let (rows, s', p') =
          migrate_delegate_secrets (secret_store_io ops) preds predecessors policy s p in
        All (Arrived ops exports s') rows
  unfolding migrate_delegate_secrets walk
  migrate_delegate_secrets-arrives predecessors s p =
      walk_rows-Arrived (ordered predecessors) false (at_start s p tt)
