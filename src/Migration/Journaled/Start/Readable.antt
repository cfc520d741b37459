-- ===== src/Migration/Journaled/Start/Readable.antt =====
-- `start_journal` of freenet-migrate/src/delegate_migrate.rs, where the stored journal cannot be read.
use freenet_migrate.Prelude.{◌≡◌, refl, Bool, true, false, Option, none, some, List, Bytes}
use freenet_migrate.Prelude.Result.{Result, ok, err}
use freenet_migrate.Lineage.{DelegateLineageEntry}
use freenet_migrate.Journal.{SecretSelectionPolicy, JournalBinding, MigrationJournal}
use freenet_migrate.Journal.Status.{JournalDecodeError, unknown_version, corrupt}
use freenet_migrate.Journal.Wire.{Cbor, decode}
use freenet_migrate.Migration.Journaled.{
  JournaledSuccessorIo, JournalError, successor_failed, load_failed, ◌>>=◌, decoded,
}
use freenet_migrate.Migration.Journaled.Start.{Started, MarkerChecks, start_from, start_journal}

abbrev pub decodes : Result JournalDecodeError MigrationJournal → Bool
decodes (ok journal) = true
decodes (err (unknown_version v)) = false
decodes (err (corrupt text)) = true

-- The load did not fail, and what it gave is not of another version. Corrupt bytes are made anew.
abbrev pub is_readable : Cbor → Result Bytes (Option Bytes) → Bool
is_readable cbor (err e) = false
is_readable cbor (ok none) = true
is_readable cbor (ok (some bytes)) = decodes (decode cbor bytes)

module _ {W : Type 0} (cbor : Cbor) (succ : JournaledSuccessorIo W) (policy : SecretSelectionPolicy)
    (predecessors : List DelegateLineageEntry) (binding : JournalBinding) where
  start_from-fails :
      (r : Result JournalDecodeError MigrationJournal) (s : W)
      → decodes r ≡ false
      → (e : JournalError) × ((start_from cbor succ policy predecessors binding (some r) s).1
          ≡ err e)
  unfolding start_from
  start_from-fails (ok journal) s h = cc
  start_from-fails (err (unknown_version v)) s h = (_, refl)
  start_from-fails (err (corrupt text)) s h = cc

  -- Then the start fails.
  pub start_journal-fails :
      (s : W)
      → is_readable cbor (succ.load_journal s).1 ≡ false
      → (e : JournalError) × ((start_journal cbor succ policy predecessors binding s).1 ≡ err e)
  unfolding start_journal ◌>>=◌
  start_journal-fails s h = go (succ.load_journal s) h
    where
      go :
          (r : W × Result Bytes (Option Bytes))
          → is_readable cbor r.1 ≡ false
          → let loaded : W × Result JournalError (Option Bytes) = elim r.1 [
            | ok x ↦ (r.0, ok x)
            | err e ↦ (r.0, err (successor_failed (load_failed e)))
          ] in
            let out : W × Result JournalError (Started × MarkerChecks) = elim loaded.1 [
              | ok x ↦
                  start_from cbor succ policy predecessors binding
                    (decoded cbor succ policy x)
                    loaded.0
              | err e ↦ (loaded.0, err e)
            ] in
            (e : JournalError) × (out.1 ≡ err e)
      go (t, err e) q = (_, refl)
      go (t, ok none) q = cc
      go (t, ok (some bytes)) q = start_from-fails (decode cbor bytes) t q
