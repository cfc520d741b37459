-- ===== src/Migration/Journaled/Start/Begins.antt =====
-- A journaled run of freenet-migrate/src/delegate_migrate.rs starts: what holds of the stored journal and
-- is kept by every change holds of the journal that it begins with.
use freenet_migrate.Prelude.{
  ℕ, IsSorted, ◌++◌, map, Option, none, some, List, [], ◌∷◌, Bytes, Bool-cases, inl, inr,
}
use freenet_migrate.Prelude.Result.{Result, ok, err}
use freenet_migrate.Lineage.{DelegateLineageEntry}
use freenet_migrate.Journal.{
  SecretSelectionPolicy, DelegateKey, JournalBinding, MigrationJournal, lineage_key,
  mark_import_started, merge_stored,
}
use freenet_migrate.Journal.Status.{JournalDecodeError, unknown_version, corrupt}
use freenet_migrate.Journal.Wire.{Cbor, decode}
use freenet_migrate.Journal.Steps.{mark, stored, change}
use freenet_migrate.Migration.{MigrationMarker}
use freenet_migrate.Migration.Journaled.{
  JournaledSuccessorIo, JournalError, ◌>>=◌, says_in_progress, fresh_journal, successor_failed,
  load_failed, decoded, is_resolved_without_data, entry_state,
}
use freenet_migrate.Migration.Journaled.Start.{
  Started, existing, new, MarkerChecks, Verified, note_exact, noted, verify_one, verify,
  seed_unseen, resume, start_from, start_journal, store_new,
}
use freenet_migrate.Migration.Journaled.Fresh.{fresh_journal-Yields}
use freenet_migrate.Migration.Journaled.Acts.{Outcome}
use freenet_migrate.Migration.Journaled.Stores.{KeepsJournal, IsKept, store_merged-Preserves}

-- The stored journal is read and satisfies `Good`, or the read fails.
abbrev pub ReadsGood :
    (MigrationJournal → Type 0) → Result JournalDecodeError MigrationJournal → Type 0
ReadsGood Good (ok journal) = Good journal
ReadsGood Good (err (unknown_version v)) = Unit
ReadsGood Good (err (corrupt text)) = ⊥

abbrev pub LoadsGood : Cbor → (MigrationJournal → Type 0) → Result Bytes (Option Bytes) → Type 0
LoadsGood cbor Good (err e) = Unit
LoadsGood cbor Good (ok none) = ⊥
LoadsGood cbor Good (ok (some bytes)) = ReadsGood Good (decode cbor bytes)

module _ {W : Type 0} (cbor : Cbor) (succ : JournaledSuccessorIo W) (policy : SecretSelectionPolicy)
    (Good : MigrationJournal → Type 0) (b : JournalBinding) (kept : IsKept b Good) (I : W → Type 0)
    (keeps : KeepsJournal cbor succ Good I)
    (loads : (s : W) → I s → LoadsGood cbor Good (succ.load_journal s).1) where
  pub mark-keeps :
      (key : DelegateKey) (g : ℕ) (m : MigrationJournal)
      → Good m
      → Good (mark_import_started m key g).0
  unfolding change
  mark-keeps key g m h = kept.changed (mark key g) m h

  -- A failed start has no journal.
  abbrev pub Begins : W × Result JournalError (Started × MarkerChecks) → Type 0
  Begins (s, err e) = I s
  Begins (s, ok (existing journal, checks)) = I s × Good journal
  Begins (s, ok (new journal, checks)) = I s × Good journal

  note_exact-keeps :
      (e : DelegateLineageEntry) (r : Result Bytes (Option MigrationMarker)) (v : Verified)
      → Good v.journal
      → Good (note_exact e r v).journal
  unfolding note_exact
  note_exact-keeps e (err x) v h = h
  note_exact-keeps e (ok marker) v h = elim (Bool-cases (says_in_progress marker)) [
    | inl q ↦ rw q (mark-keeps (lineage_key e) e.generation v.journal h)
    | inr q ↦ rw q h
  ]

  verify_one-keeps :
      (e : DelegateLineageEntry) (v : Verified) (s : W)
      → I s
      → Good v.journal
      → let (s', v') = verify_one cbor succ policy e v s in I s' × Good v'.journal
  unfolding verify_one noted
  verify_one-keeps e v s i h =
      elim (Bool-cases (is_resolved_without_data (entry_state v.journal (lineage_key e)))) [
        | inl q ↦ rw q (keeps.reads s _ i, note_exact-keeps e _ v h)
        | inr q ↦ rw q (i, h)
      ]

  verify-keeps :
      (es : List DelegateLineageEntry) (v : Verified) (s : W)
      → I s
      → Good v.journal
      → let (s', v') = verify cbor succ policy es v s in I s' × Good v'.journal
  unfolding verify
  verify-keeps [] v s i h = (i, h)
  verify-keeps (e ∷ es) v s i h =
      let (i', h') = verify_one-keeps e v s i h in verify-keeps es _ _ i' h'

  seed_unseen-Begins :
      (v : Verified) (es : List DelegateLineageEntry) (s : W)
      → I s
      → Good v.journal
      → Begins (seed_unseen cbor succ policy b v es s)
  unfolding seed_unseen ◌>>=◌
  seed_unseen-Begins v [] s i h = elim (Bool-cases v.changed) [
    | inl q ↦ rw q (i, h)
    | inr q ↦ rw q (i, h)
  ]
  seed_unseen-Begins v (e ∷ es) s i h =
      go (fresh_journal succ policy (e ∷ es) s)
        (fresh_journal-Yields cbor succ policy I (λ s q. keeps.reads s q) (e ∷ es) s i)
    where
      go :
          (r : W × Result JournalError MigrationJournal)
          → Outcome I IsSorted r
          → let out : W × Result JournalError (Started × MarkerChecks) = elim r.1 [
            | ok seeded ↦ (
              r.0,
              ok (
                new (merge_stored seeded v.journal (some b)),
                record (v.checks) { read = v.checks.read ++ map lineage_key (e ∷ es) },
              ),
            )
            | err x ↦ (r.0, err x)
          ] in
            Begins out
      go (t, ok seeded) (j, o) = (j, kept.seeded seeded v.journal o h)
      go (t, err x) j = j

  start_from-Begins :
      (predecessors : List DelegateLineageEntry) (r : Result JournalDecodeError MigrationJournal)
      (s : W)
      → I s
      → ReadsGood Good r
      → Begins (start_from cbor succ policy predecessors b (some r) s)
  unfolding start_from resume
  start_from-Begins predecessors (ok journal) s i h =
      let (i', h') = verify-keeps predecessors _ s i h in seed_unseen-Begins _ _ _ i' h'
  start_from-Begins predecessors (err (unknown_version v)) s i h = i
  start_from-Begins predecessors (err (corrupt text)) s i h = elim h [ ]

  pub start_journal-Begins :
      (predecessors : List DelegateLineageEntry) (s : W)
      → I s
      → Begins (start_journal cbor succ policy predecessors b s)
  unfolding start_journal ◌>>=◌
  start_journal-Begins predecessors s i = go (succ.load_journal s) (keeps.loads s i) (loads s i)
    where
      go :
          (r : W × Result Bytes (Option Bytes))
          → I r.0
          → LoadsGood cbor Good r.1
          → let loaded : W × Result JournalError (Option Bytes) = elim r.1 [
            | ok x ↦ (r.0, ok x)
            | err e ↦ (r.0, err (successor_failed (load_failed e)))
          ] in
            let out : W × Result JournalError (Started × MarkerChecks) = elim loaded.1 [
              | ok x ↦
                  start_from cbor succ policy predecessors b (decoded cbor succ policy x) loaded.0
              | err e ↦ (loaded.0, err e)
            ] in
            Begins out
      go (t, err e) j l = j
      go (t, ok none) j l = elim l [ ]
      go (t, ok (some bytes)) j l = start_from-Begins predecessors (decode cbor bytes) t j l

  -- After a store, or in place of one.
  abbrev pub Stored : (W × MigrationJournal) × Result JournalError (Unit {0}) → Type 0
  Stored ((s, journal), r) = I s × Good journal

  pub store_new-Stored :
      (predecessors : List DelegateLineageEntry) (started : Started) (s : W) (checks : MarkerChecks)
      → Begins (s, ok (started, checks))
      → Stored (store_new cbor succ policy predecessors b started s)
  unfolding store_new change
  store_new-Stored predecessors (existing journal) s checks h = h
  store_new-Stored predecessors (new journal) s checks h =
      store_merged-Preserves cbor succ policy Good b
        (λ other m g. kept.changed (stored other (some b)) m g) I keeps (some predecessors)
        (s, journal) h
