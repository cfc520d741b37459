-- ===== src/Journal/Wire/RoundTrip.antt =====
-- Storing a journal of freenet-migrate/src/journal.rs and reading it back.
use freenet_migrate.Prelude.{
  ℕ, ◌≡◌, refl, sym, ap, subst, ◌∙◌, none, some, List, [], ◌∷◌, ◌++◌, arith, Bytes, append-nil,
  append_assoc, get, insert, IsSorted, insert_last, IsSorted-before,
}
use freenet_migrate.Prelude.Result.{ok}
use freenet_migrate.Journal.{
  migration_journal_version, JournalState, JournalEntry, MigrationJournal,
}
use freenet_migrate.Journal.Wire.{
  WireEntry, WireJournal, Cbor, RoundTrips, blank, wire_state, wire_entries, read_state, add_entry,
  read_entries, encode, read_whole, read_checked, decode,
}

read-wire :
    (k : Bytes) (g : ℕ) (s : JournalState)
    → (read_state (wire_state (blank k g) s) ≡ ok s)
      × ((wire_state (blank k g) s).key ≡ k)
      × ((wire_state (blank k g) s).generation ≡ g)
unfolding read_state wire_state
read-wire k g s = ground arith

add_entry-none :
    (done : MigrationJournal) (k : Bytes) (e : JournalEntry)
    → get k done ≡ none
    → add_entry done k e ≡ ok (insert k e done)
unfolding add_entry
add_entry-none done k e n = ground arith

read_entries-cons :
    (done : MigrationJournal) (w : WireEntry) (ws : List WireEntry) (e : JournalEntry)
    → read_state w ≡ ok e.state
    → w.generation ≡ e.generation
    → get w.key done ≡ none
    → read_entries done (w ∷ ws) ≡ read_entries (insert w.key e done) ws
unfolding read_entries
read_entries-cons done w ws e s g n = rw s (rw g (rw (add_entry-none done w.key e n) refl))

-- The entries read so far are all below the rest.
read-entries :
    (done rest : MigrationJournal)
    → IsSorted (done ++ rest)
    → read_entries done (wire_entries rest) ≡ ok (done ++ rest)
unfolding read_entries wire_entries
read-entries done [] s = ap ok (sym (append-nil done))
read-entries done ((k, e) ∷ rest) s =
    let (state, key, generation) = read-wire k e.generation e.state in
    let (last, fresh) = insert_last k e done (IsSorted-before k e done rest s) in
    let w = wire_state (blank k e.generation) e.state in
    read_entries-cons done w (wire_entries rest) e state generation
      (subst (λ j. get j done ≡ none) (sym key) fresh)
    ∙ ap (λ d. read_entries d (wire_entries rest)) (ap (λ j. insert j e done) key ∙ last)
    ∙ read-entries (done ++ (k, e) ∷ []) rest
        (subst IsSorted (sym (append_assoc done ((k, e) ∷ []) rest)) s)
    ∙ ap ok (append_assoc done ((k, e) ∷ []) rest)

module _ (cbor : Cbor) (codec : RoundTrips cbor) where
  decode_written :
      (bytes : Bytes) (wire : WireJournal)
      → cbor.read_version bytes ≡ some migration_journal_version
      → cbor.read_journal bytes ≡ some (wire, [])
      → decode cbor bytes ≡ read_entries [] wire.entries
  unfolding decode read_checked read_whole
  decode_written bytes wire v j = ground arith

  -- A stored journal reads back unchanged, where its entries are in the order of their keys, as a
  -- `BTreeMap` keeps them.
  pub decode-encode :
      (journal : MigrationJournal)
      → IsSorted journal
      → decode cbor (encode cbor journal) ≡ ok journal
  unfolding encode
  decode-encode journal s =
      let wire : WireJournal = record {
        v = migration_journal_version;
        entries = wire_entries journal;
      } in
      decode_written (cbor.into_writer wire) wire (codec.version wire) (codec.journal wire)
      ∙ read-entries [] journal s
