-- ===== src/Journal/Steps/Sorted.antt =====
-- The changes to a journal of freenet-migrate/src/journal.rs leave its entries in the order of their keys.
use freenet_migrate.Prelude.{
  ◌≡◌, true, Option, none, some, List, [], ◌∷◌, Bytes, All, lex_ltb, nat_eq, IsSorted,
  insert-IsSorted,
}
use freenet_migrate.Lineage.{DelegateLineageEntry}
use freenet_migrate.Journal.{
  JournalEntry, JournalBinding, MigrationJournal, put_noted, new_pending, new_pending_from, rebind,
  mark_import_started, note_items_seen, record_outcome, merge_stored,
}
use freenet_migrate.Journal.Steps.{Change, mark, note, outcome, stored, bind, change}

pub merge_stored-IsSorted :
    (other journal : MigrationJournal) (binding : Option JournalBinding)
    → IsSorted journal
    → IsSorted (merge_stored journal other binding)
unfolding merge_stored
merge_stored-IsSorted [] journal binding s = s
merge_stored-IsSorted ((key, theirs) ∷ other) journal binding s =
    merge_stored-IsSorted other _ binding (insert-IsSorted key _ journal s)

rebind-All :
    (binding : JournalBinding) (k : Bytes) (journal : MigrationJournal)
    → All (λ (e : Bytes × JournalEntry). lex_ltb k e.0 ≡ true) journal
    → All (λ (e : Bytes × JournalEntry). lex_ltb k e.0 ≡ true) (rebind binding journal)
unfolding rebind
rebind-All binding k [] a = tt
rebind-All binding k ((j, e) ∷ journal) a = (a.0, rebind-All binding k journal a.1)

rebind-IsSorted :
    (binding : JournalBinding) (journal : MigrationJournal)
    → IsSorted journal
    → IsSorted (rebind binding journal)
unfolding rebind
rebind-IsSorted binding [] s = tt
rebind-IsSorted binding ((k, e) ∷ journal) s =
    (rebind-All binding k journal s.0, rebind-IsSorted binding journal s.1)

put_noted-IsSorted :
    (journal : MigrationJournal) (k : Bytes) (o : Option JournalEntry)
    → IsSorted journal
    → IsSorted (put_noted journal k o).0
unfolding put_noted
put_noted-IsSorted journal k none s = s
put_noted-IsSorted journal k (some e) s = insert-IsSorted k e journal s

pub change-IsSorted :
    (c : Change) (journal : MigrationJournal) → IsSorted journal → IsSorted (change c journal)
unfolding change mark_import_started note_items_seen record_outcome
change-IsSorted (mark p g) journal s = insert-IsSorted p.key _ journal s
change-IsSorted (note p n) journal s = put_noted-IsSorted journal p.key _ s
change-IsSorted (outcome p g o) journal s = insert-IsSorted p.key _ journal s
change-IsSorted (stored other binding) journal s = merge_stored-IsSorted other journal binding s
change-IsSorted (bind binding) journal s = rebind-IsSorted binding journal s

new_pending_from-IsSorted :
    (es : List DelegateLineageEntry) (journal : MigrationJournal)
    → IsSorted journal
    → IsSorted (new_pending_from journal es)
unfolding new_pending_from
new_pending_from-IsSorted [] journal s = s
new_pending_from-IsSorted (e ∷ es) journal s =
    new_pending_from-IsSorted es _ (insert-IsSorted e.delegate_key _ journal s)

pub new_pending-IsSorted : (es : List DelegateLineageEntry) → IsSorted (new_pending es)
unfolding new_pending
new_pending-IsSorted es = new_pending_from-IsSorted es [] tt
