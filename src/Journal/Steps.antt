-- ===== src/Journal/Steps.antt =====
-- Any sequence of changes to a journal of freenet-migrate/src/journal.rs.
pub mod Stable
pub mod Marked
pub mod Merged
pub mod Sorted
pub mod Persistence
use freenet_migrate.Prelude.{
  ℕ, ◌≡◌, Bool, true, false, Option, none, some, List, [], ◌∷◌, Bytes, list_beq, nat_eq,
}
use freenet_migrate.Journal.{
  JournalState, JournalEntry, JournalBinding, MigrationJournal, DelegateKey, RunOutcome, rebind,
  mark_import_started, note_items_seen, record_outcome, merge_stored,
}

pub data Change : Type 0 where
  mark note : DelegateKey → ℕ → Change
  outcome : DelegateKey → ℕ → RunOutcome → Change
  stored : MigrationJournal → Option JournalBinding → Change
  bind : JournalBinding → Change

unfoldable pub change : Change → MigrationJournal → MigrationJournal
unfolding mark_import_started note_items_seen record_outcome merge_stored rebind
change (mark predecessor generation) journal =
    (mark_import_started journal predecessor generation).0
change (note predecessor items) journal = (note_items_seen journal predecessor items).0
change (outcome predecessor generation o) journal = record_outcome journal predecessor generation o
change (stored other binding) journal = merge_stored journal other binding
change (bind binding) journal = rebind binding journal

unfoldable pub changes : List Change → MigrationJournal → MigrationJournal
unfolding change
changes [] journal = journal
changes (c ∷ cs) journal = changes cs (change c journal)

-- There is an entry, and its state satisfies `P`.
abbrev pub Holds : (JournalState → Type 0) → Option JournalEntry → Type 0
Holds P none = ⊥
Holds P (some e) = P e.state

-- Every entry for the key satisfies `Q`.
abbrev pub AllFor : (JournalState → Type 0) → Bytes → MigrationJournal → Type 0
AllFor Q k [] = Unit
AllFor Q k ((j, e) ∷ m) = (list_beq j k ≡ true → Q e.state) × AllFor Q k m

-- What a change brings for the key: an outcome that satisfies `R`, and stored states that satisfy `Q`.
abbrev pub Brings : (RunOutcome → Type 0) → (JournalState → Type 0) → Bytes → Change → Type 0
Brings R Q k (outcome predecessor generation o) = list_beq predecessor.key k ≡ true → R o
Brings R Q k (stored other binding) = AllFor Q k other
Brings R Q k _ = Unit
