-- ===== src/Journal/Steps/Merged.antt =====
-- What `merge_stored` of freenet-migrate/src/journal.rs keeps of an entry under one binding.
use freenet_migrate.Prelude.{
  ◌≡◌, sym, subst, Bool, Option, none, some, [], ◌∷◌, Bytes, list_beq, list_beq_iff, Bool-cases,
  inl, inr, get, insert, if◌then◌else◌, nat_eq,
}
use freenet_migrate.Journal.{
  JournalState, JournalEntry, JournalBinding, MigrationJournal, effective, merge_states,
  merge_entry, merge_stored,
}
use freenet_migrate.Journal.Steps.{Holds}
use freenet_migrate.Journal.Steps.Stable.{Holds-insert}

-- Under the binding, no stored state makes the entry lose the property.
abbrev pub Survives : (JournalState → Type 0) → JournalBinding → Type 0
Survives P b = (t s : JournalState) → P s → P (merge_states (effective t b) (effective s b))

module _ (P : JournalState → Type 0) (b : JournalBinding) (survives : Survives P b)
    (k : Bytes) where
  merge_entry-Holds :
      (o : Option JournalEntry) (theirs : JournalEntry)
      → Holds P o
      → P (merge_entry (some b) o theirs).state
  unfolding merge_entry
  merge_entry-Holds none theirs h = elim h [ ]
  merge_entry-Holds (some ours) theirs h = survives theirs.state ours.state h

  pub merge_stored-Holds :
      (other journal : MigrationJournal)
      → Holds P (get k journal)
      → Holds P (get k (merge_stored journal other (some b)))
  unfolding merge_stored
  merge_stored-Holds [] journal h = h
  merge_stored-Holds ((j, theirs) ∷ other) journal h = merge_stored-Holds other _ (
      Holds-insert P j k (merge_entry (some b) (get j journal) theirs) journal
        (λ same.
          merge_entry-Holds (get j journal) theirs
            (subst (λ x. Holds P (get x journal)) (sym ((list_beq_iff j k).0 same)) h))
        (λ other'. h))

-- The other side brings the property.
module _ (P : JournalState → Type 0) (b : JournalBinding) (survives : Survives P b)
    (brought : (t s : JournalState) → P t → P (merge_states (effective t b) (effective s b)))
    (evaluated : (t : JournalState) → P t → P (effective t b)) (k : Bytes) where
  brought_entry-Holds :
      (o : Option JournalEntry) (theirs : JournalEntry)
      → P theirs.state
      → P (merge_entry (some b) o theirs).state
  unfolding merge_entry
  brought_entry-Holds none theirs h = evaluated theirs.state h
  brought_entry-Holds (some ours) theirs h = brought theirs.state ours.state h

  pub merge_stored-brings :
      (other journal : MigrationJournal)
      → Holds P (get k other)
      → Holds P (get k (merge_stored journal other (some b)))
  unfolding merge_stored get
  merge_stored-brings [] journal h = elim h [ ]
  merge_stored-brings ((j, theirs) ∷ other) journal h =
      let entry : JournalEntry = merge_entry (some b) (get j journal) theirs in
      let after : MigrationJournal = insert j entry journal in
      elim (Bool-cases (list_beq j k)) [
        | inl q ↦ merge_stored-Holds P b survives k other after (
            Holds-insert P j k entry journal
              (λ same. brought_entry-Holds (get j journal) theirs (found q)) (λ other'. cc))
        | inr q ↦ merge_stored-brings other after (found q)
      ]
    where
      found : {b' : Bool} → list_beq j k ≡ b' → Holds P (if b' then some theirs else get k other)
      found q = subst (λ x. Holds P (if x then some theirs else get k other)) q h
