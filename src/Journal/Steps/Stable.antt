-- ===== src/Journal/Steps/Stable.antt =====
-- Properties of an entry that the changes to a journal of freenet-migrate/src/journal.rs keep.
use freenet_migrate.Prelude.{
  ℕ, ◌≡◌, refl, sym, subst, Bool, true, false, Option, none, some, List, [], ◌∷◌, Bytes, All,
  list_beq, list_beq_iff, nat_eq, unwrap, if◌then◌else◌, Bool-cases, inl, inr, get, insert,
  get-insert, get-insert_other,
}
use freenet_migrate.Journal.{
  JournalState, JournalEntry, JournalBinding, MigrationJournal, DelegateKey, RunOutcome, effective,
  merge_states, entry_or_fresh, mark_state, note_state, note_entry, put_noted, outcome_state, eval,
  merge_entry, rebind, mark_import_started, note_items_seen, record_outcome, merge_stored,
}
use freenet_migrate.Journal.Steps.{
  Change, mark, note, outcome, stored, bind, change, changes, Holds, AllFor, Brings,
}

pub record IsStable (P Q : JournalState → Type 0) (R : RunOutcome → Type 0) : Type 0 where
  pub marked : (s : JournalState) → P s → P (mark_state s).0
  pub noted : (s t : JournalState) (n : ℕ) → P s → note_state s n ≡ some t → P t
  pub recorded :
      (s : JournalState) (o : RunOutcome) → P s → R o → P (merge_states s (outcome_state s o))
  pub merged : (t s : JournalState) → Q t → P s → P (merge_states t s)
  pub bound : (s : JournalState) (b : JournalBinding) → P s → P (effective s b)
  pub stored_bound : (t : JournalState) (b : JournalBinding) → Q t → Q (effective t b)

pub Holds-insert :
    (P : JournalState → Type 0) (j k : Bytes) (e : JournalEntry) (m : MigrationJournal)
    → (list_beq j k ≡ true → P e.state)
    → (list_beq j k ≡ false → Holds P (get k m))
    → Holds P (get k (insert j e m))
Holds-insert P j k e m here there = elim (Bool-cases (list_beq j k)) [
  | inl q ↦
      let same : j ≡ k = (list_beq_iff j k).0 q in
      subst (λ x. Holds P (get x (insert j e m))) same
        (subst (Holds P) (sym (get-insert j e m)) (here q))
  | inr q ↦ subst (Holds P) (sym (get-insert_other j k e m q)) (there q)
]

module _ (P Q : JournalState → Type 0) (R : RunOutcome → Type 0) (stable : IsStable P Q R)
    (k : Bytes) where
  -- Changing the entry for `j` where `P` holds at `k`.
  Holds-change :
      (j : Bytes) (f : Option JournalEntry → JournalEntry) (m : MigrationJournal)
      → ((e : JournalEntry) → list_beq j k ≡ true → P e.state → P (f (some e)).state)
      → Holds P (get k m)
      → Holds P (get k (insert j (f (get j m)) m))
  Holds-change j f m keep h =
      Holds-insert P j k (f (get j m)) m
        (λ q. go q (get j m) (subst (λ x. Holds P (get x m)) (sym ((list_beq_iff j k).0 q)) h))
        (λ q. h)
    where
      go : list_beq j k ≡ true → (o : Option JournalEntry) → Holds P o → P (f o).state
      go q none x = elim x [ ]
      go q (some e) x = keep e q x

  evaluated : (b : Option JournalBinding) (s : JournalState) → P s → P (eval b s)
  evaluated none s p = p
  evaluated (some b) s p = stable.bound s b p

  stored_evaluated : (b : Option JournalBinding) (s : JournalState) → Q s → Q (eval b s)
  stored_evaluated none s q = q
  stored_evaluated (some b) s q = stable.stored_bound s b q

  merge_stored-Holds :
      (b : Option JournalBinding) (other m : MigrationJournal)
      → AllFor Q k other
      → Holds P (get k m)
      → Holds P (get k (merge_stored m other b))
  unfolding merge_stored merge_entry
  merge_stored-Holds b [] m a h = h
  merge_stored-Holds b ((j, theirs) ∷ other) m a h =
      merge_stored-Holds b other (insert j (merge_entry b (get j m) theirs) m) a.1 (
        Holds-change j (λ o. merge_entry b o theirs) m
          (λ e q p.
            stable.merged (eval b theirs.state) (eval b e.state)
              (stored_evaluated b theirs.state (a.0 q)) (evaluated b e.state p))
          h)

  rebind-Holds :
      (b : JournalBinding) (m : MigrationJournal) → Holds P (get k m) → Holds P (get k (rebind b m))
  unfolding rebind get
  rebind-Holds b [] h = h
  rebind-Holds b ((j, e) ∷ m) h = go (list_beq j k) (rebind-Holds b m) h
    where
      go :
          (found : Bool)
          → (Holds P (get k m) → Holds P (get k (rebind b m)))
          → Holds P (if found then some e else get k m)
          → Holds P (
              if found then some (record e { state = effective e.state b }) else get k (rebind b m))
      go true rest x = stable.bound e.state b x
      go false rest x = rest x

  note_entry-Holds :
      (o : Option JournalEntry) (e : JournalEntry) (n : ℕ)
      → note_entry o n ≡ some e
      → Holds P o
      → P e.state
  unfolding note_entry
  note_entry-Holds none e n q h = elim h [ ]
  note_entry-Holds (some old) e n q h = go (note_state old.state n) refl q
    where
      go :
          (s : Option JournalState)
          → note_state old.state n ≡ s
          → elim s [ none ↦ none | some t ↦ some (record old { state = t }) ] ≡ some e
          → P e.state
      go none r x = cc
      go (some t) r x = subst (λ y. P y.state) (unwrap x) (stable.noted old.state t n h r)

  note-Holds :
      (p : DelegateKey) (n : ℕ) (m : MigrationJournal)
      → Holds P (get k m)
      → Holds P (get k (note_items_seen m p n).0)
  unfolding note_items_seen put_noted
  note-Holds p n m h = go (note_entry (get p.key m) n) refl
    where
      go :
          (o : Option JournalEntry)
          → note_entry (get p.key m) n ≡ o
          → Holds P (get k (put_noted m p.key o).0)
      go none q = h
      go (some e) q =
          Holds-insert P p.key k e m
            (λ same.
              note_entry-Holds (get p.key m) e n q
                (subst (λ x. Holds P (get x m)) (sym ((list_beq_iff p.key k).0 same)) h))
            (λ other. h)

  change-Holds :
      (c : Change) (m : MigrationJournal)
      → Brings R Q k c
      → Holds P (get k m)
      → Holds P (get k (change c m))
  unfolding change mark_import_started record_outcome
  change-Holds (mark p g) m b h =
      Holds-change p.key
        (λ o. record (entry_or_fresh o g) { state = (mark_state (entry_or_fresh o g).state).0 }) m
        (λ e q x. stable.marked e.state x) h
  change-Holds (note p n) m b h = note-Holds p n m h
  change-Holds (outcome p g o) m b h =
      Holds-change p.key
        (λ old. record {
          generation = g;
          state =
              merge_states (entry_or_fresh old g).state
                (outcome_state (entry_or_fresh old g).state o);
        })
        m (λ e q x. stable.recorded e.state o x (b q)) h
  change-Holds (stored other binding) m b h = merge_stored-Holds binding other m b h
  change-Holds (bind binding) m b h = rebind-Holds binding m h

  pub changes-Holds :
      (cs : List Change) (m : MigrationJournal)
      → All (Brings R Q k) cs
      → Holds P (get k m)
      → Holds P (get k (changes cs m))
  unfolding changes
  changes-Holds [] m b h = h
  changes-Holds (c ∷ cs) m b h = changes-Holds cs (change c m) b.1 (change-Holds c m b.0 h)
