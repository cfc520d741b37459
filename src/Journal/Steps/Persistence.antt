-- ===== src/Journal/Steps/Persistence.antt =====
-- What no sequence of changes to a journal of freenet-migrate/src/journal.rs can lose.
use freenet_migrate.Prelude.{◌≡◌, true, false, List, [], ◌∷◌, ◌++◌, arith, Bytes, All, get}
use freenet_migrate.Lineage.{DelegateLineageEntry}
use freenet_migrate.Journal.{
  imported, is_data_bearing, JournalState, resolved, JournalBinding, MigrationJournal, RunOutcome,
  resolved_as, effective, merge_states, mark_state, note_state, outcome_state,
}
use freenet_migrate.Journal.Merge.{rank, is_partial}
use freenet_migrate.Journal.Status.{status, interrupted_import, is_complete}
use freenet_migrate.Journal.Status.Promise.Interrupted.{status-interrupted}
use freenet_migrate.Journal.Steps.{
  Change, mark, note, outcome, stored, bind, changes, Holds, AllFor, Brings,
}
use freenet_migrate.Journal.Steps.Stable.{IsStable, changes-Holds}

-- An outcome that does not say that the data arrived.
abbrev pub BringsNoData : RunOutcome → Type 0
BringsNoData (resolved_as r) = is_data_bearing r ≡ false
BringsNoData _ = Unit

-- An import is under way.
abbrev pub IsPartial : JournalState → Type 0
IsPartial s = is_partial s ≡ true

abbrev pub HasNoData : JournalState → Type 0
HasNoData s = rank s ≡ 0

pub IsPartial-stable : IsStable IsPartial HasNoData BringsNoData
unfolding is_partial rank mark_state note_state outcome_state merge_states effective
IsPartial-stable = record {
  marked = λ s h. ground arith;
  noted = λ s t n h e. ground arith;
  recorded = λ s o h r. ground arith;
  merged = λ t s q h. ground arith;
  bound = λ s b h. ground arith;
  stored_bound = λ t b q. ground arith;
}

abbrev pub IsImported : JournalState → Type 0
IsImported s = s ≡ resolved imported

pub IsImported-stable : IsStable IsImported (λ t. Unit) (λ o. Unit)
unfolding mark_state note_state outcome_state merge_states effective
IsImported-stable = record {
  marked = λ s h. ground arith;
  noted = λ s t n h e. ground arith;
  recorded = λ s o h r. ground arith;
  merged = λ t s q h. ground arith;
  bound = λ s b h. ground arith;
  stored_bound = λ t b q. tt;
}

pub Brings-anything : (k : Bytes) (cs : List Change) → All (Brings (λ o. Unit) (λ t. Unit) k) cs
Brings-anything k [] = tt
Brings-anything k (c ∷ cs) = (one c, Brings-anything k cs)
  where
    every : (m : MigrationJournal) → AllFor (λ t. Unit) k m
    every [] = tt
    every ((j, e) ∷ m) = (λ h. tt, every m)

    one : (c : Change) → Brings (λ o. Unit) (λ t. Unit) k c
    one (mark p g) = tt
    one (note p n) = tt
    one (outcome p g o) = λ h. tt
    one (stored m b) = every m
    one (bind b) = tt

-- Once a predecessor is recorded as imported, no sequence of changes, whatever another session stored
-- and under whatever binding, makes its entry say anything else.
pub changes-keep_imported :
    (k : Bytes) (cs : List Change) (journal : MigrationJournal)
    → Holds (λ s. s ≡ resolved imported) (get k journal)
    → Holds (λ s. s ≡ resolved imported) (get k (changes cs journal))
changes-keep_imported k cs journal h =
    changes-Holds IsImported (λ t. Unit) (λ o. Unit) IsImported-stable k cs journal
      (Brings-anything k cs) h

-- While an import from a predecessor of the lineage is under way, and none of the changes brings an
-- outcome or a stored state that says that its data arrived, the status after the changes, under any
-- binding, reports an interrupted import and is not complete.
pub changes-stay_interrupted :
    (before after : List DelegateLineageEntry) (e : DelegateLineageEntry) (cs : List Change)
    (journal : MigrationJournal) (binding : JournalBinding)
    → All (Brings BringsNoData HasNoData e.delegate_key) cs
    → Holds IsPartial (get e.delegate_key journal)
    → (interrupted_import (status (changes cs journal) (before ++ e ∷ after) binding) ≡ true)
      × (is_complete (status (changes cs journal) (before ++ e ∷ after) binding) ≡ false)
changes-stay_interrupted before after e cs journal binding b h =
    status-interrupted (changes cs journal) binding e before after (
      changes-Holds IsPartial HasNoData BringsNoData IsPartial-stable e.delegate_key cs journal b h)
