-- ===== src/Journal/Status/Promise/Interrupted.antt =====
-- When the status of a journal of freenet-migrate/src/journal.rs reports an interrupted import.
use freenet_migrate.Prelude.{
  ℕ, ◌≡◌, refl, true, false, Option, none, some, List, [], ◌∷◌, ◌++◌, arith, get, min, u32_max,
}
use freenet_migrate.Lineage.{DelegateLineageEntry}
use freenet_migrate.Journal.{
  JournalState, pending, resolved, JournalEntry, JournalBinding, MigrationJournal, effective,
}
use freenet_migrate.Journal.Merge.{is_partial}
use freenet_migrate.Journal.Steps.{Holds}
use freenet_migrate.Journal.Status.{
  PendingPredecessor, effective_state, any_started, interrupted_import, is_complete, conclude,
  status,
}
use freenet_migrate.Journal.Status.Promise.{
  outstanding, outstanding_of, refused, status_promise, status-eq-promise,
}

any_started-append :
    (ps qs : List PendingPredecessor) → any_started qs ≡ true → any_started (ps ++ qs) ≡ true
unfolding any_started
any_started-append [] qs h = h
any_started-append (p ∷ ps) qs h = ground (arith, any_started-append ps qs h)

conclude-interrupted :
    (ps : List PendingPredecessor) (n : ℕ)
    → any_started ps ≡ true
    → (interrupted_import (conclude (ps, n)) ≡ true) × (is_complete (conclude (ps, n)) ≡ false)
unfolding conclude interrupted_import is_complete any_started
conclude-interrupted [] n h = cc
conclude-interrupted (p ∷ ps) n h = (h, refl)

module _ (journal : MigrationJournal) (binding : JournalBinding) (e : DelegateLineageEntry) where
  partial-outstanding :
      (o : Option JournalEntry) (qs : List PendingPredecessor)
      → get e.delegate_key journal ≡ o
      → Holds (λ s. is_partial s ≡ true) o
      → any_started (outstanding_of e (effective_state journal e.delegate_key binding) ++ qs) ≡ true
  unfolding effective_state outstanding_of any_started is_partial effective
  partial-outstanding none qs q h = elim h [ ]
  partial-outstanding (some x) qs q h = rw q (go x.state h)
    where
      go :
          (s : JournalState)
          → is_partial s ≡ true
          → any_started (outstanding_of e (some (effective s binding)) ++ qs) ≡ true
      go (pending p) h = ground arith
      go (resolved r) h = cc

  outstanding-started :
      (before after : List DelegateLineageEntry)
      → Holds (λ s. is_partial s ≡ true) (get e.delegate_key journal)
      → any_started (outstanding journal binding (before ++ e ∷ after)) ≡ true
  unfolding outstanding
  outstanding-started [] after h =
      partial-outstanding (get e.delegate_key journal) (outstanding journal binding after) refl h
  outstanding-started (b ∷ before) after h =
      any_started-append (outstanding_of b (effective_state journal b.delegate_key binding))
        (outstanding journal binding (before ++ e ∷ after)) (outstanding-started before after h)

  pub status-interrupted :
      (before after : List DelegateLineageEntry)
      → Holds (λ s. is_partial s ≡ true) (get e.delegate_key journal)
      → (interrupted_import (status journal (before ++ e ∷ after) binding) ≡ true)
        × (is_complete (status journal (before ++ e ∷ after) binding) ≡ false)
  unfolding status_promise
  status-interrupted before after h = rw (status-eq-promise journal binding (before ++ e ∷ after)) (
      conclude-interrupted (outstanding journal binding (before ++ e ∷ after))
        (min (refused journal binding (before ++ e ∷ after)) u32_max)
        (outstanding-started before after h))
