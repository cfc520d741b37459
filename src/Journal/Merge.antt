-- ===== src/Journal/Merge.antt =====
-- `merge_states` of freenet-migrate/src/journal.rs: what a merge of two states keeps.
use freenet_migrate.Prelude.{ℕ, ◌≡◌, max, Bool, true, false, not, ◌&&◌, ◌||◌, arith, ltb, leb}
use freenet_migrate.Journal.{
  is_started, JournalState, pending, resolved, completeness_rank, merge_states,
}

-- How much of the data is in the successor, as far as a state says.
unfoldable pub rank : JournalState → ℕ
unfolding completeness_rank
rank (pending _) = 0
rank (resolved r) = completeness_rank r

-- The state says that part of the data may be there.
unfoldable pub is_partial : JournalState → Bool
is_partial (pending p) = is_started p.flag
is_partial (resolved _) = false

unfoldable pub is_resolved : JournalState → Bool
is_resolved (pending _) = false
is_resolved (resolved _) = true

-- Merging keeps the more complete side, whichever is newer. The result is flagged as partial
-- exactly if a side is and neither has the data; it is resolved exactly if a side has the data, or a
-- side is resolved and no side is flagged. Merging a state with itself changes nothing.
pub merge_states-keeps :
    (a b : JournalState)
    → (rank (merge_states a b) ≡ max (rank a) (rank b))
      × (is_partial (merge_states a b)
          ≡ (ltb (max (rank a) (rank b)) 1 && (is_partial a || is_partial b)))
      × (is_resolved (merge_states a b) ≡ (
          leb 1 (max (rank a) (rank b))
          || ((is_resolved a || is_resolved b) && not (is_partial a || is_partial b))))
      × (merge_states a a ≡ a)
unfolding merge_states rank is_partial is_resolved
merge_states-keeps a b = ground arith
