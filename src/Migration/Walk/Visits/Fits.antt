-- ===== src/Migration/Walk/Visits/Fits.antt =====
-- What a step of a visit of freenet-migrate/src/delegate_migrate.rs ensures, and what a row must fit.
use freenet_migrate.Prelude.{
  ℕ, ◌≡◌, Bool, true, false, not, ◌&&◌, ◌||◌, Option, ltb, list_eq, nat_eq,
}
use freenet_migrate.Journal.{
  newest_snapshot_wins, newest_snapshot_wins_continue_past_unresponsive, union_all_generations,
  SecretSelectionPolicy, DelegateKey,
}
use freenet_migrate.Secrets.{is_marker}
use freenet_migrate.Migration.{
  MigrationMarker, MarkerQuery, RecoveredSecret, SuccessorSecretsIo, offered, PredecessorMigration,
  imported, no_data, unresponsive, incomplete, writer_unavailable, superseded, row_key,
  row_generation,
}
use freenet_migrate.Migration.Walk.Turns.{Turn, goes_on, ends, Visit, ◌>>=◌, WalkObserver}

-- What holds after a step: `Post` where the visit goes on, and `End` of a row that ends it.
abbrev pub Ensures :
    {S A : Type 0}
    → (A → S → Type 0)
    → (PredecessorMigration → Bool → S → Type 0)
    → Turn A × S
    → Type 0
Ensures Post End (goes_on a, s) = Post a s
Ensures Post End (ends row over, s) = End row over s

pub Ensures-bind :
    {S A B : Type 0} (Mid : A → S → Type 0) (Post : B → S → Type 0)
    (End : PredecessorMigration → Bool → S → Type 0) (m : Visit S A) (f : A → Visit S B) (s : S)
    → Ensures Mid End (m s)
    → ((a : A) (t : S) → Mid a t → Ensures Post End (f a t))
    → Ensures Post End ((m >>= f) s)
unfolding ◌>>=◌
Ensures-bind {S} {A} Mid Post End m f s h k = go (m s) h
  where
    go :
        (r : Turn A × S)
        → Ensures Mid End r
        → Ensures Post End (elim r.0 [ goes_on a ↦ f a r.1 | ends row over ↦ (ends row over, r.1) ])
    go (goes_on a, t) x = k a t x
    go (ends row over, t) x = x

pub Ensures-map :
    {S A : Type 0} (Post Post' : A → S → Type 0)
    (End End' : PredecessorMigration → Bool → S → Type 0) (r : Turn A × S)
    → Ensures Post End r
    → ((a : A) (s : S) → Post a s → Post' a s)
    → ((row : PredecessorMigration) (over : Bool) (s : S) → End row over s → End' row over s)
    → Ensures Post' End' r
Ensures-map Post Post' End End' (goes_on a, s) h f g = f a s h
Ensures-map Post Post' End End' (ends row over, s) h f g = g row over s h

-- One predecessor's data is all that is taken.
abbrev pub takes_one : SecretSelectionPolicy → Bool
takes_one newest_snapshot_wins = true
takes_one newest_snapshot_wins_continue_past_unresponsive = true
takes_one union_all_generations = false

-- Silence may hide newer data.
abbrev pub is_strict : SecretSelectionPolicy → Bool
is_strict newest_snapshot_wins = true
is_strict newest_snapshot_wins_continue_past_unresponsive = false
is_strict union_all_generations = false

-- After such a row the walk is over, under the policy.
unfoldable pub must_stop : SecretSelectionPolicy → PredecessorMigration → Bool
must_stop policy (imported _ _ _) = takes_one policy
must_stop policy (incomplete _ _ tally _) = ltb 0 (offered tally) && takes_one policy
must_stop policy (writer_unavailable _ _ _) = true
must_stop policy (unresponsive _ _ _) = is_strict policy
must_stop policy _ = false

-- Only after such a row can the walk be over: a failure of the successor, or any row under a policy that
-- takes one predecessor's data.
unfoldable pub may_stop : SecretSelectionPolicy → PredecessorMigration → Bool
may_stop policy (writer_unavailable _ _ _) = true
may_stop policy _ = takes_one policy

abbrev pub is_superseded : PredecessorMigration → Bool
is_superseded (superseded _ _) = true
is_superseded _ = false

-- The row is that of a predecessor that was visited, and the walk is over where it must and only where
-- it may.
abbrev pub Fits : SecretSelectionPolicy → DelegateKey → ℕ → PredecessorMigration → Bool → Type 0
Fits policy key generation row over =
    (row_key row ≡ key)
    × (row_generation row ≡ generation)
    × (((not (must_stop policy row) || over)
          && (not over || may_stop policy row)
          && not (is_superseded row))
        ≡ true)

-- The row says that all that the predecessor has was taken.
abbrev pub is_import : PredecessorMigration → Bool
is_import (imported _ _ _) = true
is_import (no_data _ _) = true
is_import _ = false

-- The calls of the walk keep a property of the observer and the successor; items under reserved keys
-- are not written.
pub record Keeps {W O : Type 0} (succ : SuccessorSecretsIo W) (watch : WalkObserver W O)
    (I : O → W → Type 0) : Type 0 where
  pub reads : (o : O) (s : W) (q : MarkerQuery) → I o s → I o (succ.migration_marker s q).0
  pub marks :
      (o : O) (s : W) (k : DelegateKey) (m : MigrationMarker)
      → I o s
      → I o (succ.record_marker s k m).0
  pub writes :
      (o : O) (s : W) (i : RecoveredSecret)
      → is_marker i.key ≡ false
      → I o s
      → I o (succ.write_secret s i).0
  pub flushes : (o : O) (s : W) (k : DelegateKey) → I o s → I o (succ.flush_predecessor s k).0
  pub flags :
      (o : O) (s : W) (k : DelegateKey) (g : ℕ) (n : Option ℕ)
      → I o s
      → let r = watch.before_import (o, s) k g n in I r.0.0 r.0.1
