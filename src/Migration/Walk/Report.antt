-- ===== src/Migration/Walk/Report.antt =====
-- The report of the walk of freenet-migrate/src/delegate_migrate.rs, and what a walk keeps.
use freenet_migrate.Prelude.{
  ℕ, ◌≡◌, refl, sym, ap, ap₂, ◌∙◌, Bool, true, false, List, [], ◌∷◌, map, arith,
}
use freenet_migrate.Lineage.{DelegateLineageEntry}
use freenet_migrate.Journal.{SecretSelectionPolicy, DelegateKey}
use freenet_migrate.Driver.Ordering.{
  IsNewestFirst, of_generation, sort_newest-IsNewestFirst, sort_newest-stable, sort_by,
  sort_newest-map,
}
use freenet_migrate.Migration.{
  SuccessorSecretsIo, PredecessorSecretsIo, PredecessorMigration, superseded, row_key,
  row_generation, DelegateMigrationReport,
}
use freenet_migrate.Migration.Walk.{
  walk_rows, ordered, with_generation, newest_first_entries, entry_with_generation, entry_of,
}
use freenet_migrate.Migration.Walk.Turns.{Walk, WalkObserver}
use freenet_migrate.Migration.Walk.Visits.{visit}
use freenet_migrate.Migration.Walk.Visits.Fits.{Keeps, Fits, must_stop, may_stop, is_superseded}
use freenet_migrate.Migration.Walk.Visits.Visited.{visit-Final}

abbrev pub named : PredecessorMigration → ℕ × DelegateKey
named row = (row_generation row, row_key row)

-- The two orders of the code agree.
pub entries-ordered :
    (es : List DelegateLineageEntry) → map with_generation (newest_first_entries es) ≡ ordered es
unfolding newest_first_entries ordered
entries-ordered es =
    ap (λ xs. map with_generation (map entry_of xs))
      (sort_newest-map (λ e. e.generation) entry_with_generation (λ e. refl) es)
    ∙ untagged (sort_by (λ e. e.generation) es)
    ∙ sym (sort_newest-map (λ e. e.generation) with_generation (λ e. refl) es)
  where
    untagged :
        (xs : List DelegateLineageEntry)
        → map with_generation (map entry_of (map entry_with_generation xs)) ≡ map with_generation xs
    untagged [] = refl
    untagged (x ∷ xs) = ap (λ ys. with_generation x ∷ ys) (untagged xs)

-- The order of the walk, by its generations.
pub ordered-IsNewestFirst :
    (predecessors : List DelegateLineageEntry)
    → IsNewestFirst (ordered predecessors)
      × ((g : ℕ)
          → of_generation g (ordered predecessors)
            ≡ of_generation g (map with_generation predecessors))
unfolding ordered
ordered-IsNewestFirst predecessors = (
  sort_newest-IsNewestFirst (map with_generation predecessors),
  λ g. sort_newest-stable g (map with_generation predecessors),
)

-- The row of a predecessor that was not visited.
abbrev pub skipped : ℕ × DelegateKey → PredecessorMigration
skipped (g, k) = superseded k g

module _ {W P O : Type 0} (succ : SuccessorSecretsIo W) (preds : PredecessorSecretsIo P)
    (watch : WalkObserver W O) (policy : SecretSelectionPolicy) where
  -- A walk over the predecessors from one state to another, with its rows: each visit starts in the state
  -- that the one before it left. It goes on only after a row that need not end it, and ends early only
  -- after one that may; the state is then that of the last visit, and the other predecessors have the row
  -- of those that were not visited, which no visit gives.
  pub data Walked
      : List (ℕ × DelegateKey) → Walk W P O → DelegateMigrationReport → Walk W P O → Type 0 where
    finished : {w : Walk W P O} → Walked [] w [] w
    visited :
        {g : ℕ} {k : DelegateKey} {rest : List (ℕ × DelegateKey)} {row : PredecessorMigration}
        {rows : DelegateMigrationReport} {w w' w'' : Walk W P O}
        → visit succ preds watch policy k g w ≡ ((row, false), w')
        → must_stop policy row ≡ false
        → is_superseded row ≡ false
        → Walked rest w' rows w''
        → Walked ((g, k) ∷ rest) w (row ∷ rows) w''
    halted :
        {g : ℕ} {k : DelegateKey} {rest : List (ℕ × DelegateKey)} {row : PredecessorMigration}
        {w w' : Walk W P O}
        → visit succ preds watch policy k g w ≡ ((row, true), w')
        → may_stop policy row ≡ true
        → is_superseded row ≡ false
        → Walked ((g, k) ∷ rest) w (row ∷ map skipped rest) w'

  -- Where the walk is over, nothing is done.
  walk_rows-over :
      (order : List (ℕ × DelegateKey)) (w : Walk W P O)
      → walk_rows succ preds watch policy order true w ≡ (map skipped order, w)
  unfolding walk_rows
  walk_rows-over [] w = refl
  walk_rows-over ((g, k) ∷ order) w = rw (walk_rows-over order w)

  pub anything-Keeps : Keeps succ watch (λ o s. Unit)
  anything-Keeps = record {
    reads = λ o s q h. tt;
    marks = λ o s k m h. tt;
    writes = λ o s i m h. tt;
    flushes = λ o s k h. tt;
    flags = λ o s k g n h. tt;
  }

  pub walk_rows-Walked :
      (order : List (ℕ × DelegateKey)) (w : Walk W P O)
      → let (rows, w') = walk_rows succ preds watch policy order false w in Walked order w rows w'
  unfolding walk_rows
  walk_rows-Walked [] w = finished
  walk_rows-Walked ((g, k) ∷ order) w =
      go (visit succ preds watch policy k g w) refl
        (visit-Final succ preds watch policy (λ o s. Unit) anything-Keeps k g w tt).0
        (λ w'. walk_rows-Walked order w')
    where
      go :
          (x : (PredecessorMigration × Bool) × Walk W P O)
          → visit succ preds watch policy k g w ≡ x
          → Fits policy k g x.0.0 x.0.1
          → ((w' : Walk W P O)
              → let (rows, w'') = walk_rows succ preds watch policy order false w' in
                Walked order w' rows w'')
          → let (rows, w'') = walk_rows succ preds watch policy order x.0.1 x.1 in
            Walked ((g, k) ∷ order) w (x.0.0 ∷ rows) w''
      go ((row, true), w') e fits next =
          rw (walk_rows-over order w') (halted e (ground arith) (ground arith))
      go ((row, false), w') e fits next = visited e (ground arith) (ground arith) (next w')

module _ {W P O : Type 0} (succ : SuccessorSecretsIo W) (preds : PredecessorSecretsIo P)
    (watch : WalkObserver W O) (policy : SecretSelectionPolicy) (I : O → W → Type 0)
    (keeps : Keeps succ watch I) where
  abbrev pub Reports : List (ℕ × DelegateKey) → List PredecessorMigration × Walk W P O → Type 0
  Reports order (rows, w) = (map named rows ≡ order) × I w.observer w.successor

  pub over-Reports :
      (order : List (ℕ × DelegateKey)) (w : Walk W P O)
      → I w.observer w.successor
      → Reports order (walk_rows succ preds watch policy order true w)
  unfolding walk_rows row_key row_generation
  over-Reports [] w h = (refl, h)
  over-Reports ((g, k) ∷ order) w h =
      let (names, kept) = over-Reports order w h in (ap (λ xs. (g, k) ∷ xs) names, kept)

  named-cons :
      (g : ℕ) (k : DelegateKey) (over : Bool) (row : PredecessorMigration)
      (rows : List PredecessorMigration) (order : List (ℕ × DelegateKey))
      → Fits policy k g row over
      → map named rows ≡ order
      → map named (row ∷ rows) ≡ (g, k) ∷ order
  named-cons g k over row rows order fits names =
      ap₂ (λ x xs. x ∷ xs) (ap₂ (λ a b. (a, b)) fits.1 fits.0) names

  pub walk_rows-Reports :
      (order : List (ℕ × DelegateKey)) (w : Walk W P O)
      → I w.observer w.successor
      → Reports order (walk_rows succ preds watch policy order false w)
  unfolding walk_rows
  walk_rows-Reports [] w h = (refl, h)
  walk_rows-Reports ((g, k) ∷ order) w h =
      go (visit succ preds watch policy k g w) (visit-Final succ preds watch policy I keeps k g w h)
        (λ w' kept. walk_rows-Reports order w' kept)
    where
      go :
          (x : (PredecessorMigration × Bool) × Walk W P O)
          → Fits policy k g x.0.0 x.0.1 × I x.1.observer x.1.successor
          → ((w' : Walk W P O)
              → I w'.observer w'.successor
              → Reports order (walk_rows succ preds watch policy order false w'))
          → let (rows, w'') = walk_rows succ preds watch policy order x.0.1 x.1 in
            Reports ((g, k) ∷ order) (x.0.0 ∷ rows, w'')
      go ((row, true), w') (fits, after) next =
          let (names, last) = over-Reports order w' after in
          (named-cons g k _ row _ order fits names, last)
      go ((row, false), w') (fits, after) next =
          let (names, last) = next w' after in (named-cons g k _ row _ order fits names, last)
