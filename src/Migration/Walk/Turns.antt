-- ===== src/Migration/Walk/Turns.antt =====
-- The state that the walk of freenet-migrate/src/delegate_migrate.rs carries along, a visit's steps, and
-- the trait `WalkObserver`.
use freenet_migrate.Prelude.{ℕ, Bool, Option, List, Bytes, Map}
use freenet_migrate.Prelude.Result.{Result}
use freenet_migrate.Journal.{DelegateKey, JournalResolution}
use freenet_migrate.Migration.{PredecessorMigration}

-- `journaled` and `withholds` do not depend on what the observer has seen.
pub record WalkObserver (W O : Type 0) : Type 0 where
  pub journaled : Bool
  pub withholds : O → Bytes → Bool
  pub resolved_with_data : O → DelegateKey → Option JournalResolution
  pub import_started : O → DelegateKey → Bool
  pub items_seen : O → DelegateKey → ℕ
  pub before_import : O × W → DelegateKey → ℕ → Option ℕ → (O × W) × Result Bytes (Unit {0})

pub record Walk (W P O : Type 0) : Type 0 where
  pub successor : W
  pub io : P
  pub observer : O
  pub withheld_keys : List Bytes
  pub absent : List Bytes  -- `not_installed`
  pub done_with_data : List Bytes
  pub journal_resolved : Map JournalResolution
  pub bridged : List Bytes

pub data Turn (A : Type 0) : Type 0 where
  goes_on : A → Turn A
  ends : PredecessorMigration → Bool → Turn A

abbrev pub Visit : Type 0 → Type 0 → Type 0
Visit S A = S → Turn A × S

module _ {S : Type 0} where
  infixl 5 ◌>>=◌ ◌>>◌
  abbrev pub pure : {A : Type 0} → A → Visit S A
  pure a s = (goes_on a, s)

  unfoldable pub ◌>>=◌ : {A B : Type 0} → Visit S A → (A → Visit S B) → Visit S B
  ◌>>=◌ m f s =
      let (t, s') = m s in elim t [ goes_on a ↦ f a s' | ends row over ↦ (ends row over, s') ]

  abbrev pub ◌>>◌ : {A B : Type 0} → Visit S A → Visit S B → Visit S B
  m >> k = m >>= λ _. k
