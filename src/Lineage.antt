-- ===== src/Lineage.antt =====
-- freenet-migrate/src/lineage.rs: the predecessor registry as the runtime sees it.
-- A `Lineage` is a list; the notes and the base58 views of the hashes are text for people.
use freenet_migrate.Prelude.{ℕ, Bool, Bytes, String}

pub record ContractLineageEntry : Type 0 where
  pub generation : ℕ
  pub code_hash : Bytes
  pub note : String

pub record DelegateLineageEntry : Type 0 where
  pub generation : ℕ
  pub code_hash : Bytes
  pub delegate_key : Bytes
  pub irregular_key : Bool
  pub note : String
