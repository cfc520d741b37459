-- ===== src/CarryForward.antt =====
-- freenet-migrate/src/contract.rs: carrying a predecessor's state forward, and the identifiers of
-- predecessors.
-- The state's own operations (`ComposableState`), its codec and blake3 are parameters. Texts of errors
-- are bytes. A method on `&mut self` returns the new state.
pub mod Guarantees
mod Examples
use freenet_migrate.Prelude.{
  ℕ, Bool, true, false, not, ◌&&◌, List, [], ◌∷◌, ◌++◌, Bytes, length, nat_beq, PartialEq, nat_eq,
  list_eq, contains, is_empty, if◌then◌else◌,
}
use freenet_migrate.Prelude.Result.{Result, ok, err, ◌>>=◌, ◌>>◌, map_err}
use freenet_migrate.Lineage.{ContractLineageEntry}

-- The variants that this file returns.
pub data MigrateError : Type 0 where
  merge_failed verify_failed codec_failed bad_code_hash : Bytes → MigrateError

pub record ComposableState (State Parent Params : Type 0) : Type 0 where
  pub merge : State → Parent → Params → State → Result Bytes State
  pub verify : State → Parent → Params → Result Bytes (Unit {0})
  pub into_writer : State → Result Bytes Bytes
  pub from_reader : Bytes → Result Bytes State

-- `*self = candidate` where there is one.
replaced :
    {State : Type 0} → State → Result MigrateError State → Result MigrateError (Unit {0}) × State
replaced self (err e) = (err e, self)
replaced self (ok candidate) = (ok tt, candidate)

module _ {State Parent Params : Type 0} (ops : ComposableState State Parent Params) where
  pub serde_clone : State → Result MigrateError State
  serde_clone value = do
    buf ← map_err codec_failed (ops.into_writer value)
    map_err codec_failed (ops.from_reader buf)

  -- The candidate of `carry_forward`.
  verified_candidate : State → State → Parent → Params → Result MigrateError State
  unfolding serde_clone
  verified_candidate self predecessor parent params = do
    copy ← serde_clone self
    candidate ← map_err merge_failed (ops.merge copy parent params predecessor)
    verified ← map_err verify_failed (ops.verify candidate parent params)
    ok candidate

  unverified_candidate : State → State → Parent → Params → Result MigrateError State
  unfolding serde_clone
  unverified_candidate self predecessor parent params = do
    copy ← serde_clone self
    map_err merge_failed (ops.merge copy parent params predecessor)

  pub carry_forward : State → State → Parent → Params → Result MigrateError (Unit {0}) × State
  unfolding verified_candidate replaced
  carry_forward self predecessor parent params =
      replaced self (verified_candidate self predecessor parent params)

  -- The acknowledgement carries no data.
  pub carry_forward_unverified :
      State → State → Parent → Params → Result MigrateError (Unit {0}) × State
  unfolding unverified_candidate replaced
  carry_forward_unverified self predecessor parent params =
      replaced self (unverified_candidate self predecessor parent params)

module _ (blake3 : Bytes → Bytes) where
  pub contract_id_from_code_hash : Bytes → Bytes → Bytes
  contract_id_from_code_hash code_hash params = blake3 (code_hash ++ params)

  pub predecessor_ids : Bytes → List ContractLineageEntry → List Bytes
  unfolding contract_id_from_code_hash
  predecessor_ids params [] = []
  predecessor_ids params (e ∷ es) =
      contract_id_from_code_hash e.code_hash params ∷ predecessor_ids params es

-- `filter(|id| !already.contains(id))`
without : List Bytes → List Bytes → List Bytes
without already [] = []
without already (id ∷ ids) =
    let rest = without already ids in if contains already id then rest else id ∷ rest

module _ (blake3 : Bytes → Bytes) where
  -- The field `ids` of the resolution, on the identifiers of the related states; its mode is constant.
  pub resolve_predecessors : Bytes → List ContractLineageEntry → List Bytes → List Bytes
  unfolding predecessor_ids without
  resolve_predecessors params lineage already =
      without already (predecessor_ids blake3 params lineage)
