-- ===== src/Driver/Pump.antt =====
-- `contract_probe` and the pump `migrate_contract` of freenet-migrate/src/driver.rs.
-- The transport is a function on a world `W`, which an answer may change; an error ends the pump.
pub mod Outcomes
use freenet_migrate.Prelude.{ℕ, zero, suc, ◌+◌, Option, none, some, List, Bytes, PartialEq, length}
use freenet_migrate.Prelude.Fault.{◌>>=◌}
use freenet_migrate.Prelude.Result.{Result, ok, err}
use freenet_migrate.Lineage.{ContractLineageEntry}
use freenet_migrate.Driver.{
  ProbeAnswer, ProbeStateOps, SelectionPolicy, Step, Outcome, ProbeDriver, new, next_action,
  take_outcome, on_response, on_absent, on_unknown,
}
use freenet_migrate.Driver.Ordering.{from_lineage}

module _ {ContractId State : Type 0} ⦃e : PartialEq ContractId⦄ where
  deliver :
      ProbeDriver ContractId State
      → ContractId
      → ProbeAnswer
      → Option (ProbeDriver ContractId State)
  deliver d id (ProbeAnswer.state bytes) = on_response d id bytes
  deliver d id ProbeAnswer.absent = on_absent d id
  deliver d id ProbeAnswer.unknown = on_unknown d id

module _ {ContractId State W E : Type 0} ⦃e : PartialEq ContractId⦄ where
  -- `Step::Get(id)` once the transport has answered; `loop` goes on.
  answered :
      (ProbeDriver ContractId State → W → Option (Result E (Outcome ContractId State) × W))
      → ProbeDriver ContractId State
      → ContractId
      → Result E ProbeAnswer × W
      → Option (Result E (Outcome ContractId State) × W)
  unfolding deliver
  answered loop d id (err x, w) = some (err x, w)
  answered loop d id (ok a, w) = do d' ← deliver d id a; loop d' w

  stopped : ProbeDriver ContractId State → W → Option (Result E (Outcome ContractId State) × W)
  stopped d w = do outcome ← (take_outcome d).0; some (ok outcome, w)

  module _ (get : ContractId → W → Result E ProbeAnswer × W) where
    -- The `match` on the step.
    act :
        (ProbeDriver ContractId State → W → Option (Result E (Outcome ContractId State) × W))
        → W
        → Step ContractId
        → ProbeDriver ContractId State
        → Option (Result E (Outcome ContractId State) × W)
    unfolding answered stopped
    act loop w Step.done d = stopped d w
    act loop w (Step.get id) d = answered loop d id (get id w)

    -- The `loop`; `none` is a panic, or fuel that ran out.
    pub pump :
        ℕ → ProbeDriver ContractId State → W → Option (Result E (Outcome ContractId State) × W)
    unfolding act
    pump zero d w = none
    pump (suc fuel) d w = do (step, d') ← next_action d; act (pump fuel) w step d'

module _ {ContractId State : Type 0} ⦃e : PartialEq ContractId⦄
    (contract_id : Bytes → Bytes → ContractId) where
  pub contract_probe :
      ProbeStateOps State
      → State
      → Bytes
      → List ContractLineageEntry
      → SelectionPolicy
      → ProbeDriver ContractId State
  contract_probe ops snapshot params lineage policy =
      new ops snapshot (from_lineage contract_id params lineage) policy

module _ {ContractId State W E : Type 0} ⦃e : PartialEq ContractId⦄
    (contract_id : Bytes → Bytes → ContractId)
    (get : ContractId → W → Result E ProbeAnswer × W) where
  -- One round for each predecessor, and one to stop.
  unfoldable pub migrate_contract :
      ProbeStateOps State
      → State
      → Bytes
      → List ContractLineageEntry
      → SelectionPolicy
      → W
      → Option (Result E (Outcome ContractId State) × W)
  unfolding pump contract_probe
  migrate_contract ops snapshot params lineage policy =
      pump get (suc (length lineage))
        (contract_probe contract_id ops snapshot params lineage policy)
