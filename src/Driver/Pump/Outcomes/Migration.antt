-- ===== src/Driver/Pump/Outcomes/Migration.antt =====
-- `migrate_contract` of freenet-migrate/src/driver.rs against the walk over its candidates.
use freenet_migrate.Prelude.{
  suc, ◌<◌, ◌≡◌, refl, some, List, [], ◌∷◌, arith, Bytes, PartialEq, length,
}
use freenet_migrate.Prelude.Result.{Result}
use freenet_migrate.Lineage.{ContractLineageEntry}
use freenet_migrate.Driver.{
  ProbeAnswer, ProbeStateOps, newest_first_wins, fold_all, new, next_action, take_outcome,
}
use freenet_migrate.Driver.Ordering.{from_lineage, length-from_lineage}
use freenet_migrate.Driver.Pump.{pump, migrate_contract}
use freenet_migrate.Driver.Pump.Outcomes.{newest_promise, fold_promise}
use freenet_migrate.Driver.Pump.Outcomes.Refinement.{acc_of, newest_refines, fold_refines}

module _ {ContractId State W E : Type 0} ⦃e : PartialEq ContractId⦄
    (contract_id : Bytes → Bytes → ContractId) (get : ContractId → W → Result E ProbeAnswer × W)
    (ops : ProbeStateOps State) (local : State) (params : Bytes)
    (lineage : List ContractLineageEntry) where
  enough : (ids : List ContractId) → length ids ≡ length lineage → length ids < suc (length lineage)
  enough ids h = omega arith

  -- Under newest-first, and whatever the transport answers, the migration neither panics nor runs on
  -- for ever: it returns what the walk over the predecessors from the newest to the oldest returns,
  -- with an allowance of 64 candidates, the transport's error included.
  pub migrate_contract-newest :
      (w : W)
      → migrate_contract contract_id get ops local params lineage newest_first_wins w
        ≡ some (newest_promise get ops local (from_lineage contract_id params lineage) w)
  unfolding migrate_contract new newest_promise pump next_action take_outcome
  migrate_contract-newest w =
      go (from_lineage contract_id params lineage) (length-from_lineage contract_id params lineage)
    where
      go :
          (ids : List ContractId)
          → length ids ≡ length lineage
          → pump get (suc (length lineage)) (new ops local ids newest_first_wins) w
            ≡ some (newest_promise get ops local ids w)
      go [] h = refl
      go (id ∷ ids) h =
          newest_refines get ops local (suc (length lineage)) 64 0 64 (id ∷ ids) w
            (enough (id ∷ ids) h) refl

  -- Under fold-all, and whatever the transport answers, the migration neither panics nor runs on for
  -- ever: it returns what the walk that folds every state found returns, with an allowance of 64
  -- candidates, the transport's error included.
  pub migrate_contract-fold :
      (w : W)
      → migrate_contract contract_id get ops local params lineage fold_all w
        ≡ some (fold_promise get ops local (from_lineage contract_id params lineage) w)
  unfolding migrate_contract new fold_promise acc_of pump next_action take_outcome
  migrate_contract-fold w =
      go (from_lineage contract_id params lineage) (length-from_lineage contract_id params lineage)
    where
      go :
          (ids : List ContractId)
          → length ids ≡ length lineage
          → pump get (suc (length lineage)) (new ops local ids fold_all) w
            ≡ some (fold_promise get ops local ids w)
      go [] h = refl
      go (id ∷ ids) h =
          fold_refines get ops local (suc (length lineage)) 64 0 64 (id ∷ ids) [] [] w
            (enough (id ∷ ids) h) refl
