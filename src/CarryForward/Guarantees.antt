-- ===== src/CarryForward/Guarantees.antt =====
-- What an application may rely on after a call of freenet-migrate/src/contract.rs.
use freenet_migrate.Prelude.{
  ◌≡◌, ◌⊎◌, inl, inr, refl, not, ◌&&◌, List, [], ◌∷◌, arith, Bytes, nat_eq, list_eq, list_beq_iff,
  contains,
}
use freenet_migrate.Prelude.Result.{Result, ok, err, ◌>>=◌, map_err}
use freenet_migrate.Lineage.{ContractLineageEntry}
use freenet_migrate.CarryForward.{
  MigrateError, merge_failed, verify_failed, ComposableState, serde_clone, verified_candidate,
  replaced, carry_forward, predecessor_ids, without, resolve_predecessors,
}

module _ {State Parent Params : Type 0} (ops : ComposableState State Parent Params) where
  -- The new state is a verified merge of a copy of the old one, and the call succeeded.
  abbrev pub IsCarried :
      State → State → Parent → Params → Result MigrateError (Unit {0}) × State → Type 0
  IsCarried self predecessor parent params (r, next) =
      (r ≡ ok tt)
      × (copy : State) × (serde_clone ops self ≡ ok copy)
      × (ops.merge copy parent params predecessor ≡ ok next)
      × (ops.verify next parent params ≡ ok tt)

  -- The old state stands, and the call failed.
  abbrev pub IsRefused : State → Result MigrateError (Unit {0}) × State → Type 0
  IsRefused self (r, next) = (e : MigrateError) × (r ≡ err e) × (next ≡ self)

  -- Carrying forward fails closed: either it succeeds, and the new state is one that the predecessor
  -- merged into a copy of the old state and that verifies, or it fails and the state is unchanged.
  pub carry_forward-closed :
      (self predecessor : State) (parent : Parent) (params : Params)
      → IsCarried self predecessor parent params (carry_forward ops self predecessor parent params)
        ⊎ IsRefused self (carry_forward ops self predecessor parent params)
  unfolding carry_forward verified_candidate replaced
  carry_forward-closed self predecessor parent params = copied (serde_clone ops self) refl
    where
      Goal : Result MigrateError State → Type 0
      Goal m =
          IsCarried self predecessor parent params (replaced self m)
          ⊎ IsRefused self (replaced self m)

      checked :
          (copy candidate : State) (v : Result Bytes (Unit {0}))
          → serde_clone ops self ≡ ok copy
          → ops.merge copy parent params predecessor ≡ ok candidate
          → ops.verify candidate parent params ≡ v
          → Goal (map_err verify_failed v >>= λ verified. ok candidate)
      checked copy candidate (ok u) c m v = inl (refl, copy, c, m, v)
      checked copy candidate (err t) c m v = inr (verify_failed t, refl, refl)

      joined :
          (copy : State) (m : Result Bytes State)
          → serde_clone ops self ≡ ok copy
          → ops.merge copy parent params predecessor ≡ m
          → Goal (
              map_err merge_failed m >>= λ candidate.
              map_err verify_failed (ops.verify candidate parent params) >>= λ verified.
              ok candidate)
      joined copy (ok candidate) c m =
          checked copy candidate (ops.verify candidate parent params) c m refl
      joined copy (err t) c m = inr (merge_failed t, refl, refl)

      copied :
          (c : Result MigrateError State)
          → serde_clone ops self ≡ c
          → Goal (
              c >>= λ copy.
              map_err merge_failed (ops.merge copy parent params predecessor) >>= λ candidate.
              map_err verify_failed (ops.verify candidate parent params) >>= λ verified.
              ok candidate)
      copied (ok copy) c = joined copy (ops.merge copy parent params predecessor) c refl
      copied (err e) c = inr (e, refl, refl)

contains-without :
    (already : List Bytes) (id : Bytes) (ids : List Bytes)
    → contains (without already ids) id ≡ (contains ids id && not (contains already id))
unfolding without
contains-without already id [] = refl
contains-without already id (x ∷ ids) =
    ground (arith, contains-without already id ids, list_beq_iff x id)

-- The predecessors that are asked for are exactly those of the lineage whose state is not there yet.
pub resolve_predecessors-contains :
    (blake3 : Bytes → Bytes) (params : Bytes) (lineage : List ContractLineageEntry)
    (already : List Bytes) (id : Bytes)
    → contains (resolve_predecessors blake3 params lineage already) id
      ≡ (contains (predecessor_ids blake3 params lineage) id && not (contains already id))
unfolding resolve_predecessors
resolve_predecessors-contains blake3 params lineage already id =
    contains-without already id (predecessor_ids blake3 params lineage)
