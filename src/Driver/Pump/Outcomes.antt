-- ===== src/Driver/Pump/Outcomes.antt =====
-- What `migrate_contract` of freenet-migrate/src/driver.rs promises, without a driver: one walk over
-- the candidates for each policy.
pub mod Refinement
pub mod Migration
pub mod Guarantees
use freenet_migrate.Prelude.{
  ℕ, zero, suc, Bool, true, false, Option, none, some, List, [], ◌∷◌, ◌++◌, PartialEq, is_empty,
  not,
}
use freenet_migrate.Prelude.Result.{Result, ok, err}
use freenet_migrate.Driver.{
  ProbeAnswer, ProbeStateOps, Outcome, recovered, seed_local, indeterminate, no_legacy,
  default_max_probe_hops, decode_real, push_unresolved, drain_into,
}

-- What one answer tells: real data, the knowledge that there is none, or nothing.
pub data Verdict (State : Type 0) : Type 0 where
  real : State → Verdict State
  miss silent : Verdict State

module _ {State : Type 0} where
  pub verdict_of : Option State → Verdict State
  verdict_of none = miss
  verdict_of (some s) = real s

  pub verdict : ProbeStateOps State → ProbeAnswer → Verdict State
  verdict ops (ProbeAnswer.state bytes) = verdict_of (decode_real ops bytes)
  verdict ops ProbeAnswer.absent = miss
  verdict ops ProbeAnswer.unknown = silent

module _ {ContractId : Type 0} ⦃e : PartialEq ContractId⦄ where
  -- Every identifier that is listed, once.
  once : List ContractId → List ContractId
  once ids = drain_into [] ids

module _ {ContractId State : Type 0} (ops : ProbeStateOps State) where
  -- Older states are folded into the newest, one after the other.
  pub fold_older : State → List (ContractId × State) → State
  fold_older s [] = s
  fold_older s ((id, t) ∷ older) = fold_older (ops.merge_generations s t) older

  module _ (local : State) where
    -- What fold-all makes of the states that it found, newest first, and of the identifiers that
    -- were not resolved.
    pub folded : List (ContractId × State) → Bool → List ContractId → Outcome ContractId State
    unfolding fold_older
    folded [] truncated [] = seed_local (ops.prepare_forward local)
    folded [] truncated (id ∷ ids) = indeterminate (ops.prepare_forward local) (id ∷ ids)
    folded ((source, s) ∷ older) truncated unresolved = recovered (record {
      merged = ops.prepare_forward (ops.merge_with_local (fold_older s older) local);
      source = source;
      truncated_fold = truncated;
      unresolved = unresolved;
    })

module _ {ContractId State W E : Type 0} ⦃e : PartialEq ContractId⦄
    (get : ContractId → W → Result E ProbeAnswer × W) (ops : ProbeStateOps State)
    (local : State) where
  -- What newest-first makes of one answer; `rest` goes on with the older candidates.
  on_newest :
      (W → Result E (Outcome ContractId State) × W)
      → ContractId
      → List ContractId
      → Result E ProbeAnswer × W
      → Result E (Outcome ContractId State) × W
  unfolding once verdict
  on_newest rest id ids (err x, w) = (err x, w)
  on_newest rest id ids (ok a, w) = elim (verdict ops a) [
    | miss ↦ rest w
    | silent ↦ (ok (indeterminate (ops.prepare_forward local) (once (id ∷ ids))), w)
    | real s ↦ (
      ok (
          recovered (record {
            merged = ops.prepare_forward (ops.merge_with_local s local);
            source = id;
            truncated_fold = false;
            unresolved = [];
          })),
      w,
    )
  ]

  -- Newest first: the first real state wins; silence, or the end of the allowance, leaves everything
  -- from there on unresolved. The number is how many candidates may still be asked.
  pub newest_walk : ℕ → List ContractId → W → Result E (Outcome ContractId State) × W
  unfolding on_newest
  newest_walk k [] w = (ok (seed_local (ops.prepare_forward local)), w)
  newest_walk zero (id ∷ ids) w =
      (ok (indeterminate (ops.prepare_forward local) (once (id ∷ ids))), w)
  newest_walk (suc k) (id ∷ ids) w = on_newest (newest_walk k ids) id ids (get id w)

  -- What fold-all makes of one answer.
  on_fold :
      (List (ContractId × State) → List ContractId → W → Result E (Outcome ContractId State) × W)
      → ContractId
      → List (ContractId × State)
      → List ContractId
      → Result E ProbeAnswer × W
      → Result E (Outcome ContractId State) × W
  unfolding verdict
  on_fold rest id found quiet (err x, w) = (err x, w)
  on_fold rest id found quiet (ok a, w) = elim (verdict ops a) [
    | miss ↦ rest found quiet w
    | silent ↦ rest found (push_unresolved quiet id) w
    | real s ↦ rest (found ++ (id, s) ∷ []) quiet w
  ]

  -- Fold-all: every candidate within the allowance is asked; the lists are the states found and the
  -- identifiers that stayed silent so far.
  pub fold_walk :
      ℕ
      → List ContractId
      → List (ContractId × State)
      → List ContractId
      → W
      → Result E (Outcome ContractId State) × W
  unfolding folded on_fold
  fold_walk k [] found quiet w = (ok (folded ops local found false quiet), w)
  fold_walk zero (id ∷ ids) found quiet w =
      (ok (folded ops local found true (drain_into quiet (id ∷ ids))), w)
  fold_walk (suc k) (id ∷ ids) found quiet w = on_fold (fold_walk k ids) id found quiet (get id w)

  -- With no predecessor there is nothing to ask.
  pub newest_promise : List ContractId → W → Result E (Outcome ContractId State) × W
  unfolding newest_walk
  newest_promise [] w = (ok (no_legacy local), w)
  newest_promise (id ∷ ids) w = newest_walk default_max_probe_hops (id ∷ ids) w

  pub fold_promise : List ContractId → W → Result E (Outcome ContractId State) × W
  unfolding fold_walk
  fold_promise [] w = (ok (no_legacy local), w)
  fold_promise (id ∷ ids) w = fold_walk default_max_probe_hops (id ∷ ids) [] [] w
