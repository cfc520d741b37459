-- ===== src/Driver.antt =====
-- freenet-migrate/src/driver.rs: the sans-IO backward probe over predecessor generations.
-- `ContractInstanceId` is a type with a test for equality. A method on `&mut self` returns the new
-- driver; `none` is the panic of an `expect` or of a `debug_assert!`.
pub mod Ordering
pub mod Pump
pub mod Invariant
pub mod Examples
use freenet_migrate.Prelude.{
  ℕ, zero, ◌+◌, Bool, true, false, not, ◌&&◌, ◌||◌, Option, none, some, List, [], ◌∷◌, ◌++◌, Bytes,
  PartialEq, leb, contains, is_some, is_empty, if◌then◌else◌,
}
use freenet_migrate.Prelude.Fault.{◌>>=◌}

abbrev pub default_max_probe_hops : ℕ
default_max_probe_hops = 64

pub data ProbeAnswer : Type 0 where
  state : Bytes → ProbeAnswer
  absent unknown : ProbeAnswer

-- The trait: the application's operations on its state.
pub record ProbeStateOps (State : Type 0) : Type 0 where
  pub decode : Bytes → Option State
  pub is_real : State → Bool
  pub merge_with_local : State → State → State
  pub merge_generations : State → State → State
  pub prepare_forward : State → State

pub data SelectionPolicy : Type 0 where
  newest_first_wins fold_all : SelectionPolicy

pub unknown_terminates : SelectionPolicy → Bool
unknown_terminates newest_first_wins = true
unknown_terminates fold_all = false

module _ (ContractId : Type 0) where
  pub data Step : Type 0 where
    get : ContractId → Step
    done : Step

module _ (ContractId State : Type 0) where
  pub record Recovery : Type 0 where
    pub merged : State
    pub source : ContractId
    pub truncated_fold : Bool
    pub unresolved : List ContractId

  pub data Outcome : Type 0 where
    recovered : Recovery → Outcome
    seed_local : State → Outcome
    indeterminate : State → List ContractId → Outcome
    no_legacy : State → Outcome

  pub data Phase : Type 0 where
    probing : Phase
    finished : Option Outcome → Phase

  pub record ProbeDriver : Type 0 where
    pub ops : ProbeStateOps State
    pub policy : SelectionPolicy
    pub local : Option State
    pub remaining : List ContractId
    pub outstanding : Option ContractId
    pub hops : ℕ
    pub max_hops : ℕ
    pub fold_acc : Option (ContractId × State)
    pub unresolved : List ContractId
    pub keep_going : Bool
    pub phase : Phase

-- `matches!(self.phase, Phase::Done(_))`
abbrev pub is_finished : {ContractId State : Type 0} → Phase ContractId State → Bool
is_finished probing = false
is_finished (finished _) = true

module _ {ContractId State : Type 0} where
  pub new :
      ProbeStateOps State → State → List ContractId → SelectionPolicy → ProbeDriver ContractId State
  new ops snapshot [] policy = record {
    ops = ops;
    policy = policy;
    local = none;
    remaining = [];
    outstanding = none;
    hops = 0;
    max_hops = default_max_probe_hops;
    fold_acc = none;
    unresolved = [];
    keep_going = false;
    phase = finished (some (no_legacy snapshot));
  }
  new ops snapshot (id ∷ ids) policy = record {
    ops = ops;
    policy = policy;
    local = some snapshot;
    remaining = id ∷ ids;
    outstanding = none;
    hops = 0;
    max_hops = default_max_probe_hops;
    fold_acc = none;
    unresolved = [];
    keep_going = false;
    phase = probing;
  }

  pub with_max_hops : ProbeDriver ContractId State → ℕ → ProbeDriver ContractId State
  with_max_hops d n = record d { max_hops = n }

  -- The argument of the source, a `RollbackRiskAck`, carries no data.
  pub continue_past_unknown : ProbeDriver ContractId State → ProbeDriver ContractId State
  continue_past_unknown d = record d { keep_going = true }

  taken : Phase ContractId State → Option (Outcome ContractId State)
  taken probing = none
  taken (finished o) = o

  after_take : Phase ContractId State → Phase ContractId State
  after_take probing = probing
  after_take (finished _) = finished none

  pub take_outcome :
      ProbeDriver ContractId State
      → Option (Outcome ContractId State) × ProbeDriver ContractId State
  unfolding taken after_take
  take_outcome d = (taken d.phase, record d { phase = after_take d.phase })

  -- The two arms of `on_hit`, on the policy.
  hit :
      SelectionPolicy
      → ProbeDriver ContractId State
      → ContractId
      → State
      → Option (ProbeDriver ContractId State)
  hit newest_first_wins d source s = do
    local ← d.local
    let merged = d.ops.merge_with_local s local
    let prepared = d.ops.prepare_forward merged
    some (record d {
      local = none;
      unresolved = [];
      phase = finished (
          some (
            recovered (record {
              merged = prepared;
              source = source;
              truncated_fold = false;
              unresolved = d.unresolved;
            })));
    })
  hit fold_all d source s = some (record d {
    fold_acc = elim d.fold_acc [
      | none ↦ some (source, s)
      | some (first_source, acc) ↦ some (first_source, d.ops.merge_generations acc s)
    ];
  })

  pub on_hit :
      ProbeDriver ContractId State → ContractId → State → Option (ProbeDriver ContractId State)
  unfolding hit
  on_hit d source s = hit d.policy d source s

module _ {ContractId : Type 0} ⦃e : PartialEq ContractId⦄ where
  -- `if !unresolved.contains(&id) { unresolved.push(id) }`
  pub push_unresolved : List ContractId → ContractId → List ContractId
  push_unresolved ids id = if contains ids id then ids else ids ++ id ∷ []

  -- the loop over `self.remaining.drain(..)`
  pub drain_into : List ContractId → List ContractId → List ContractId
  unfolding push_unresolved
  drain_into ids [] = ids
  drain_into ids (id ∷ rest) = drain_into (push_unresolved ids id) rest

  -- `self.outstanding == Some(id)`
  abbrev pub awaits : Option ContractId → ContractId → Bool
  awaits none id = false
  awaits (some j) id = e.eq j id

module _ {State : Type 0} where
  abbrev real : ProbeStateOps State → Option State → Option State
  real ops none = none
  real ops (some s) = if ops.is_real s then some s else none

  -- What a response counts for: a state that decodes and is real, or a miss.
  pub decode_real : ProbeStateOps State → Bytes → Option State
  decode_real ops bytes = real ops (ops.decode bytes)

module _ {ContractId State : Type 0} ⦃e : PartialEq ContractId⦄ where
  -- the `match self.fold_acc.take()` of `finish_exhausted`
  exhausted_outcome :
      ProbeStateOps State
      → Option (ContractId × State)
      → State
      → Bool
      → List ContractId
      → Outcome ContractId State
  exhausted_outcome ops (some (source, folded)) local truncated_fold unresolved =
      recovered (record {
        merged = ops.prepare_forward (ops.merge_with_local folded local);
        source = source;
        truncated_fold = truncated_fold;
        unresolved = unresolved;
      })
  exhausted_outcome ops none local truncated_fold [] = seed_local (ops.prepare_forward local)
  exhausted_outcome ops none local truncated_fold (id ∷ ids) =
      indeterminate (ops.prepare_forward local) (id ∷ ids)

  pub finish_exhausted : ProbeDriver ContractId State → Option (ProbeDriver ContractId State)
  unfolding exhausted_outcome drain_into
  finish_exhausted d = do
    local ← d.local
    let truncated_fold = not (is_empty d.remaining)
    let unresolved = drain_into d.unresolved d.remaining
    some (record d {
      local = none;
      unresolved = [];
      remaining = [];
      fold_acc = none;
      phase = finished (some (exhausted_outcome d.ops d.fold_acc local truncated_fold unresolved));
    })

  -- The first test is the `debug_assert!`.
  pub finish_indeterminate : ProbeDriver ContractId State → Option (ProbeDriver ContractId State)
  unfolding drain_into
  finish_indeterminate d = if is_some d.fold_acc then none else do
    local ← d.local
    some (record d {
      local = none;
      unresolved = [];
      remaining = [];
      phase = finished (
          some (indeterminate (d.ops.prepare_forward local) (drain_into d.unresolved d.remaining)));
    })

  exhaust : ProbeDriver ContractId State → Option (Step ContractId × ProbeDriver ContractId State)
  unfolding finish_exhausted
  exhaust d = do d' ← finish_exhausted d; some (done, d')

  -- the rest of `next_action`, on `outstanding` and `remaining`
  advance :
      Option ContractId
      → List ContractId
      → ProbeDriver ContractId State
      → Option (Step ContractId × ProbeDriver ContractId State)
  unfolding exhaust
  advance (some id) _ d = some (get id, d)
  advance none [] d = exhaust d
  advance none (id ∷ rest) d =
      if leb d.max_hops d.hops
      then exhaust d
      else some (get id, record d { remaining = rest; outstanding = some id; hops = d.hops + 1 })

  pub next_action :
      ProbeDriver ContractId State → Option (Step ContractId × ProbeDriver ContractId State)
  unfolding advance
  next_action d =
      if is_finished d.phase then some (done, d) else advance d.outstanding d.remaining d

  pub on_response :
      ProbeDriver ContractId State → ContractId → Bytes → Option (ProbeDriver ContractId State)
  unfolding on_hit decode_real
  on_response d id bytes =
      if not (awaits d.outstanding id) || is_finished d.phase
      then some d
      else let d' = record d { outstanding = none } in
        elim (decode_real d.ops bytes) [ none ↦ some d' | some s ↦ on_hit d' id s ]

  pub on_absent : ProbeDriver ContractId State → ContractId → Option (ProbeDriver ContractId State)
  on_absent d id =
      if is_finished d.phase
      then some d
      else if awaits d.outstanding id
      then some (record d { outstanding = none })
      else some d

  pub on_unknown : ProbeDriver ContractId State → ContractId → Option (ProbeDriver ContractId State)
  unfolding unknown_terminates push_unresolved finish_indeterminate
  on_unknown d id =
      if is_finished d.phase
      then some d
      else if not (awaits d.outstanding id)
      then some d
      else let d' = record d { outstanding = none; unresolved = push_unresolved d.unresolved id } in
        if unknown_terminates d.policy && not d.keep_going then finish_indeterminate d' else some d'

  pub on_timeout : ProbeDriver ContractId State → ContractId → Option (ProbeDriver ContractId State)
  unfolding on_unknown
  on_timeout d id = on_unknown d id
