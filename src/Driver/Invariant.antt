-- ===== src/Driver/Invariant.antt =====
-- What holds of a probe driver of freenet-migrate/src/driver.rs between two calls, in whatever
-- order the application makes its calls.
pub mod Preserved
use freenet_migrate.Prelude.{
  ℕ, ◌≡◌, refl, Bool, true, false, not, ◌&&◌, ◌||◌, if◌then◌else◌, Option, none, some, List, [],
  ◌∷◌, ◌++◌, arith, Bytes, PartialEq, contains, Distinct, is_some, beq_refl,
}
use freenet_migrate.Prelude.Fault.{◌>>=◌}
use freenet_migrate.Driver.{
  ProbeStateOps, SelectionPolicy, newest_first_wins, fold_all, Step, Outcome, Recovery, ProbeDriver,
  Phase, is_finished, probing, finished, recovered, indeterminate, new, with_max_hops,
  continue_past_unknown, take_outcome, push_unresolved, drain_into, exhausted_outcome,
  finish_exhausted, finish_indeterminate, next_action, hit, on_hit, decode_real, awaits,
  unknown_terminates, advance, on_response, on_absent, on_unknown, on_timeout,
}

-- A call of the application on a driver.
pub data Call (ContractId : Type 0) : Type 0 where
  next take continue_past : Call ContractId
  response : ContractId → Bytes → Call ContractId
  absent unknown timeout : ContractId → Call ContractId
  limit : ℕ → Call ContractId

module _ {ContractId State : Type 0} ⦃e : PartialEq ContractId⦄ where
  pub call : Call ContractId → ProbeDriver ContractId State → Option (ProbeDriver ContractId State)
  call next d = do (step, d') ← next_action d; some d'
  call take d = some (take_outcome d).1
  call continue_past d = some (continue_past_unknown d)
  call (response id bytes) d = on_response d id bytes
  call (absent id) d = on_absent d id
  call (unknown id) d = on_unknown d id
  call (timeout id) d = on_timeout d id
  call (limit n) d = some (with_max_hops d n)

  pub calls :
      List (Call ContractId) → ProbeDriver ContractId State → Option (ProbeDriver ContractId State)
  unfolding call
  calls [] d = some d
  calls (c ∷ cs) d = do d' ← call c d; calls cs d'

-- The code did not panic, and `P` holds of what it returned.
abbrev pub Returns : {A : Type 0} → (A → Type 0) → Option A → Type 0
Returns P none = ⊥
Returns P (some a) = P a

pub Returns-bind :
    {A B : Type 0} (P : A → Type 0) (Q : B → Type 0) (m : Option A) (f : A → Option B)
    → Returns P m
    → ((a : A) → P a → Returns Q (f a))
    → Returns Q (m >>= f)
Returns-bind P Q none f h k = elim h [ ]
Returns-bind P Q (some a) f h k = k a h

module _ {ContractId : Type 0} where
  -- The identifiers that an outcome reports as unresolved.
  abbrev pub reported : {State : Type 0} → Option (Outcome ContractId State) → List ContractId
  reported none = []
  reported (some (recovered r)) = r.unresolved
  reported (some (Outcome.seed_local _)) = []
  reported (some (indeterminate _ ids)) = ids
  reported (some (Outcome.no_legacy _)) = []

  abbrev pub phase_unresolved : {State : Type 0} → Phase ContractId State → List ContractId
  phase_unresolved probing = []
  phase_unresolved (finished o) = reported o

module _ {ContractId : Type 0} ⦃e : PartialEq ContractId⦄ where
  pub contains-append :
      (xs ys : List ContractId) (id : ContractId)
      → contains (xs ++ ys) id ≡ (contains xs id || contains ys id)
  contains-append [] ys id = refl
  contains-append (x ∷ xs) ys id = ground (arith, contains-append xs ys id)

  Distinct-snoc :
      (ids : List ContractId) (id : ContractId)
      → Distinct ids
      → contains ids id ≡ false
      → Distinct (ids ++ id ∷ [])
  Distinct-snoc [] id h n = (refl, tt)
  Distinct-snoc (x ∷ xs) id h n =
      ground
        (arith, Distinct-snoc xs id, contains-append xs (id ∷ []) x, e.eq_iff x id, e.eq_iff id x)

  pub push_unresolved-Distinct :
      (ids : List ContractId) (id : ContractId) → Distinct ids → Distinct (push_unresolved ids id)
  unfolding push_unresolved
  push_unresolved-Distinct ids id h = ground (arith, Distinct-snoc ids id)

  pub drain_into-Distinct :
      (ids rest : List ContractId) → Distinct ids → Distinct (drain_into ids rest)
  unfolding drain_into
  drain_into-Distinct ids [] h = h
  drain_into-Distinct ids (id ∷ rest) h =
      drain_into-Distinct (push_unresolved ids id) rest (push_unresolved-Distinct ids id h)

  pub record IsValid {State : Type 0} (d : ProbeDriver ContractId State) : Type 0 where
    pub snapshot_kept : is_finished d.phase ≡ false → is_some d.local ≡ true
    pub none_awaited : is_finished d.phase ≡ true → d.outstanding ≡ none
    pub no_fold : d.policy ≡ newest_first_wins → d.fold_acc ≡ none
    pub unresolved_once : Distinct d.unresolved
    pub reported_once : Distinct (phase_unresolved d.phase)
