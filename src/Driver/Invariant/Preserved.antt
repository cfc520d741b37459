-- ===== src/Driver/Invariant/Preserved.antt =====
-- The invariant of the probe driver of freenet-migrate/src/driver.rs, call by call.
use freenet_migrate.Prelude.{
  ℕ, ◌+◌, ◌≡◌, refl, Bool, true, false, not, ◌&&◌, ◌||◌, Option, none, some, List, [], ◌∷◌, arith,
  Bytes, PartialEq, Distinct, is_some, leb, if◌then◌else◌,
}
use freenet_migrate.Driver.{
  ProbeStateOps, SelectionPolicy, newest_first_wins, fold_all, Step, ProbeDriver, Phase,
  is_finished, probing, finished, new, with_max_hops, continue_past_unknown, take_outcome,
  after_take, push_unresolved, drain_into, exhausted_outcome, finish_exhausted,
  finish_indeterminate, exhaust, advance, next_action, hit, on_hit, decode_real, awaits,
  unknown_terminates, on_response, on_absent, on_unknown, on_timeout,
}
use freenet_migrate.Driver.Invariant.{
  Call, next, take, continue_past, response, absent, unknown, timeout, limit, call, calls, Returns,
  Returns-bind, reported, IsValid, push_unresolved-Distinct, drain_into-Distinct,
}

module _ {ContractId State : Type 0} ⦃e : PartialEq ContractId⦄ where
  pub new-IsValid :
      (ops : ProbeStateOps State) (s : State) (ids : List ContractId) (p : SelectionPolicy)
      → IsValid (new ops s ids p)
  unfolding new
  new-IsValid ops s [] p = ground arith
  new-IsValid ops s (id ∷ ids) p = ground arith

  exhausted-Distinct :
      (ops : ProbeStateOps State) (acc : Option (ContractId × State)) (s : State) (t : Bool)
      (ids : List ContractId)
      → Distinct ids
      → Distinct (reported (some (exhausted_outcome ops acc s t ids)))
  unfolding exhausted_outcome
  exhausted-Distinct ops none s t [] h = h
  exhausted-Distinct ops none s t (id ∷ ids) h = h
  exhausted-Distinct ops (some p) s t ids h = h

  finish_exhausted-IsValid :
      (d : ProbeDriver ContractId State)
      → Distinct d.unresolved
      → d.outstanding ≡ none
      → is_some d.local ≡ true
      → Returns IsValid (finish_exhausted d)
  unfolding finish_exhausted
  finish_exhausted-IsValid d u o l = go d.local refl
    where
      go : (m : Option State) → d.local ≡ m → Returns IsValid (finish_exhausted d)
      go none p = ground arith
      go (some s) p =
          rw (p, finish_exhausted)
            (record {
              snapshot_kept = λ r. cc;
              none_awaited = λ _. o;
              no_fold = λ _. refl;
              unresolved_once = tt;
              reported_once =
                  exhausted-Distinct d.ops d.fold_acc s _ (drain_into d.unresolved d.remaining)
                    (drain_into-Distinct d.unresolved d.remaining u);
            })

  finish_indeterminate-IsValid :
      (d : ProbeDriver ContractId State)
      → Distinct d.unresolved
      → d.outstanding ≡ none
      → is_some d.local ≡ true
      → d.fold_acc ≡ none
      → Returns IsValid (finish_indeterminate d)
  unfolding finish_indeterminate
  finish_indeterminate-IsValid d u o l f = go d.local refl
    where
      go : (m : Option State) → d.local ≡ m → Returns IsValid (finish_indeterminate d)
      go none p = ground arith
      go (some s) p =
          rw (f, p, finish_indeterminate)
            (record {
              snapshot_kept = λ r. cc;
              none_awaited = λ _. o;
              no_fold = λ _. refl;
              unresolved_once = tt;
              reported_once = drain_into-Distinct d.unresolved d.remaining u;
            })

  on_hit-IsValid :
      (d : ProbeDriver ContractId State) (id : ContractId) (s : State)
      → IsValid d
      → d.outstanding ≡ none
      → is_finished d.phase ≡ false
      → Returns IsValid (on_hit d id s)
  unfolding on_hit
  on_hit-IsValid d id s v o r = go d.policy refl d.local refl
    where
      go :
          (p : SelectionPolicy)
          → d.policy ≡ p
          → (m : Option State) → d.local ≡ m
          → Returns IsValid (on_hit d id s)
      go newest_first_wins p none q = ground arith
      go newest_first_wins p (some l) q =
          rw (p, hit, q)
            (record {
              snapshot_kept = λ z. cc;
              none_awaited = λ _. o;
              no_fold = λ _. v.no_fold p;
              unresolved_once = tt;
              reported_once = v.unresolved_once;
            })
      go fold_all p m q =
          rw (p, hit)
            (record {
              snapshot_kept = v.snapshot_kept;
              none_awaited = v.none_awaited;
              no_fold = λ z. cc;
              unresolved_once = v.unresolved_once;
              reported_once = v.reported_once;
            })

  exhaust-IsValid :
      (d : ProbeDriver ContractId State)
      → IsValid d
      → d.outstanding ≡ none
      → is_finished d.phase ≡ false
      → Returns (λ r. IsValid r.1) (exhaust d)
  unfolding exhaust
  exhaust-IsValid d v o r =
      Returns-bind _ _ (finish_exhausted d) (λ d'. some (Step.done, d'))
        (finish_exhausted-IsValid d v.unresolved_once o (v.snapshot_kept r)) (λ d' h. h)

  -- What a stored answer leaves: nothing is awaited any more.
  answered-IsValid :
      (d : ProbeDriver ContractId State) (ids : List ContractId)
      → IsValid d
      → Distinct ids
      → IsValid (record d { outstanding = none; unresolved = ids })
  answered-IsValid d ids v u = record {
    snapshot_kept = v.snapshot_kept;
    none_awaited = λ _. refl;
    no_fold = v.no_fold;
    unresolved_once = u;
    reported_once = v.reported_once;
  }

  on_response-IsValid :
      (d : ProbeDriver ContractId State) (id : ContractId) (bytes : Bytes)
      → IsValid d
      → Returns IsValid (on_response d id bytes)
  unfolding on_response
  on_response-IsValid d id bytes v = go _ refl (decode_real d.ops bytes)
    where
      d' : ProbeDriver ContractId State
      d' = record d { outstanding = none }

      v' : IsValid d'
      v' = answered-IsValid d d.unresolved v v.unresolved_once

      go :
          (b : Bool)
          → (not (awaits d.outstanding id) || is_finished d.phase) ≡ b
          → (m : Option State)
          → Returns IsValid
              (if b then some d else elim m [ none ↦ some d' | some s ↦ on_hit d' id s ])
      go true q m = v
      go false q none = v'
      go false q (some s) = on_hit-IsValid d' id s v' refl (ground arith)

  on_absent-IsValid :
      (d : ProbeDriver ContractId State) (id : ContractId)
      → IsValid d
      → Returns IsValid (on_absent d id)
  unfolding on_absent
  on_absent-IsValid d id v = go (is_finished d.phase) (awaits d.outstanding id)
    where
      go :
          (b c : Bool)
          → Returns IsValid
              (if b then some d else if c then some (record d { outstanding = none }) else some d)
      go true c = v
      go false true = answered-IsValid d d.unresolved v v.unresolved_once
      go false false = v

  on_unknown-IsValid :
      (d : ProbeDriver ContractId State) (id : ContractId)
      → IsValid d
      → Returns IsValid (on_unknown d id)
  unfolding on_unknown
  on_unknown-IsValid d id v =
      go (is_finished d.phase) refl (awaits d.outstanding id)
        (unknown_terminates d.policy && not d.keep_going) refl
    where
      d' : ProbeDriver ContractId State
      d' = record d { outstanding = none; unresolved = push_unresolved d.unresolved id }

      u : Distinct (push_unresolved d.unresolved id)
      u = push_unresolved-Distinct d.unresolved id v.unresolved_once

      go :
          (b : Bool)
          → is_finished d.phase ≡ b
          → (c t : Bool) → (unknown_terminates d.policy && not d.keep_going) ≡ t
          → Returns IsValid (
              if b
              then some d
              else if not c
              then some d
              else if t
              then finish_indeterminate d'
              else some d')
      go true p c t q = v
      go false p false t q = v
      go false p true false q = answered-IsValid d (push_unresolved d.unresolved id) v u
      go false p true true q =
          finish_indeterminate-IsValid d' u refl (v.snapshot_kept p)
            (v.no_fold (unfold unknown_terminates in ground arith))

  next_action-IsValid :
      (d : ProbeDriver ContractId State) → IsValid d → Returns (λ r. IsValid r.1) (next_action d)
  unfolding next_action
  next_action-IsValid d v = go (is_finished d.phase) refl d.outstanding refl d.remaining refl
    where
      go :
          (b : Bool)
          → is_finished d.phase ≡ b
          → (o : Option ContractId) → d.outstanding ≡ o
          → (ids : List ContractId) → d.remaining ≡ ids
          → Returns (λ r. IsValid r.1) (if b then some (Step.done, d) else advance o ids d)
      go true p o q ids r = v
      go false p (some id) q ids r = v
      go false p none q [] r = exhaust-IsValid d v q p
      go false p none q (id ∷ ids) r = go_on (leb d.max_hops d.hops)
        where
          go_on :
              (c : Bool)
              → Returns
                  (λ r. IsValid r.1)
                  (if c
                    then exhaust d
                    else some (
                      Step.get id,
                      record d { remaining = ids; outstanding = some id; hops = d.hops + 1 },
                    ))
          go_on true = exhaust-IsValid d v q p
          go_on false = record {
            snapshot_kept = v.snapshot_kept;
            none_awaited = λ z. cc;
            no_fold = v.no_fold;
            unresolved_once = v.unresolved_once;
            reported_once = v.reported_once;
          }

  take_outcome-IsValid : (d : ProbeDriver ContractId State) → IsValid d → IsValid (take_outcome d).1
  unfolding take_outcome
  take_outcome-IsValid d v = go d.phase refl
    where
      go : (p : Phase ContractId State) → d.phase ≡ p → IsValid (record d { phase = after_take p })
      go probing q = record {
        snapshot_kept = λ _. v.snapshot_kept (rw q);
        none_awaited = λ z. cc;
        no_fold = v.no_fold;
        unresolved_once = v.unresolved_once;
        reported_once = tt;
      }
      go (finished o) q = record {
        snapshot_kept = λ z. cc;
        none_awaited = λ _. v.none_awaited (rw q);
        no_fold = v.no_fold;
        unresolved_once = v.unresolved_once;
        reported_once = tt;
      }

  settings-IsValid :
      (d : ProbeDriver ContractId State) (n : ℕ) (b : Bool)
      → IsValid d
      → IsValid (record d { max_hops = n; keep_going = b })
  settings-IsValid d n b v = record {
    snapshot_kept = v.snapshot_kept;
    none_awaited = v.none_awaited;
    no_fold = v.no_fold;
    unresolved_once = v.unresolved_once;
    reported_once = v.reported_once;
  }

  -- On a driver that satisfies the invariant no call panics, and each leaves the invariant.
  pub call-IsValid :
      (c : Call ContractId) (d : ProbeDriver ContractId State)
      → IsValid d
      → Returns IsValid (call c d)
  unfolding call with_max_hops continue_past_unknown on_timeout
  call-IsValid next d v =
      Returns-bind _ _ (next_action d) (λ r. some r.1) (next_action-IsValid d v) (λ r h. h)
  call-IsValid take d v = take_outcome-IsValid d v
  call-IsValid continue_past d v = settings-IsValid d d.max_hops true v
  call-IsValid (response id bytes) d v = on_response-IsValid d id bytes v
  call-IsValid (absent id) d v = on_absent-IsValid d id v
  call-IsValid (unknown id) d v = on_unknown-IsValid d id v
  call-IsValid (timeout id) d v = on_unknown-IsValid d id v
  call-IsValid (limit n) d v = settings-IsValid d n d.keep_going v

  calls_keep :
      (cs : List (Call ContractId)) (d : ProbeDriver ContractId State)
      → IsValid d
      → Returns IsValid (calls cs d)
  unfolding calls
  calls_keep [] d v = v
  calls_keep (c ∷ cs) d v =
      Returns-bind _ _ (call c d) (calls cs) (call-IsValid c d v) (λ d' v'. calls_keep cs d' v')

  -- A driver that is made from any candidates under any policy takes any calls in any order without
  -- a panic, and afterwards satisfies the invariant: while it probes it holds the local snapshot,
  -- once it has finished it awaits no answer, a newest-first driver has folded nothing, and no
  -- identifier is listed twice among the unresolved, in the driver or in its outcome.
  pub calls-IsValid :
      (ops : ProbeStateOps State) (s : State) (ids : List ContractId) (p : SelectionPolicy)
      (cs : List (Call ContractId))
      → Returns IsValid (calls cs (new ops s ids p))
  calls-IsValid ops s ids p cs = calls_keep cs (new ops s ids p) (new-IsValid ops s ids p)
