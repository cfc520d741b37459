-- ===== src/Driver/Pump/Outcomes/Refinement.antt =====
-- The pump of freenet-migrate/src/driver.rs against the walk over its candidates, step by step.
use freenet_migrate.Prelude.{
  ℕ, zero, suc, ◌+◌, ◌<◌, ◌≡◌, refl, Bool, true, false, Option, none, some, List, [], ◌∷◌, ◌++◌,
  arith, PartialEq, length, leb, contains, beq_refl, Bool-cases, Option-cases, inl, inr,
}
use freenet_migrate.Prelude.Result.{Result, ok, err}
use freenet_migrate.Driver.{
  ProbeAnswer, ProbeStateOps, SelectionPolicy, newest_first_wins, fold_all, Outcome, ProbeDriver,
  probing, finished, taken, on_absent, on_unknown, on_response, next_action, take_outcome,
  exhausted_outcome, decode_real, push_unresolved, drain_into,
}
use freenet_migrate.Driver.Pump.{answered, pump}
use freenet_migrate.Driver.Pump.Outcomes.{
  verdict, verdict_of, on_newest, newest_walk, fold_older, folded, on_fold, fold_walk,
}

module _ {ContractId : Type 0} ⦃e : PartialEq ContractId⦄ where
  -- A drained list keeps what it had, so it is empty only if nothing was drained.
  drain_into-cons :
      (x : ContractId) (xs ids : List ContractId)
      → (ys : List ContractId) × (drain_into (x ∷ xs) ids ≡ x ∷ ys)
  unfolding drain_into push_unresolved
  drain_into-cons x xs [] = (xs, refl)
  drain_into-cons x xs (id ∷ ids) = elim (Bool-cases (contains (x ∷ xs) id)) [
    | inl h ↦ rw h (drain_into-cons x xs ids)
    | inr h ↦ rw h (drain_into-cons x (xs ++ id ∷ []) ids)
  ]

  pub drained_some :
      (xs ids : List ContractId) (id : ContractId)
      → (y : ContractId) × (ys : List ContractId) × (drain_into xs (id ∷ ids) ≡ y ∷ ys)
  unfolding drain_into push_unresolved
  drained_some [] ids id = let (ys, p) = drain_into-cons id [] ids in (id, ys, p)
  drained_some (x ∷ xs) ids id = let (ys, p) = drain_into-cons x xs (id ∷ ids) in (x, ys, p)

module _ {ContractId State : Type 0} ⦃e : PartialEq ContractId⦄ where
  -- A driver between two answers.
  abbrev ready :
      ProbeStateOps State
      → SelectionPolicy
      → State
      → List ContractId
      → ℕ
      → ℕ
      → Option (ContractId × State)
      → List ContractId
      → ProbeDriver ContractId State
  ready ops policy local ids hops max_hops acc quiet = record {
    ops = ops;
    policy = policy;
    local = some local;
    remaining = ids;
    outstanding = none;
    hops = hops;
    max_hops = max_hops;
    fold_acc = acc;
    unresolved = quiet;
    keep_going = false;
    phase = probing;
  }

module _ {ContractId State : Type 0} (ops : ProbeStateOps State) where
  -- The accumulator of the driver after some states were found.
  unfoldable pub acc_of : List (ContractId × State) → Option (ContractId × State)
  unfolding fold_older
  acc_of [] = none
  acc_of ((source, s) ∷ older) = some (source, fold_older ops s older)

  fold_older-snoc :
      (s t : State) (id : ContractId) (older : List (ContractId × State))
      → fold_older ops s (older ++ (id, t) ∷ []) ≡ ops.merge_generations (fold_older ops s older) t
  unfolding fold_older
  fold_older-snoc s t id [] = refl
  fold_older-snoc s t id ((j, u) ∷ older) = fold_older-snoc (ops.merge_generations s u) t id older

module _ {ContractId State : Type 0} ⦃e : PartialEq ContractId⦄ (ops : ProbeStateOps State)
    (local : State) where
  exhausted-folded :
      (found : List (ContractId × State)) (truncated : Bool) (ids : List ContractId)
      → exhausted_outcome ops (acc_of ops found) local truncated ids
        ≡ folded ops local found truncated ids
  unfolding exhausted_outcome folded acc_of
  exhausted-folded [] t [] = refl
  exhausted-folded [] t (id ∷ ids) = refl
  exhausted-folded ((source, s) ∷ older) t ids = refl

module _ {ContractId State W E : Type 0} ⦃e : PartialEq ContractId⦄
    (get : ContractId → W → Result E ProbeAnswer × W) (ops : ProbeStateOps State)
    (local : State) where
  pump_finished :
      (fuel : ℕ) (d : ProbeDriver ContractId State) (o : Outcome ContractId State) (w : W)
      → 0 < fuel
      → d.phase ≡ finished (some o)
      → pump get fuel d w ≡ some (ok o, w)
  unfolding pump next_action take_outcome
  pump_finished zero d o w h p = absurd (omega arith)
  pump_finished (suc fuel) d o w h p = rw (p, taken)

  newest_answered :
      (loop : ProbeDriver ContractId State → W → Option (Result E (Outcome ContractId State) × W))
      (rest : W → Result E (Outcome ContractId State) × W) (id : ContractId) (ids : List ContractId)
      (hops max_hops : ℕ)
      → ((w : W)
          → loop (ready ops newest_first_wins local ids hops max_hops none []) w ≡ some (rest w))
      → ((d : ProbeDriver ContractId State) (o : Outcome ContractId State) (w : W)
          → d.phase ≡ finished (some o)
          → loop d w ≡ some (ok o, w))
      → (r : Result E ProbeAnswer × W)
      → answered loop
          (record (ready ops newest_first_wins local ids hops max_hops none []) {
            outstanding = some id;
          })
          id
          r
        ≡ some (on_newest get ops local rest id ids r)
  unfolding answered on_newest on_absent on_unknown on_response verdict_of
  newest_answered loop rest id ids hops max_hops ih fin (err x, w) = refl
  newest_answered loop rest id ids hops max_hops ih fin (ok ProbeAnswer.absent, w) =
      rw (beq_refl id) (ih w)
  newest_answered loop rest id ids hops max_hops ih fin (ok ProbeAnswer.unknown, w) =
      rw (beq_refl id) (fin _ _ w refl)
  newest_answered loop rest id ids hops max_hops ih fin (ok (ProbeAnswer.state bytes), w) =
      elim (Option-cases (decode_real ops bytes)) [
        | inl p ↦ rw (beq_refl id) (rw (p, on_newest, verdict, verdict_of) (ih w))
        | inr (s, p) ↦ rw (beq_refl id) (rw (p, on_newest, verdict, verdict_of) (fin _ _ w refl))
      ]

  pub newest_refines :
      (fuel k hops max_hops : ℕ) (ids : List ContractId) (w : W)
      → length ids < fuel
      → hops + k ≡ max_hops
      → pump get fuel (ready ops newest_first_wins local ids hops max_hops none []) w
        ≡ some (newest_walk get ops local k ids w)
  unfolding pump newest_walk next_action take_outcome
  newest_refines zero k hops max_hops ids w h m = absurd (omega arith)
  newest_refines (suc fuel) k hops max_hops [] w h m = refl
  newest_refines (suc fuel) zero hops max_hops (id ∷ ids) w h m =
      let full : leb max_hops hops ≡ true = ground arith in
      let (y, ys, p) = drained_some [] ids id in rw full (rw (p, exhausted_outcome) refl)
  newest_refines (suc fuel) (suc k) hops max_hops (id ∷ ids) w h m =
      let room : leb max_hops hops ≡ false = ground arith in
      rw room (
        newest_answered (pump get fuel) (newest_walk get ops local k ids) id ids (hops + 1) max_hops
          (λ w'. newest_refines fuel k (hops + 1) max_hops ids w' (omega arith) (omega arith))
          (λ d o w' p. pump_finished fuel d o w' (omega arith) p) (get id w))

  fold_answered :
      (loop : ProbeDriver ContractId State → W → Option (Result E (Outcome ContractId State) × W))
      (rest : List (ContractId × State)
        → List ContractId
        → W
        → Result E (Outcome ContractId State) × W)
      (id : ContractId) (ids : List ContractId) (hops max_hops : ℕ)
      (found : List (ContractId × State)) (quiet : List ContractId)
      → ((found : List (ContractId × State)) (quiet : List ContractId) (w : W)
          → loop (ready ops fold_all local ids hops max_hops (acc_of ops found) quiet) w
            ≡ some (rest found quiet w))
      → (r : Result E ProbeAnswer × W)
      → answered loop
          (record (ready ops fold_all local ids hops max_hops (acc_of ops found) quiet) {
            outstanding = some id;
          })
          id
          r
        ≡ some (on_fold get ops local rest id found quiet r)
  unfolding answered on_fold on_absent on_unknown on_response verdict_of acc_of
  fold_answered loop rest id ids hops max_hops found quiet ih (err x, w) = refl
  fold_answered loop rest id ids hops max_hops found quiet ih (ok ProbeAnswer.absent, w) =
      rw (beq_refl id) (ih found quiet w)
  fold_answered loop rest id ids hops max_hops found quiet ih (ok ProbeAnswer.unknown, w) =
      rw (beq_refl id) (ih found (push_unresolved quiet id) w)
  fold_answered loop rest id ids hops max_hops found quiet ih (ok (ProbeAnswer.state bytes), w) =
      go (decode_real ops bytes) refl found
    where
      go :
          (m : Option State)
          → decode_real ops bytes ≡ m
          → (found : List (ContractId × State))
          → answered loop
              (record (ready ops fold_all local ids hops max_hops (acc_of ops found) quiet) {
                outstanding = some id;
              })
              id
              (ok (ProbeAnswer.state bytes), w)
            ≡ some (on_fold get ops local rest id found quiet (ok (ProbeAnswer.state bytes), w))
      go none p found = rw (beq_refl id) (rw (p, on_fold, verdict, verdict_of) (ih found quiet w))
      go (some s) p [] =
          rw (beq_refl id) (rw (p, on_fold, verdict, verdict_of) (ih ((id, s) ∷ []) quiet w))
      go (some s) p ((source, t) ∷ older) = rw (beq_refl id) (
          rw (p, on_fold, verdict, verdict_of)
            (rw (← fold_older-snoc ops t s id older)
              (ih ((source, t) ∷ (older ++ (id, s) ∷ [])) quiet w)))

  pub fold_refines :
      (fuel k hops max_hops : ℕ) (ids : List ContractId) (found : List (ContractId × State))
      (quiet : List ContractId) (w : W)
      → length ids < fuel
      → hops + k ≡ max_hops
      → pump get fuel (ready ops fold_all local ids hops max_hops (acc_of ops found) quiet) w
        ≡ some (fold_walk get ops local k ids found quiet w)
  unfolding pump fold_walk next_action take_outcome
  fold_refines zero k hops max_hops ids found quiet w h m = absurd (omega arith)
  fold_refines (suc fuel) k hops max_hops [] found quiet w h m = rw (exhausted-folded ops local)
  fold_refines (suc fuel) zero hops max_hops (id ∷ ids) found quiet w h m =
      let full : leb max_hops hops ≡ true = ground arith in
      rw full (rw (exhausted-folded ops local))
  fold_refines (suc fuel) (suc k) hops max_hops (id ∷ ids) found quiet w h m =
      let room : leb max_hops hops ≡ false = ground arith in
      rw room (
        fold_answered (pump get fuel) (fold_walk get ops local k ids) id ids (hops + 1) max_hops
          found quiet
          (λ found' quiet' w'.
            fold_refines fuel k (hops + 1) max_hops ids found' quiet' w' (omega arith)
              (omega arith))
          (get id w))
