-- ===== src/Driver/Pump/Outcomes/Guarantees.antt =====
-- What an application may rely on after `migrate_contract` of freenet-migrate/src/driver.rs, where
-- the transport answers each identifier in one way.
use freenet_migrate.Prelude.{
  ℕ, zero, suc, ◌≡◌, ◌≢◌, refl, unwrap, sym, ap, ◌∙◌, Bool, true, false, some, List, [], ◌∷◌, ◌++◌,
  arith, Bytes, PartialEq, All,
}
use freenet_migrate.Prelude.Result.{Result, ok}
use freenet_migrate.Lineage.{ContractLineageEntry}
use freenet_migrate.Driver.{
  ProbeAnswer, ProbeStateOps, SelectionPolicy, newest_first_wins, fold_all, push_unresolved,
  drain_into, Recovery, recovered, seed_local, default_max_probe_hops,
}
use freenet_migrate.Driver.Ordering.{from_lineage}
use freenet_migrate.Driver.Pump.{migrate_contract}
use freenet_migrate.Driver.Pump.Outcomes.{
  Verdict, real, miss, silent, verdict, on_newest, newest_walk, newest_promise, on_fold, folded,
  fold_walk, fold_promise,
}
use freenet_migrate.Driver.Pump.Outcomes.Refinement.{drained_some}
use freenet_migrate.Driver.Pump.Outcomes.Migration.{migrate_contract-newest, migrate_contract-fold}

module _ {ContractId State : Type 0} (script : ContractId → ProbeAnswer)
    (ops : ProbeStateOps State) where
  -- Every identifier of the list was answered, and has no data.
  abbrev pub AllMissed : List ContractId → Type 0
  AllMissed ids = All (λ id. verdict ops (script id) ≡ miss) ids

-- The transport of a script of answers.
abbrev pub scripted :
    {ContractId W E : Type 0}
    → (ContractId → ProbeAnswer)
    → ContractId
    → W
    → Result E ProbeAnswer × W
scripted script id w = (ok (script id), w)

-- `r` adopts the newest of the candidates that has real data: every newer one was answered and has
-- none, and the adopted state is the found one with the local one merged in, prepared.
module _ {ContractId State : Type 0} (script : ContractId → ProbeAnswer) (ops : ProbeStateOps State)
    (local : State) (ids : List ContractId) (r : Recovery ContractId State) where
  pub record AdoptsNewest : Type 0 where
    pub newer : List ContractId
    pub older : List ContractId
    pub state : State
    pub split : ids ≡ newer ++ r.source ∷ older
    pub newer_missed : AllMissed script ops newer
    pub is_real : verdict ops (script r.source) ≡ real state
    pub merged : r.merged ≡ ops.prepare_forward (ops.merge_with_local state local)

snoc-ne-nil : {A : Type 0} (xs : List A) (x : A) → xs ++ x ∷ [] ≢ []
snoc-ne-nil [] x h = cc
snoc-ne-nil (y ∷ ys) x h = cc

push_unresolved-some :
    {ContractId : Type 0} ⦃e : PartialEq ContractId⦄ (ids : List ContractId) (id : ContractId)
    → push_unresolved ids id ≢ []
unfolding push_unresolved
push_unresolved-some [] id h = cc
push_unresolved-some (x ∷ xs) id h = ground arith

module _ {ContractId State : Type 0} (ops : ProbeStateOps State) (local : State) where
  folded-sealed :
      (found : List (ContractId × State)) (t : Bool) (quiet : List ContractId) (l : State)
      → folded ops local found t quiet ≡ seed_local l
      → (found ≡ []) × (quiet ≡ []) × (l ≡ ops.prepare_forward local)
  unfolding folded
  folded-sealed [] t [] l h = (refl, refl, ground arith)
  folded-sealed [] t (id ∷ ids) l h = cc
  folded-sealed ((source, s) ∷ older) t quiet l h = cc

module _ {ContractId State W E : Type 0} ⦃e : PartialEq ContractId⦄
    (script : ContractId → ProbeAnswer) (ops : ProbeStateOps State) (local : State) where
  newest_walk-recovered :
      (k : ℕ) (ids : List ContractId) (w w' : W) (r : Recovery ContractId State)
      → newest_walk {E = E} (scripted script) ops local k ids w ≡ (ok (recovered r), w')
      → AdoptsNewest script ops local ids r
  unfolding newest_walk
  newest_walk-recovered k [] w w' r h = cc
  newest_walk-recovered zero (id ∷ ids) w w' r h = cc
  newest_walk-recovered (suc k) (id ∷ ids) w w' r h =
      go (verdict ops (script id)) refl (newest_walk-recovered k ids w w' r)
    where
      go :
          (v : Verdict State)
          → verdict ops (script id) ≡ v
          → (newest_walk {E = E} (scripted script) ops local k ids w ≡ (ok (recovered r), w')
              → AdoptsNewest script ops local ids r)
          → AdoptsNewest script ops local (id ∷ ids) r
      go miss p ih =
          let a = ih (rw (p, on_newest) at h) in
          record {
            newer = id ∷ a.newer;
            older = a.older;
            state = a.state;
            split = ap (λ js. id ∷ js) a.split;
            newer_missed = (p, a.newer_missed);
            is_real = a.is_real;
            merged = a.merged;
          }
      go silent p ih = let h' = rw (p, on_newest) at h in cc
      go (real s) p ih =
          let h' = rw (p, on_newest) at h in
          let source : r.source ≡ id = ground arith in
          record {
            newer = [];
            older = ids;
            state = s;
            split = ap (λ j. j ∷ ids) (sym source);
            newer_missed = tt;
            is_real = rw source p;
            merged = ground arith;
          }

  newest_walk-sealed :
      (k : ℕ) (ids : List ContractId) (w w' : W) (l : State)
      → newest_walk {E = E} (scripted script) ops local k ids w ≡ (ok (seed_local l), w')
      → AllMissed script ops ids × (l ≡ ops.prepare_forward local)
  unfolding newest_walk
  newest_walk-sealed k [] w w' l h = (tt, ground arith)
  newest_walk-sealed zero (id ∷ ids) w w' l h = cc
  newest_walk-sealed (suc k) (id ∷ ids) w w' l h =
      go (verdict ops (script id)) refl (newest_walk-sealed k ids w w' l)
    where
      go :
          (v : Verdict State)
          → verdict ops (script id) ≡ v
          → (newest_walk {E = E} (scripted script) ops local k ids w ≡ (ok (seed_local l), w')
              → AllMissed script ops ids × (l ≡ ops.prepare_forward local))
          → AllMissed script ops (id ∷ ids) × (l ≡ ops.prepare_forward local)
      go miss p ih = let (a, q) = ih (rw (p, on_newest) at h) in ((p, a), q)
      go silent p ih = let h' = rw (p, on_newest) at h in cc
      go (real s) p ih = let h' = rw (p, on_newest) at h in cc

  fold_walk-sealed :
      (k : ℕ) (ids : List ContractId) (found : List (ContractId × State)) (quiet : List ContractId)
      (w w' : W) (l : State)
      → fold_walk {E = E} (scripted script) ops local k ids found quiet w ≡ (ok (seed_local l), w')
      → (found ≡ []) × (quiet ≡ []) × AllMissed script ops ids × (l ≡ ops.prepare_forward local)
  unfolding fold_walk
  fold_walk-sealed k [] found quiet w w' l h =
      let (f, q, p) = folded-sealed ops local found false quiet l (ground arith) in (f, q, tt, p)
  fold_walk-sealed zero (id ∷ ids) found quiet w w' l h =
      let (f, q, p) =
        folded-sealed ops local found true (drain_into quiet (id ∷ ids)) l (ground arith) in
      let (y, ys, some_left) = drained_some quiet ids id in cc
  fold_walk-sealed (suc k) (id ∷ ids) found quiet w w' l h =
      go (verdict ops (script id)) refl (λ f q. fold_walk-sealed k ids f q w w' l)
    where
      go :
          (v : Verdict State)
          → verdict ops (script id) ≡ v
          → ((f : List (ContractId × State)) (q : List ContractId)
              → fold_walk {E = E} (scripted script) ops local k ids f q w ≡ (ok (seed_local l), w')
              → (f ≡ []) × (q ≡ []) × AllMissed script ops ids × (l ≡ ops.prepare_forward local))
          → (found ≡ [])
            × (quiet ≡ [])
            × AllMissed script ops (id ∷ ids)
            × (l ≡ ops.prepare_forward local)
      go miss p ih = let (f, q, a, e) = ih found quiet (rw (p, on_fold) at h) in (f, q, (p, a), e)
      go silent p ih =
          let (f, q, a, e) = ih found (push_unresolved quiet id) (rw (p, on_fold) at h) in
          absurd (push_unresolved-some quiet id q)
      go (real s) p ih =
          let (f, q, a, e) = ih (found ++ (id, s) ∷ []) quiet (rw (p, on_fold) at h) in
          absurd (snoc-ne-nil found (id, s) f)

module _ {ContractId State W E : Type 0} ⦃e : PartialEq ContractId⦄
    (contract_id : Bytes → Bytes → ContractId) (script : ContractId → ProbeAnswer)
    (ops : ProbeStateOps State) (local : State) (params : Bytes)
    (lineage : List ContractLineageEntry) (w w' : W) where
  -- Where the transport has one answer for each identifier, a state that newest-first recovers is
  -- that of the newest candidate with real data: every newer candidate was answered and has none
  -- (silence never lets an older one win), and the recovered state is the found one with the local
  -- one merged in, prepared.
  pub migrate_contract-adopts :
      (r : Recovery ContractId State)
      → migrate_contract {E = E} contract_id
          (scripted script)
          ops
          local
          params
          lineage
          newest_first_wins
          w
        ≡ some (ok (recovered r), w')
      → AdoptsNewest script ops local (from_lineage contract_id params lineage) r
  unfolding newest_promise
  migrate_contract-adopts r h = go (from_lineage contract_id params lineage) (
      unwrap (
        sym (migrate_contract-newest contract_id (scripted script) ops local params lineage w) ∙ h))
    where
      go :
          (ids : List ContractId)
          → newest_promise {E = E} (scripted script) ops local ids w ≡ (ok (recovered r), w')
          → AdoptsNewest script ops local ids r
      go [] q = cc
      go (id ∷ ids) q =
          newest_walk-recovered script ops local default_max_probe_hops (id ∷ ids) w w' r q

  -- Where the transport has one answer for each identifier, and under either policy, the migration
  -- seeds from the local state only if every predecessor was answered and has no data; what it hands
  -- back is the local state, prepared.
  pub migrate_contract-seeds :
      (policy : SelectionPolicy) (l : State)
      → migrate_contract {E = E} contract_id (scripted script) ops local params lineage policy w
        ≡ some (ok (seed_local l), w')
      → AllMissed script ops (from_lineage contract_id params lineage)
        × (l ≡ ops.prepare_forward local)
  unfolding newest_promise fold_promise
  migrate_contract-seeds newest_first_wins l h = go (from_lineage contract_id params lineage) (
      unwrap (
        sym (migrate_contract-newest contract_id (scripted script) ops local params lineage w) ∙ h))
    where
      go :
          (ids : List ContractId)
          → newest_promise {E = E} (scripted script) ops local ids w ≡ (ok (seed_local l), w')
          → AllMissed script ops ids × (l ≡ ops.prepare_forward local)
      go [] q = cc
      go (id ∷ ids) q =
          newest_walk-sealed script ops local default_max_probe_hops (id ∷ ids) w w' l q
  migrate_contract-seeds fold_all l h = go (from_lineage contract_id params lineage) (
      unwrap
        (sym (migrate_contract-fold contract_id (scripted script) ops local params lineage w) ∙ h))
    where
      go :
          (ids : List ContractId)
          → fold_promise {E = E} (scripted script) ops local ids w ≡ (ok (seed_local l), w')
          → AllMissed script ops ids × (l ≡ ops.prepare_forward local)
      go [] q = cc
      go (id ∷ ids) q =
          let (f, z, a, p) =
            fold_walk-sealed script ops local default_max_probe_hops (id ∷ ids) [] [] w w' l q in
          (a, p)
