-- ===== src/Journal/Status/Promise.antt =====
-- What `status` of freenet-migrate/src/journal.rs says of the lineage, without its loop.
pub mod Interrupted
use freenet_migrate.Prelude.{
  ℕ, ◌+◌, ◌≤◌, ◌≡◌, ◌↔◌, refl, sym, ap, ap₂, ◌∙◌, min, Bool, true, false, Option, none, some, List,
  [], ◌∷◌, ◌++◌, arith, Bytes, All, append-nil, append_assoc, sat_add, u32_max, get,
}
use freenet_migrate.Lineage.{DelegateLineageEntry}
use freenet_migrate.Journal.{
  JournalResolution, imported, no_data, superseded_by_authoritative, imported_with_rejections,
  PendingState, JournalState, pending, resolved, JournalBinding, MigrationJournal,
}
use freenet_migrate.Journal.Status.{
  PendingPredecessor, JournalStatus, complete, incomplete, pending_of, nothing_known,
  effective_state, is_complete, status_step, status_loop, conclude, status,
}

-- What one predecessor contributes to the list: nothing, if it is resolved.
outstanding_of : DelegateLineageEntry → Option JournalState → List PendingPredecessor
outstanding_of e (some (resolved _)) = []
outstanding_of e (some (pending p)) = pending_of e p ∷ []
outstanding_of e none = pending_of e nothing_known ∷ []

-- The items of one predecessor that were refused.
refused_of : Option JournalState → ℕ
refused_of (some (resolved (imported_with_rejections n _ _))) = n
refused_of (some (resolved _)) = 0
refused_of (some (pending p)) = p.rejected
refused_of none = 0

module _ (journal : MigrationJournal) (binding : JournalBinding) where
  -- The predecessors that are not resolved, in the order of the lineage.
  pub outstanding : List DelegateLineageEntry → List PendingPredecessor
  unfolding outstanding_of
  outstanding [] = []
  outstanding (e ∷ es) =
      outstanding_of e (effective_state journal e.delegate_key binding) ++ outstanding es

  pub refused : List DelegateLineageEntry → ℕ
  unfolding refused_of
  refused [] = 0
  refused (e ∷ es) = refused_of (effective_state journal e.delegate_key binding) + refused es

  pub status_promise : List DelegateLineageEntry → JournalStatus
  unfolding conclude outstanding refused
  status_promise es = conclude (outstanding es, min (refused es) u32_max)

  step-eq :
      (e : DelegateLineageEntry) (s : Option JournalState) (ps : List PendingPredecessor) (n : ℕ)
      → n ≤ u32_max
      → status_step e s (ps, n) ≡ (ps ++ outstanding_of e s, min (n + refused_of s) u32_max)
  unfolding status_step outstanding_of refused_of
  step-eq e none ps n h = ap (λ m. (ps ++ pending_of e nothing_known ∷ [], m)) (omega arith)
  step-eq e (some (pending p)) ps n h = refl
  step-eq e (some (resolved (imported_with_rejections m _ _))) ps n h =
      ap₂ (λ xs m. (xs, m)) (sym (append-nil ps)) (omega arith)
  step-eq e (some (resolved imported)) ps n h =
      ap₂ (λ xs m. (xs, m)) (sym (append-nil ps)) (omega arith)
  step-eq e (some (resolved no_data)) ps n h =
      ap₂ (λ xs m. (xs, m)) (sym (append-nil ps)) (omega arith)
  step-eq e (some (resolved superseded_by_authoritative)) ps n h =
      ap₂ (λ xs m. (xs, m)) (sym (append-nil ps)) (omega arith)

  loop-eq :
      (es : List DelegateLineageEntry) (ps : List PendingPredecessor) (n : ℕ)
      → n ≤ u32_max
      → status_loop journal binding es (ps, n)
        ≡ (ps ++ outstanding es, min (n + refused es) u32_max)
  unfolding status_loop outstanding refused
  loop-eq [] ps n h = ap₂ (λ xs m. (xs, m)) (sym (append-nil ps)) (omega arith)
  loop-eq (e ∷ es) ps n h =
      let state = effective_state journal e.delegate_key binding in
      ap (status_loop journal binding es) (step-eq e state ps n h)
      ∙ loop-eq es (ps ++ outstanding_of e state) (min (n + refused_of state) u32_max) (omega arith)
      ∙ ap₂ (λ xs m. (xs, m)) (append_assoc ps (outstanding_of e state) (outstanding es))
          (omega arith)

  -- The status lists the predecessors that are not resolved, in the order of the lineage, each with
  -- what its entry says or as unexamined if it has none, and counts all refused items, up to the
  -- largest `u32`.
  pub status-eq-promise :
      (es : List DelegateLineageEntry) → status journal es binding ≡ status_promise es
  unfolding status status_promise
  status-eq-promise es =
      ap conclude (loop-eq es [] 0 (omega arith) ∙ ap (λ m. (outstanding es, m)) (omega arith))

  is_complete-conclude :
      (ps : List PendingPredecessor) (n : ℕ) → (is_complete (conclude (ps, n)) ≡ true) ↔ (ps ≡ [])
  unfolding conclude is_complete
  is_complete-conclude [] n = ground arith
  is_complete-conclude (p ∷ ps) n = ground arith

  resolved-outstanding :
      (e : DelegateLineageEntry) (s : Option JournalState) (ps : List PendingPredecessor)
      → (outstanding_of e s ++ ps ≡ [])
        ↔ (((r : JournalResolution) × (s ≡ some (resolved r))) × (ps ≡ []))
  unfolding outstanding_of
  resolved-outstanding e none ps = (λ h. cc, λ h. cc)
  resolved-outstanding e (some (pending p)) ps = (λ h. cc, λ h. cc)
  resolved-outstanding e (some (resolved r)) ps = (λ h. ((r, refl), h), λ h. h.1)

  outstanding-nil :
      (es : List DelegateLineageEntry)
      → (outstanding es ≡ [])
        ↔ All
            (λ e.
              (r : JournalResolution) × (effective_state journal e.delegate_key binding
                ≡ some (resolved r)))
            es
  unfolding outstanding
  outstanding-nil [] = (λ h. tt, λ h. refl)
  outstanding-nil (e ∷ es) =
      let here =
        resolved-outstanding e (effective_state journal e.delegate_key binding) (outstanding es) in
      let there = outstanding-nil es in
      (λ h. ((here.0 h).0, there.0 (here.0 h).1), λ h. here.1 (h.0, there.1 h.1))

  -- The journal is complete exactly if every predecessor of the lineage has an entry whose state, as
  -- it applies under the binding, is resolved.
  pub is_complete-status :
      (es : List DelegateLineageEntry)
      → (is_complete (status journal es binding) ≡ true)
        ↔ All
            (λ e.
              (r : JournalResolution) × (effective_state journal e.delegate_key binding
                ≡ some (resolved r)))
            es
  unfolding status_promise
  is_complete-status es =
      let done = is_complete-conclude (outstanding es) (min (refused es) u32_max) in
      let listed = outstanding-nil es in
      rw (status-eq-promise es) ((λ h. listed.0 (done.0 h), λ h. done.1 (listed.1 h)))
