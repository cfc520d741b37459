-- ===== src/Pointer/Resolver/Resolution.antt =====
-- `resolve_app_pointer` of freenet-migrate/src/pointer.rs without its resolver and its loop.
pub mod Evidence
use freenet_migrate.Prelude.{
  ℕ, zero, suc, ◌≡◌, ◌≢◌, ◌⊎◌, inl, inr, ◌<◌, ◌≤◌, refl, sym, ap, subst, unwrap, ◌∙◌, Bool, true,
  false, not, ◌&&◌, Option, none, some, List, [], ◌∷◌, arith, Bytes, ltb, PartialEq, beq_refl,
  if◌then◌else◌,
}
use freenet_migrate.Prelude.Fault.{◌>>=◌}
use freenet_migrate.Prelude.Result.{Result, ok, err, map_err}
use freenet_migrate.PointerContract
use freenet_migrate.PointerContract.{
  Ed25519, PointerRecord, encode_params, decode, verify, is_tombstone,
}
use freenet_migrate.Pointer.{
  PointerError, of_record, PointerFloor, PointerOutcome, never_published, unavailable, resolved,
  unchanged, ResolvedPointer, may_use_baked_in_fallback, has_ever_resolved, order, order_from,
  order_hashes, adopt, unchanged_by, of_pointer,
}
use freenet_migrate.Pointer.Resolver.{
  ordered, served, absent_outcome, checked, decoded_as, PointerResolver, fetching, next_action,
  accepts, finish, on_response, on_absent, on_unreachable, PointerFetch, state, absent, unreachable,
  ResolveError, transport, pointer, deliver, delivered, answered, stopped, taken, act, pump, new,
  resolver_of, run_new, resolve_app_pointer,
}

-- What one answer of the transport comes to.
pub verdict :
    (ed : Ed25519)
    → PointerFloor
    → Bytes
    → ed.VerifyingKey
    → PointerFetch
    → Result PointerError PointerOutcome
unfolding served absent_outcome
verdict ed floor params author_vk (state bytes) = served ed floor params author_vk bytes
verdict ed floor params author_vk absent = ok (absent_outcome floor)
verdict ed floor params author_vk unreachable = ok unavailable

module _ {ContractId W E : Type 0} (ed : Ed25519) (contract_id : Bytes → ContractId)
    (get_pointer : ContractId → W → Result E PointerFetch × W) (author_vk : ed.VerifyingKey)
    (floor : PointerFloor) where
  fetched : Bytes → Result E PointerFetch × W → Result (ResolveError E) PointerOutcome × W
  unfolding verdict
  fetched params (err x, w) = (err (transport x), w)
  fetched params (ok f, w) = (map_err pointer (verdict ed floor params author_vk f), w)

  asked : Result PointerContract.PointerError Bytes → W → Result (ResolveError E) PointerOutcome × W
  unfolding fetched
  asked (err x) w = (err (pointer (of_record x)), w)
  asked (ok params) w = fetched params (get_pointer (contract_id params) w)

  pub resolve_promise : Bytes → W → Result (ResolveError E) PointerOutcome × W
  unfolding asked encode_params
  resolve_promise app_id w = asked (encode_params ed author_vk app_id) w

module _ {ContractId W E : Type 0} ⦃e : PartialEq ContractId⦄ (ed : Ed25519)
    (contract_id : Bytes → ContractId) (get_pointer : ContractId → W → Result E PointerFetch × W)
    (author_vk : ed.VerifyingKey) (floor : PointerFloor) where
  awaiting : Bytes → PointerResolver ed ContractId
  awaiting params = record {
    params = params;
    author_vk = author_vk;
    pointer_id = contract_id params;
    floor = floor;
    outstanding = true;
    phase = fetching;
  }

  accepts-awaiting : (params : Bytes) → accepts (awaiting params) (contract_id params) ≡ true
  unfolding accepts awaiting
  accepts-awaiting params = rw (beq_refl (contract_id params)) refl

  deliver-awaiting :
      (params : Bytes) (f : PointerFetch)
      → deliver (awaiting params) (contract_id params) f
        ≡ (true, finish (awaiting params) (verdict ed floor params author_vk f))
  unfolding deliver on_response on_absent on_unreachable verdict awaiting
  deliver-awaiting params (state bytes) = rw (accepts-awaiting params) refl
  deliver-awaiting params absent = rw (accepts-awaiting params) refl
  deliver-awaiting params unreachable = rw (accepts-awaiting params) refl

  -- The second round returns what the first left.
  stop-finished :
      (params : Bytes) (r : Result PointerError PointerOutcome) (w : W)
      → pump get_pointer (suc zero) (finish (awaiting params) r) w ≡ some (map_err pointer r, w)
  unfolding pump act next_action finish stopped taken
  stop-finished params r w = refl

  answered-promise :
      (params : Bytes) (r : Result E PointerFetch × W)
      → answered get_pointer (pump get_pointer (suc zero)) (awaiting params) (contract_id params) r
        ≡ some (fetched ed contract_id get_pointer author_vk floor params r)
  unfolding answered delivered fetched
  answered-promise params (err x, w) = refl
  answered-promise params (ok f, w) =
      rw (deliver-awaiting params f) (stop-finished params (verdict ed floor params author_vk f) w)

  -- Resolving never panics and takes at most one fetch: it returns the parameters' error, the
  -- transport's error, or what the one answer comes to under the floor.
  pub resolve_app_pointer-eq-promise :
      (app_id : Bytes) (w : W)
      → resolve_app_pointer ed contract_id get_pointer author_vk app_id floor w
        ≡ some (resolve_promise ed contract_id get_pointer author_vk floor app_id w)
  unfolding resolve_app_pointer new resolve_promise
  resolve_app_pointer-eq-promise app_id w = go (encode_params ed author_vk app_id)
    where
      go :
          (m : Result PointerContract.PointerError Bytes)
          → run_new get_pointer (resolver_of ed contract_id author_vk floor m) w
            ≡ some (asked ed contract_id get_pointer author_vk floor m w)
      go (err x) = unfold run_new resolver_of asked in refl
      go (ok params) =
          unfold run_new resolver_of asked pump act next_action awaiting in
          answered-promise params (get_pointer (contract_id params) w)
