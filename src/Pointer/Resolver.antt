-- ===== src/Pointer/Resolver.antt =====
-- `PointerResolver` and `resolve_app_pointer` of freenet-migrate/src/pointer.rs.
-- The parameters, the record and their checks are a copy of the pointer contract's, whose definitions
-- stand for both. The identifier of the pointer contract is a parameter; `none` is a panic, that of a
-- failed `debug_assert!` included.
pub mod Resolution
use freenet_migrate.Prelude.{
  ℕ, zero, suc, Bool, true, false, not, ◌&&◌, ◌||◌, Option, none, some, List, [], ◌∷◌, Bytes, ltb,
  nat_beq, PartialEq, nat_eq, list_beq, lex_ltb, is_empty, if◌then◌else◌,
}
use freenet_migrate.Prelude.Fault.{◌>>=◌}
use freenet_migrate.Prelude.Result.{Result, ok, err, map_err}
use freenet_migrate.PointerContract.{
  Ed25519, max_version, tombstone_code_hash, encode_params, PointerRecord, decode, verify,
  is_tombstone,
}
use freenet_migrate.PointerContract
use freenet_migrate.Pointer.{
  PointerError, of_record, PointerFloor, has_ever_resolved, PointerOutcome, never_published,
  unavailable, order,
}

pub data Phase : Type 0 where
  fetching : Phase
  finished : Option (Result PointerError PointerOutcome) → Phase

abbrev pub is_finished : Phase → Bool
is_finished fetching = false
is_finished (finished _) = true

pub absent_outcome : PointerFloor → PointerOutcome
absent_outcome floor = if has_ever_resolved floor then unavailable else never_published

-- The outcome of `take_outcome`.
pub taken : Phase → Option (Result PointerError PointerOutcome)
taken fetching = none
taken (finished o) = o

module _ (ed : Ed25519) where
  checked :
      PointerFloor
      → PointerRecord
      → Result PointerContract.PointerError (Unit {0})
      → Result PointerError PointerOutcome
  unfolding order
  checked floor r (err x) = err (of_record x)
  checked floor r (ok _) = ok (order floor r)

  decoded_as :
      PointerFloor
      → Bytes
      → ed.VerifyingKey
      → Result PointerContract.PointerError PointerRecord
      → Result PointerError PointerOutcome
  unfolding checked verify
  decoded_as floor params author_vk (err x) = err (of_record x)
  decoded_as floor params author_vk (ok r) = checked floor r (verify ed r params author_vk)

  -- The record, decoded and verified, in the order of the floor.
  pub ordered : PointerFloor → Bytes → ed.VerifyingKey → Bytes → Result PointerError PointerOutcome
  unfolding decoded_as decode
  ordered floor params author_vk state = decoded_as floor params author_vk (decode state)

  -- What a state that was served comes to.
  pub served : PointerFloor → Bytes → ed.VerifyingKey → Bytes → Result PointerError PointerOutcome
  unfolding ordered
  served floor params author_vk [] = ok unavailable
  served floor params author_vk (b ∷ bytes) = ordered floor params author_vk (b ∷ bytes)

module _ (ed : Ed25519) (ContractId : Type 0) where
  pub record PointerResolver : Type 0 where
    pub params : Bytes
    pub author_vk : ed.VerifyingKey
    pub pointer_id : ContractId
    pub floor : PointerFloor
    pub outstanding : Bool
    pub phase : Phase

pub data Step (ContractId : Type 0) : Type 0 where
  fetch : ContractId → Step ContractId
  done : Step ContractId

module _ {ed : Ed25519} {ContractId : Type 0} ⦃e : PartialEq ContractId⦄ where
  pub next_action : PointerResolver ed ContractId → Step ContractId × PointerResolver ed ContractId
  next_action d =
      if is_finished d.phase
      then (done, d)
      else (fetch d.pointer_id, record d { outstanding = true })

  accepts : PointerResolver ed ContractId → ContractId → Bool
  accepts d id = d.outstanding && e.eq id d.pointer_id && not (is_finished d.phase)

  finish :
      PointerResolver ed ContractId
      → Result PointerError PointerOutcome
      → PointerResolver ed ContractId
  finish d r = record d { outstanding = false; phase = finished (some r) }

  pub on_response :
      PointerResolver ed ContractId → ContractId → Bytes → Bool × PointerResolver ed ContractId
  unfolding accepts served finish
  on_response d id state =
      if not (accepts d id)
      then (false, d)
      else (true, finish d (served ed d.floor d.params d.author_vk state))

  pub on_absent : PointerResolver ed ContractId → ContractId → Bool × PointerResolver ed ContractId
  unfolding accepts absent_outcome finish
  on_absent d id =
      if not (accepts d id) then (false, d) else (true, finish d (ok (absent_outcome d.floor)))

  pub on_unreachable :
      PointerResolver ed ContractId → ContractId → Bool × PointerResolver ed ContractId
  unfolding accepts finish
  on_unreachable d id = if not (accepts d id) then (false, d) else (true, finish d (ok unavailable))

-- `PointerFetch`
pub data PointerFetch : Type 0 where
  state : Bytes → PointerFetch
  absent unreachable : PointerFetch

pub data ResolveError (E : Type 0) : Type 0 where
  transport : E → ResolveError E
  pointer : PointerError → ResolveError E

module _ {ed : Ed25519} {ContractId : Type 0} ⦃e : PartialEq ContractId⦄ where
  deliver :
      PointerResolver ed ContractId
      → ContractId
      → PointerFetch
      → Bool × PointerResolver ed ContractId
  unfolding on_response on_absent on_unreachable
  deliver d id (state bytes) = on_response d id bytes
  deliver d id absent = on_absent d id
  deliver d id unreachable = on_unreachable d id

module _ {ed : Ed25519} {ContractId W E : Type 0} ⦃e : PartialEq ContractId⦄
    (get_pointer : ContractId → W → Result E PointerFetch × W) where
  -- After `Step::Get(id)`: an event that is not accepted fails the `debug_assert!`.
  delivered :
      (PointerResolver ed ContractId → W → Option (Result (ResolveError E) PointerOutcome × W))
      → W
      → Bool × PointerResolver ed ContractId
      → Option (Result (ResolveError E) PointerOutcome × W)
  delivered loop w (true, d) = loop d w
  delivered loop w (false, d) = none

  answered :
      (PointerResolver ed ContractId → W → Option (Result (ResolveError E) PointerOutcome × W))
      → PointerResolver ed ContractId
      → ContractId
      → Result E PointerFetch × W
      → Option (Result (ResolveError E) PointerOutcome × W)
  unfolding deliver delivered
  answered loop d id (err x, w) = some (err (transport x), w)
  answered loop d id (ok f, w) = delivered loop w (deliver d id f)

  stopped : W → PointerResolver ed ContractId → Option (Result (ResolveError E) PointerOutcome × W)
  unfolding taken
  stopped w d = do outcome ← taken d.phase; some (map_err pointer outcome, w)

  act :
      (PointerResolver ed ContractId → W → Option (Result (ResolveError E) PointerOutcome × W))
      → W
      → Step ContractId × PointerResolver ed ContractId
      → Option (Result (ResolveError E) PointerOutcome × W)
  unfolding answered stopped
  act loop w (fetch id, d) = answered loop d id (get_pointer id w)
  act loop w (done, d) = stopped w d

  -- The `loop`, on fuel.
  pump : ℕ → PointerResolver ed ContractId → W → Option (Result (ResolveError E) PointerOutcome × W)
  unfolding act next_action
  pump zero d w = none
  pump (suc fuel) d w = act (pump fuel) w (next_action d)

module _ {ContractId : Type 0} (ed : Ed25519) (contract_id : Bytes → ContractId) where
  -- `PointerResolver::new` once the parameters are there
  resolver_of :
      ed.VerifyingKey
      → PointerFloor
      → Result PointerContract.PointerError Bytes
      → Result PointerError (PointerResolver ed ContractId)
  resolver_of author_vk floor (err x) = err (of_record x)
  resolver_of author_vk floor (ok params) = ok (record {
    params = params;
    author_vk = author_vk;
    pointer_id = contract_id params;
    floor = floor;
    outstanding = false;
    phase = fetching;
  })

  pub new :
      ed.VerifyingKey → Bytes → PointerFloor → Result PointerError (PointerResolver ed ContractId)
  unfolding resolver_of encode_params
  new author_vk app_id floor = resolver_of author_vk floor (encode_params ed author_vk app_id)

module _ {ed : Ed25519} {ContractId W E : Type 0} ⦃e : PartialEq ContractId⦄
    (get_pointer : ContractId → W → Result E PointerFetch × W) where
  -- A fetch and a stop: two rounds.
  run_new :
      Result PointerError (PointerResolver ed ContractId)
      → W
      → Option (Result (ResolveError E) PointerOutcome × W)
  unfolding pump
  run_new (err x) w = some (err (pointer x), w)
  run_new (ok d) w = pump get_pointer (suc (suc zero)) d w

module _ {ContractId W E : Type 0} ⦃e : PartialEq ContractId⦄ (ed : Ed25519)
    (contract_id : Bytes → ContractId) where
  unfoldable pub resolve_app_pointer :
      (ContractId → W → Result E PointerFetch × W)
      → ed.VerifyingKey
      → Bytes
      → PointerFloor
      → W
      → Option (Result (ResolveError E) PointerOutcome × W)
  unfolding run_new new
  resolve_app_pointer get_pointer author_vk app_id floor w =
      run_new get_pointer (new ed contract_id author_vk app_id floor) w
