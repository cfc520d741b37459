-- ===== src/PointerContract/Contract.antt =====
-- The contract interface of contracts/pointer-contract/src/lib.rs.
-- A state, a summary, a delta and the parameters are their bytes. The error texts are kept as the
-- values that they print. The related contracts are not read by the source.
pub mod Updates
mod Examples
use freenet_migrate.Prelude.{
  ◌≡◌, Bool, true, false, not, ◌&&◌, nat_beq, Option, none, some, List, [], ◌∷◌, Bytes, is_empty,
  list_beq, nat_eq, if◌then◌else◌,
}
use freenet_migrate.Prelude.Result.{Result, ok, err, ◌>>=◌, map_err}
use freenet_migrate.PointerContract.{
  Ed25519, PointerError, PointerParams, PointerRecord, parse, decode, encode, verify,
  decode_verified, merge,
}

-- `UpdateData`; `related` stands for the variants that hold other contracts' data only.
pub data UpdateData : Type 0 where
  state : Bytes → UpdateData
  delta : Bytes → UpdateData
  state_and_delta : Bytes → Bytes → UpdateData
  related : UpdateData

pub data ErrorText : Type 0 where
  printed : PointerError → ErrorText
  no_usable_record : ErrorText

pub data ContractError : Type 0 where
  invalid_state : ContractError
  deser : ErrorText → ContractError
  other : ErrorText → ContractError

pub data ValidateResult : Type 0 where
  valid invalid : ValidateResult

-- `impl From<PointerError> for ContractError`
contract_error : PointerError → ContractError
contract_error (PointerError.state_length _) = invalid_state
contract_error PointerError.zero_version = invalid_state
contract_error PointerError.reserved_version = invalid_state
contract_error PointerError.signature_unset = invalid_state
contract_error PointerError.bad_signature = invalid_state
contract_error e = other (printed e)

-- `Result::ok`
abbrev ok_of : {E A : Type 0} → Result E A → Option A
ok_of (ok a) = some a
ok_of (err e) = none

-- The bytes that one update offers, if any.
candidate_bytes : UpdateData → Option Bytes
candidate_bytes (state s) = some s
candidate_bytes (delta d) = some d
candidate_bytes (state_and_delta s _) = some s
candidate_bytes related = none

record_beq : PointerRecord → PointerRecord → Bool
record_beq a b =
    nat_beq a.version b.version
    && list_beq a.code_hash b.code_hash
    && list_beq a.signature b.signature

-- After the loop; the outer `none` is the panic of `expect`.
finish : Option PointerRecord → Bool → Option (Result ContractError Bytes)
finish (some current) false = some (ok (encode current))
finish none false = some (err (deser no_usable_record))
finish (some winner) true = some (ok (encode winner))
finish none true = none

finish_update :
    Result ContractError (Option PointerRecord × Bool) → Option (Result ContractError Bytes)
unfolding finish
finish_update (err e) = some (err e)
finish_update (ok (best, saw)) = finish best saw

-- `owed`: the other side has nothing, or would change if it merged ours.
owed : Option PointerRecord → PointerRecord → Bool
unfolding record_beq
owed none ours = true
owed (some theirs) ours = not (record_beq (merge theirs ours) theirs)

module _ (ed : Ed25519) where
  pub validate_state : Bytes → Bytes → Result ContractError ValidateResult
  unfolding parse decode verify contract_error
  validate_state parameters bytes = do
    params ← map_err contract_error (parse ed parameters)
    elim (do r ← decode bytes; verify ed r parameters params.author_vk) [
      | ok _ ↦ ok valid
      | err _ ↦ ok invalid
    ]

  -- One candidate: it must decode and verify, and is merged into what was kept so far.
  accept :
      Bytes
      → ed.VerifyingKey
      → Option PointerRecord
      → Bytes
      → Result ContractError (Option PointerRecord × Bool)
  unfolding decode verify
  accept params author_vk best bytes = do
    candidate ← map_err (λ e. deser (printed e)) (decode bytes)
    verified ← map_err (λ e. other (printed e)) (verify ed candidate params author_vk)
    ok (some (elim best [ none ↦ candidate | some current ↦ merge current candidate ]), true)

  -- One turn of the loop on `best` and `saw_candidate`: an update with nothing to offer is skipped.
  on_update :
      Bytes
      → ed.VerifyingKey
      → Option PointerRecord × Bool
      → Option Bytes
      → Result ContractError (Option PointerRecord × Bool)
  unfolding accept
  on_update params author_vk kept none = ok kept
  on_update params author_vk kept (some []) = ok kept
  on_update params author_vk (best, saw) (some (b ∷ bytes)) =
      accept params author_vk best (b ∷ bytes)

  update_loop :
      Bytes
      → ed.VerifyingKey
      → Option PointerRecord × Bool
      → List UpdateData
      → Result ContractError (Option PointerRecord × Bool)
  unfolding on_update candidate_bytes
  update_loop params author_vk kept [] = ok kept
  update_loop params author_vk kept (update ∷ data') = do
    kept' ← on_update params author_vk kept (candidate_bytes update)
    update_loop params author_vk kept' data'

  pub update_state : Bytes → Bytes → List UpdateData → Option (Result ContractError Bytes)
  unfolding parse contract_error decode_verified update_loop finish_update
  update_state params bytes data' = finish_update (do
    parsed ← map_err contract_error (parse ed params)
    update_loop params parsed.author_vk (ok_of (decode_verified ed bytes params), false) data')

  -- A state that does not verify has the empty summary, which asks for everything.
  pub summarize_state : Bytes → Bytes → Result ContractError Bytes
  unfolding decode_verified
  summarize_state parameters bytes = elim (decode_verified ed bytes parameters) [
    | ok r ↦ ok (encode r)
    | err _ ↦ ok []
  ]

  pub get_state_delta : Bytes → Bytes → Bytes → Result ContractError Bytes
  unfolding decode_verified owed
  get_state_delta params bytes summary = elim (decode_verified ed bytes params) [
    | err _ ↦ ok []
    | ok ours ↦
        if owed (ok_of (decode_verified ed summary params)) ours then ok (encode ours) else ok []
  ]
