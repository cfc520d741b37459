-- ===== src/PointerContract/Contract/Updates.antt =====
-- `update_state` of contracts/pointer-contract/src/lib.rs without its loop flag: the records that are
-- offered are merged, in turn, into the record that is kept.
pub mod Promise
pub mod Order
pub mod Winner
pub mod Sync
use freenet_migrate.Prelude.{
  ◌≡◌, refl, Bool, true, false, not, ◌||◌, Option, none, some, List, [], ◌∷◌, arith, Bytes,
  is_empty,
}
use freenet_migrate.Prelude.Result.{Result, ok, err, ◌>>=◌, map_err}
use freenet_migrate.PointerContract.{
  Ed25519, PointerError, PointerRecord, parse, decode, encode, verify, decode_verified, merge,
}
use freenet_migrate.PointerContract.Contract.{
  UpdateData, ContractError, deser, other, printed, no_usable_record, contract_error, ok_of,
  candidate_bytes, accept, on_update, update_loop, finish, finish_update, update_state,
}

-- The candidates that are not skipped.
keep_offer : Option Bytes → List Bytes → List Bytes
keep_offer none rest = rest
keep_offer (some []) rest = rest
keep_offer (some (b ∷ bytes)) rest = (b ∷ bytes) ∷ rest

unfoldable pub offered : List UpdateData → List Bytes
unfolding keep_offer candidate_bytes
offered [] = []
offered (u ∷ us) = keep_offer (candidate_bytes u) (offered us)

abbrev pub join : Option PointerRecord → PointerRecord → PointerRecord
join none candidate = candidate
join (some current) candidate = merge current candidate

abbrev result : Option PointerRecord → Result ContractError Bytes
result none = err (deser no_usable_record)
result (some r) = ok (encode r)

module _ (ed : Ed25519) (params : Bytes) (author_vk : ed.VerifyingKey) where
  -- A candidate is good if it decodes and verifies.
  pub read : Bytes → Result ContractError PointerRecord
  read bytes = do
    r ← map_err (λ e. deser (printed e)) (decode bytes)
    verified ← map_err (λ e. other (printed e)) (verify ed r params author_vk)
    ok r

  -- One bad candidate refuses the whole update.
  pub merge_all : Option PointerRecord → List Bytes → Result ContractError (Option PointerRecord)
  unfolding read
  merge_all best [] = ok best
  merge_all best (b ∷ bs) = do r ← read b; merge_all (some (join best r)) bs

module _ (ed : Ed25519) where
  pub update_promise : Bytes → Bytes → List UpdateData → Result ContractError Bytes
  unfolding parse contract_error decode_verified merge_all offered
  update_promise params bytes data' = do
    parsed ← map_err contract_error (parse ed params)
    best ←
        merge_all ed params parsed.author_vk (ok_of (decode_verified ed bytes params))
          (offered data')
    result best
