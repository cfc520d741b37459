-- ===== src/PointerContract/Contract/Updates/Promise.antt =====
-- `update_state` of contracts/pointer-contract/src/lib.rs against its description.
use freenet_migrate.Prelude.{
  ◌≡◌, refl, Bool, true, false, not, ◌||◌, Option, none, some, List, [], ◌∷◌, arith, Bytes,
  is_empty,
}
use freenet_migrate.Prelude.Result.{Result, ok, err, ◌>>=◌, map_err}
use freenet_migrate.PointerContract.{
  Ed25519, PointerError, PointerParams, PointerRecord, parse, decode_verified, merge,
}
use freenet_migrate.PointerContract.Contract.{
  UpdateData, ContractError, contract_error, ok_of, candidate_bytes, accept, on_update, update_loop,
  finish_update, update_state,
}
use freenet_migrate.PointerContract.Contract.Updates.{
  keep_offer, offered, join, result, read, merge_all, update_promise,
}

or_true : (b : Bool) → (b || true) ≡ true
or_true true = refl
or_true false = refl

module _ (ed : Ed25519) (params : Bytes) (author_vk : ed.VerifyingKey) where
  abbrev flagged :
      Bool
      → Result ContractError (Option PointerRecord)
      → Result ContractError (Option PointerRecord × Bool)
  flagged saw (err e) = err e
  flagged saw (ok best) = ok (best, saw)

  accept-read :
      (best : Option PointerRecord) (bytes : Bytes)
      → accept ed params author_vk best bytes
        ≡ (do r ← read ed params author_vk bytes; ok (some (join best r), true))
  unfolding accept read
  accept-read best bytes = ground arith

  update_loop-eq :
      (us : List UpdateData) (best : Option PointerRecord) (saw : Bool)
      → update_loop ed params author_vk (best, saw) us
        ≡ flagged
            (saw || not (is_empty (offered us)))
            (merge_all ed params author_vk best (offered us))
  unfolding update_loop offered merge_all keep_offer on_update
  update_loop-eq [] best saw = ground arith
  update_loop-eq (u ∷ us) best saw = go (update_loop-eq us) (candidate_bytes u)
    where
      Rest : Type 0
      Rest =
          (best : Option PointerRecord) (saw : Bool)
          → update_loop ed params author_vk (best, saw) us
            ≡ flagged (saw || not (is_empty (offered us)))
                (merge_all ed params author_vk best (offered us))

      merged :
          Rest
          → (r : Result ContractError PointerRecord)
          → ((r >>= λ c. ok (some (join best c), true)) >>= λ kept.
              update_loop ed params author_vk kept us)
            ≡ flagged true
                (r >>= λ c. merge_all ed params author_vk (some (join best c)) (offered us))
      merged ih (err e) = refl
      merged ih (ok c) = ih (some (join best c)) true

      go :
          Rest
          → (o : Option Bytes)
          → (on_update ed params author_vk (best, saw) o >>= λ kept.
              update_loop ed params author_vk kept us)
            ≡ flagged
                (saw || not (is_empty (keep_offer o (offered us))))
                (merge_all ed params author_vk best (keep_offer o (offered us)))
      go ih none = ih best saw
      go ih (some []) = ih best saw
      go ih (some (b ∷ bs)) =
          rw (accept-read best (b ∷ bs), or_true saw)
            (merged ih (read ed params author_vk (b ∷ bs)))

  some_kept :
      (bs : List Bytes) (r : PointerRecord)
      → finish_update (flagged true (merge_all ed params author_vk (some r) bs))
        ≡ some (merge_all ed params author_vk (some r) bs >>= result)
  unfolding finish_update merge_all
  some_kept [] r = refl
  some_kept (b ∷ bs) r = go (some_kept bs) (read ed params author_vk b)
    where
      go :
          ((r : PointerRecord)
            → finish_update (flagged true (merge_all ed params author_vk (some r) bs))
              ≡ some (merge_all ed params author_vk (some r) bs >>= result))
          → (c : Result ContractError PointerRecord)
          → finish_update
              (flagged true (c >>= λ c. merge_all ed params author_vk (some (merge r c)) bs))
            ≡ some ((c >>= λ c. merge_all ed params author_vk (some (merge r c)) bs) >>= result)
      go ih (err e) = refl
      go ih (ok c) = ih (merge r c)

  -- Something was merged, so there is something to keep.
  finish_merged :
      (bs : List Bytes) (best : Option PointerRecord)
      → finish_update (flagged (not (is_empty bs)) (merge_all ed params author_vk best bs))
        ≡ some (merge_all ed params author_vk best bs >>= result)
  unfolding finish_update merge_all
  finish_merged [] none = refl
  finish_merged [] (some r) = refl
  finish_merged (b ∷ bs) best = go (read ed params author_vk b)
    where
      go :
          (r : Result ContractError PointerRecord)
          → finish_update
              (flagged true (r >>= λ c. merge_all ed params author_vk (some (join best c)) bs))
            ≡ some ((r >>= λ c. merge_all ed params author_vk (some (join best c)) bs) >>= result)
      go (err e) = refl
      go (ok c) = some_kept bs (join best c)

-- Updating a state never panics, and returns on every branch what the description says: an error if
-- the parameters are malformed or a candidate that is not empty does not decode or verify; else the
-- encoding of the kept record, if the state verifies, merged with every candidate; and an error if
-- there is neither.
pub update_state-eq-promise :
    (ed : Ed25519) (params bytes : Bytes) (us : List UpdateData)
    → update_state ed params bytes us ≡ some (update_promise ed params bytes us)
unfolding update_state update_promise
update_state-eq-promise ed params bytes us = go (parse ed params)
  where
    go :
        (p : Result PointerError (PointerParams ed))
        → finish_update (
            map_err contract_error p >>= λ parsed.
            update_loop ed params parsed.author_vk
              (ok_of (decode_verified ed bytes params), false)
              us)
          ≡ some (
              map_err contract_error p >>= λ parsed.
              (merge_all ed params parsed.author_vk
                  (ok_of (decode_verified ed bytes params))
                  (offered us)
                >>= result))
    go (err e) = refl
    go (ok parsed) =
        rw
          (update_loop-eq ed params parsed.author_vk us (ok_of (decode_verified ed bytes params))
            false)
          (finish_merged ed params parsed.author_vk (offered us)
            (ok_of (decode_verified ed bytes params)))
