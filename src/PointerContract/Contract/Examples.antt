-- ===== src/PointerContract/Contract/Examples.antt =====
-- The theorems on contracts/pointer-contract/src/lib.rs at concrete inputs, and runs of the contract.
use mathlib.Core.List.{Permᴰ}
use freenet_migrate.Prelude.{
  ℕ, ◌≤◌, ◌<◌, ◌%◌, ◌^◌, ◌-◌, ◌↔◌, ◌≡◌, refl, Bool, true, none, some, List, [], ◌∷◌, ◌++◌, arith,
  Bytes, IsBytes, All, nat_eq, list_beq, list_beq_iff, replicate, if◌then◌else◌, to_be_bytes,
  from_be_bytes, lex_ltb,
}
use freenet_migrate.Prelude.Result.{ok}
use freenet_migrate.PointerContract.{
  Ed25519, KeepsKeyBytes, PointerRecord, is_canonical_field_element, find_invalid,
  is_valid_app_id_byte, parse, encode_params, decode, encode, decode_verified, merge,
}
use freenet_migrate.PointerContract.Field.{le_value, is_canonical_field_element-exact}
use freenet_migrate.PointerContract.Params.{encode_params-iff-parse}
use freenet_migrate.PointerContract.Records.{IsTyped, decode-iff-encode, signing_message-injective}
use freenet_migrate.PointerContract.Merge.{merge-semilattice}
use freenet_migrate.PointerContract.Contract.{
  UpdateData, state, delta, related, ok_of, update_state, summarize_state, get_state_delta,
}
use freenet_migrate.PointerContract.Contract.Updates.{offered, join, update_promise}
use freenet_migrate.PointerContract.Contract.Updates.Promise.{update_state-eq-promise}
use freenet_migrate.PointerContract.Contract.Updates.Order.{update_state-order}
use freenet_migrate.PointerContract.Contract.Updates.Winner.{Settles, update_state-Settles}
use freenet_migrate.PointerContract.Contract.Updates.Sync.{get_state_delta-brings_up_to_date}

-- One key, whose signatures are 64 sevens.
abbrev key : Bytes
key = replicate 32 1

abbrev ed : Ed25519
ed = record {
  VerifyingKey = Unit {0};
  from_bytes = λ b. if list_beq b key then some tt else none;
  as_bytes = λ _. key;
  is_weak = λ _. Bool.false;
  verify_strict = λ _ _ s. list_beq s (replicate 64 7);
}

keeps : KeepsKeyBytes ed
keeps = record {
  length_as_bytes = λ vk. refl;
  from_as = λ vk. refl;
  as_from = λ b vk h. ground (arith, list_beq_iff b key);
}

-- The application is "a".
abbrev params : Bytes
params = key ++ 97 ∷ []

abbrev hash : ℕ → Bytes
hash b = replicate 32 b

abbrev record_of : ℕ → ℕ → PointerRecord
record_of v h = record { version = v; code_hash = hash h; signature = replicate 64 7 }

IsTyped-of : (v h : ℕ) → v < 2 ^ 32 → IsTyped (record_of v h)
IsTyped-of v h l = record { version_fits = l; hash_len = refl; signature_len = refl }

abbrev state_of : ℕ → ℕ → Bytes
state_of v h = encode (record_of v h)

key_IsBytes : IsBytes key
key_IsBytes = omega arith

state_IsBytes : IsBytes (state_of 2 5)
unfolding encode to_be_bytes
state_IsBytes = omega arith

is_canonical_field_element-exact_example :
    (is_canonical_field_element key ≡ true) ↔ (le_value key % 2 ^ 255 < 2 ^ 255 - 19)
is_canonical_field_element-exact_example = is_canonical_field_element-exact key refl key_IsBytes

encode_params-iff-parse_example :
    (encode_params ed tt (97 ∷ []) ≡ ok params)
    ↔ (parse ed params ≡ ok (record { author_vk = tt; app_id = 97 ∷ [] }))
encode_params-iff-parse_example = encode_params-iff-parse ed keeps tt (97 ∷ []) params

decode-iff-encode_example :
    (decode (state_of 2 5) ≡ ok (record_of 2 5))
    ↔ (IsTyped (record_of 2 5) × (encode (record_of 2 5) ≡ state_of 2 5))
decode-iff-encode_example = decode-iff-encode (state_of 2 5) (record_of 2 5) state_IsBytes

signing_message-injective_example : (params ≡ params) × (◌≡◌ {A = ℕ} 2 2) × (hash 5 ≡ hash 5)
signing_message-injective_example =
    signing_message-injective params params (hash 5) (hash 5) 2 2 (omega arith) (omega arith) refl
      refl refl

merge-semilattice_example :
    (merge (record_of 2 5) (record_of 2 5) ≡ record_of 2 5)
    × (merge (record_of 2 5) (record_of 3 4) ≡ merge (record_of 3 4) (record_of 2 5))
    × (merge (merge (record_of 2 5) (record_of 3 4)) (record_of 3 6)
        ≡ merge (record_of 2 5) (merge (record_of 3 4) (record_of 3 6)))
    × (2 ≤ (merge (record_of 2 5) (record_of 3 4)).version)
    × (3 ≤ (merge (record_of 2 5) (record_of 3 4)).version)
merge-semilattice_example =
    merge-semilattice (record_of 2 5) (record_of 3 4) (record_of 3 6) (IsTyped-of 2 5 (omega arith))
      (IsTyped-of 3 4 (omega arith))

abbrev us : List UpdateData
us = delta (state_of 3 4) ∷ related ∷ state (state_of 3 6) ∷ delta [] ∷ []

abbrev vs : List UpdateData
vs = state (state_of 3 6) ∷ delta (state_of 3 4) ∷ []

update_state-eq-promise_example :
    update_state ed params (state_of 2 5) us ≡ some (update_promise ed params (state_of 2 5) us)
update_state-eq-promise_example = update_state-eq-promise ed params (state_of 2 5) us

run : update_state ed params (state_of 2 5) us ≡ some (ok (state_of 3 4))
unfolding update_state is_canonical_field_element find_invalid is_valid_app_id_byte encode
    to_be_bytes from_be_bytes merge lex_ltb
run = refl

offers_IsBytes : All IsBytes (offered us)
unfolding offered encode to_be_bytes
offers_IsBytes = omega arith

offers-swap : Permᴰ (offered us) (offered vs)
unfolding offered encode to_be_bytes
offers-swap = Permᴰ.swap refl refl

update_state-order_example : update_state ed params (state_of 2 5) vs ≡ some (ok (state_of 3 4))
update_state-order_example =
    update_state-order ed params (state_of 2 5) us vs (state_of 3 4) state_IsBytes offers_IsBytes
      offers-swap run

update_state-Settles_example : Settles ed params (state_of 2 5) us (state_of 3 4)
update_state-Settles_example =
    update_state-Settles ed params (state_of 2 5) us (state_of 3 4) state_IsBytes offers_IsBytes run

newer_IsBytes : IsBytes (state_of 3 4)
unfolding encode to_be_bytes
newer_IsBytes = omega arith

verified : decode_verified ed (state_of 3 4) params ≡ ok (record_of 3 4)
unfolding decode_verified is_canonical_field_element find_invalid is_valid_app_id_byte encode
    to_be_bytes from_be_bytes merge lex_ltb
verified = refl

summarized : summarize_state ed params (state_of 2 5) ≡ ok (state_of 2 5)
unfolding summarize_state is_canonical_field_element find_invalid is_valid_app_id_byte encode
    to_be_bytes from_be_bytes merge lex_ltb
summarized = refl

sent : get_state_delta ed params (state_of 3 4) (state_of 2 5) ≡ ok (state_of 3 4)
unfolding get_state_delta is_canonical_field_element find_invalid is_valid_app_id_byte encode
    to_be_bytes from_be_bytes merge lex_ltb
sent = refl

get_state_delta-brings_up_to_date_example :
    (update_state ed params (state_of 2 5) (delta (state_of 3 4) ∷ [])
      ≡ some
          (ok (encode (join (ok_of (decode_verified ed (state_of 2 5) params)) (record_of 3 4)))))
    × ((state_of 3 4 ≡ []) ↔ (
        (t : PointerRecord) × (ok_of (decode_verified ed (state_of 2 5) params) ≡ some t)
        × (merge t (record_of 3 4) ≡ t)))
get_state_delta-brings_up_to_date_example =
    get_state_delta-brings_up_to_date ed params (state_of 3 4) (state_of 2 5) (record_of 3 4)
      (state_of 2 5) (state_of 3 4) newer_IsBytes state_IsBytes verified summarized sent
