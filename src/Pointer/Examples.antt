-- ===== src/Pointer/Examples.antt =====
-- The theorems on freenet-migrate/src/pointer.rs at concrete inputs.
use freenet_migrate.Prelude.{
  ℕ, ◌≤◌, ◌<◌, ◌^◌, ◌≡◌, inl, refl, true, false, none, some, [], ◌∷◌, arith, Bytes, replicate,
  list_beq, nat_eq, list_eq, to_be_bytes, from_be_bytes, if◌then◌else◌,
}
use freenet_migrate.Prelude.Result.{Result, ok}
use freenet_migrate.PointerContract.{
  Ed25519, PointerRecord, encode_params, decode, encode, verify, is_tombstone,
  is_canonical_field_element, find_invalid, is_valid_app_id_byte, merge,
}
use freenet_migrate.PointerContract.Records.{IsTyped}
use freenet_migrate.Pointer.{
  never_resolved, resolved, never_published, may_use_baked_in_fallback, next_floor, of_pointer,
  order,
}
use freenet_migrate.Pointer.Resolver.{PointerFetch, state, absent, resolve_app_pointer}
use freenet_migrate.Pointer.Order.{
  floor_of, kept_floor, order-follows-merge, floors, merged, floors-follow_merge,
}
use freenet_migrate.Pointer.Resolver.Resolution.{resolve_promise, resolve_app_pointer-eq-promise}
use freenet_migrate.Pointer.Resolver.Resolution.Evidence.{
  resolve_app_pointer-fallback, resolve_app_pointer-resolved,
}

-- One key, whose signatures are 64 sevens.
abbrev key : Bytes
key = replicate 32 1

abbrev ed : Ed25519
ed = record {
  VerifyingKey = Unit {0};
  from_bytes = λ b. if list_beq b key then some tt else none;
  as_bytes = λ _. key;
  is_weak = λ _. false;
  verify_strict = λ _ _ s. list_beq s (replicate 64 7);
}

abbrev hash : ℕ → Bytes
hash b = replicate 32 b

abbrev record_of : ℕ → ℕ → PointerRecord
record_of v h = record { version = v; code_hash = hash h; signature = replicate 64 7 }

IsTyped-of : (v h : ℕ) → v < 2 ^ 32 → IsTyped (record_of v h)
IsTyped-of v h l = record { version_fits = l; hash_len = refl; signature_len = refl }

-- The pointer's identifier is its parameters.
abbrev self : Bytes → Bytes
self b = b

abbrev serves : Bytes → ℕ → Result ℕ PointerFetch × ℕ
serves id w = (ok (state (encode (record_of 3 4))), w)

abbrev lacks : Bytes → ℕ → Result ℕ PointerFetch × ℕ
lacks id w = (ok absent, w)

abbrev app : Bytes
app = 97 ∷ []

resolve_app_pointer-eq-promise_example :
    resolve_app_pointer ed self serves tt app (floor_of (record_of 2 5)) 0
    ≡ some (resolve_promise ed self serves tt (floor_of (record_of 2 5)) app 0)
resolve_app_pointer-eq-promise_example =
    resolve_app_pointer-eq-promise ed self serves tt (floor_of (record_of 2 5)) app 0

found :
    resolve_app_pointer ed self serves tt app (floor_of (record_of 2 5)) 0
    ≡ some (ok (resolved (of_pointer (record_of 3 4))), 0)
unfolding resolve_app_pointer encode_params is_canonical_field_element find_invalid
    is_valid_app_id_byte encode to_be_bytes from_be_bytes
found = refl

resolve_app_pointer-resolved_example :
    (params : Bytes) × (bytes : Bytes) × (r : PointerRecord) × (encode_params ed tt app ≡ ok params)
    × (serves (self params) 0 ≡ (ok (state bytes), 0))
    × (decode bytes ≡ ok r)
    × (verify ed r params tt ≡ ok tt)
    × (of_pointer (record_of 3 4) ≡ of_pointer r)
    × (is_tombstone r ≡ false)
    × (2 ≤ r.version)
resolve_app_pointer-resolved_example =
    resolve_app_pointer-resolved ed self serves tt (floor_of (record_of 2 5)) app 0 0
      (resolved (of_pointer (record_of 3 4))) (of_pointer (record_of 3 4)) found (inl refl)

unpublished :
    resolve_app_pointer ed self lacks tt app never_resolved 0 ≡ some (ok never_published, 0)
unfolding resolve_app_pointer encode_params is_canonical_field_element find_invalid
    is_valid_app_id_byte never_resolved
unpublished = refl

may_fall_back : may_use_baked_in_fallback never_published ≡ true
unfolding may_use_baked_in_fallback
may_fall_back = refl

resolve_app_pointer-fallback_example :
    (params : Bytes) × (encode_params ed tt app ≡ ok params)
    × (lacks (self params) 0 ≡ (ok absent, 0))
    × (never_resolved.version ≡ 0)
resolve_app_pointer-fallback_example =
    resolve_app_pointer-fallback ed self lacks tt never_resolved app 0 0 never_published unpublished
      may_fall_back

order-follows-merge_example :
    kept_floor
      (floor_of (record_of 2 5))
      (next_floor (order (floor_of (record_of 2 5)) (record_of 2 4)))
    ≡ floor_of (merge (record_of 2 5) (record_of 2 4))
order-follows-merge_example =
    order-follows-merge (record_of 2 5) (record_of 2 4) (IsTyped-of 2 5 (omega arith))
      (IsTyped-of 2 4 (omega arith)) (omega arith)

floors-follow_merge_example :
    (floors (floor_of (record_of 2 5)) (record_of 3 4 ∷ record_of 1 9 ∷ [])
      ≡ floor_of (merged (record_of 2 5) (record_of 3 4 ∷ record_of 1 9 ∷ [])))
    × (2 ≤ (floors (floor_of (record_of 2 5)) (record_of 3 4 ∷ record_of 1 9 ∷ [])).version)
floors-follow_merge_example =
    floors-follow_merge (record_of 2 5) (record_of 3 4 ∷ record_of 1 9 ∷ [])
      (IsTyped-of 2 5 (omega arith))
      (
        (IsTyped-of 3 4 (omega arith), omega arith),
        ((IsTyped-of 1 9 (omega arith), omega arith), tt),
      )
