-- ===== src/PointerContract/Params.antt =====
-- The parameters of contracts/pointer-contract/src/lib.rs: reading and writing them.
use freenet_migrate.Prelude.{
  ◌+◌, ◌≤◌, ◌<◌, ◌-◌, ◌↔◌, ◌≡◌, sym, ap, ap₂, ◌∙◌, true, false, none, some, [], ◌∷◌, ◌++◌, arith,
  Bytes, length, length-append, take, drop, take-append, drop-append, length-drop, take-append-drop,
}
use freenet_migrate.Prelude.Result.{ok}
use freenet_migrate.PointerContract.{
  Ed25519, KeepsKeyBytes, PointerParams, is_canonical_field_element, find_invalid, parse,
  encode_params,
}

module _ (ed : Ed25519) where
  -- The bytes hold a canonical, usable key and an application identifier of allowed bytes.
  pub record Holds (bytes : Bytes) (p : PointerParams ed) : Type 0 where
    pub at_least : 33 ≤ length bytes
    pub at_most : length bytes ≤ 96
    pub canonical : is_canonical_field_element (take 32 bytes) ≡ true
    pub key : ed.from_bytes (take 32 bytes) ≡ some p.author_vk
    pub strong : ed.is_weak p.author_vk ≡ false
    pub allowed : find_invalid (drop 32 bytes) ≡ none
    pub app_id : p.app_id ≡ drop 32 bytes

  parse-ok : (bytes : Bytes) (p : PointerParams ed) → parse ed bytes ≡ ok p → Holds bytes p
  unfolding parse
  parse-ok bytes p h = ground arith

  parse_holding : (bytes : Bytes) (p : PointerParams ed) → Holds bytes p → parse ed bytes ≡ ok p
  unfolding parse
  parse_holding bytes p h = ground arith

  encode_holding :
      (vk : ed.VerifyingKey) (app : Bytes)
      → 0 < length app
      → length app ≤ 64
      → find_invalid app ≡ none
      → is_canonical_field_element (ed.as_bytes vk) ≡ true
      → ed.is_weak vk ≡ false
      → encode_params ed vk app ≡ ok (ed.as_bytes vk ++ app)
  unfolding encode_params
  encode_holding vk [] low high valid canonical strong = absurd (omega arith)
  encode_holding vk (b ∷ bs) low high valid canonical strong = ground arith

  module _ (keeps : KeepsKeyBytes ed) where
    parse-encode :
        (vk : ed.VerifyingKey) (app bytes : Bytes)
        → encode_params ed vk app ≡ ok bytes
        → parse ed bytes ≡ ok (record { author_vk = vk; app_id = app })
    unfolding encode_params
    parse-encode vk app bytes h =
        let whole : bytes ≡ ed.as_bytes vk ++ app = ground arith in
        let key : take 32 bytes ≡ ed.as_bytes vk =
          rw whole (take-append 32 (ed.as_bytes vk) app (keeps.length_as_bytes vk)) in
        let rest : drop 32 bytes ≡ app =
          rw whole (drop-append 32 (ed.as_bytes vk) app (keeps.length_as_bytes vk)) in
        let size : length bytes ≡ 32 + length app =
          rw whole (omega (arith, length-append (ed.as_bytes vk) app, keeps.length_as_bytes vk)) in
        let nonempty : 0 < length app = ground arith in
        let bounded : length app ≤ 64 = ground arith in
        parse_holding bytes (record { author_vk = vk; app_id = app })
          (record {
            at_least = omega arith;
            at_most = omega arith;
            canonical = rw key (ground arith);
            key = rw key (keeps.from_as vk);
            strong = ground arith;
            allowed = rw rest (ground arith);
            app_id = sym rest;
          })

    encode-parse :
        (vk : ed.VerifyingKey) (app bytes : Bytes)
        → parse ed bytes ≡ ok (record { author_vk = vk; app_id = app })
        → encode_params ed vk app ≡ ok bytes
    encode-parse vk app bytes h =
        let holds = parse-ok bytes (record { author_vk = vk; app_id = app }) h in
        let key : ed.as_bytes vk ≡ take 32 bytes = keeps.as_from (take 32 bytes) vk holds.key in
        let whole : take 32 bytes ++ drop 32 bytes ≡ bytes = take-append-drop 32 bytes in
        let size : length app ≡ length bytes - 32 = rw holds.app_id (length-drop 32 bytes) in
        encode_holding vk app (omega (arith, holds.at_least)) (omega (arith, holds.at_most))
          (rw holds.app_id holds.allowed) (rw key holds.canonical) holds.strong
        ∙ ap ok (ap₂ (λ xs ys. xs ++ ys) key holds.app_id ∙ whole)

    -- Writing the parameters of a key and an application identifier succeeds with some bytes exactly
    -- if reading those bytes succeeds with that key and identifier.
    pub encode_params-iff-parse :
        (vk : ed.VerifyingKey) (app bytes : Bytes)
        → (encode_params ed vk app ≡ ok bytes)
          ↔ (parse ed bytes ≡ ok (record { author_vk = vk; app_id = app }))
    encode_params-iff-parse vk app bytes = (parse-encode vk app bytes, encode-parse vk app bytes)
