-- ===== src/Registry/Validation.antt =====
-- What a registry that passes `validate` of freenet-migrate-build/src/registry.rs is.
use freenet_migrate.Prelude.{
  ℕ, ◌≡◌, ◌↔◌, refl, false, List, [], ◌∷◌, arith, Bytes, nat_eq, list_eq, list_beq_iff, contains,
}
use freenet_migrate.Prelude.Result.{Result, ok, err, ◌>>=◌, map_err}
use freenet_migrate.Registry.{
  Component, contract, delegate, DelegateRow, Registry, Reason, invalid_params, Codecs,
  decode_hash32, decode_hex, params_bytes, derive_delegate_key, check_new, unique_from,
  validate_unique, check_key, check_row, check_rows, contract_pairs, delegate_pairs, validate,
}

-- A chain of results succeeds exactly if each of them does.
bind_ok :
    {E A : Type 0} (d : Result E A) (f : A → Result E (Unit {0}))
    → ((d >>= f) ≡ ok tt) ↔ ((a : A) × (d ≡ ok a) × (f a ≡ ok tt))
bind_ok (ok a) f = (λ h. (a, refl, h), λ x. let (b, q, k) = x in cc)
bind_ok (err e) f = (λ h. cc, λ x. let (b, q, k) = x in cc)

both_ok :
    {E : Type 0} (d k : Result E (Unit {0}))
    → ((d >>= λ _. k) ≡ ok tt) ↔ ((d ≡ ok tt) × (k ≡ ok tt))
both_ok (ok tt) k = (λ h. (refl, h), λ x. x.1)
both_ok (err e) k = (λ h. cc, λ x. cc)

check_new_iff :
    (component : Component) (gens : List ℕ) (hashes : List Bytes) (g : ℕ) (h d : Bytes)
    → (check_new component gens hashes g h d ≡ ok tt)
      ↔ ((contains gens g ≡ false) × (contains hashes d ≡ false))
unfolding check_new
check_new_iff component gens hashes g h d = ground arith

module _ (codecs : Codecs) where
  -- Every hash decodes, and no generation and no decoded hash is among those that were seen before it.
  abbrev pub AllNew : List ℕ → List Bytes → List (ℕ × Bytes) → Type 0
  AllNew gens hashes [] = Unit
  AllNew gens hashes ((generation, code_hash) ∷ rows) =
      (hash : Bytes) × (decode_hash32 codecs code_hash ≡ ok hash)
      × (contains gens generation ≡ false)
      × (contains hashes hash ≡ false)
      × AllNew (generation ∷ gens) (hash ∷ hashes) rows

  unique_from-AllNew :
      (component : Component) (rows : List (ℕ × Bytes)) (gens : List ℕ) (hashes : List Bytes)
      → (unique_from codecs component gens hashes rows ≡ ok tt) ↔ AllNew gens hashes rows
  unfolding unique_from
  unique_from-AllNew component [] gens hashes = ground arith
  unique_from-AllNew component ((g, h) ∷ rows) gens hashes = (
    λ e.
        let (d, q, k) = (bind_ok (decode_hash32 codecs h) _).0 e in
        let (n, r) = (both_ok (check_new component gens hashes g h d) _).0 k in
        let (new_g, new_d) = (check_new_iff component gens hashes g h d).0 n in
        (d, q, new_g, new_d, (unique_from-AllNew component rows (g ∷ gens) (d ∷ hashes)).0 r),
    λ x.
        let (d, q, new_g, new_d, rest) = x in
        (bind_ok (decode_hash32 codecs h) _).1 (
          d,
          q,
          (both_ok (check_new component gens hashes g h d) _).1 (
            (check_new_iff component gens hashes g h d).1 (new_g, new_d),
            (unique_from-AllNew component rows (g ∷ gens) (d ∷ hashes)).1 rest,
          ),
        ),
  )

  -- The stored key is derived from the hash and the parameters, or it is marked as irregular: exactly
  -- one of the two.
  abbrev pub HasKey : DelegateRow → Type 0
  HasKey row =
      (hash : Bytes) × (key : Bytes) × (params : Bytes) × (decode_hash32 codecs row.code_hash
        ≡ ok hash)
      × (decode_hash32 codecs row.delegate_key ≡ ok key)
      × (decode_hex row.params_hex ≡ ok params)
      × ((row.irregular_key ≡ false) ↔ (derive_delegate_key codecs hash params ≡ key))

  abbrev pub AllHaveKeys : List DelegateRow → Type 0
  AllHaveKeys [] = Unit
  AllHaveKeys (row ∷ rows) = HasKey row × AllHaveKeys rows

  params_bytes-ok :
      (row : DelegateRow) (params : Bytes)
      → (params_bytes row ≡ ok params) ↔ (decode_hex row.params_hex ≡ ok params)
  unfolding params_bytes
  params_bytes-ok row params = go (decode_hex row.params_hex)
    where
      go :
          (d : Result Reason Bytes)
          → (map_err (invalid_params row.params_hex) d ≡ ok params) ↔ (d ≡ ok params)
      go (ok b) = (λ h. cc, λ h. cc)
      go (err e) = (λ h. cc, λ h. cc)

  check_key_iff :
      (row : DelegateRow) (derived key : Bytes)
      → (check_key row derived key ≡ ok tt) ↔ ((row.irregular_key ≡ false) ↔ (derived ≡ key))
  unfolding check_key
  check_key_iff row derived key = ground (arith, list_beq_iff derived key)

  check_row-HasKey : (row : DelegateRow) → (check_row codecs row ≡ ok tt) ↔ HasKey row
  unfolding check_row
  check_row-HasKey row = (
    λ e.
        let (hash, q, k) = (bind_ok (decode_hash32 codecs row.code_hash) _).0 e in
        let (key, r, l) = (bind_ok (decode_hash32 codecs row.delegate_key) _).0 k in
        let (params, s, m) = (bind_ok (params_bytes row) _).0 l in
        (
          hash,
          key,
          params,
          q,
          r,
          (params_bytes-ok row params).0 s,
          (check_key_iff row (derive_delegate_key codecs hash params) key).0 m,
        ),
    λ x.
        let (hash, key, params, q, r, s, m) = x in
        (bind_ok (decode_hash32 codecs row.code_hash) _).1 (
          hash,
          q,
          (bind_ok (decode_hash32 codecs row.delegate_key) _).1 (
            key,
            r,
            (bind_ok (params_bytes row) _).1 (
              params,
              (params_bytes-ok row params).1 s,
              (check_key_iff row (derive_delegate_key codecs hash params) key).1 m,
            ),
          ),
        ),
  )

  check_rows-AllHaveKeys :
      (rows : List DelegateRow) → (check_rows codecs rows ≡ ok tt) ↔ AllHaveKeys rows
  unfolding check_rows
  check_rows-AllHaveKeys [] = ground arith
  check_rows-AllHaveKeys (row ∷ rows) =
      let here = check_row-HasKey row in
      let there = check_rows-AllHaveKeys rows in
      let both = both_ok (check_row codecs row) (check_rows codecs rows) in
      (λ e. (here.0 (both.0 e).0, there.0 (both.0 e).1), λ x. both.1 (here.1 x.0, there.1 x.1))

  -- A registry validates exactly if, in each component, every hash decodes and no generation and no
  -- decoded hash occurs twice, and every delegate's stored key and parameters decode, the key being
  -- the one derived from hash and parameters exactly if the row is not marked irregular.
  pub validate_iff :
      (registry : Registry)
      → (validate codecs registry ≡ ok tt) ↔ (
          AllNew [] [] (contract_pairs registry.contracts)
          × AllNew [] [] (delegate_pairs registry.delegates)
          × AllHaveKeys registry.delegates)
  unfolding validate validate_unique
  validate_iff registry =
      let cs = unique_from-AllNew contract (contract_pairs registry.contracts) [] [] in
      let ds = unique_from-AllNew delegate (delegate_pairs registry.delegates) [] [] in
      let ks = check_rows-AllHaveKeys registry.delegates in
      let outer =
        both_ok (unique_from codecs contract [] [] (contract_pairs registry.contracts)) _ in
      let inner =
        both_ok (unique_from codecs delegate [] [] (delegate_pairs registry.delegates))
          (check_rows codecs registry.delegates) in
      (
        λ e. let (a, b) = outer.0 e in let (c, d) = inner.0 b in (cs.0 a, ds.0 c, ks.0 d),
        λ x. let (a, b, c) = x in outer.1 (cs.1 a, inner.1 (ds.1 b, ks.1 c)),
      )
