-- ===== src/Registry/Guard.antt =====
-- freenet-migrate-build/src/guard.rs: a changed hash needs its predecessor in the registry.
use freenet_migrate.Prelude.{
  ℕ, ◌≡◌, ◌≢◌, ◌↔◌, ◌⊎◌, inl, inr, refl, sym, subst, ◌∙◌, Bool, true, false, Option, none, some,
  List, [], ◌∷◌, arith, Bytes, nat_eq, list_beq, list_beq_iff, if◌then◌else◌,
}
use freenet_migrate.Prelude.Result.{Result, ok, err, ◌>>=◌}
use freenet_migrate.Registry.{
  Component, contract, delegate, Registry, BuildError, Codecs, decode_hash32, contract_pairs,
  delegate_pairs, decodes_to, find_generation, find_contract_code_hash_bytes,
  find_delegate_code_hash_bytes,
}

pub data GuardOutcome : Type 0 where
  unchanged : GuardOutcome
  predecessor_registered : ℕ → GuardOutcome
  predecessor_missing : Bytes → GuardOutcome

unfoldable pub passes : GuardOutcome → Bool
passes (predecessor_missing _) = false
passes _ = true

outcome_of : Bytes → Option ℕ → GuardOutcome
outcome_of base none = predecessor_missing base
outcome_of base (some generation) = predecessor_registered generation

-- The generations and hashes of a component.
abbrev pub rows_of : Component → Registry → List (ℕ × Bytes)
rows_of contract registry = contract_pairs registry.contracts
rows_of delegate registry = delegate_pairs registry.delegates

unok : {A : Type 0} {a b : A} → ◌≡◌ {A = Result BuildError A} (ok a) (ok b) → a ≡ b
unok h = cc

decodes_to_iff :
    (d : Result BuildError Bytes) (hash : Bytes) → (decodes_to d hash ≡ true) ↔ (d ≡ ok hash)
decodes_to_iff (ok b) hash = ground (arith, list_beq_iff b hash)
decodes_to_iff (err e) hash = ground arith

module _ (codecs : Codecs) where
  find_in : Component → Registry → Bytes → Option ℕ
  unfolding find_contract_code_hash_bytes find_delegate_code_hash_bytes
  find_in contract registry base = find_contract_code_hash_bytes codecs registry base
  find_in delegate registry base = find_delegate_code_hash_bytes codecs registry base

  unfoldable pub check_migration_guard :
      Component → Bytes → Bytes → Registry → Result BuildError GuardOutcome
  unfolding decode_hash32 outcome_of find_in
  check_migration_guard component base_code_hash head_code_hash registry = do
    base ← decode_hash32 codecs base_code_hash
    head ← decode_hash32 codecs head_code_hash
    ok (
        if list_beq base head
        then unchanged
        else outcome_of base_code_hash (find_in component registry base))

  -- Some row has a hash, in either encoding, that decodes to the given one.
  abbrev pub Registers : List (ℕ × Bytes) → Bytes → Type 0
  Registers [] hash = ⊥
  Registers ((generation, code_hash) ∷ rows) hash =
      (decode_hash32 codecs code_hash ≡ ok hash) ⊎ Registers rows hash

  find-Registers :
      (rows : List (ℕ × Bytes)) (hash : Bytes)
      → (find_generation codecs rows hash ≢ none) ↔ Registers rows hash
  unfolding find_generation
  find-Registers [] hash = ground arith
  find-Registers ((generation, code_hash) ∷ rows) hash =
      ground (arith, find-Registers rows hash, decodes_to_iff (decode_hash32 codecs code_hash) hash)

  found-passes :
      (base : Bytes) (found : Option ℕ) → (passes (outcome_of base found) ≡ true) ↔ (found ≢ none)
  unfolding passes outcome_of
  found-passes base found = ground arith

  find_in-eq :
      (component : Component) (registry : Registry) (base : Bytes)
      → find_in component registry base ≡ find_generation codecs (rows_of component registry) base
  unfolding find_in find_contract_code_hash_bytes find_delegate_code_hash_bytes
  find_in-eq contract registry base = refl
  find_in-eq delegate registry base = refl

  guard-ok :
      (component : Component) (base_code_hash head_code_hash base head : Bytes)
      (registry : Registry)
      → decode_hash32 codecs base_code_hash ≡ ok base
      → decode_hash32 codecs head_code_hash ≡ ok head
      → check_migration_guard component base_code_hash head_code_hash registry
        ≡ ok (
            if list_beq base head
            then unchanged
            else outcome_of base_code_hash
                (find_generation codecs (rows_of component registry) base))
  unfolding check_migration_guard
  guard-ok component base_code_hash head_code_hash base head registry b h =
      rw (b, h, find_in-eq component registry base) refl

  decided :
      (same : Bool) (base head : Bytes) (text : Bytes) (rows : List (ℕ × Bytes))
      → ((same ≡ true) ↔ (base ≡ head))
      → (passes (if same then unchanged else outcome_of text (find_generation codecs rows base))
          ≡ true)
        ↔ ((base ≡ head) ⊎ Registers rows base)
  unfolding passes
  decided true base head text rows s = (λ p. inl (s.0 refl), λ x. refl)
  decided false base head text rows s =
      let found = found-passes text (find_generation codecs rows base) in
      let listed = find-Registers rows base in
      (
        λ p. inr (listed.0 (found.0 p)),
        λ x. elim x [ inl q ↦ cc (s.1 q) | inr r ↦ found.1 (listed.1 r) ],
      )

  -- Where both hashes decode, the guard passes exactly if they decode to the same bytes or some row
  -- of the component has a hash that decodes to the old one, whichever encoding each is written in.
  pub check_migration_guard-passes :
      (component : Component) (base_code_hash head_code_hash base head : Bytes)
      (registry : Registry) (outcome : GuardOutcome)
      → decode_hash32 codecs base_code_hash ≡ ok base
      → decode_hash32 codecs head_code_hash ≡ ok head
      → check_migration_guard component base_code_hash head_code_hash registry ≡ ok outcome
      → (passes outcome ≡ true) ↔ ((base ≡ head) ⊎ Registers (rows_of component registry) base)
  check_migration_guard-passes component base_code_hash head_code_hash base head registry outcome b
        h e =
      let rows = rows_of component registry in
      let result : (if list_beq base head
            then unchanged
            else outcome_of base_code_hash (find_generation codecs rows base))
          ≡ outcome =
        unok (sym (guard-ok component base_code_hash head_code_hash base head registry b h) ∙ e) in
      subst (λ o. (passes o ≡ true) ↔ ((base ≡ head) ⊎ Registers rows base)) result
        (decided (list_beq base head) base head base_code_hash rows (list_beq_iff base head))
