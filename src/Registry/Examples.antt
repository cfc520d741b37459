-- ===== src/Registry/Examples.antt =====
-- The theorems on freenet-migrate-build/src/registry.rs and guard.rs at concrete inputs.
use freenet_migrate.Prelude.{
  ◌≡◌, ◌↔◌, ◌⊎◌, refl, true, false, some, [], ◌∷◌, Bytes, replicate, take,
}
use freenet_migrate.Prelude.Result.{ok}
use freenet_migrate.Registry.{
  contract, Registry, Codecs, decode_hash32, decode_hex, contract_pairs, delegate_pairs, validate,
}
use freenet_migrate.Registry.Validation.{AllNew, AllHaveKeys, validate_iff}
use freenet_migrate.Registry.Guard.{
  predecessor_registered, passes, rows_of, Registers, check_migration_guard,
  check_migration_guard-passes,
}

-- A base58 text stands for itself, and a hash is the first 32 bytes.
abbrev codecs : Codecs
codecs = record { base58 = λ b. some b; blake3 = λ b. take 32 b }

-- 64 digits 1, and what they decode to.
abbrev ones : Bytes
ones = replicate 64 49

abbrev seventeens : Bytes
seventeens = replicate 32 17

-- 32 letters z.
abbrev zeds : Bytes
zeds = replicate 32 122

abbrev registry : Registry
registry = record {
  contracts =
      (record { generation = 1; code_hash = ones; note = [] })
      ∷ (record { generation = 2; code_hash = zeds; note = [] })
      ∷ [];
  delegates =
      (record {
        generation = 1;
        code_hash = ones;
        delegate_key = seventeens;
        params_hex = 48 ∷ 49 ∷ [];
        irregular_key = false;
        note = [];
      })
      ∷ [];
}

valid : validate codecs registry ≡ ok tt
unfolding validate decode_hash32
valid = refl

-- A plus sign stands where a digit should.
plus_sign : decode_hex (43 ∷ 102 ∷ []) ≡ ok (15 ∷ [])
unfolding decode_hex
plus_sign = refl

validate_iff_example : (validate codecs registry ≡ ok tt) ↔ (
    AllNew codecs [] [] (contract_pairs registry.contracts)
    × AllNew codecs [] [] (delegate_pairs registry.delegates)
    × AllHaveKeys codecs registry.delegates)
validate_iff_example = validate_iff codecs registry

decodes_ones : decode_hash32 codecs ones ≡ ok seventeens
unfolding decode_hash32
decodes_ones = refl

decodes_zeds : decode_hash32 codecs zeds ≡ ok zeds
unfolding decode_hash32
decodes_zeds = refl

guarded : check_migration_guard codecs contract ones zeds registry ≡ ok (predecessor_registered 1)
unfolding check_migration_guard decode_hash32
guarded = refl

check_migration_guard-passes_example :
    (passes (predecessor_registered 1) ≡ true)
    ↔ ((seventeens ≡ zeds) ⊎ Registers codecs (rows_of contract registry) seventeens)
check_migration_guard-passes_example =
    check_migration_guard-passes codecs contract ones zeds seventeens zeds registry
      (predecessor_registered 1) decodes_ones decodes_zeds guarded
