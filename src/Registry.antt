-- ===== src/Registry.antt =====
-- freenet-migrate-build/src/registry.rs: the registry of predecessors that a build script reads.
-- A string is its UTF-8 bytes. Base58 (`bs58`) and the hash (`blake3`) are parameters; an error's text
-- is kept as the value that it prints.
pub mod Validation
pub mod Guard
mod Examples
use freenet_migrate.Prelude.{
  ℕ, zero, suc, ◌+◌, ◌-◌, ◌*◌, ◌%◌, Bool, true, false, not, ◌&&◌, ◌||◌, Option, none, some, List,
  [], ◌∷◌, ◌++◌, Bytes, ltb, leb, nat_beq, nat_eq, list_beq, length, contains, is_some, list_eq,
  if◌then◌else◌, u32_max,
}
use freenet_migrate.Prelude.Result.{Result, ok, err, ◌>>=◌, ◌>>◌, map_err}

pub data Component : Type 0 where
  contract delegate : Component

pub record ContractRow : Type 0 where
  pub generation : ℕ
  pub code_hash : Bytes
  pub note : Bytes

pub record DelegateRow : Type 0 where
  pub generation : ℕ
  pub code_hash : Bytes
  pub delegate_key : Bytes
  pub params_hex : Bytes
  pub irregular_key : Bool
  pub note : Bytes

pub record Registry : Type 0 where
  pub contracts : List ContractRow
  pub delegates : List DelegateRow

pub data Reason : Type 0 where
  not_base58 non_ascii bad_digit : Reason
  base58_length odd_length : ℕ → Reason

-- What a mismatch expected: the stored key as a regular one, or the derived key.
pub data Expected : Type 0 where
  no_flag : Expected
  derived_key : Bytes → Expected

pub data SchemaFault : Type 0 where
  unexpected_key : Bytes → Bytes → SchemaFault
  missing_key mixed_versions : Bytes → SchemaFault

-- The variants that this file returns.
pub data BuildError : Type 0 where
  invalid_code_hash invalid_params : Bytes → Reason → BuildError
  duplicate_generation : Component → ℕ → BuildError
  duplicate_code_hash : Component → Bytes → BuildError
  delegate_key_mismatch : ℕ → Expected → Bytes → BuildError
  entry_schema : SchemaFault → BuildError

-- `bs58` into 32 bytes, where more bytes are an error, and `blake3`.
pub record Codecs : Type 0 where
  pub base58 : Bytes → Option Bytes
  pub blake3 : Bytes → Bytes

-- The value of a hexadecimal digit.
digit : ℕ → Option ℕ
digit b =
    if leb b'0' b && leb b b'9'
    then some (b - 48)
    else if leb b'a' b && leb b b'f'
    then some (b - 87)
    else if leb b'A' b && leb b b'F'
    then some (b - 55)
    else none

combine : Option ℕ → Option ℕ → Option ℕ
combine (some h) (some l) = some (h * 16 + l)
combine _ _ = none

-- `u8::from_str_radix(_, 16)` of two bytes: one leading plus sign is read over.
from_hex_pair : ℕ → ℕ → Option ℕ
unfolding digit combine
from_hex_pair a b = if nat_beq a b'+' then digit b else combine (digit a) (digit b)

cons_some : Option ℕ → Option Bytes → Option Bytes
cons_some (some b) (some bs) = some (b ∷ bs)
cons_some _ _ = none

-- Pairs of digits; a last single byte has no pair.
hex_pairs : Bytes → Option Bytes
unfolding from_hex_pair cons_some
hex_pairs [] = some []
hex_pairs (a ∷ []) = none
hex_pairs (a ∷ b ∷ bs) = cons_some (from_hex_pair a b) (hex_pairs bs)

all_hex : Bytes → Bool
unfolding digit
all_hex [] = true
all_hex (b ∷ bs) = is_some (digit b) && all_hex bs

all_ascii : Bytes → Bool
all_ascii [] = true
all_ascii (b ∷ bs) = ltb b 128 && all_ascii bs

module _ {E A : Type 0} where
  -- `ok_or`
  ok_or : Option A → E → Result E A
  ok_or none e = err e
  ok_or (some a) e = ok a

sized : Bytes → Bytes → Result BuildError Bytes
sized value out =
    if nat_beq (length out) 32
    then ok out
    else err (invalid_code_hash value (base58_length (length out)))

pub decode_hex : Bytes → Result Reason Bytes
unfolding all_ascii hex_pairs ok_or
decode_hex value =
    if not (all_ascii value)
    then err non_ascii
    else if not (nat_beq (length value % 2) 0)
    then err (odd_length (length value))
    else ok_or (hex_pairs value) bad_digit

abbrev pub contract_pairs : List ContractRow → List (ℕ × Bytes)
contract_pairs [] = []
contract_pairs (r ∷ rs) = (r.generation, r.code_hash) ∷ contract_pairs rs

abbrev pub delegate_pairs : List DelegateRow → List (ℕ × Bytes)
delegate_pairs [] = []
delegate_pairs (r ∷ rs) = (r.generation, r.code_hash) ∷ delegate_pairs rs

-- `is_ok_and(|b| b == *code_hash)`
abbrev decodes_to : Result BuildError Bytes → Bytes → Bool
decodes_to (ok b) hash = list_beq b hash
decodes_to (err e) hash = false

params_bytes : DelegateRow → Result BuildError Bytes
unfolding decode_hex
params_bytes row = map_err (invalid_params row.params_hex) (decode_hex row.params_hex)

-- The two `insert`s of `validate_unique`, on the generations and hashes seen so far.
check_new : Component → List ℕ → List Bytes → ℕ → Bytes → Bytes → Result BuildError (Unit {0})
check_new component gens hashes generation code_hash decoded =
    if contains gens generation
    then err (duplicate_generation component generation)
    else if contains hashes decoded
    then err (duplicate_code_hash component code_hash)
    else ok tt

-- The body of the loop over the delegate rows.
check_key : DelegateRow → Bytes → Bytes → Result BuildError (Unit {0})
check_key row derived delegate_key =
    let matches = list_beq derived delegate_key in
    if row.irregular_key && matches
    then err (delegate_key_mismatch row.generation no_flag row.delegate_key)
    else if not row.irregular_key && not matches
    then err (delegate_key_mismatch row.generation (derived_key derived) row.delegate_key)
    else ok tt

module _ (codecs : Codecs) where
  unfoldable pub decode_hash32 : Bytes → Result BuildError Bytes
  unfolding all_hex hex_pairs ok_or sized
  decode_hash32 value =
      if nat_beq (length value) 64 && all_hex value
      then ok_or (hex_pairs value) (invalid_code_hash value bad_digit)
      else do
        out ← ok_or (codecs.base58 value) (invalid_code_hash value not_base58)
        sized value out

  pub derive_delegate_key : Bytes → Bytes → Bytes
  derive_delegate_key code_hash params = codecs.blake3 (code_hash ++ params)

  -- The loop of `validate_unique`.
  unique_from : Component → List ℕ → List Bytes → List (ℕ × Bytes) → Result BuildError (Unit {0})
  unfolding decode_hash32 check_new
  unique_from component gens hashes [] = ok tt
  unique_from component gens hashes ((generation, code_hash) ∷ rest) = do
    decoded ← decode_hash32 code_hash
    new ← check_new component gens hashes generation code_hash decoded
    unique_from component (generation ∷ gens) (decoded ∷ hashes) rest

  pub validate_unique : Component → List (ℕ × Bytes) → Result BuildError (Unit {0})
  unfolding unique_from
  validate_unique component rows = unique_from component [] [] rows

  check_row : DelegateRow → Result BuildError (Unit {0})
  unfolding decode_hash32 params_bytes derive_delegate_key check_key
  check_row row = do
    code_hash ← decode_hash32 row.code_hash
    delegate_key ← decode_hash32 row.delegate_key
    params ← params_bytes row
    check_key row (derive_delegate_key code_hash params) delegate_key

  check_rows : List DelegateRow → Result BuildError (Unit {0})
  unfolding check_row
  check_rows [] = ok tt
  check_rows (row ∷ rows) = do checked ← check_row row; check_rows rows

  unfoldable pub validate : Registry → Result BuildError (Unit {0})
  unfolding validate_unique check_rows
  validate registry = do
    contracts ← validate_unique contract (contract_pairs registry.contracts)
    delegates ← validate_unique delegate (delegate_pairs registry.delegates)
    check_rows registry.delegates

  -- `find(…).map(|r| r.generation)`
  find_generation : List (ℕ × Bytes) → Bytes → Option ℕ
  unfolding decode_hash32
  find_generation [] hash = none
  find_generation ((generation, code_hash) ∷ rows) hash =
      let rest = find_generation rows hash in
      if decodes_to (decode_hash32 code_hash) hash then some generation else rest

  pub find_contract_code_hash_bytes : Registry → Bytes → Option ℕ
  unfolding find_generation
  find_contract_code_hash_bytes registry hash =
      find_generation (contract_pairs registry.contracts) hash

  pub find_delegate_code_hash_bytes : Registry → Bytes → Option ℕ
  unfolding find_generation
  find_delegate_code_hash_bytes registry hash =
      find_generation (delegate_pairs registry.delegates) hash
