-- ===== src/PointerContract.antt =====
-- contracts/pointer-contract/src/lib.rs: the constants, the errors, the parameters and the record of
-- the canonical successor pointer.
-- The Ed25519 implementation (`ed25519_dalek`) is a parameter.
pub mod Field
pub mod Params
pub mod Records
pub mod Merge
pub mod Contract
use mathlib.Core.List.{reverse}
use freenet_migrate.Prelude.{
  ℕ, zero, suc, ◌+◌, ◌-◌, ◌%◌, Bool, true, false, not, ◌&&◌, ◌||◌, Option, none, some, List, [],
  ◌∷◌, ◌++◌, Bytes, ltb, leb, nat_beq, ◌==◌, nat_eq, list_eq, ◌≡◌, length, take, drop, replicate,
  is_empty, to_be_bytes, from_be_bytes, lex_ltb, u32_max, if◌then◌else◌,
}
use freenet_migrate.Prelude.Result.{Result, ok, err, ◌>>=◌, ◌>>◌}

-- b"freenet-pointer/state-v1"
abbrev pub signing_domain : Bytes
signing_domain =
    102 ∷ 114 ∷ 101 ∷ 101 ∷ 110 ∷ 101 ∷ 116 ∷ 45 ∷ 112 ∷ 111 ∷ 105 ∷ 110 ∷ 116 ∷ 101 ∷ 114 ∷ 47
    ∷ 115 ∷ 116 ∷ 97 ∷ 116 ∷ 101 ∷ 45 ∷ 118 ∷ 49 ∷ []

abbrev pub verifying_key_len : ℕ
verifying_key_len = 32

abbrev pub code_hash_len : ℕ
code_hash_len = 32

abbrev pub signature_len : ℕ
signature_len = 64

abbrev pub state_len : ℕ
state_len = 4 + code_hash_len + signature_len

abbrev pub max_version : ℕ
max_version = u32_max - 1

abbrev pub tombstone_code_hash : Bytes
tombstone_code_hash = replicate code_hash_len 0

abbrev pub max_app_id_len : ℕ
max_app_id_len = 64

abbrev pub min_params_len : ℕ
min_params_len = verifying_key_len + 1

abbrev pub max_params_len : ℕ
max_params_len = verifying_key_len + max_app_id_len

unfoldable pub is_valid_app_id_byte : ℕ → Bool
is_valid_app_id_byte b =
    (leb b'a' b && leb b b'z')
    || (leb b'0' b && leb b b'9')
    || nat_beq b b'.'
    || nat_beq b b'-'
    || nat_beq b b'_'

-- The field prime 2^255 - 19, little-endian.
abbrev pub field_prime : Bytes
field_prime = 237 ∷ (replicate 30 255 ++ 127 ∷ [])

-- `y[31] &= 0x7f`
abbrev mask_top : ℕ → Bytes → Bytes
mask_top _ [] = []
mask_top zero (b ∷ bs) = b % 128 ∷ bs
mask_top (suc i) (b ∷ bs) = b ∷ mask_top i bs

-- The `while` loop from the last byte down to the first: both lists are reversed.
unfoldable pub below_from_top : Bytes → Bytes → Bool
below_from_top (y ∷ ys) (p ∷ ps) =
    let rest = below_from_top ys ps in if ltb y p then true else if ltb p y then false else rest
below_from_top _ _ = false

unfoldable pub is_canonical_field_element : Bytes → Bool
unfolding below_from_top
is_canonical_field_element bytes =
    below_from_top (reverse (mask_top 31 bytes)) (reverse field_prime)

pub data PointerError : Type 0 where
  params_length : ℕ → PointerError
  params_key params_key_non_canonical params_key_weak : PointerError
  params_app_id : ℕ → PointerError
  state_length : ℕ → PointerError
  zero_version signature_unset bad_signature reserved_version : PointerError

-- `ed25519_dalek`, as far as it is called.
pub record Ed25519 : Type 1 where
  pub VerifyingKey : Type 0
  pub from_bytes : Bytes → Option VerifyingKey
  pub as_bytes : VerifyingKey → Bytes
  pub is_weak : VerifyingKey → Bool
  pub verify_strict : VerifyingKey → Bytes → Bytes → Bool

-- A key keeps the 32 bytes that it was read from, and those bytes give it back.
pub record KeepsKeyBytes (ed : Ed25519) : Type 0 where
  pub length_as_bytes : (vk : ed.VerifyingKey) → length (ed.as_bytes vk) ≡ 32
  pub from_as : (vk : ed.VerifyingKey) → ed.from_bytes (ed.as_bytes vk) ≡ some vk
  pub as_from : (b : Bytes) (vk : ed.VerifyingKey) → ed.from_bytes b ≡ some vk → ed.as_bytes vk ≡ b

-- `app_id.iter().find(|b| !is_valid_app_id_byte(**b))`
unfoldable pub find_invalid : Bytes → Option ℕ
find_invalid [] = none
find_invalid (b ∷ bs) = if not (is_valid_app_id_byte b) then some b else find_invalid bs

abbrev pub check_app_id : Option ℕ → Result PointerError (Unit {0})
check_app_id none = ok tt
check_app_id (some bad) = err (params_app_id bad)

abbrev pub guard : Bool → PointerError → Result PointerError (Unit {0})
guard true e = ok tt
guard false e = err e

module _ (ed : Ed25519) where
  pub record PointerParams : Type 0 where
    pub author_vk : ed.VerifyingKey
    pub app_id : Bytes

  abbrev read_key : Bytes → Result PointerError ed.VerifyingKey
  read_key key = elim (ed.from_bytes key) [ none ↦ err params_key | some vk ↦ ok vk ]

  unfoldable pub parse : Bytes → Result PointerError PointerParams
  parse bytes = do
    guard (leb min_params_len (length bytes) && leb (length bytes) max_params_len)
        (params_length (length bytes))
    let key = take verifying_key_len bytes
    let app_id = drop verifying_key_len bytes
    guard (is_canonical_field_element key) params_key_non_canonical
    author_vk ← read_key key
    guard (not (ed.is_weak author_vk)) params_key_weak
    check_app_id (find_invalid app_id)
    ok (record { author_vk = author_vk; app_id = app_id })

  unfoldable pub encode_params : ed.VerifyingKey → Bytes → Result PointerError Bytes
  encode_params author_vk app_id = do
    guard (not (is_empty app_id || ltb max_app_id_len (length app_id)))
        (params_length (verifying_key_len + length app_id))
    check_app_id (find_invalid app_id)
    guard (is_canonical_field_element (ed.as_bytes author_vk)) params_key_non_canonical
    guard (not (ed.is_weak author_vk)) params_key_weak
    ok (ed.as_bytes author_vk ++ app_id)

pub record PointerRecord : Type 0 where
  pub version : ℕ  -- u32
  pub code_hash : Bytes  -- [u8; 32]
  pub signature : Bytes  -- [u8; 64]

unfoldable pub signing_message : Bytes → ℕ → Bytes → Bytes
signing_message params version code_hash =
    signing_domain ++ (params ++ (to_be_bytes version ++ code_hash))

unfoldable pub decode : Bytes → Result PointerError PointerRecord
decode bytes = do
  guard (nat_beq (length bytes) state_len) (state_length (length bytes))
  ok (record {
    version = from_be_bytes (take 4 bytes);
    code_hash = take code_hash_len (drop 4 bytes);
    signature = drop (4 + code_hash_len) bytes;
  })

unfoldable pub encode : PointerRecord → Bytes
encode r = to_be_bytes r.version ++ (r.code_hash ++ r.signature)

unfoldable pub is_tombstone : PointerRecord → Bool
is_tombstone r = r.code_hash == tombstone_code_hash

module _ (ed : Ed25519) where
  unfoldable pub verify : PointerRecord → Bytes → ed.VerifyingKey → Result PointerError (Unit {0})
  verify r params author_vk = do
    guard (not (nat_beq r.version 0)) zero_version
    guard (not (ltb max_version r.version)) reserved_version
    guard (not (r.signature == replicate signature_len 0)) signature_unset
    guard (ed.verify_strict author_vk (signing_message params r.version r.code_hash) r.signature)
        bad_signature

  unfoldable pub decode_verified : Bytes → Bytes → Result PointerError PointerRecord
  unfolding parse decode verify
  decode_verified bytes params = do
    parsed ← parse ed params
    r ← decode bytes
    verify r params parsed.author_vk
    ok r

-- `merge`: the higher version, and of two records of one version the smaller encoding.
unfoldable pub merge : PointerRecord → PointerRecord → PointerRecord
merge current candidate =
    if ltb current.version candidate.version
    then candidate
    else if ltb candidate.version current.version
    then current
    else if lex_ltb (encode candidate) (encode current)
    then candidate
    else current
