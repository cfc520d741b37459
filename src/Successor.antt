-- ===== src/Successor.antt =====
-- freenet-migrate/src/successor.rs: the signed pointer from one generation to its successor.
-- The Ed25519 implementation (`ed25519_dalek`) is a parameter, as for the pointer contract.
pub mod Binding
pub mod Acceptance
mod Examples
use freenet_migrate.Prelude.{
  ℕ, ◌/◌, ◌%◌, ◌≡◌, Bool, true, false, not, List, [], ◌∷◌, ◌++◌, Bytes, ltb, is_empty,
  if◌then◌else◌,
}
use freenet_migrate.Prelude.Result.{Result, ok, err, ◌>>=◌}
use freenet_migrate.PointerContract.{Ed25519}

-- b"freenet-migrate/successor-v1"
abbrev pub signing_domain : Bytes
signing_domain =
    102 ∷ 114 ∷ 101 ∷ 101 ∷ 110 ∷ 101 ∷ 116 ∷ 45 ∷ 109 ∷ 105 ∷ 103 ∷ 114 ∷ 97 ∷ 116 ∷ 101 ∷ 47 ∷ 115
    ∷ 117 ∷ 99 ∷ 99 ∷ 101 ∷ 115 ∷ 115 ∷ 111 ∷ 114 ∷ 45 ∷ 118 ∷ 49 ∷ []

-- `u32::to_le_bytes`
pub to_le_bytes : ℕ → Bytes
to_le_bytes v = v % 256 ∷ (v / 256) % 256 ∷ (v / 65536) % 256 ∷ v / 16777216 ∷ []

pub signing_message : Bytes → ℕ → Bytes → Bytes
unfolding to_le_bytes
signing_message successor_code_hash generation app_id =
    signing_domain ++ (successor_code_hash ++ (to_le_bytes generation ++ app_id))

-- The variants that this file returns.
pub data MigrateError : Type 0 where
  empty_app_id bad_signature : MigrateError
  stale_generation : ℕ → ℕ → MigrateError

pub record SuccessorPointer : Type 0 where
  pub successor_code_hash : Bytes  -- [u8; 32]
  pub generation : ℕ  -- u32
  pub sig : Bytes  -- [u8; 64]

pub supersedes : SuccessorPointer → ℕ → Bool
supersedes p current_generation = ltb current_generation p.generation

module _ (ed : Ed25519) where
  -- The key of a release holder: what it verifies under, and how it signs.
  pub record ReleaseSigner : Type 0 where
    pub public_key : ed.VerifyingKey
    pub sign_bytes : Bytes → Bytes

  -- What it signs verifies.
  pub SignsVerifiably : ReleaseSigner → Type 0
  SignsVerifiably signer =
      (m : Bytes) → ed.verify_strict signer.public_key m (signer.sign_bytes m) ≡ true

  pub verify : SuccessorPointer → ed.VerifyingKey → Bytes → Result MigrateError (Unit {0})
  unfolding signing_message
  verify p release_pk app_id =
      if is_empty app_id
      then err empty_app_id
      else if ed.verify_strict release_pk
          (signing_message p.successor_code_hash p.generation app_id) p.sig
      then ok tt
      else err bad_signature

  unfoldable pub verify_and_check_supersedes :
      SuccessorPointer → ed.VerifyingKey → Bytes → ℕ → Result MigrateError (Unit {0})
  unfolding verify supersedes
  verify_and_check_supersedes p release_pk app_id current_generation = do
    verified ← verify p release_pk app_id
    (if not (supersedes p current_generation)
        then err (stale_generation p.generation current_generation)
        else ok tt)

  unfoldable pub sign : ReleaseSigner → Bytes → ℕ → Bytes → Result MigrateError SuccessorPointer
  unfolding signing_message
  sign signer successor_code_hash generation app_id =
      if is_empty app_id
      then err empty_app_id
      else ok (record {
        successor_code_hash = successor_code_hash;
        generation = generation;
        sig = signer.sign_bytes (signing_message successor_code_hash generation app_id);
      })
