-- ===== src/Successor/Acceptance.antt =====
-- When a pointer of freenet-migrate/src/successor.rs is followed.
use freenet_migrate.Prelude.{ℕ, ◌<◌, ◌≡◌, ◌≢◌, ◌↔◌, true, [], arith, Bytes, ltb, if◌then◌else◌}
use freenet_migrate.Prelude.Result.{ok, err}
use freenet_migrate.PointerContract.{Ed25519}
use freenet_migrate.Successor.{
  signing_message, stale_generation, SuccessorPointer, ReleaseSigner, SignsVerifiably, supersedes,
  verify, verify_and_check_supersedes, sign,
}

module _ (ed : Ed25519) where
  -- A pointer is accepted exactly if the application is not empty, the signature is one of the release
  -- key over the pointer's hash and generation and the application, and the pointer's generation is
  -- above the current one.
  pub verify_and_check_supersedes-accepts :
      (p : SuccessorPointer) (release_pk : ed.VerifyingKey) (app_id : Bytes) (current : ℕ)
      → (verify_and_check_supersedes ed p release_pk app_id current ≡ ok tt) ↔ (
          (app_id ≢ [])
          × (ed.verify_strict release_pk
                (signing_message p.successor_code_hash p.generation app_id)
                p.sig
              ≡ true)
          × (current < p.generation))
  unfolding verify_and_check_supersedes verify supersedes
  verify_and_check_supersedes-accepts p release_pk app_id current = ground arith

  -- What a release holder signs is accepted by everyone at an older generation and refused as stale by
  -- everyone else.
  pub sign-accepted :
      (signer : ReleaseSigner ed) (hash : Bytes) (generation : ℕ) (app_id : Bytes)
      (p : SuccessorPointer) (current : ℕ)
      → SignsVerifiably ed signer
      → sign ed signer hash generation app_id ≡ ok p
      → verify_and_check_supersedes ed p signer.public_key app_id current
        ≡ (if ltb current generation then ok tt else err (stale_generation generation current))
  unfolding sign verify_and_check_supersedes verify supersedes SignsVerifiably
  sign-accepted signer hash generation app_id p current v s =
      ground (arith, v (signing_message hash generation app_id))
