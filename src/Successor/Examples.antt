-- ===== src/Successor/Examples.antt =====
-- The theorems on freenet-migrate/src/successor.rs at concrete inputs.
use freenet_migrate.Prelude.{
  ℕ, ◌<◌, ◌≡◌, ◌≢◌, ◌↔◌, refl, true, false, none, [], ◌∷◌, arith, Bytes, replicate, list_beq,
  list_beq_iff, nat_eq, ltb, if◌then◌else◌,
}
use freenet_migrate.Prelude.Result.{ok, err}
use freenet_migrate.PointerContract.{Ed25519}
use freenet_migrate.Successor.{
  signing_message, stale_generation, SuccessorPointer, ReleaseSigner, SignsVerifiably,
  verify_and_check_supersedes, sign,
}
use freenet_migrate.Successor.Binding.{signing_message-binds}
use freenet_migrate.Successor.Acceptance.{verify_and_check_supersedes-accepts, sign-accepted}

-- One key; the signature of a message is the message.
abbrev ed : Ed25519
ed = record {
  VerifyingKey = Unit {0};
  from_bytes = λ b. none;
  as_bytes = λ vk. [];
  is_weak = λ vk. false;
  verify_strict = λ vk m s. list_beq m s;
}

abbrev signer : ReleaseSigner ed
signer = record { public_key = tt; sign_bytes = λ m. m }

signs : SignsVerifiably ed signer
unfolding SignsVerifiably
signs = λ m. (list_beq_iff m m).1 refl

abbrev hash : Bytes
hash = replicate 32 7

abbrev app : Bytes
app = 97 ∷ []

abbrev pointer : SuccessorPointer
pointer = record { successor_code_hash = hash; generation = 4; sig = signing_message hash 4 app }

signed : sign ed signer hash 4 app ≡ ok pointer
unfolding sign
signed = refl

signing_message-binds_example : (hash ≡ hash) × (◌≡◌ {A = ℕ} 4 4) × (app ≡ app)
signing_message-binds_example =
    signing_message-binds hash hash 4 4 app app refl refl (omega arith) (omega arith) refl

verify_and_check_supersedes-accepts_example :
    (verify_and_check_supersedes ed pointer tt app 3 ≡ ok tt) ↔ (
      (app ≢ [])
      × (ed.verify_strict tt (signing_message hash 4 app) (signing_message hash 4 app) ≡ true)
      × (3 < 4))
verify_and_check_supersedes-accepts_example =
    verify_and_check_supersedes-accepts ed pointer tt app 3

sign-accepted_example :
    verify_and_check_supersedes ed pointer tt app 4
    ≡ (if ltb 4 4 then ok tt else err (stale_generation 4 4))
sign-accepted_example = sign-accepted ed signer hash 4 app pointer 4 signs signed
