-- ===== src/Successor/Binding.antt =====
-- What the signed message of freenet-migrate/src/successor.rs binds.
use freenet_migrate.Prelude.{
  ℕ, ◌+◌, ◌*◌, ◌^◌, ◌<◌, ◌≡◌, ◌≢◌, refl, sym, ap, ◌∙◌, [], ◌∷◌, ◌++◌, arith, Bytes, length, take,
  drop, take-append, drop-append,
}
use freenet_migrate.Successor.{to_le_bytes, signing_message}
use freenet_migrate.PointerContract

from_le : Bytes → ℕ
from_le (a ∷ b ∷ c ∷ d ∷ []) = a + b * 256 + c * 65536 + d * 16777216
from_le _ = 0

from_le-to_le_bytes : (v : ℕ) → v < 2 ^ 32 → from_le (to_le_bytes v) ≡ v
unfolding from_le to_le_bytes
from_le-to_le_bytes v h = omega arith

-- The signed message determines the code hash, the generation and the application.
pub signing_message-binds :
    (h k : Bytes) (v w : ℕ) (p q : Bytes)
    → length h ≡ 32
    → length k ≡ 32
    → v < 2 ^ 32
    → w < 2 ^ 32
    → signing_message h v p ≡ signing_message k w q
    → (h ≡ k) × (v ≡ w) × (p ≡ q)
unfolding signing_message
signing_message-binds h k v w p q hh hk hv hw e =
    let body : h ++ (to_le_bytes v ++ p) ≡ k ++ (to_le_bytes w ++ q) = ap (drop 28) e in
    let hashes : h ≡ k =
      sym (take-append 32 h (to_le_bytes v ++ p) hh)
      ∙ ap (take 32) body
      ∙ take-append 32 k (to_le_bytes w ++ q) hk in
    let rest : to_le_bytes v ++ p ≡ to_le_bytes w ++ q =
      sym (drop-append 32 h (to_le_bytes v ++ p) hh)
      ∙ ap (drop 32) body
      ∙ drop-append 32 k (to_le_bytes w ++ q) hk in
    let numbers : to_le_bytes v ≡ to_le_bytes w =
      sym (take-append 4 (to_le_bytes v) p (length-le v))
      ∙ ap (take 4) rest
      ∙ take-append 4 (to_le_bytes w) q (length-le w) in
    (
      hashes,
      sym (from_le-to_le_bytes v hv) ∙ ap from_le numbers ∙ from_le-to_le_bytes w hw,
      sym (drop-append 4 (to_le_bytes v) p (length-le v))
          ∙ ap (drop 4) rest
          ∙ drop-append 4 (to_le_bytes w) q (length-le w),
    )
  where
    length-le : (v : ℕ) → length (to_le_bytes v) ≡ 4
    length-le v = unfold to_le_bytes in refl

-- No message of a successor pointer is a message of the pointer contract, so that a signature for one
-- is never over the bytes of the other.
pub signing_message-disjoint :
    (h : Bytes) (v : ℕ) (app params : Bytes) (w : ℕ) (k : Bytes)
    → signing_message h v app ≢ PointerContract.signing_message params w k
unfolding signing_message PointerContract.signing_message
signing_message-disjoint h v app params w k e = absurd (omega (arith, ap (ninth) e))
  where
    ninth : Bytes → ℕ
    ninth (_ ∷ _ ∷ _ ∷ _ ∷ _ ∷ _ ∷ _ ∷ _ ∷ b ∷ _) = b
    ninth _ = 0
