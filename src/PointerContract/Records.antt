-- ===== src/PointerContract/Records.antt =====
-- The record of contracts/pointer-contract/src/lib.rs as bytes, and the message that is signed.
use freenet_migrate.Prelude.{
  ℕ, ◌^◌, ◌<◌, ◌≡◌, refl, sym, ap, ap₂, ◌∙◌, [], ◌∷◌, ◌++◌, arith, Bytes, IsBytes, length,
  length-append, length-take, length-drop, take, drop, take-append, drop-append, take-append-drop,
  to_be_bytes, from_be_bytes, from_be_bytes-to_be_bytes, from_be_bytes-lt,
  to_be_bytes-from_be_bytes, subst, ◌↔◌,
}
use freenet_migrate.Prelude.Result.{Result, ok}
use freenet_migrate.PointerContract.{PointerError, PointerRecord, decode, encode, signing_message}

-- What the types `u32`, `[u8; 32]` and `[u8; 64]` of the fields say.
pub record IsTyped (r : PointerRecord) : Type 0 where
  pub version_fits : r.version < 2 ^ 32
  pub hash_len : length r.code_hash ≡ 32
  pub signature_len : length r.signature ≡ 64

length-to_be_bytes : (v : ℕ) → length (to_be_bytes v) ≡ 4
unfolding to_be_bytes
length-to_be_bytes v = refl

pub length-encode : (r : PointerRecord) → IsTyped r → length (encode r) ≡ 100
unfolding encode
length-encode r t = omega (
  arith,
  length-append (to_be_bytes r.version) (r.code_hash ++ r.signature),
  length-append r.code_hash r.signature,
  length-to_be_bytes r.version,
  t.hash_len,
  t.signature_len,
)

-- The three parts of an encoded record.
encode_parts :
    (r : PointerRecord)
    → IsTyped r
    → (take 4 (encode r) ≡ to_be_bytes r.version)
      × (take 32 (drop 4 (encode r)) ≡ r.code_hash)
      × (drop 36 (encode r) ≡ r.signature)
unfolding encode to_be_bytes
encode_parts r t = (
  refl,
  take-append 32 r.code_hash r.signature t.hash_len,
  drop-append 32 r.code_hash r.signature t.hash_len,
)

-- What `decode` reads from bytes of the right length.
abbrev decoded : Bytes → PointerRecord
decoded bytes = record {
  version = from_be_bytes (take 4 bytes);
  code_hash = take 32 (drop 4 bytes);
  signature = drop 36 bytes;
}

decode-ok :
    (bytes : Bytes) (r : PointerRecord)
    → decode bytes ≡ ok r
    → (length bytes ≡ 100) × (decoded bytes ≡ r)
unfolding decode
decode-ok bytes r h = ground arith

decode_sized : (bytes : Bytes) → length bytes ≡ 100 → decode bytes ≡ ok (decoded bytes)
unfolding decode
decode_sized bytes h = ground arith

pub decode-encode : (r : PointerRecord) → IsTyped r → decode (encode r) ≡ ok r
decode-encode r t =
    let (v, h, s) = encode_parts r t in
    let version : from_be_bytes (take 4 (encode r)) ≡ r.version =
      ap from_be_bytes v ∙ from_be_bytes-to_be_bytes r.version t.version_fits in
    decode_sized (encode r) (length-encode r t)
    ∙ (λ i. ok (record { version = version i; code_hash = h i; signature = s i }))

encode-decoded :
    (bytes : Bytes) → length bytes ≡ 100 → IsBytes bytes → encode (decoded bytes) ≡ bytes
unfolding encode
encode-decoded [] e h = absurd (omega arith)
encode-decoded (a ∷ []) e h = absurd (omega arith)
encode-decoded (a ∷ b ∷ []) e h = absurd (omega arith)
encode-decoded (a ∷ b ∷ c ∷ []) e h = absurd (omega arith)
encode-decoded (a ∷ b ∷ c ∷ d ∷ rest) e h =
    ap₂ (λ xs ys. xs ++ ys)
      (to_be_bytes-from_be_bytes a b c d (h.0, (h.1.0, (h.1.1.0, (h.1.1.1.0, tt)))))
      (take-append-drop 32 rest)

pub decode-IsTyped :
    (bytes : Bytes) (r : PointerRecord) → IsBytes bytes → decode bytes ≡ ok r → IsTyped r
decode-IsTyped bytes r h d =
    let (size, same) = decode-ok bytes r d in subst IsTyped same (typed bytes size h)
  where
    typed : (bytes : Bytes) → length bytes ≡ 100 → IsBytes bytes → IsTyped (decoded bytes)
    typed [] e h = absurd (omega arith)
    typed (a ∷ []) e h = absurd (omega arith)
    typed (a ∷ b ∷ []) e h = absurd (omega arith)
    typed (a ∷ b ∷ c ∷ []) e h = absurd (omega arith)
    typed (a ∷ b ∷ c ∷ d ∷ rest) e h = record {
      version_fits = from_be_bytes-lt a b c d (h.0, (h.1.0, (h.1.1.0, (h.1.1.1.0, tt))));
      hash_len = omega (arith, length-take 32 rest);
      signature_len = omega (arith, length-drop 32 rest);
    }

-- Bytes decode to a record exactly if the record has the field sizes of its types and encodes to
-- those bytes: each is the inverse of the other.
pub decode-iff-encode :
    (bytes : Bytes) (r : PointerRecord)
    → IsBytes bytes
    → (decode bytes ≡ ok r) ↔ (IsTyped r × (encode r ≡ bytes))
decode-iff-encode bytes r h = (
  λ d.
      let (size, same) = decode-ok bytes r d in
      (
        decode-IsTyped bytes r h d,
        subst (λ x. encode x ≡ bytes) same (encode-decoded bytes size h),
      ),
  λ p. subst (λ x. decode x ≡ ok r) p.1 (decode-encode r p.0),
)

-- Two records of the right sizes with one encoding are one record.
pub encode-injective : (r s : PointerRecord) → IsTyped r → IsTyped s → encode r ≡ encode s → r ≡ s
encode-injective r s t u e =
    let both : ◌≡◌ {A = Result PointerError PointerRecord} (ok r) (ok s) =
      sym (decode-encode r t) ∙ ap decode e ∙ decode-encode s u in
    cc

append-cancel : (a b c d : Bytes) → length b ≡ length d → a ++ b ≡ c ++ d → (a ≡ c) × (b ≡ d)
append-cancel [] b [] d e h = (refl, h)
append-cancel [] b (x ∷ c) d e h = absurd (omega (arith, ap length h, length-append (x ∷ c) d))
append-cancel (x ∷ a) b [] d e h = absurd (omega (arith, ap length h, length-append (x ∷ a) b))
append-cancel (x ∷ a) b (y ∷ c) d e h =
    let (p, q) = append-cancel a b c d e (cc) in let z : x ≡ y = cc in (ap₂ (λ w ws. w ∷ ws) z p, q)

-- The signed message determines the parameters, the version and the code hash: a signature for one
-- application, version or hash is one over another message for any other, whatever the lengths of
-- the parameters.
pub signing_message-injective :
    (p q h k : Bytes) (v w : ℕ)
    → v < 2 ^ 32
    → w < 2 ^ 32
    → length h ≡ 32
    → length k ≡ 32
    → signing_message p v h ≡ signing_message q w k
    → (p ≡ q) × (v ≡ w) × (h ≡ k)
unfolding signing_message
signing_message-injective p q h k v w hv hw hh hk e =
    let e' : p ++ (to_be_bytes v ++ h) ≡ q ++ (to_be_bytes w ++ k) = ap (drop 24) e in
    let lv = length-to_be_bytes v in
    let lw = length-to_be_bytes w in
    let tails : length (to_be_bytes v ++ h) ≡ length (to_be_bytes w ++ k) =
      omega (arith, length-append (to_be_bytes v) h, length-append (to_be_bytes w) k) in
    let (same_p, f) = append-cancel p (to_be_bytes v ++ h) q (to_be_bytes w ++ k) tails e' in
    let (vw, same_h) = append-cancel (to_be_bytes v) h (to_be_bytes w) k (hh ∙ sym hk) f in
    (
      same_p,
      sym (from_be_bytes-to_be_bytes v hv) ∙ ap from_be_bytes vw ∙ from_be_bytes-to_be_bytes w hw,
      same_h,
    )
