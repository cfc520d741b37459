-- ===== src/PointerContract/Field.antt =====
-- `is_canonical_field_element` of contracts/pointer-contract/src/lib.rs against the number that the
-- bytes stand for.
use mathlib.Core.List.{reverse, reverse-cons}
use native.Mathlib.Nat.{pow-suc, mod-lt, mod-eq_of_lt, div-add-mod, add-mul-mod_self_left}
use freenet_migrate.Prelude.{
  ℕ, zero, suc, ◌+◌, ◌-◌, ◌*◌, ◌/◌, ◌%◌, ◌^◌, ◌<◌, ◌≤◌, ◌≡◌, refl, sym, ap, ap₂, ◌∙◌, subst, ◌⊎◌,
  inl, inr, ◌↔◌, true, false, [], ◌∷◌, ◌++◌, arith, Bytes, IsBytes, length, length-append, ltb,
  ltb_iff, if◌then◌else◌,
}
use freenet_migrate.PointerContract.{
  field_prime, mask_top, below_from_top, is_canonical_field_element,
}

-- The number that little-endian bytes stand for, and the same for big-endian bytes.
pub le_value : Bytes → ℕ
le_value [] = 0
le_value (b ∷ bs) = b + 256 * le_value bs

be_value : Bytes → ℕ
be_value [] = 0
be_value (b ∷ bs) = b * 256 ^ length bs + be_value bs

be_value-snoc : (bs : Bytes) (b : ℕ) → be_value (bs ++ b ∷ []) ≡ 256 * be_value bs + b
unfolding be_value
be_value-snoc [] b = omega arith
be_value-snoc (a ∷ bs) b =
    let e : length (bs ++ b ∷ []) ≡ suc (length bs) = omega (arith, length-append bs (b ∷ [])) in
    rw (e, pow-suc) (omega (arith, be_value-snoc bs b))

-- A digit before a number of fewer digits.
digit_lt : (b p v : ℕ) → b < 256 → v < p → b * p + v < p * 256
digit_lt b p v h k = let m : b * p ≤ 255 * p = grind arith in omega arith

lt_cases : (x y : ℕ) → (x < y) ⊎ ((y < x) ⊎ (x ≡ y))
lt_cases x y = ground arith

be_value-lt : (bs : Bytes) → IsBytes bs → be_value bs < 256 ^ length bs
unfolding be_value
be_value-lt [] h = omega arith
be_value-lt (b ∷ bs) h =
    rw pow-suc (digit_lt b (256 ^ length bs) (be_value bs) h.0 (be_value-lt bs h.1))

-- Bytes of one length compare as their numbers do.
digit_ltb :
    (x y p u v : ℕ)
    → u < p
    → v < p
    → ltb (x * p + u) (y * p + v) ≡ (if ltb x y then true else if ltb y x then false else ltb u v)
digit_ltb x y p u v h k = elim (lt_cases x y) [
  | inl a ↦ let m : x * p + p ≤ y * p = grind arith in ground arith
  | inr (inl a) ↦ let m : y * p + p ≤ x * p = grind arith in ground arith
  | inr (inr a) ↦ rw a (ground arith)
]

below_from_top-eq-ltb :
    (ys ps : Bytes)
    → length ys ≡ length ps
    → IsBytes ys
    → IsBytes ps
    → below_from_top ys ps ≡ ltb (be_value ys) (be_value ps)
unfolding below_from_top be_value
below_from_top-eq-ltb [] [] e h k = refl
below_from_top-eq-ltb [] (p ∷ ps) e h k = absurd (omega arith)
below_from_top-eq-ltb (y ∷ ys) [] e h k = absurd (omega arith)
below_from_top-eq-ltb (y ∷ ys) (p ∷ ps) e h k =
    let same : length ys ≡ length ps = omega arith in
    rw (below_from_top-eq-ltb ys ps same h.1 k.1) (
      rw same (
        sym (
          digit_ltb y p (256 ^ length ps) (be_value ys) (be_value ps)
            (subst (λ n. be_value ys < 256 ^ n) same (be_value-lt ys h.1)) (be_value-lt ps k.1))))

be_value-reverse : (bs : Bytes) → be_value (reverse bs) ≡ le_value bs
unfolding le_value
be_value-reverse [] = unfold be_value in refl
be_value-reverse (b ∷ bs) = rw reverse-cons (rw be_value-snoc (omega (arith, be_value-reverse bs)))

length-reverse : (bs : Bytes) → length (reverse bs) ≡ length bs
length-reverse [] = refl
length-reverse (b ∷ bs) =
    rw reverse-cons (omega (arith, length-append (reverse bs) (b ∷ []), length-reverse bs))

IsBytes-snoc : (bs : Bytes) (b : ℕ) → IsBytes bs → b < 256 → IsBytes (bs ++ b ∷ [])
IsBytes-snoc [] b h k = (k, tt)
IsBytes-snoc (a ∷ bs) b h k = (h.0, IsBytes-snoc bs b h.1 k)

reverse-IsBytes : (bs : Bytes) → IsBytes bs → IsBytes (reverse bs)
reverse-IsBytes [] h = tt
reverse-IsBytes (b ∷ bs) h =
    rw reverse-cons (IsBytes-snoc (reverse bs) b (reverse-IsBytes bs h.1) h.0)

mask_top-IsBytes : (i : ℕ) (bs : Bytes) → IsBytes bs → IsBytes (mask_top i bs)
mask_top-IsBytes i [] h = tt
mask_top-IsBytes zero (b ∷ bs) h = (omega arith, h.1)
mask_top-IsBytes (suc i) (b ∷ bs) h = (h.0, mask_top-IsBytes i bs h.1)

length-mask_top : (i : ℕ) (bs : Bytes) → length (mask_top i bs) ≡ length bs
length-mask_top i [] = refl
length-mask_top zero (b ∷ bs) = refl
length-mask_top (suc i) (b ∷ bs) = ap suc (length-mask_top i bs)

-- A low digit passes through a remainder.
digit_mod : (b n m : ℕ) → b < 256 → 0 < m → b + 256 * (n % m) ≡ (b + 256 * n) % (256 * m)
digit_mod b n m h k =
    let small : n % m < m = mod-lt n k in
    let split : b + 256 * n ≡ (b + 256 * (n % m)) + (256 * m) * (n / m) =
      omega (arith, div-add-mod n m) in
    rw (split, add-mul-mod_self_left (b + 256 * (n % m)) (256 * m) (n / m))
      (sym (mod-eq_of_lt (omega arith)))

pow_pos : (i : ℕ) → 0 < 256 ^ i
pow_pos zero = omega arith
pow_pos (suc i) = rw pow-suc (omega (arith, pow_pos i))

-- Clearing the top bit takes the number modulo 2^255.
le_value-mask_top :
    (i : ℕ) (bs : Bytes)
    → length bs ≡ suc i
    → IsBytes bs
    → le_value (mask_top i bs) ≡ le_value bs % (128 * 256 ^ i)
unfolding le_value
le_value-mask_top i [] e h = absurd (omega arith)
le_value-mask_top zero (b ∷ []) e h = omega arith
le_value-mask_top zero (b ∷ c ∷ bs) e h = absurd (omega arith)
le_value-mask_top (suc i) (b ∷ bs) e h =
    let whole : 128 * 256 ^ suc i ≡ 256 * (128 * 256 ^ i) = rw pow-suc (omega arith) in
    rw (whole, le_value-mask_top i bs (omega arith) h.1)
      (digit_mod b (le_value bs) (128 * 256 ^ i) h.0 (omega (arith, pow_pos i)))

-- A key of 32 bytes passes the test exactly if the number that its bytes stand for, little-endian
-- and without the sign bit, is below the field prime 2^255 - 19.
pub is_canonical_field_element-exact :
    (key : Bytes)
    → length key ≡ 32
    → IsBytes key
    → (is_canonical_field_element key ≡ true) ↔ (le_value key % 2 ^ 255 < 2 ^ 255 - 19)
unfolding is_canonical_field_element le_value
is_canonical_field_element-exact key e h =
    let masked = mask_top 31 key in
    let test : is_canonical_field_element key ≡ ltb (le_value masked) (le_value field_prime) =
      below_from_top-eq-ltb (reverse masked) (reverse field_prime)
        (length-reverse masked ∙ length-mask_top 31 key ∙ e)
        (reverse-IsBytes masked (mask_top-IsBytes 31 key h))
        (reverse-IsBytes field_prime (omega arith))
      ∙ ap₂ ltb (be_value-reverse masked) (be_value-reverse field_prime) in
    let prime : le_value field_prime ≡ 2 ^ 255 - 19 = refl in
    rw (test, le_value-mask_top 31 key e h, prime) (ltb_iff _ _)
