-- ===== src/Prelude/Words.antt =====
-- Bytes and `u32` as big-endian bytes, and the lexicographic order on byte strings.
use Prim.Native.Nat.{ℕ, ◌+◌, ◌*◌, ◌/◌, ◌%◌, ◌^◌, ◌<◌}
use mathlib.Core.Path.{◌≡◌, refl}
use mathlib.Core.Bool.{Bool, true, false}
use mathlib.Core.List.{List, [], ◌∷◌}
use native.Mathlib.Omega.{arith}
use freenet_migrate.Prelude.Tests.{ltb, if◌then◌else◌}
use freenet_migrate.Prelude.Lists.{All}

abbrev pub IsBytes : List ℕ → Type 0
IsBytes = All (λ b. b < 256)

-- `u32::to_be_bytes`
unfoldable pub to_be_bytes : ℕ → List ℕ
to_be_bytes v = v / 16777216 ∷ (v / 65536) % 256 ∷ (v / 256) % 256 ∷ v % 256 ∷ []

-- `u32::from_be_bytes`, of four bytes
unfoldable pub from_be_bytes : List ℕ → ℕ
from_be_bytes (a ∷ b ∷ c ∷ d ∷ []) = a * 16777216 + b * 65536 + c * 256 + d
from_be_bytes _ = 0

-- `<` on byte arrays and slices
unfoldable pub lex_ltb : List ℕ → List ℕ → Bool
lex_ltb _ [] = false
lex_ltb [] (y ∷ ys) = true
lex_ltb (x ∷ xs) (y ∷ ys) = if ltb x y then true else if ltb y x then false else lex_ltb xs ys

pub from_be_bytes-to_be_bytes : (v : ℕ) → v < 2 ^ 32 → from_be_bytes (to_be_bytes v) ≡ v
unfolding to_be_bytes from_be_bytes
from_be_bytes-to_be_bytes v h = omega arith

pub to_be_bytes-IsBytes : (v : ℕ) → v < 2 ^ 32 → IsBytes (to_be_bytes v)
unfolding to_be_bytes
to_be_bytes-IsBytes v h = omega arith

pub from_be_bytes-lt :
    (a b c d : ℕ) → IsBytes (a ∷ b ∷ c ∷ d ∷ []) → from_be_bytes (a ∷ b ∷ c ∷ d ∷ []) < 2 ^ 32
unfolding from_be_bytes
from_be_bytes-lt a b c d h = omega arith

pub to_be_bytes-from_be_bytes :
    (a b c d : ℕ)
    → IsBytes (a ∷ b ∷ c ∷ d ∷ [])
    → to_be_bytes (from_be_bytes (a ∷ b ∷ c ∷ d ∷ [])) ≡ a ∷ b ∷ c ∷ d ∷ []
unfolding to_be_bytes from_be_bytes
to_be_bytes-from_be_bytes a b c d h =
    let v = a * 16777216 + b * 65536 + c * 256 + d in
    let e0 : v / 16777216 ≡ a = omega arith in
    let e1 : (v / 65536) % 256 ≡ b = omega arith in
    let e2 : (v / 256) % 256 ≡ c = omega arith in
    let e3 : v % 256 ≡ d = omega arith in λ i. e0 i ∷ e1 i ∷ e2 i ∷ e3 i ∷ []

pub lex_ltb_irrefl : (xs : List ℕ) → lex_ltb xs xs ≡ false
unfolding lex_ltb
lex_ltb_irrefl [] = refl
lex_ltb_irrefl (x ∷ xs) = ground (arith, lex_ltb_irrefl xs)

pub lex_ltb_asymm : (xs ys : List ℕ) → lex_ltb xs ys ≡ true → lex_ltb ys xs ≡ false
unfolding lex_ltb
lex_ltb_asymm [] [] h = refl
lex_ltb_asymm [] (y ∷ ys) h = refl
lex_ltb_asymm (x ∷ xs) [] h = cc
lex_ltb_asymm (x ∷ xs) (y ∷ ys) h = ground (arith, lex_ltb_asymm xs ys)

pub lex_ltb_trans :
    (xs ys zs : List ℕ) → lex_ltb xs ys ≡ true → lex_ltb ys zs ≡ true → lex_ltb xs zs ≡ true
unfolding lex_ltb
lex_ltb_trans [] [] zs h k = cc
lex_ltb_trans [] (y ∷ ys) [] h k = cc
lex_ltb_trans [] (y ∷ ys) (z ∷ zs) h k = refl
lex_ltb_trans (x ∷ xs) [] zs h k = cc
lex_ltb_trans (x ∷ xs) (y ∷ ys) [] h k = cc
lex_ltb_trans (x ∷ xs) (y ∷ ys) (z ∷ zs) h k = ground (arith, lex_ltb_trans xs ys zs)

pub lex_ltb_total : (xs ys : List ℕ) → lex_ltb xs ys ≡ false → lex_ltb ys xs ≡ false → xs ≡ ys
unfolding lex_ltb
lex_ltb_total [] [] h k = refl
lex_ltb_total [] (y ∷ ys) h k = cc
lex_ltb_total (x ∷ xs) [] h k = cc
lex_ltb_total (x ∷ xs) (y ∷ ys) h k = ground (arith, lex_ltb_total xs ys)
