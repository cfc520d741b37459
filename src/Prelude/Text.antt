-- ===== src/Prelude/Text.antt =====
-- Byte strings: literals, prefixes, and `u32` in decimal.
use Prim.Native.Nat.{ℕ, zero, suc, ◌+◌, ◌-◌, ◌*◌, ◌/◌, ◌%◌, ◌<◌, ◌≤◌, ◌^◌}
use Prim.Native.String.{String}
use Prim.Native.Char.{code}
use mathlib.Core.Path.{◌≡◌, refl}
use mathlib.Core.Logic.{◌≢◌, inl, inr}
use mathlib.Core.Bool.{Bool, true, false, ◌&&◌}
use mathlib.Core.Option.{Option, none, some}
use mathlib.Core.List.{List, [], ◌∷◌, ◌++◌}
use native.Mathlib.Omega.{arith}
use freenet_migrate.Prelude.Tests.{if◌then◌else◌, ltb, leb, nat_beq, Bool-cases}

-- The bytes of an ASCII literal.
abbrev pub bytes : String → List ℕ
bytes String.[] = []
bytes (String.◌∷◌ c s) = code c ∷ bytes s

-- `slice::starts_with`
abbrev pub starts_with : List ℕ → List ℕ → Bool
starts_with key [] = true
starts_with [] (p ∷ ps) = false
starts_with (k ∷ ks) (p ∷ ps) = nat_beq k p && starts_with ks ps

-- `slice::strip_prefix`
abbrev pub strip_prefix : List ℕ → List ℕ → Option (List ℕ)
strip_prefix key [] = some key
strip_prefix [] (p ∷ ps) = none
strip_prefix (k ∷ ks) (p ∷ ps) = if nat_beq k p then strip_prefix ks ps else none

abbrev decimal_max : ℕ
decimal_max = 4294967295

-- `u32::to_string`: at most ten digits.
digits_of : ℕ → ℕ → List ℕ
digits_of zero n = []
digits_of (suc rounds) n =
    let rest = digits_of rounds (n / 10) in
    if ltb n 10 then (48 + n) ∷ [] else rest ++ (48 + n % 10) ∷ []

unfoldable pub to_decimal : ℕ → List ℕ
unfolding digits_of
to_decimal n = digits_of 10 n

-- The digits of `str::parse::<u32>`: `none` at another character and on overflow.
parse_digits : ℕ → List ℕ → Option ℕ
parse_digits acc [] = some acc
parse_digits acc (c ∷ cs) =
    let rest = parse_digits (acc * 10 + (c - 48)) cs in
    if leb 48 c && leb c 57
    then if leb (acc * 10 + (c - 48)) decimal_max then rest else none
    else none

-- `str::parse::<u32>`, which reads over one plus sign
unfoldable pub parse_decimal : List ℕ → Option ℕ
unfolding parse_digits
parse_decimal [] = none
parse_decimal (c ∷ []) = if nat_beq c 43 then none else parse_digits 0 (c ∷ [])
parse_decimal (c ∷ d ∷ ds) =
    if nat_beq c 43 then parse_digits 0 (d ∷ ds) else parse_digits 0 (c ∷ d ∷ ds)

parse_digits-append :
    (xs ys : List ℕ) (acc m : ℕ)
    → parse_digits acc xs ≡ some m
    → parse_digits acc (xs ++ ys) ≡ parse_digits m ys
unfolding parse_digits
parse_digits-append [] ys acc m h = ground arith
parse_digits-append (x ∷ xs) ys acc m h =
    ground (arith, parse_digits-append xs ys (acc * 10 + (x - 48)) m)

ten_zero : 10 ^ 0 ≡ 1
ten_zero = omega arith

parse_digits-digits_of :
    (rounds n : ℕ)
    → n < 10 ^ rounds
    → n ≤ decimal_max
    → parse_digits 0 (digits_of rounds n) ≡ some n
unfolding digits_of parse_digits
parse_digits-digits_of zero n h k = ground (arith, ten_zero)
parse_digits-digits_of (suc rounds) n h k = ground (
  arith,
  parse_digits-digits_of rounds (n / 10),
  parse_digits-append (digits_of rounds (n / 10)) ((48 + n % 10) ∷ []) 0 (n / 10),
)

parse_decimal-digits :
    (xs : List ℕ) (n : ℕ) → xs ≢ [] → parse_digits 0 xs ≡ some n → parse_decimal xs ≡ some n
unfolding parse_decimal parse_digits
parse_decimal-digits [] n ne h = absurd (ne refl)
parse_decimal-digits (c ∷ []) n ne h = ground arith
parse_decimal-digits (c ∷ d ∷ ds) n ne h = ground arith

append-ne-nil : (xs : List ℕ) (c : ℕ) → xs ++ c ∷ [] ≢ []
append-ne-nil [] c h = cc
append-ne-nil (x ∷ xs) c h = cc

digits_of-ne-nil : (rounds n : ℕ) → digits_of (suc rounds) n ≢ []
unfolding digits_of
digits_of-ne-nil rounds n h = elim (Bool-cases (ltb n 10)) [
  | inl small ↦ ground arith
  | inr large ↦ ground (arith, append-ne-nil (digits_of rounds (n / 10)) (48 + n % 10))
]

-- A `u32` that is printed reads back.
pub parse_decimal-to_decimal : (n : ℕ) → n < 2 ^ 32 → parse_decimal (to_decimal n) ≡ some n
unfolding to_decimal
parse_decimal-to_decimal n h =
    parse_decimal-digits (digits_of 10 n) n (digits_of-ne-nil 9 n)
      (parse_digits-digits_of 10 n (omega arith) (omega arith))

pub strip_prefix-append : (p xs : List ℕ) → strip_prefix (p ++ xs) p ≡ some xs
strip_prefix-append [] xs = refl
strip_prefix-append (c ∷ p) xs = ground (arith, strip_prefix-append p xs)
