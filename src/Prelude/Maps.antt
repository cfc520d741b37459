-- ===== src/Prelude/Maps.antt =====
-- A `BTreeMap` on byte strings: its entries in the order of the keys.
use Prim.Native.Nat.{ℕ}
use mathlib.Core.Path.{◌≡◌, refl}
use mathlib.Core.Bool.{true, false}
use mathlib.Core.Option.{Option, none, some}
use mathlib.Core.List.{List, [], ◌∷◌, ◌++◌}
use native.Mathlib.Omega.{arith}
use freenet_migrate.Prelude.Tests.{if◌then◌else◌, list_beq, list_beq_iff, nat_eq, beq_refl, list_eq}
use freenet_migrate.Prelude.Lists.{All}
use freenet_migrate.Prelude.Words.{
  lex_ltb, lex_ltb_irrefl, lex_ltb_trans, lex_ltb_asymm, lex_ltb_total,
}

abbrev pub Map {ℓ} : Type ℓ → Type ℓ
Map V = List (List ℕ × V)

module _ {ℓ} {V : Type ℓ} where
  -- `BTreeMap::get`
  unfoldable pub get : List ℕ → Map V → Option V
  get k [] = none
  get k ((j, v) ∷ m) = if list_beq j k then some v else get k m

  -- `BTreeMap::insert`
  unfoldable pub insert : List ℕ → V → Map V → Map V
  insert k v [] = (k, v) ∷ []
  insert k v ((j, w) ∷ m) =
      if list_beq j k
      then (k, v) ∷ m
      else if lex_ltb k j
      then (k, v) ∷ (j, w) ∷ m
      else (j, w) ∷ insert k v m

  -- The keys rise strictly.
  abbrev pub IsSorted : Map V → Type 0
  IsSorted [] = Unit
  IsSorted ((k, _) ∷ m) = All (λ e. lex_ltb k e.0 ≡ true) m × IsSorted m

  pub get-insert : (k : List ℕ) (v : V) (m : Map V) → get k (insert k v m) ≡ some v
  unfolding get insert
  get-insert k v [] = ground (arith, beq_refl k)
  get-insert k v ((j, w) ∷ m) = ground (arith, beq_refl k, get-insert k v m)

  pub get-insert_other :
      (k j : List ℕ) (v : V) (m : Map V) → list_beq k j ≡ false → get j (insert k v m) ≡ get j m
  unfolding get insert
  get-insert_other k j v [] h = ground arith
  get-insert_other k j v ((i, w) ∷ m) h =
      ground
        (arith, get-insert_other k j v m h, list_beq_iff i k, list_beq_iff i j, list_beq_iff k j)

  insert-All :
      (i k : List ℕ) (v : V) (m : Map V)
      → lex_ltb i k ≡ true
      → All (λ e. lex_ltb i e.0 ≡ true) m
      → All (λ e. lex_ltb i e.0 ≡ true) (insert k v m)
  unfolding insert
  insert-All i k v [] h a = (h, tt)
  insert-All i k v ((j, w) ∷ m) h a = ground (arith, insert-All i k v m)

  All-above :
      (i k : List ℕ) (m : Map V)
      → lex_ltb i k ≡ true
      → All (λ e. lex_ltb k e.0 ≡ true) m
      → All (λ e. lex_ltb i e.0 ≡ true) m
  All-above i k [] h a = tt
  All-above i k (e ∷ m) h a = (lex_ltb_trans i k e.0 h a.0, All-above i k m h a.1)

  pub insert-IsSorted : (k : List ℕ) (v : V) (m : Map V) → IsSorted m → IsSorted (insert k v m)
  unfolding insert
  insert-IsSorted k v [] s = (tt, tt)
  insert-IsSorted k v ((j, w) ∷ m) s = ground (
    arith,
    insert-IsSorted k v m,
    insert-All j k v m,
    All-above k j m,
    list_beq_iff j k,
    beq_refl k,
    lex_ltb_total j k,
  )

  -- A key above every other goes to the end.
  pub insert_last :
      (k : List ℕ) (v : V) (m : Map V)
      → All (λ e. lex_ltb e.0 k ≡ true) m
      → (insert k v m ≡ m ++ (k, v) ∷ []) × (get k m ≡ none)
  unfolding insert get
  insert_last k v [] a = (refl, refl)
  insert_last k v ((j, w) ∷ m) a =
      ground (arith, insert_last k v m a.1, list_beq_iff j k, lex_ltb_irrefl k, lex_ltb_asymm j k)

  All_middle : (P : List ℕ × V → Type 0) (x : List ℕ × V) (m n : Map V) → All P (m ++ x ∷ n) → P x
  All_middle P x [] n a = a.0
  All_middle P x (e ∷ m) n a = All_middle P x m n a.1

  -- In a sorted map, everything before an entry has a smaller key.
  pub IsSorted-before :
      (k : List ℕ) (v : V) (m n : Map V)
      → IsSorted (m ++ (k, v) ∷ n)
      → All (λ e. lex_ltb e.0 k ≡ true) m
  IsSorted-before k v [] n s = tt
  IsSorted-before k v (e ∷ m) n s =
      (All_middle (λ x. lex_ltb e.0 x.0 ≡ true) (k, v) m n s.0, IsSorted-before k v m n s.1)
