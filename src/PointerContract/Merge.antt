-- ===== src/PointerContract/Merge.antt =====
-- The algebra of `merge` of contracts/pointer-contract/src/lib.rs.
use freenet_migrate.Prelude.{
  ◌≤◌, ◌≡◌, refl, false, [], ◌∷◌, arith, Bytes, lex_ltb, lex_ltb_asymm, lex_ltb_trans,
  lex_ltb_total,
}
use freenet_migrate.PointerContract.{PointerRecord, encode, merge}
use freenet_migrate.PointerContract.Records.{IsTyped, encode-injective}

lex_leb_trans :
    (xs ys zs : Bytes) → lex_ltb ys xs ≡ false → lex_ltb zs ys ≡ false → lex_ltb zs xs ≡ false
unfolding lex_ltb
lex_leb_trans [] ys [] h k = refl
lex_leb_trans [] [] (z ∷ zs) h k = cc
lex_leb_trans [] (y ∷ ys) (z ∷ zs) h k = refl
lex_leb_trans (x ∷ xs) [] zs h k = cc
lex_leb_trans (x ∷ xs) (y ∷ ys) [] h k = cc
lex_leb_trans (x ∷ xs) (y ∷ ys) (z ∷ zs) h k = ground (arith, lex_leb_trans xs ys zs)

pub merge_idem : (a : PointerRecord) → merge a a ≡ a
unfolding merge
merge_idem a = ground arith

pub merge_comm : (a b : PointerRecord) → IsTyped a → IsTyped b → merge a b ≡ merge b a
unfolding merge
merge_comm a b t u = ground (
  arith,
  lex_ltb_asymm (encode a) (encode b),
  lex_ltb_total (encode a) (encode b),
  encode-injective a b t u,
)

pub merge_assoc : (a b c : PointerRecord) → merge (merge a b) c ≡ merge a (merge b c)
unfolding merge
merge_assoc a b c = ground (
  arith,
  lex_leb_trans (encode a) (encode b) (encode c),
  lex_ltb_trans (encode c) (encode b) (encode a),
)

pub merge-IsTyped : (a b : PointerRecord) → IsTyped a → IsTyped b → IsTyped (merge a b)
unfolding merge
merge-IsTyped a b t u = ground arith

-- Merging is idempotent, commutative and associative on records of the right field sizes, and never
-- lowers the version of either side.
pub merge-semilattice :
    (a b c : PointerRecord)
    → IsTyped a
    → IsTyped b
    → (merge a a ≡ a)
      × (merge a b ≡ merge b a)
      × (merge (merge a b) c ≡ merge a (merge b c))
      × (a.version ≤ (merge a b).version)
      × (b.version ≤ (merge a b).version)
merge-semilattice a b c t u = (
  merge_idem a,
  merge_comm a b t u,
  merge_assoc a b c,
  unfold merge in ground arith,
  unfold merge in ground arith,
)
