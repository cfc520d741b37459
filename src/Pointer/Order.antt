-- ===== src/Pointer/Order.antt =====
-- The floor of freenet-migrate/src/pointer.rs against the merge of the pointer contract.
use freenet_migrate.Prelude.{
  ℕ, ◌≤◌, ◌<◌, ◌≡◌, refl, sym, ap, ◌∙◌, subst, true, Option, none, some, List, [], ◌∷◌, ◌++◌, arith,
  Bytes, All, list_beq_iff, nat_eq, length, lex_ltb, lex_ltb_asymm, lex_ltb_total, to_be_bytes,
}
use freenet_migrate.PointerContract.{
  PointerRecord, encode, merge, is_tombstone, tombstone_code_hash, max_version,
}
use freenet_migrate.PointerContract.Records.{IsTyped}
use freenet_migrate.PointerContract.Merge.{merge-IsTyped}
use freenet_migrate.Pointer.{
  PointerFloor, stale, competing_record, floor_at, withdrawn_at, next_floor, adopt, unchanged_by,
  order_hashes, order_from, order,
}

-- The floor that a record stands for.
abbrev pub floor_of : PointerRecord → PointerFloor
floor_of r = record { version = r.version; code_hash = some r.code_hash }

-- The floor to keep after an outcome: the next one if there is one, or the old one.
abbrev pub kept_floor : PointerFloor → Option PointerFloor → PointerFloor
kept_floor floor none = floor
kept_floor floor (some next) = next

lex_ltb-append_same : (p a b : Bytes) → lex_ltb (p ++ a) (p ++ b) ≡ lex_ltb a b
unfolding lex_ltb
lex_ltb-append_same [] a b = refl
lex_ltb-append_same (x ∷ p) a b = ground (arith, lex_ltb-append_same p a b)

lex_ltb-append_lt :
    (h k s t : Bytes) → length h ≡ length k → lex_ltb h k ≡ true → lex_ltb (h ++ s) (k ++ t) ≡ true
unfolding lex_ltb
lex_ltb-append_lt [] [] s t e l = cc
lex_ltb-append_lt [] (y ∷ k) s t e l = absurd (omega arith)
lex_ltb-append_lt (x ∷ h) [] s t e l = absurd (omega arith)
lex_ltb-append_lt (x ∷ h) (y ∷ k) s t e l = ground (arith, lex_ltb-append_lt h k s t)

-- At one version the smaller hash has the smaller encoding.
encode_lt :
    (a b : PointerRecord)
    → IsTyped a
    → IsTyped b
    → a.version ≡ b.version
    → lex_ltb a.code_hash b.code_hash ≡ true
    → lex_ltb (encode a) (encode b) ≡ true
unfolding encode
encode_lt a b t u v h =
    ap
      (λ n.
        lex_ltb (to_be_bytes n ++ (a.code_hash ++ a.signature))
          (to_be_bytes b.version ++ (b.code_hash ++ b.signature)))
      v
    ∙ lex_ltb-append_same (to_be_bytes b.version) (a.code_hash ++ a.signature)
        (b.code_hash ++ b.signature)
    ∙ lex_ltb-append_lt a.code_hash b.code_hash a.signature b.signature
        (t.hash_len ∙ sym u.hash_len) h

-- A published version.
abbrev pub IsPublished : PointerRecord → Type 0
IsPublished r = (0 < r.version) × (r.version ≤ max_version)

next_floor-adopt : (r : PointerRecord) → IsPublished r → next_floor (adopt r) ≡ some (floor_of r)
unfolding next_floor adopt is_tombstone floor_at withdrawn_at
next_floor-adopt r p = ground (arith, list_beq_iff r.code_hash tombstone_code_hash)

next_floor-unchanged_by :
    (r : PointerRecord) → IsPublished r → next_floor (unchanged_by r) ≡ some (floor_of r)
unfolding next_floor unchanged_by is_tombstone floor_at withdrawn_at
next_floor-unchanged_by r p = ground (arith, list_beq_iff r.code_hash tombstone_code_hash)

next_floor-stale : (a b : ℕ) → next_floor (stale a b) ≡ none
unfolding next_floor
next_floor-stale a b = refl

next_floor-competing : (v : ℕ) → next_floor (competing_record v) ≡ none
unfolding next_floor
next_floor-competing v = refl

-- Under the floor of one record, another record of a published version leaves the floor of the two
-- records' merge: the client follows the rule by which the contract's peers converge. Both records
-- have the field sizes of their types.
pub order-follows-merge :
    (old r : PointerRecord)
    → IsTyped old
    → IsTyped r
    → IsPublished r
    → kept_floor (floor_of old) (next_floor (order (floor_of old) r)) ≡ floor_of (merge old r)
unfolding order order_from order_hashes merge
order-follows-merge old r t u p = ground (
  arith,
  next_floor-stale r.version old.version,
  next_floor-competing r.version,
  next_floor-adopt r p,
  next_floor-unchanged_by r p,
  encode_lt old r t u,
  encode_lt r old u t,
  lex_ltb_asymm (encode old) (encode r),
  lex_ltb_total old.code_hash r.code_hash,
)

-- The floor after a sequence of served records, and the merge of them all.
pub floors : PointerFloor → List PointerRecord → PointerFloor
floors floor [] = floor
floors floor (r ∷ rs) = floors (kept_floor floor (next_floor (order floor r))) rs

pub merged : PointerRecord → List PointerRecord → PointerRecord
merged r [] = r
merged r (s ∷ rs) = merged (merge r s) rs

merge-le : (a b : PointerRecord) → a.version ≤ (merge a b).version
unfolding merge
merge-le a b = ground arith

merged-le : (a : PointerRecord) (rs : List PointerRecord) → a.version ≤ (merged a rs).version
unfolding merged
merged-le a [] = omega arith
merged-le a (r ∷ rs) = omega (arith, merge-le a r, merged-le (merge a r) rs)

floors-eq_merged :
    (old : PointerRecord) (rs : List PointerRecord)
    → IsTyped old
    → All (λ r. IsTyped r × IsPublished r) rs
    → floors (floor_of old) rs ≡ floor_of (merged old rs)
unfolding floors merged
floors-eq_merged old [] t h = refl
floors-eq_merged old (r ∷ rs) t h =
    ap (λ f. floors f rs) (order-follows-merge old r t h.0.0 h.0.1)
    ∙ floors-eq_merged (merge old r) rs (merge-IsTyped old r t h.0.0) h.1

-- However many records are served, in whatever order, the floor ends as that of the merge of all of
-- them into the record it started from, and its version never sinks below where it started. The
-- records have the field sizes of their types and published versions.
pub floors-follow_merge :
    (old : PointerRecord) (rs : List PointerRecord)
    → IsTyped old
    → All (λ r. IsTyped r × IsPublished r) rs
    → (floors (floor_of old) rs ≡ floor_of (merged old rs))
      × (old.version ≤ (floors (floor_of old) rs).version)
floors-follow_merge old rs t h =
    let same = floors-eq_merged old rs t h in
    (same, subst (λ f. old.version ≤ f.version) (sym same) (merged-le old rs))
