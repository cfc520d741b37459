-- ===== src/Driver/Ordering.antt =====
-- `NewestFirst` of freenet-migrate/src/driver.rs: the order in which predecessors are probed.
use freenet_migrate.Prelude.{
  ℕ, ◌≤◌, ◌≡◌, refl, ap, ◌∙◌, suc, length, length-map, List, [], ◌∷◌, map, arith, leb, nat_beq, All,
  Bytes, if◌then◌else◌,
}
use freenet_migrate.Lineage.{ContractLineageEntry}

module _ {A : Type 0} where
  -- One insertion of the stable `sort_by_key(Reverse(generation))`: `x` stood before `xs`.
  insert_newest : ℕ × A → List (ℕ × A) → List (ℕ × A)
  insert_newest x [] = x ∷ []
  insert_newest x (y ∷ ys) = if leb y.0 x.0 then x ∷ y ∷ ys else y ∷ insert_newest x ys

  unfoldable pub sort_newest : List (ℕ × A) → List (ℕ × A)
  unfolding insert_newest
  sort_newest [] = []
  sort_newest (x ∷ xs) = insert_newest x (sort_newest xs)

module _ {ContractId : Type 0} (contract_id : Bytes → Bytes → ContractId) where
  pub with_generations : Bytes → List ContractLineageEntry → List (ℕ × ContractId)
  with_generations params [] = []
  with_generations params (e ∷ es) =
      (e.generation, contract_id e.code_hash params) ∷ with_generations params es

  unfoldable pub from_lineage : Bytes → List ContractLineageEntry → List ContractId
  unfolding sort_newest with_generations
  from_lineage params lineage = map (λ p. p.1) (sort_newest (with_generations params lineage))

module _ {A : Type 0} where
  -- Each entry is followed only by entries that are no newer.
  abbrev pub IsNewestFirst : List (ℕ × A) → Type 0
  IsNewestFirst [] = Unit
  IsNewestFirst (x ∷ xs) = All (λ y. y.0 ≤ x.0) xs × IsNewestFirst xs

  -- The entries of one generation, in their order.
  abbrev pub of_generation : ℕ → List (ℕ × A) → List A
  of_generation g [] = []
  of_generation g (x ∷ xs) = if nat_beq x.0 g then x.1 ∷ of_generation g xs else of_generation g xs

  All-le_trans :
      (n m : ℕ) (xs : List (ℕ × A)) → n ≤ m → All (λ y. y.0 ≤ n) xs → All (λ y. y.0 ≤ m) xs
  All-le_trans n m [] h a = tt
  All-le_trans n m (x ∷ xs) h a = (omega arith, All-le_trans n m xs h a.1)

  insert_newest-All :
      (n : ℕ) (x : ℕ × A) (xs : List (ℕ × A))
      → x.0 ≤ n
      → All (λ y. y.0 ≤ n) xs
      → All (λ y. y.0 ≤ n) (insert_newest x xs)
  unfolding insert_newest
  insert_newest-All n x [] h a = (h, tt)
  insert_newest-All n x (y ∷ ys) h a = ground (arith, insert_newest-All n x ys)

  insert_newest-IsNewestFirst :
      (x : ℕ × A) (xs : List (ℕ × A)) → IsNewestFirst xs → IsNewestFirst (insert_newest x xs)
  unfolding insert_newest
  insert_newest-IsNewestFirst x [] s = (tt, tt)
  insert_newest-IsNewestFirst x (y ∷ ys) s =
      ground (
        arith,
        insert_newest-IsNewestFirst x ys,
        insert_newest-All y.0 x ys,
        All-le_trans y.0 x.0 ys,
      )

  insert_newest-of_generation :
      (g : ℕ) (x : ℕ × A) (xs : List (ℕ × A))
      → of_generation g (insert_newest x xs) ≡ of_generation g (x ∷ xs)
  unfolding insert_newest
  insert_newest-of_generation g x [] = refl
  insert_newest-of_generation g x (y ∷ ys) = ground (arith, insert_newest-of_generation g x ys)

  pub sort_newest-IsNewestFirst : (xs : List (ℕ × A)) → IsNewestFirst (sort_newest xs)
  unfolding sort_newest
  sort_newest-IsNewestFirst [] = tt
  sort_newest-IsNewestFirst (x ∷ xs) =
      insert_newest-IsNewestFirst x (sort_newest xs) (sort_newest-IsNewestFirst xs)

  pub sort_newest-stable :
      (g : ℕ) (xs : List (ℕ × A)) → of_generation g (sort_newest xs) ≡ of_generation g xs
  unfolding sort_newest
  sort_newest-stable g [] = refl
  sort_newest-stable g (x ∷ xs) =
      ground (arith, sort_newest-stable g xs, insert_newest-of_generation g x (sort_newest xs))

module _ {A : Type 0} where
  length-insert_newest :
      (x : ℕ × A) (xs : List (ℕ × A)) → length (insert_newest x xs) ≡ suc (length xs)
  unfolding insert_newest
  length-insert_newest x [] = refl
  length-insert_newest x (y ∷ ys) = ground (arith, length-insert_newest x ys)

  length-sort_newest : (xs : List (ℕ × A)) → length (sort_newest xs) ≡ length xs
  unfolding sort_newest
  length-sort_newest [] = refl
  length-sort_newest (x ∷ xs) =
      omega (arith, length-insert_newest x (sort_newest xs), length-sort_newest xs)

module _ {ContractId : Type 0} (contract_id : Bytes → Bytes → ContractId) (params : Bytes) where
  length-with_generations :
      (es : List ContractLineageEntry) → length (with_generations contract_id params es) ≡ length es
  unfolding with_generations
  length-with_generations [] = refl
  length-with_generations (e ∷ es) = ap suc (length-with_generations es)

  pub length-from_lineage :
      (es : List ContractLineageEntry) → length (from_lineage contract_id params es) ≡ length es
  unfolding from_lineage
  length-from_lineage es =
      let pairs = with_generations contract_id params es in
      length-map (sort_newest pairs) (λ p. p.1)
      ∙ length-sort_newest pairs
      ∙ length-with_generations es

-- The candidates are the identifiers of a list of (generation, identifier) pairs that is ordered
-- from the newest generation to the oldest and has, for each generation, exactly the entries of the
-- lineage, in the order of the lineage.
pub from_lineage-IsNewestFirst :
    {ContractId : Type 0} (contract_id : Bytes → Bytes → ContractId) (params : Bytes)
    (lineage : List ContractLineageEntry)
    → (sorted : List (ℕ × ContractId)) × (from_lineage contract_id params lineage
        ≡ map (λ p. p.1) sorted)
      × IsNewestFirst sorted
      × ((g : ℕ)
          → of_generation g sorted ≡ of_generation g (with_generations contract_id params lineage))
unfolding from_lineage
from_lineage-IsNewestFirst contract_id params lineage =
    let pairs = with_generations contract_id params lineage in
    (sort_newest pairs, refl, sort_newest-IsNewestFirst pairs, λ g. sort_newest-stable g pairs)

module _ {A : Type 0} (generation : A → ℕ) where
  insert_by : A → List A → List A
  insert_by x [] = x ∷ []
  insert_by x (y ∷ ys) =
      if leb (generation y) (generation x) then x ∷ y ∷ ys else y ∷ insert_by x ys

  -- What is sorted, where the generations are read off it.
  unfoldable pub sort_by : List A → List A
  unfolding insert_by
  sort_by [] = []
  sort_by (x ∷ xs) = insert_by x (sort_by xs)

module _ {A B : Type 0} (generation : A → ℕ) (f : A → ℕ × B)
    (same : (a : A) → (f a).0 ≡ generation a) where
  insert_newest-map :
      (x : A) (xs : List A) → insert_newest (f x) (map f xs) ≡ map f (insert_by generation x xs)
  unfolding insert_newest insert_by
  insert_newest-map x [] = refl
  insert_newest-map x (y ∷ ys) = ground (arith, insert_newest-map x ys, same x, same y)

  pub sort_newest-map : (xs : List A) → sort_newest (map f xs) ≡ map f (sort_by generation xs)
  unfolding sort_newest sort_by
  sort_newest-map [] = refl
  sort_newest-map (x ∷ xs) =
      ap (insert_newest (f x)) (sort_newest-map xs) ∙ insert_newest-map x (sort_by generation xs)
