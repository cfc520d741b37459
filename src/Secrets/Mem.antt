-- ===== src/Secrets/Mem.antt =====
-- The store in memory of the tests of freenet-migrate/src/delegate.rs, and one that accepts every write.
use freenet_migrate.Prelude.{
  ◌≡◌, All, refl, true, false, some, List, [], ◌∷◌, arith, Bytes, contains, list_beq, list_beq_iff,
  beq_refl, nat_eq, list_eq, is_some, starts_with, if◌then◌else◌, Map, get, insert, get-insert,
  get-insert_other, Bool-cases, inl, inr,
}
use freenet_migrate.Secrets.{SecretStore, IsLawful, ListsKeys}

pub record MemStore : Type 0 where
  pub entries : Map Bytes
  pub fail_keys : List Bytes

-- `.keys().filter(|k| k.starts_with(prefix))`
abbrev pub keys_under : Map Bytes → Bytes → List Bytes
keys_under [] p = []
keys_under ((k, v) ∷ m) p = if starts_with k p then k ∷ keys_under m p else keys_under m p

abbrev pub mem_store : SecretStore MemStore
mem_store = record {
  list_secrets = λ s p. keys_under s.entries p;
  get_secret = λ s k. get k s.entries;
  has_secret = λ s k. is_some (get k s.entries);
  set_secret = λ s k v.
      if contains s.fail_keys k
      then (s, false)
      else (record s { entries = insert k v s.entries }, true);
}

pub mem_store-IsLawful : IsLawful mem_store
mem_store-IsLawful = record {
  present = λ s k. refl;
  stored = λ s k v h. ground (arith, get-insert k v s.entries);
  refused = λ s k v h. ground arith;
  others = λ s k v j h. ground (arith, get-insert_other k j v s.entries);
}

keys_under-contains :
    (m : Map Bytes) (k v p : Bytes)
    → get k m ≡ some v
    → starts_with k p ≡ true
    → contains (keys_under m p) k ≡ true
unfolding get
keys_under-contains [] k v p h w = cc
keys_under-contains ((j, u) ∷ m) k v p h w = elim (Bool-cases (list_beq j k)) [
  | inl same ↦ rw ((list_beq_iff j k).0 same, w, beq_refl k)
  | inr other ↦ let rest = keys_under-contains m k v p (rw other at h) w in ground (arith, rest)
]

keys_under-All : (m : Map Bytes) (p : Bytes) → All (λ k. starts_with k p ≡ true) (keys_under m p)
keys_under-All [] p = tt
keys_under-All ((j, u) ∷ m) p = elim (Bool-cases (starts_with j p)) [
  | inl q ↦ rw q (q, keys_under-All m p)
  | inr q ↦ rw q (keys_under-All m p)
]

pub mem_store-ListsKeys : ListsKeys mem_store
mem_store-ListsKeys = record {
  under = λ s p. keys_under-All s.entries p;
  listed = λ s k v p room h w. keys_under-contains s.entries k v p h w;
}

-- The map alone.
abbrev pub map_store : SecretStore (Map Bytes)
map_store = record {
  list_secrets = λ s p. keys_under s p;
  get_secret = λ s k. get k s;
  has_secret = λ s k. is_some (get k s);
  set_secret = λ s k v. (insert k v s, true);
}

pub map_store-accepts : (s : Map Bytes) (k v : Bytes) → (map_store.set_secret s k v).1 ≡ true
map_store-accepts s k v = refl
