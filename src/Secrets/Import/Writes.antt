-- ===== src/Secrets/Import/Writes.antt =====
-- What the write loop of freenet-migrate/src/delegate.rs leaves in a lawful store.
use freenet_migrate.Prelude.{
  ◌≤◌, ◌≡◌, refl, ap, ◌∙◌, true, false, ◌||◌, Option, none, some, List, [], ◌∷◌, arith, Bytes, All,
  is_some, or_intro, list_beq_iff, nat_eq,
}
use freenet_migrate.Secrets.{SecretPair, SecretStore, IsLawful, is_marker}
use freenet_migrate.Secrets.Import.{Counts, write_one, write_all}

-- Every secret of the list that is not a reserved key has a value.
abbrev pub AllPresent : {S : Type 0} → SecretStore S → S → List SecretPair → Type 0
AllPresent ops s =
    All (λ (p : SecretPair). (is_marker p.0 || is_some (ops.get_secret s p.0)) ≡ true)

module _ {S : Type 0} (ops : SecretStore S) (lawful : IsLawful ops) where
  pub write_one-keeps :
      (p : SecretPair) (s : S) (c : Counts) (j w : Bytes)
      → ops.get_secret s j ≡ some w
      → ops.get_secret (write_one ops p (s, c)).0 j ≡ some w
  unfolding write_one
  write_one-keeps (k, v) s c j w h =
      ground (arith, lawful.present s k, lawful.others s k v j, list_beq_iff k j)

  pub write_one-reserved :
      (p : SecretPair) (s : S) (c : Counts) (j : Bytes)
      → is_marker j ≡ true
      → ops.get_secret (write_one ops p (s, c)).0 j ≡ ops.get_secret s j
  unfolding write_one
  write_one-reserved (k, v) s c j h = ground (arith, lawful.others s k v j, list_beq_iff k j)

  pub write_one-covers :
      (p : SecretPair) (s : S) (c : Counts)
      → (write_one ops p (s, c)).1.failed ≤ c.failed
      → is_marker p.0 ≡ false
      → is_some (ops.get_secret (write_one ops p (s, c)).0 p.0) ≡ true
  unfolding write_one
  write_one-covers (k, v) s c h m = ground (arith, lawful.present s k, lawful.stored s k v)

  pub write_one-counts :
      (p : SecretPair) (s : S) (c : Counts) → c.failed ≤ (write_one ops p (s, c)).1.failed
  unfolding write_one
  write_one-counts (k, v) s c = ground arith

  pub write_all-keeps :
      (ps : List SecretPair) (acc : S × Counts) (j w : Bytes)
      → ops.get_secret acc.0 j ≡ some w
      → ops.get_secret (write_all ops ps acc).0 j ≡ some w
  unfolding write_all
  write_all-keeps [] acc j w h = h
  write_all-keeps (p ∷ ps) (s, c) j w h =
      write_all-keeps ps (write_one ops p (s, c)) j w (write_one-keeps p s c j w h)

  pub write_all-reserved :
      (ps : List SecretPair) (acc : S × Counts) (j : Bytes)
      → is_marker j ≡ true
      → ops.get_secret (write_all ops ps acc).0 j ≡ ops.get_secret acc.0 j
  unfolding write_all
  write_all-reserved [] acc j h = refl
  write_all-reserved (p ∷ ps) (s, c) j h =
      write_all-reserved ps (write_one ops p (s, c)) j h ∙ write_one-reserved p s c j h

  write_all-counts :
      (ps : List SecretPair) (acc : S × Counts) → acc.1.failed ≤ (write_all ops ps acc).1.failed
  unfolding write_all
  write_all-counts [] acc = omega arith
  write_all-counts (p ∷ ps) (s, c) =
      omega (arith, write_all-counts ps (write_one ops p (s, c)), write_one-counts p s c)

  write_all-present :
      (ps : List SecretPair) (acc : S × Counts) (j : Bytes)
      → is_some (ops.get_secret acc.0 j) ≡ true
      → is_some (ops.get_secret (write_all ops ps acc).0 j) ≡ true
  write_all-present ps acc j h = go (ops.get_secret acc.0 j) refl h
    where
      go :
          (o : Option Bytes)
          → ops.get_secret acc.0 j ≡ o
          → is_some o ≡ true
          → is_some (ops.get_secret (write_all ops ps acc).0 j) ≡ true
      go none e x = cc
      go (some w) e x = ap is_some (write_all-keeps ps acc j w e)

  -- If no more writes failed than before, everything on the list is there.
  pub write_all-covers :
      (ps : List SecretPair) (acc : S × Counts)
      → (write_all ops ps acc).1.failed ≤ acc.1.failed
      → AllPresent ops (write_all ops ps acc).0 ps
  unfolding write_all
  write_all-covers [] acc h = tt
  write_all-covers (p ∷ ps) (s, c) h =
      let one = write_one ops p (s, c) in
      let few = write_all-counts ps one in
      (
        or_intro (is_marker p.0) (is_some (ops.get_secret (write_all ops ps one).0 p.0))
            (λ m. write_all-present ps one p.0 (write_one-covers p s c (omega arith) m)),
        write_all-covers ps one (omega (arith, write_one-counts p s c)),
      )
