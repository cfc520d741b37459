-- ===== src/Migration/Walk/Stored/Items.antt =====
-- The items of one predecessor, written by freenet-migrate/src/delegate_migrate.rs into a delegate's store.
use freenet_migrate.Prelude.{
  ℕ, ◌+◌, ◌≤◌, ◌≡◌, Bool, true, List, [], ◌∷◌, arith, Bytes, is_some, or_intro, list_eq, nat_eq,
  Bool-cases, inl, inr,
}
use freenet_migrate.Journal.{SecretSelectionPolicy, DelegateKey}
use freenet_migrate.Secrets.{SecretPair, SecretStore, IsLawful, is_marker}
use freenet_migrate.Secrets.Import.Writes.{AllPresent}
use freenet_migrate.Migration.{PredecessorSecretsIo, is_clean}
use freenet_migrate.Migration.Store.{secret_store_io, store_write_secret}
use freenet_migrate.Migration.Walk.{no_observer}
use freenet_migrate.Migration.Walk.Items.{Items, no_items_yet, note_write, note_flush, all_taken}
use freenet_migrate.Migration.Walk.Visits.{write_item, write_items, write_and_flush, kept_items}
use freenet_migrate.Migration.Walk.Stored.{set-present}

-- The items that were not taken.
abbrev pub left_out : Items → ℕ
left_out x = x.tally.failed + x.tally.rejected + x.tally.withheld

pub all_taken-left_out : (x : Items) → all_taken x ≡ true → left_out x ≡ 0
unfolding all_taken is_clean
all_taken-left_out x h = ground arith

module _ {S P : Type 0} (ops : SecretStore S) (lawful : IsLawful ops)
    (preds : PredecessorSecretsIo P) (policy : SecretSelectionPolicy) (key : DelegateKey)
    (generation : ℕ) (held : List Bytes) (retry : Bool) where
  abbrev one : SecretPair → S × Items → S × Items
  one = write_item (secret_store_io ops) preds no_observer policy key generation held retry

  abbrev all_items : List SecretPair → S × Items → S × Items
  all_items = write_items (secret_store_io ops) preds no_observer policy key generation held retry

  write_item-left_out :
      (p : SecretPair) (s : S) (x : Items) → left_out x ≤ left_out (one p (s, x)).1
  unfolding write_item note_write store_write_secret
  write_item-left_out (k, v) s x = ground arith

  write_item-present :
      (p : SecretPair) (s : S) (x : Items)
      → left_out (one p (s, x)).1 ≤ left_out x
      → is_some (ops.get_secret (one p (s, x)).0 p.0) ≡ true
  unfolding write_item note_write store_write_secret
  write_item-present (k, v) s x h = ground (arith, lawful.present s k, lawful.stored s k v)

  write_item-keeps :
      (p : SecretPair) (s : S) (x : Items) (j : Bytes)
      → is_some (ops.get_secret s j) ≡ true
      → is_some (ops.get_secret (one p (s, x)).0 j) ≡ true
  unfolding write_item store_write_secret
  write_item-keeps (k, v) s x j h = ground (arith, set-present ops lawful s k v j)

  write_items-left_out :
      (ps : List SecretPair) (acc : S × Items) → left_out acc.1 ≤ left_out (all_items ps acc).1
  unfolding write_items
  write_items-left_out [] acc = omega arith
  write_items-left_out (p ∷ ps) (s, x) =
      omega (arith, write_items-left_out ps (one p (s, x)), write_item-left_out p s x)

  write_items-keeps :
      (ps : List SecretPair) (acc : S × Items) (j : Bytes)
      → is_some (ops.get_secret acc.0 j) ≡ true
      → is_some (ops.get_secret (all_items ps acc).0 j) ≡ true
  unfolding write_items
  write_items-keeps [] acc j h = h
  write_items-keeps (p ∷ ps) (s, x) j h =
      write_items-keeps ps (one p (s, x)) j (write_item-keeps p s x j h)

  -- If no more items were left out than before, each is there.
  write_items-AllPresent :
      (ps : List SecretPair) (acc : S × Items)
      → left_out (all_items ps acc).1 ≤ left_out acc.1
      → AllPresent ops (all_items ps acc).0 ps
  unfolding write_items
  write_items-AllPresent [] acc h = tt
  write_items-AllPresent (p ∷ ps) (s, x) h =
      let next = one p (s, x) in
      let below = write_items-left_out ps next in
      (
        or_intro (is_marker p.0) (is_some (ops.get_secret (all_items ps next).0 p.0))
            (λ m. write_items-keeps ps next p.0 (write_item-present p s x (omega arith))),
        write_items-AllPresent ps next (omega (arith, write_item-left_out p s x)),
      )

  -- Where all items are taken, each is there.
  pub write_and_flush-AllPresent :
      (items : List SecretPair) (s : S)
      → let (s', held', x) =
          write_and_flush
            (secret_store_io ops)
            preds
            no_observer
            policy
            key
            generation
            held
            retry
            items
            s in
        all_taken x ≡ true → AllPresent ops s' items
  unfolding write_and_flush note_flush
  write_and_flush-AllPresent items s h =
      let none_left = all_taken-left_out (all_items items (s, no_items_yet)).1 h in
      write_items-AllPresent items (s, no_items_yet) (omega arith)

module _ {S P : Type 0} (ops : SecretStore S) (preds : PredecessorSecretsIo P)
    (policy : SecretSelectionPolicy) (key : DelegateKey) (generation : ℕ) where
  -- Only reserved keys are not offered.
  pub kept_items-AllPresent :
      (s : S) (ps : List SecretPair)
      → AllPresent ops s
          (kept_items (secret_store_io ops) preds no_observer policy key generation tt ps)
      → AllPresent ops s ps
  unfolding kept_items
  kept_items-AllPresent s [] h = tt
  kept_items-AllPresent s (p ∷ ps) h = elim (Bool-cases (is_marker p.0)) [
    | inl reserved ↦ (rw reserved, kept_items-AllPresent s ps (rw reserved at h))
    | inr kept ↦ (ground (arith, (rw kept at h).0), kept_items-AllPresent s ps (rw kept at h).1)
  ]
