-- ===== src/Secrets/Import/Completes.antt =====
-- An import of freenet-migrate/src/delegate.rs into a store that accepts every write.
use freenet_migrate.Prelude.{
  ℕ, ◌+◌, ◌≡◌, refl, ◌∙◌, true, false, not, ◌&&◌, ◌||◌, List, [], ◌∷◌, arith, Bytes, if◌then◌else◌,
}
use freenet_migrate.Journal.{DelegateKey}
use freenet_migrate.Secrets.{
  SecretPair, SecretStore, is_marker, pred_wip_marker, pred_done_marker, flag_value, holds_data,
  predecessor_already_migrated,
}
use freenet_migrate.Secrets.Import.{
  pred_imported, Counts, nothing_written, any_secret, TwoPhaseWrite, write_one, write_all, finish,
  write_secrets_two_phase, conclude_predecessor, import_predecessor_secrets_once,
}

-- The number of secrets that are not reserved.
pub count_secrets : List SecretPair → ℕ
count_secrets [] = 0
count_secrets ((k, v) ∷ secrets) =
    if is_marker k then count_secrets secrets else count_secrets secrets + 1

module _ {S : Type 0} (ops : SecretStore S)
    (accepts : (s : S) (k v : Bytes) → (ops.set_secret s k v).1 ≡ true) where
  write_all-counts :
      (ps : List SecretPair) (acc : S × Counts)
      → let c = (write_all ops ps acc).1 in
        (c.failed ≡ acc.1.failed)
        × (c.imported + c.skipped ≡ acc.1.imported + acc.1.skipped + count_secrets ps)
  unfolding write_all write_one count_secrets
  write_all-counts [] (s, c) = (refl, omega arith)
  write_all-counts ((k, v) ∷ ps) (s, c) =
      ground (arith, accepts s k v, write_all-counts ps (write_one ops (k, v) (s, c)))

  two_phase-completes :
      (s : S) (wip done value : Bytes) (secrets : List SecretPair)
      → let w = (write_secrets_two_phase ops s wip done value secrets).1 in
        (w.completed ≡ true) × (w.imported + w.skipped ≡ count_secrets secrets)
  unfolding write_secrets_two_phase finish
  two_phase-completes s wip done value secrets =
      let begun = (ops.set_secret s wip value).0 in
      ground (
        arith,
        accepts s wip value,
        accepts (write_all ops secrets (begun, nothing_written)).0 done value,
        write_all-counts secrets (begun, nothing_written),
      )

  concluded :
      (x : S × TwoPhaseWrite)
      → x.1.completed ≡ true
      → (conclude_predecessor ops x).1 ≡ pred_imported x.1.imported x.1.skipped
  unfolding conclude_predecessor
  concluded (s, w) h = rw h

  -- Where the store accepts every write, an import from a predecessor that is not sealed reports
  -- success, and every secret that is not a reserved key is counted as written or as there already;
  -- unless it offers nothing although an earlier attempt saw data.
  pub import_predecessor-completes :
      (s : S) (p : DelegateKey) (secrets : List SecretPair)
      → predecessor_already_migrated ops s p ≡ false
      → (holds_data (ops.get_secret s (pred_wip_marker p)) && not (any_secret secrets)) ≡ false
      → (n : ℕ) × (m : ℕ) × ((import_predecessor_secrets_once ops s p secrets).1
          ≡ pred_imported n m)
        × (n + m ≡ count_secrets secrets)
  unfolding import_predecessor_secrets_once
  import_predecessor-completes s p secrets unsealed offers =
      go (write_secrets_two_phase ops s (pred_wip_marker p) (pred_done_marker p) value secrets)
        (two_phase-completes s (pred_wip_marker p) (pred_done_marker p) value secrets)
        (rw (unsealed, offers))
    where
      value : Bytes
      value = flag_value (holds_data (ops.get_secret s (pred_wip_marker p)) || any_secret secrets)

      go :
          (x : S × TwoPhaseWrite)
          → (x.1.completed ≡ true) × (x.1.imported + x.1.skipped ≡ count_secrets secrets)
          → (import_predecessor_secrets_once ops s p secrets).1 ≡ (conclude_predecessor ops x).1
          → (n : ℕ) × (m : ℕ) × ((import_predecessor_secrets_once ops s p secrets).1
              ≡ pred_imported n m)
            × (n + m ≡ count_secrets secrets)
      go x h e = (x.1.imported, x.1.skipped, e ∙ concluded x h.0, h.1)
