-- ===== src/Secrets/Import/Sealed.antt =====
-- What an import by the predecessor's key, of freenet-migrate/src/delegate.rs, guarantees.
use freenet_migrate.Prelude.{
  ℕ, ◌≡◌, refl, ◌⊎◌, Bool, true, false, not, ◌&&◌, ◌||◌, some, List, arith, Bytes, list_beq, nat_eq,
  Bool-cases, inl, inr,
}
use freenet_migrate.Journal.{DelegateKey}
use freenet_migrate.Secrets.{
  SecretPair, SecretStore, IsLawful, pred_wip_marker, pred_done_marker, flag_value, holds_data,
  predecessor_already_migrated, empty_seal_contradicted,
}
use freenet_migrate.Secrets.Markers.{
  pred_done_marker-reserved, pred_wip_marker-reserved, pred_wip-ne-pred_done, pred_done-ne-pred_wip,
}
use freenet_migrate.Secrets.Import.{
  PredecessorImportOutcome, pred_imported, pred_already_migrated, pred_incomplete, any_secret,
  TwoPhaseWrite, write_secrets_two_phase, conclude_predecessor, import_predecessor_secrets_once,
}
use freenet_migrate.Secrets.Import.Writes.{AllPresent}
use freenet_migrate.Secrets.Import.Phases.{
  two_phase-Seals, two_phase-LeavesDone, two_phase-keeps, two_phase-wip,
}

abbrev pub is_success : PredecessorImportOutcome → Bool
is_success (pred_imported _ _) = true
is_success _ = false

module _ {S : Type 0} (ops : SecretStore S) where
  -- The write that an import makes.
  abbrev written : S → DelegateKey → Bool → List SecretPair → S × TwoPhaseWrite
  written s p flag secrets =
      write_secrets_two_phase ops s (pred_wip_marker p) (pred_done_marker p) (flag_value flag)
        secrets

  abbrev pub data_seen : S → DelegateKey → List SecretPair → Bool
  data_seen s p secrets = holds_data (ops.get_secret s (pred_wip_marker p)) || any_secret secrets

  -- The completion marker tells of data, and of the secrets none is missing.
  abbrev pub IsSealed : DelegateKey → Bool → List SecretPair → S → Type 0
  IsSealed p flag secrets s =
      (ops.get_secret s (pred_done_marker p) ≡ some (flag_value flag))
      × AllPresent ops s secrets
      × ((more : List SecretPair)
          → import_predecessor_secrets_once ops s p more ≡ (s, pred_already_migrated))

module _ {S : Type 0} (ops : SecretStore S) (lawful : IsLawful ops) where
  -- A marker and its flag, on both sides, are a seal that is believed.
  migrated_of_seal :
      (s : S) (p : DelegateKey) (flag : Bool)
      → ops.get_secret s (pred_done_marker p) ≡ some (flag_value flag)
      → ops.get_secret s (pred_wip_marker p) ≡ some (flag_value flag)
      → predecessor_already_migrated ops s p ≡ true
  unfolding predecessor_already_migrated empty_seal_contradicted
  migrated_of_seal s p true d w = rw (lawful.present s (pred_done_marker p), d)
  migrated_of_seal s p false d w = rw (lawful.present s (pred_done_marker p), d, w)

  again :
      (s : S) (p : DelegateKey) (secrets : List SecretPair)
      → predecessor_already_migrated ops s p ≡ true
      → import_predecessor_secrets_once ops s p secrets ≡ (s, pred_already_migrated)
  unfolding import_predecessor_secrets_once
  again s p secrets h = rw h

  written-migrated :
      (s : S) (p : DelegateKey) (flag : Bool) (secrets : List SecretPair)
      → (written ops s p flag secrets).1.completed ≡ true
      → predecessor_already_migrated ops (written ops s p flag secrets).0 p ≡ true
  written-migrated s p flag secrets h =
      migrated_of_seal (written ops s p flag secrets).0 p flag
        (two_phase-Seals ops lawful s (pred_wip_marker p) (pred_done_marker p) (flag_value flag)
          secrets (pred_done_marker-reserved p) h).0
        (two_phase-wip ops lawful s (pred_wip_marker p) (pred_done_marker p) (flag_value flag)
          secrets (pred_wip_marker-reserved p) (pred_done-ne-pred_wip p p) h)

  -- The three ways in which an import goes.
  data Way (s : S) (p : DelegateKey) (secrets : List SecretPair)
      : S × PredecessorImportOutcome → Type 0 where
    sealed :
        predecessor_already_migrated ops s p ≡ true → Way s p secrets (s, pred_already_migrated)
    withheld :
        holds_data (ops.get_secret s (pred_wip_marker p)) ≡ true
        → any_secret secrets ≡ false
        → Way s p secrets (s, pred_incomplete 0 0 0)
    wrote :
        (holds_data (ops.get_secret s (pred_wip_marker p)) && not (any_secret secrets)) ≡ false
        → Way s p secrets
            (conclude_predecessor ops (written ops s p (data_seen ops s p secrets) secrets))

  way :
      (s : S) (p : DelegateKey) (secrets : List SecretPair)
      → Way s p secrets (import_predecessor_secrets_once ops s p secrets)
  unfolding import_predecessor_secrets_once
  way s p secrets = elim (Bool-cases (predecessor_already_migrated ops s p)) [
    | inl done ↦ rw done (sealed done)
    | inr unsealed ↦
        rw unsealed
          (elim (Bool-cases
            (holds_data (ops.get_secret s (pred_wip_marker p)) && not (any_secret secrets))) [
              | inl empty ↦ rw empty (withheld (ground arith) (ground arith))
              | inr some_data ↦ rw some_data (wrote some_data)
            ])
  ]

  conclude-store : (x : S × TwoPhaseWrite) → (conclude_predecessor ops x).0 ≡ x.0
  unfolding conclude_predecessor
  conclude-store (s, w) = ground arith

  conclude-imported :
      (x : S × TwoPhaseWrite) (n m : ℕ)
      → (conclude_predecessor ops x).1 ≡ pred_imported n m
      → x.1.completed ≡ true
  unfolding conclude_predecessor
  conclude-imported (s, w) n m h = ground arith

  -- An import that reports success has left a value for every secret of its list that is not a
  -- reserved key, and the completion marker with the flag of whether this or an earlier attempt saw
  -- data; and from then on an import from the same predecessor, whatever it offers, writes nothing
  -- and says that it is done.
  pub import_predecessor-seals :
      (s : S) (p : DelegateKey) (secrets : List SecretPair) (n m : ℕ)
      → (import_predecessor_secrets_once ops s p secrets).1 ≡ pred_imported n m
      → IsSealed ops p
          (data_seen ops s p secrets)
          secrets
          (import_predecessor_secrets_once ops s p secrets).0
  import_predecessor-seals s p secrets n m h = go _ (way s p secrets) h
    where
      go :
          (r : S × PredecessorImportOutcome)
          → Way s p secrets r
          → r.1 ≡ pred_imported n m
          → IsSealed ops p (data_seen ops s p secrets) secrets r.0
      go r (sealed d) e = cc
      go r (withheld d c) e = cc
      go r (wrote d) e =
          let flag = data_seen ops s p secrets in
          let done = conclude-imported (written ops s p flag secrets) n m e in
          let seal =
            two_phase-Seals ops lawful s (pred_wip_marker p) (pred_done_marker p) (flag_value flag)
              secrets (pred_done_marker-reserved p) done in
          rw (conclude-store (written ops s p flag secrets))
            (seal.0, seal.1, λ more. again _ p more (written-migrated s p flag secrets done))

  conclude-open :
      (x : S × TwoPhaseWrite)
      → (is_success (conclude_predecessor ops x).1 ≡ true) ⊎ (x.1.completed ≡ false)
  unfolding conclude_predecessor
  conclude-open (s, w) = elim (Bool-cases w.completed) [
    | inl done ↦ inl (rw done)
    | inr no_marker ↦ inr no_marker
  ]

  -- Whatever an import reports, a value that was there under another key than the predecessor's two
  -- markers is there still; and if it does not report success the completion marker is as it was.
  pub import_predecessor-keeps :
      (s : S) (p : DelegateKey) (secrets : List SecretPair) (j v : Bytes)
      → list_beq (pred_wip_marker p) j ≡ false
      → list_beq (pred_done_marker p) j ≡ false
      → ops.get_secret s j ≡ some v
      → let (s', outcome) = import_predecessor_secrets_once ops s p secrets in
        (ops.get_secret s' j ≡ some v)
        × ((is_success outcome ≡ true)
            ⊎ (ops.get_secret s' (pred_done_marker p) ≡ ops.get_secret s (pred_done_marker p)))
  import_predecessor-keeps s p secrets j v nw nd h = go _ (way s p secrets)
    where
      go :
          (r : S × PredecessorImportOutcome)
          → Way s p secrets r
          → (ops.get_secret r.0 j ≡ some v)
            × ((is_success r.1 ≡ true)
                ⊎ (ops.get_secret r.0 (pred_done_marker p) ≡ ops.get_secret s (pred_done_marker p)))
      go r (sealed d) = (h, inr refl)
      go r (withheld d c) = (h, inr refl)
      go r (wrote d) =
          let flag = data_seen ops s p secrets in
          let value = flag_value flag in
          rw (conclude-store (written ops s p flag secrets)) (
            two_phase-keeps ops lawful s (pred_wip_marker p) (pred_done_marker p) value secrets j v
                nw nd h,
            elim (conclude-open (written ops s p flag secrets)) [
              | inl success ↦ inl success
              | inr no_marker ↦ inr (
                  two_phase-LeavesDone ops lawful s (pred_wip_marker p) (pred_done_marker p) value
                    secrets (pred_done_marker-reserved p) (pred_wip-ne-pred_done p p) no_marker)
            ],
          )
