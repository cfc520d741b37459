-- ===== src/Secrets/Import/Phases.antt =====
-- What `write_secrets_two_phase` of freenet-migrate/src/delegate.rs leaves in a lawful store.
use freenet_migrate.Prelude.{
  ◌≡◌, true, false, some, List, [], ◌∷◌, arith, Bytes, list_beq, nat_eq, nat_beq, Bool-cases, inl,
  inr,
}
use freenet_migrate.Secrets.{SecretPair, SecretStore, IsLawful, is_marker}
use freenet_migrate.Secrets.Markers.{reserved-ne}
use freenet_migrate.Secrets.Import.{
  Counts, TwoPhaseWrite, nothing_written, write_all, finish, write_secrets_two_phase,
}
use freenet_migrate.Secrets.Import.Writes.{
  AllPresent, write_all-keeps, write_all-reserved, write_all-covers,
}

module _ {S : Type 0} (ops : SecretStore S) (lawful : IsLawful ops) where
  pub AllPresent-set :
      (s : S) (k v : Bytes) (ps : List SecretPair)
      → is_marker k ≡ true
      → AllPresent ops s ps
      → AllPresent ops (ops.set_secret s k v).0 ps
  AllPresent-set s k v [] r h = tt
  AllPresent-set s k v (p ∷ ps) r h = (
    ground (arith, lawful.others s k v p.0, reserved-ne k p.0, h.0),
    AllPresent-set s k v ps r h.1,
  )

  -- A completed write has left the marker, and every secret has a value.
  abbrev pub Seals : Bytes → Bytes → List SecretPair → S × TwoPhaseWrite → Type 0
  Seals done value secrets (s, w) =
      (w.completed ≡ true) → (ops.get_secret s done ≡ some value) × AllPresent ops s secrets

  finish-Seals :
      (done value : Bytes) (secrets : List SecretPair) (begun : S)
      → is_marker done ≡ true
      → Seals done value secrets
          (finish ops done value (write_all ops secrets (begun, nothing_written)))
  unfolding finish
  finish-Seals done value secrets begun r = elim (Bool-cases (nat_beq c.failed 0)) [
    | inl clean ↦ rw clean (λ h. (
      lawful.stored s done value h,
      AllPresent-set s done value secrets r
          (write_all-covers ops lawful secrets (begun, nothing_written) (ground arith)),
    ))
    | inr failed ↦ rw failed (λ h. cc)
  ]
    where
      s : S
      s = (write_all ops secrets (begun, nothing_written)).0

      c : Counts
      c = (write_all ops secrets (begun, nothing_written)).1

  pub two_phase-Seals :
      (s : S) (wip done value : Bytes) (secrets : List SecretPair)
      → is_marker done ≡ true
      → Seals done value secrets (write_secrets_two_phase ops s wip done value secrets)
  unfolding write_secrets_two_phase
  two_phase-Seals s wip done value secrets r = elim (Bool-cases (ops.set_secret s wip value).1) [
    | inl marked ↦ rw marked (finish-Seals done value secrets (ops.set_secret s wip value).0 r)
    | inr failed ↦ rw failed (λ h. cc)
  ]

  -- A write that is not completed leaves the completion marker as it was.
  abbrev pub LeavesDone : S → Bytes → S × TwoPhaseWrite → Type 0
  LeavesDone before done (s, w) =
      (w.completed ≡ false) → ops.get_secret s done ≡ ops.get_secret before done

  pub two_phase-LeavesDone :
      (s : S) (wip done value : Bytes) (secrets : List SecretPair)
      → is_marker done ≡ true
      → list_beq wip done ≡ false
      → LeavesDone s done (write_secrets_two_phase ops s wip done value secrets)
  unfolding write_secrets_two_phase finish
  two_phase-LeavesDone s wip done value secrets r ne = ground (
    arith,
    lawful.others s wip value done ne,
    lawful.refused (write_all ops secrets ((ops.set_secret s wip value).0, nothing_written)).0 done
        value,
    write_all-reserved ops lawful secrets ((ops.set_secret s wip value).0, nothing_written) done r,
  )

  -- No value that is there changes, but that of the two markers.
  pub two_phase-keeps :
      (s : S) (wip done value : Bytes) (secrets : List SecretPair) (j v : Bytes)
      → list_beq wip j ≡ false
      → list_beq done j ≡ false
      → ops.get_secret s j ≡ some v
      → ops.get_secret (write_secrets_two_phase ops s wip done value secrets).0 j ≡ some v
  unfolding write_secrets_two_phase finish
  two_phase-keeps s wip done value secrets j v nw nd h =
      let begun = (ops.set_secret s wip value).0 in
      ground (
        arith,
        lawful.others s wip value j nw,
        lawful.others (write_all ops secrets (begun, nothing_written)).0 done value j nd,
        write_all-keeps ops lawful secrets (begun, nothing_written) j v,
      )

  -- No reserved key changes, but the two markers.
  pub two_phase-reserved :
      (s : S) (wip done value : Bytes) (secrets : List SecretPair) (j : Bytes)
      → list_beq wip j ≡ false
      → list_beq done j ≡ false
      → is_marker j ≡ true
      → ops.get_secret (write_secrets_two_phase ops s wip done value secrets).0 j
        ≡ ops.get_secret s j
  unfolding write_secrets_two_phase finish
  two_phase-reserved s wip done value secrets j nw nd r =
      let begun = (ops.set_secret s wip value).0 in
      ground (
        arith,
        lawful.others s wip value j nw,
        lawful.others (write_all ops secrets (begun, nothing_written)).0 done value j nd,
        write_all-reserved ops lawful secrets (begun, nothing_written) j r,
      )

  -- The in-progress marker keeps the flag of a completed write.
  pub two_phase-wip :
      (s : S) (wip done value : Bytes) (secrets : List SecretPair)
      → is_marker wip ≡ true
      → list_beq done wip ≡ false
      → (write_secrets_two_phase ops s wip done value secrets).1.completed ≡ true
      → ops.get_secret (write_secrets_two_phase ops s wip done value secrets).0 wip ≡ some value
  unfolding write_secrets_two_phase finish
  two_phase-wip s wip done value secrets r ne h =
      let begun = (ops.set_secret s wip value).0 in
      ground (
        arith,
        lawful.stored s wip value,
        lawful.others (write_all ops secrets (begun, nothing_written)).0 done value wip ne,
        write_all-reserved ops lawful secrets (begun, nothing_written) wip r,
      )
