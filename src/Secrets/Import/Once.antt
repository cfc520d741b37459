-- ===== src/Secrets/Import/Once.antt =====
-- What an import by generation, of freenet-migrate/src/delegate.rs, guarantees.
use freenet_migrate.Prelude.{
  ℕ, ◌≤◌, ◌<◌, ◌^◌, ◌≡◌, refl, ap, sym, ◌⊎◌, length, ◌∙◌, true, Option, none, some, List, [], ◌∷◌,
  arith, Bytes, is_some, leb, ltb, list_beq, list_beq_iff, nat_eq, list_eq, contains, Bool-cases,
  inl, inr, parse_decimal-to_decimal, max, bytes, subst,
}
use freenet_migrate.Prelude.Result.{Result, ok, err}
use freenet_migrate.Secrets.{
  SecretStore, IsLawful, ListsKeys, host_enumeration_cap, ExportedSecrets, MigrateError,
  done_prefix, done_marker, wip_marker, max_of, completed_of, newest_of,
  newest_completed_generation,
}
use freenet_migrate.Secrets.Markers.{done_marker-reserved}
use freenet_migrate.Secrets.Import.{
  ImportOutcome, imported, already_migrated, stale_generation, TwoPhaseWrite, stale,
  conclude_import, import_unless_stale, import_secrets_once, write_secrets_two_phase,
}
use freenet_migrate.Secrets.Import.Writes.{AllPresent}
use freenet_migrate.Secrets.Import.Phases.{two_phase-Seals}

completed_of-done_marker : (g : ℕ) → g < 2 ^ 32 → completed_of (done_marker g) ≡ some g
unfolding completed_of done_marker
completed_of-done_marker g h = parse_decimal-to_decimal g h

max_of-ge : (o : Option ℕ) (n g : ℕ) → g ≤ n → (m : ℕ) × (max_of o (some n) ≡ some m) × (g ≤ m)
max_of-ge none n g h = (n, refl, h)
max_of-ge (some a) n g h = (max a n, refl, omega arith)

max_of-head : (o : Option ℕ) (g : ℕ) → (m : ℕ) × (max_of (some g) o ≡ some m) × (g ≤ m)
max_of-head none g = (g, refl, omega arith)
max_of-head (some b) g = (max g b, refl, omega arith)

newest_of-ge :
    (keys : List Bytes) (k : Bytes) (g : ℕ)
    → contains keys k ≡ true
    → completed_of k ≡ some g
    → (n : ℕ) × (newest_of keys ≡ some n) × (g ≤ n)
unfolding newest_of
newest_of-ge [] k g h c = cc
newest_of-ge (j ∷ keys) k g h c = elim (Bool-cases (list_beq j k)) [
  | inl same ↦ rw ((list_beq_iff j k).0 same, c) (max_of-head (newest_of keys) g)
  | inr other ↦
      let (n, found, above) = newest_of-ge keys k g (rw other at h) c in
      rw found (max_of-ge (completed_of j) n g above)
]

module _ {S : Type 0} (ops : SecretStore S) (lawful : IsLawful ops) (lists : ListsKeys ops) where
  newest-ge :
      (s : S) (g : ℕ) (v : Bytes)
      → g < 2 ^ 32
      → length (ops.list_secrets s []) < host_enumeration_cap
      → ops.get_secret s (done_marker g) ≡ some v
      → (n : ℕ) × (newest_completed_generation ops s ≡ some n) × (g ≤ n)
  unfolding newest_completed_generation done_marker
  newest-ge s g v h room d =
      newest_of-ge (ops.list_secrets s done_prefix) (done_marker g) g
        (lists.listed s (done_marker g) v done_prefix room d refl) (completed_of-done_marker g h)

  -- Where a generation is sealed, an export of it changes nothing, and one of an older generation does
  -- not where the listing is complete.
  sealed-blocks :
      (s : S) (g : ℕ) (v : Bytes) (older : ExportedSecrets) (successor : ℕ)
      → g < 2 ^ 32
      → ops.get_secret s (done_marker g) ≡ some v
      → (older.source_generation ≡ g)
        ⊎ ((older.source_generation < g) × (length (ops.list_secrets s []) < host_enumeration_cap))
      → (import_secrets_once ops s older successor).0 ≡ s
  unfolding import_secrets_once import_unless_stale
  sealed-blocks s g v older successor h d (inr (below, room)) =
      let (n, found, above) = newest-ge s g v h room d in rw found (ground arith)
  sealed-blocks s g v older successor h d (inl level) =
      let present : ops.has_secret s (done_marker g) ≡ true =
        lawful.present s (done_marker g) ∙ ap is_some d in
      rw (subst (λ x. ops.has_secret s (done_marker x) ≡ true) (sym level) present) (ground arith)

  abbrev written : S → ExportedSecrets → S × TwoPhaseWrite
  written s exported =
      write_secrets_two_phase ops s (wip_marker exported.source_generation)
        (done_marker exported.source_generation) (bytes "1") exported.secrets

  data Way (s : S) (exported : ExportedSecrets)
      : S × Result MigrateError ImportOutcome → Type 0 where
    refused : (e : MigrateError) → Way s exported (s, err e)
    sealed : (g : ℕ) → Way s exported (s, ok (already_migrated g))
    outdated : (g n : ℕ) → Way s exported (s, ok (stale_generation g n))
    wrote : Way s exported (conclude_import ops exported.source_generation (written s exported))

  way :
      (s : S) (exported : ExportedSecrets) (successor : ℕ)
      → Way s exported (import_secrets_once ops s exported successor)
  unfolding import_secrets_once import_unless_stale
  way s exported successor = elim (Bool-cases (leb successor exported.source_generation)) [
    | inl high ↦ rw high (refused _)
    | inr low ↦
        rw low (elim (Bool-cases (ops.has_secret s (done_marker exported.source_generation))) [
          | inl done ↦ rw done (sealed _)
          | inr unsealed ↦ rw unsealed (unless (newest_completed_generation ops s))
        ])
  ]
    where
      unless :
          (newest : Option ℕ)
          → Way s exported
              (import_unless_stale ops s exported (stale newest exported.source_generation))
      unless none = wrote
      unless (some n) = elim (Bool-cases (ltb exported.source_generation n)) [
        | inl newer ↦ rw newer (outdated _ n)
        | inr older ↦ rw older wrote
      ]

  conclude-store : (g : ℕ) (x : S × TwoPhaseWrite) → (conclude_import ops g x).0 ≡ x.0
  unfolding conclude_import
  conclude-store g (s, w) = ground arith

  conclude-imported :
      (g h n m : ℕ) (x : S × TwoPhaseWrite)
      → (conclude_import ops g x).1 ≡ ok (imported h n m)
      → x.1.completed ≡ true
  unfolding conclude_import
  conclude-imported g h n m (s, w) e = ground arith

  -- Where the store keeps what it accepted, and lists all keys under a prefix while it has fewer keys
  -- than the host's cap: after an import of a generation that reports success, every secret of the export
  -- that is not a reserved key has a value, and no export of that generation changes the store that the
  -- import left; nor does one of an older generation, if that store lists fewer keys than the cap.
  pub import_secrets_once-closes :
      (s : S) (exported older : ExportedSecrets) (successor later g n m : ℕ)
      → exported.source_generation < 2 ^ 32
      → (import_secrets_once ops s exported successor).1 ≡ ok (imported g n m)
      → (older.source_generation ≡ exported.source_generation)
        ⊎ ((older.source_generation < exported.source_generation)
            × (length (ops.list_secrets (import_secrets_once ops s exported successor).0 [])
                < host_enumeration_cap))
      → let s' = (import_secrets_once ops s exported successor).0 in
        AllPresent ops s' exported.secrets × ((import_secrets_once ops s' older later).0 ≡ s')
  import_secrets_once-closes s exported older successor later g n m bound h which =
      go _ (way s exported successor) h which
    where
      go :
          (r : S × Result MigrateError ImportOutcome)
          → Way s exported r
          → r.1 ≡ ok (imported g n m)
          → (older.source_generation ≡ exported.source_generation)
            ⊎ ((older.source_generation < exported.source_generation)
                × (length (ops.list_secrets r.0 []) < host_enumeration_cap))
          → AllPresent ops r.0 exported.secrets
            × ((import_secrets_once ops r.0 older later).0 ≡ r.0)
      go r (refused x) e w = cc
      go r (sealed x) e w = cc
      go r (outdated x y) e w = cc
      go r wrote e w =
          let gen = exported.source_generation in
          let seal =
            two_phase-Seals ops lawful s (wip_marker gen) (done_marker gen) (bytes "1")
              exported.secrets (done_marker-reserved gen)
              (conclude-imported gen g n m (written s exported) e) in
          let store = conclude-store gen (written s exported) in
          rw store (
            seal.1,
            sealed-blocks _ gen (bytes "1") older later bound seal.0 (
                subst
                  (λ x.
                    (older.source_generation ≡ gen)
                    ⊎ ((older.source_generation < gen)
                        × (length (ops.list_secrets x []) < host_enumeration_cap)))
                  store w),
          )
