-- ===== src/Secrets/Export.antt =====
-- What an export request to freenet-migrate/src/delegate.rs is answered with.
use freenet_migrate.Prelude.{
  ◌≤◌, ◌<◌, ◌&&◌, contains, starts_with, subst, ◌≡◌, ◌↔◌, ◌⊎◌, refl, Bool, true, false, not, ◌||◌,
  Option, none, some, List, [], ◌∷◌, arith, Bytes, All, length, leb, list_beq, list_beq_iff, nat_eq,
  Bool-cases, inl, inr, list_eq, beq_refl, if◌then◌else◌,
}
use freenet_migrate.Prelude.Result.{Result, ok, err, ◌>>=◌}
use freenet_migrate.Journal.{DelegateKey}
use freenet_migrate.Secrets.{
  SecretPair, SecretStore, ListsKeys, prefixed, entire_delegate, ExportedSecrets, MigrateError,
  unauthorized_origin, truncated_export, Cbor, to_bytes, MessageOrigin, web_app, delegate,
  other_origin, OriginPolicy, same_web_app, from_delegate, any_origin, delegate_key_beq, authorize,
  ExportScope, ExportRequest, is_marker, host_enumeration_cap, export_keys, scoped_keys,
  export_scoped, handle_export_request,
}

-- Who may have the secrets: the one that the policy names, and anyone only if it says so.
abbrev pub Permits : OriginPolicy → Option MessageOrigin → Type 0
Permits any_origin origin = Unit
Permits (same_web_app id) (some (web_app o)) = o ≡ id
Permits (from_delegate k) (some (delegate o)) = o ≡ k
Permits _ _ = ⊥

delegate_key_beq_iff : (a b : DelegateKey) → (delegate_key_beq a b ≡ true) ↔ (a ≡ b)
unfolding delegate_key_beq
delegate_key_beq_iff a b =
    ground (arith, list_beq_iff a.key b.key, list_beq_iff a.code_hash b.code_hash)

-- The origin is permitted and accepted, or is neither.
authorize-decides :
    (policy : OriginPolicy) (origin : Option MessageOrigin)
    → ((authorize policy origin ≡ ok tt) × Permits policy origin)
      ⊎ ((authorize policy origin ≡ err unauthorized_origin) × (¬ Permits policy origin))
unfolding authorize
authorize-decides any_origin none = inl (refl, tt)
authorize-decides any_origin (some o) = inl (refl, tt)
authorize-decides (same_web_app id) none = inr (refl, λ h. h)
authorize-decides (same_web_app id) (some (web_app o)) = ground (arith, list_beq_iff o id)
authorize-decides (same_web_app id) (some (delegate o)) = inr (refl, λ h. h)
authorize-decides (same_web_app id) (some other_origin) = inr (refl, λ h. h)
authorize-decides (from_delegate k) none = inr (refl, λ h. h)
authorize-decides (from_delegate k) (some (web_app o)) = inr (refl, λ h. h)
authorize-decides (from_delegate k) (some (delegate o)) = ground (arith, delegate_key_beq_iff o k)
authorize-decides (from_delegate k) (some other_origin) = inr (refl, λ h. h)

-- The keys that a scope is about.
abbrev pub in_scope : ExportScope → Bytes → Bool
in_scope entire_delegate key = true
in_scope (prefixed p) key = starts_with key p

-- There is a pair with this key.
abbrev pub carries : List SecretPair → Bytes → Bool
carries [] k = false
carries ((j, v) ∷ secrets) k = list_beq j k || carries secrets k

abbrev pub is_owed : Option Bytes → Bool → Bool
is_owed none reserved = false
is_owed (some v) reserved = not reserved

reserved-unowed : (o : Option Bytes) (b c : Bool) → b ≡ true → (not (is_owed o b) || c) ≡ true
reserved-unowed none b c h = refl
reserved-unowed (some v) b c h = rw h

-- An answer to a request.
abbrev pub sent :
    {Message : Type 0}
    → Cbor
    → (Bytes → Bool → Message)
    → ExportedSecrets
    → Result MigrateError (List Message)
sent cbor message exported = do payload ← to_bytes cbor exported; ok (message payload true ∷ [])

module _ {S : Type 0} (ops : SecretStore S) where
  -- The pairs are values of the store under keys that are not reserved, and every such key of the list
  -- that has a value is among them.
  abbrev OfKeys : S → List Bytes → List SecretPair → Type 0
  OfKeys s keys secrets =
      All (λ (p : SecretPair). (is_marker p.0 ≡ false) × (ops.get_secret s p.0 ≡ some p.1)) secrets
      × All (λ k. (not (is_owed (ops.get_secret s k) (is_marker k)) || carries secrets k) ≡ true)
          keys

  carries-cons :
      (s : S) (p : SecretPair) (secrets : List SecretPair) (keys : List Bytes)
      → All
          (λ k. (not (is_owed (ops.get_secret s k) (is_marker k)) || carries secrets k) ≡ true)
          keys
      → All
          (λ k.
            (not (is_owed (ops.get_secret s k) (is_marker k)) || carries (p ∷ secrets) k) ≡ true)
          keys
  carries-cons s p secrets [] h = tt
  carries-cons s p secrets (k ∷ keys) h = (ground (arith, h.0), carries-cons s p secrets keys h.1)

  export_keys-OfKeys : (s : S) (keys : List Bytes) → OfKeys s keys (export_keys ops s keys)
  unfolding export_keys
  export_keys-OfKeys s [] = (tt, tt)
  export_keys-OfKeys s (k ∷ keys) =
      go (is_marker k) (ops.get_secret s k) refl refl (export_keys-OfKeys s keys)
    where
      rest : List SecretPair
      rest = export_keys ops s keys

      go :
          (m : Bool) (o : Option Bytes)
          → is_marker k ≡ m
          → ops.get_secret s k ≡ o
          → OfKeys s keys rest
          → OfKeys s
              (k ∷ keys)
              (if m then rest else elim o [ none ↦ rest | some val ↦ (k, val) ∷ rest ])
      go true o e f ih =
          (ih.0, (reserved-unowed (ops.get_secret s k) (is_marker k) (carries rest k) e, ih.1))
      go false none e f ih = (ih.0, (rw f, ih.1))
      go false (some v) e f ih =
          (((e, f), ih.0), (ground (arith, beq_refl k), carries-cons s (k, v) rest keys ih.1))

  -- What holds of the keys holds of those of the pairs.
  export_keys-All :
      (Q : Bytes → Type 0) (s : S) (keys : List Bytes)
      → All Q keys
      → All (λ (p : SecretPair). Q p.0) (export_keys ops s keys)
  unfolding export_keys
  export_keys-All Q s [] h = tt
  export_keys-All Q s (k ∷ keys) h =
      go (is_marker k) (ops.get_secret s k) (export_keys-All Q s keys h.1)
    where
      rest : List SecretPair
      rest = export_keys ops s keys

      go :
          (m : Bool) (o : Option Bytes)
          → All (λ (p : SecretPair). Q p.0) rest
          → All
              (λ (p : SecretPair). Q p.0)
              (if m then rest else elim o [ none ↦ rest | some val ↦ (k, val) ∷ rest ])
      go true o ih = ih
      go false none ih = ih
      go false (some v) ih = (h.0, ih)

  -- The pairs are values of the store, under keys of the scope that are not reserved, and each such key
  -- that has a value is among them.
  abbrev pub Exports : S → ExportScope → List SecretPair → Type 0
  Exports s scope secrets =
      All
        (λ (p : SecretPair).
          (in_scope scope p.0 ≡ true)
          × ((is_marker p.0 ≡ false) × (ops.get_secret s p.0 ≡ some p.1)))
        secrets
      × ((k : Bytes)
          → (not (in_scope scope k && is_owed (ops.get_secret s k) (is_marker k))
              || carries secrets k)
            ≡ true)

  All-both :
      (Q R : SecretPair → Type 0) (ps : List SecretPair)
      → All Q ps
      → All R ps
      → All (λ p. Q p × R p) ps
  All-both Q R [] q r = tt
  All-both Q R (p ∷ ps) q r = ((q.0, r.0), All-both Q R ps q.1 r.1)

  All-contains :
      (b : Bytes → Bool) (keys : List Bytes) (k : Bytes)
      → All (λ j. b j ≡ true) keys
      → contains keys k ≡ true
      → b k ≡ true
  All-contains b [] k h c = cc
  All-contains b (j ∷ keys) k h c = elim (Bool-cases (list_beq j k)) [
    | inl same ↦ subst (λ x. b x ≡ true) ((list_beq_iff j k).0 same) h.0
    | inr other ↦ All-contains b keys k h.1 (rw other at c)
  ]

  module _ (lists : ListsKeys ops) where
    scoped_keys-in_scope :
        (s : S) (scope : ExportScope)
        → All (λ k. in_scope scope k ≡ true) (scoped_keys ops s scope (ops.list_secrets s []))
    unfolding scoped_keys
    scoped_keys-in_scope s (prefixed p) = lists.under s p
    scoped_keys-in_scope s entire_delegate = all (ops.list_secrets s [])
      where
        all : (keys : List Bytes) → All (λ k. true ≡ true) keys
        all [] = tt
        all (k ∷ keys) = (refl, all keys)

    scoped_keys-contains :
        (s : S) (scope : ExportScope) (k v : Bytes)
        → length (ops.list_secrets s []) < host_enumeration_cap
        → ops.get_secret s k ≡ some v
        → in_scope scope k ≡ true
        → contains (scoped_keys ops s scope (ops.list_secrets s [])) k ≡ true
    unfolding scoped_keys
    scoped_keys-contains s (prefixed p) k v room h i = lists.listed s k v p room h i
    scoped_keys-contains s entire_delegate k v room h i = lists.listed s k v [] room h refl

    export_keys-Exports :
        (s : S) (scope : ExportScope)
        → length (ops.list_secrets s []) < host_enumeration_cap
        → Exports s scope (export_keys ops s (scoped_keys ops s scope (ops.list_secrets s [])))
    export_keys-Exports s scope room =
        let keys : List Bytes = scoped_keys ops s scope (ops.list_secrets s []) in
        let (values, owed) = export_keys-OfKeys s keys in
        (
          All-both (λ p. in_scope scope p.0 ≡ true) _ (export_keys ops s keys)
              (export_keys-All (λ k. in_scope scope k ≡ true) s keys (scoped_keys-in_scope s scope))
              values,
          λ k. carried k owed (ops.get_secret s k) refl,
        )
      where
        carried :
            (k : Bytes)
            → All
                (λ j.
                  (not (is_owed (ops.get_secret s j) (is_marker j))
                    || carries
                        (export_keys ops s (scoped_keys ops s scope (ops.list_secrets s [])))
                        j)
                  ≡ true)
                (scoped_keys ops s scope (ops.list_secrets s []))
            → (o : Option Bytes) → ops.get_secret s k ≡ o
            → (not (in_scope scope k && is_owed o (is_marker k))
                || carries (export_keys ops s (scoped_keys ops s scope (ops.list_secrets s []))) k)
              ≡ true
        carried k owed none e = ground arith
        carried k owed (some v) e = elim (Bool-cases (in_scope scope k)) [
          | inr out ↦ rw out
          | inl within ↦
              let here =
                All-contains
                  (λ j.
                    not (is_owed (ops.get_secret s j) (is_marker j))
                    || carries (export_keys ops s (scoped_keys ops s scope (ops.list_secrets s [])))
                        j)
                  (scoped_keys ops s scope (ops.list_secrets s [])) k owed
                  (scoped_keys-contains s scope k v room e within) in
              rw within (rw e at here)
        ]

  export_scoped-under :
      (s : S) (scope : ExportScope)
      → ((host_enumeration_cap ≤ length (ops.list_secrets s []))
          × (export_scoped ops s scope
              ≡ err (truncated_export (length (ops.list_secrets s [])) host_enumeration_cap)))
        ⊎ ((length (ops.list_secrets s []) < host_enumeration_cap)
            × (export_scoped ops s scope
                ≡ ok (export_keys ops s (scoped_keys ops s scope (ops.list_secrets s [])))))
  unfolding export_scoped
  export_scoped-under s scope =
      elim (Bool-cases (leb host_enumeration_cap (length (ops.list_secrets s [])))) [
        | inl full ↦ inl (ground arith, rw full)
        | inr room ↦ inr (ground arith, rw room)
      ]

  -- Where the store lists the keys under a prefix, and all of them below the host's cap: a request from
  -- an origin that the policy does not permit is refused, whatever else is the case; a permitted one is
  -- refused if the store lists as many keys as the cap, even for a prefix. Else the answer is one message
  -- with pairs of keys and values, or the error of the encoder. Each is the store's value under a key of
  -- the scope (one that begins with the prefix, where it is one) that is not reserved, and every such key
  -- that has a value is there: none outside the scope is sent, and none inside it is missing.
  pub handle_export_request-answers :
      (lists : ListsKeys ops) {Message : Type 0} (cbor : Cbor) (message : Bytes → Bool → Message)
      (s : S) (origin : Option MessageOrigin) (policy : OriginPolicy) (scope : ExportScope)
      (req : ExportRequest)
      → let r = handle_export_request ops cbor message s origin policy scope req in
        let all_keys = ops.list_secrets s [] in
        ((¬ Permits policy origin) × (r ≡ err unauthorized_origin))
        ⊎ (Permits policy origin
            × (host_enumeration_cap ≤ length all_keys)
            × (r ≡ err (truncated_export (length all_keys) host_enumeration_cap)))
        ⊎ (Permits policy origin
            × (length all_keys < host_enumeration_cap)
            × ((secrets : List SecretPair) × Exports s scope secrets
                × (r
                    ≡ sent cbor message
                        (record { source_generation = req.source_generation; secrets = secrets }))))
  unfolding handle_export_request
  handle_export_request-answers lists cbor message s origin policy scope req =
      elim (authorize-decides policy origin) [
        | inr (refused, forbidden) ↦ inl (forbidden, rw refused)
        | inl (accepted, yes_may) ↦ inr (elim (export_scoped-under s scope) [
          | inl (full, e) ↦ inl (yes_may, full, rw (accepted, e))
          | inr (room, e) ↦ inr (
            yes_may,
            room,
            (
              export_keys ops s (scoped_keys ops s scope (ops.list_secrets s [])),
              export_keys-Exports lists s scope room,
              rw (accepted, e),
            ),
          )
        ])
      ]
