-- ===== src/Secrets.antt =====
-- freenet-migrate/src/delegate.rs: the delegate's secret store, its bookkeeping markers, and the export
-- of a predecessor's secrets. A `usize` is a number.
pub mod Markers
pub mod Export
pub mod Import
pub mod Mem
mod Examples
use freenet_migrate.Prelude.{
  ℕ, ◌<◌, All, contains, list_eq, suc, Bool, true, false, not, ◌&&◌, ◌||◌, Option, none, some, List,
  [], ◌∷◌, ◌++◌, map, Bytes, ◌≡◌, leb, nat_beq, if◌then◌else◌, list_beq, nat_eq, length, is_some,
  bytes, starts_with, strip_prefix, to_decimal, parse_decimal, max,
}
use freenet_migrate.Prelude.Result.{Result, ok, err, ◌>>=◌, ◌>>◌, map_err}
use freenet_migrate.Lineage.{DelegateLineageEntry}
use freenet_migrate.Journal.{DelegateKey, lineage_key}

abbrev pub host_enumeration_cap : ℕ
host_enumeration_cap = 4096

abbrev pub marker_ns : Bytes
marker_ns = 0 ∷ bytes "freenet-migrate/"

abbrev pub journal_ns : Bytes
journal_ns = 0 ∷ bytes "freenet-migrate-journal/"

abbrev pub wip_prefix : Bytes
wip_prefix = 0 ∷ bytes "freenet-migrate/wip:"

abbrev pub done_prefix : Bytes
done_prefix = 0 ∷ bytes "freenet-migrate/done:"

abbrev pub pred_wip_prefix : Bytes
pred_wip_prefix = 0 ∷ bytes "freenet-migrate/v1/pred-wip:"

abbrev pub pred_done_marker_key_prefix : Bytes
pred_done_marker_key_prefix = 0 ∷ bytes "freenet-migrate/v1/pred-done:"

abbrev pub pred_done_marker_value_data : Bytes
pred_done_marker_value_data = bytes "1"

abbrev pub pred_done_marker_value_empty : Bytes
pred_done_marker_value_empty = bytes "0"

abbrev pub SecretPair : Type 0
SecretPair = Bytes × Bytes

-- The trait `SecretStore`, on stores of the type `S`. `set_secret` returns the new store with whether
-- it succeeded.
pub record SecretStore (S : Type 0) : Type 0 where
  pub list_secrets : S → Bytes → List Bytes
  pub get_secret : S → Bytes → Option Bytes
  pub has_secret : S → Bytes → Bool
  pub set_secret : S → Bytes → Bytes → S × Bool

-- A key is present if it has a value, a write that succeeds stores its value, one that fails leaves
-- the value as it was, and no write changes another key.
pub record IsLawful {S : Type 0} (ops : SecretStore S) : Type 0 where
  pub present : (s : S) (k : Bytes) → ops.has_secret s k ≡ is_some (ops.get_secret s k)
  pub stored :
      (s : S) (k v : Bytes)
      → (ops.set_secret s k v).1 ≡ true
      → ops.get_secret (ops.set_secret s k v).0 k ≡ some v
  pub refused :
      (s : S) (k v : Bytes)
      → (ops.set_secret s k v).1 ≡ false
      → ops.get_secret (ops.set_secret s k v).0 k ≡ ops.get_secret s k
  pub others :
      (s : S) (k v j : Bytes)
      → list_beq k j ≡ false
      → ops.get_secret (ops.set_secret s k v).0 j ≡ ops.get_secret s j

-- A listing has only keys under its prefix, and where the store has fewer keys than the host's cap, each
-- of those that has a value.
pub record ListsKeys {S : Type 0} (ops : SecretStore S) : Type 0 where
  pub under : (s : S) (p : Bytes) → All (λ k. starts_with k p ≡ true) (ops.list_secrets s p)
  pub listed :
      (s : S) (k v p : Bytes)
      → length (ops.list_secrets s []) < host_enumeration_cap
      → ops.get_secret s k ≡ some v
      → starts_with k p ≡ true
      → contains (ops.list_secrets s p) k ≡ true

pub record ExportedSecrets : Type 0 where
  pub source_generation : ℕ
  pub secrets : List SecretPair

-- The variants that this file returns.
pub data MigrateError : Type 0 where
  unauthorized_origin : MigrateError
  truncated_export : ℕ → ℕ → MigrateError  -- returned, cap
  partial_import : ℕ → ℕ → ℕ → ℕ → MigrateError  -- generation, imported, skipped, failed
  implausible_generation : ℕ → ℕ → MigrateError  -- source, ceiling
  codec : Bytes → MigrateError
  bad_code_hash : DelegateLineageEntry → Bytes → MigrateError  -- what the text prints

-- CBOR at this type, with an error as its text.
pub record Cbor : Type 0 where
  pub into_writer : ExportedSecrets → Result Bytes Bytes
  pub from_reader : Bytes → Result Bytes ExportedSecrets

pub to_bytes : Cbor → ExportedSecrets → Result MigrateError Bytes
to_bytes cbor exported = map_err codec (cbor.into_writer exported)

pub from_bytes : Cbor → Bytes → Result MigrateError ExportedSecrets
from_bytes cbor payload = map_err codec (cbor.from_reader payload)

-- `MessageOrigin`: the variants that the code names, and any other.
pub data MessageOrigin : Type 0 where
  web_app : Bytes → MessageOrigin
  delegate : DelegateKey → MessageOrigin
  other_origin : MessageOrigin

pub data OriginPolicy : Type 0 where
  same_web_app : Bytes → OriginPolicy
  from_delegate : DelegateKey → OriginPolicy
  any_origin : OriginPolicy

unfoldable pub delegate_key_beq : DelegateKey → DelegateKey → Bool
delegate_key_beq a b = list_beq a.key b.key && list_beq a.code_hash b.code_hash

-- A guard of a `match`.
abbrev allow : Bool → Result MigrateError (Unit {0})
allow true = ok tt
allow false = err unauthorized_origin

unfoldable pub authorize : OriginPolicy → Option MessageOrigin → Result MigrateError (Unit {0})
unfolding delegate_key_beq
authorize any_origin origin = ok tt
authorize _ none = err unauthorized_origin
authorize (same_web_app id) (some (web_app o)) = allow (list_beq o id)
authorize (from_delegate k) (some (delegate o)) = allow (delegate_key_beq o k)
authorize _ _ = err unauthorized_origin

-- The acknowledgement carries no data.
pub data ExportScope : Type 0 where
  prefixed : Bytes → ExportScope
  entire_delegate : ExportScope

pub record ExportRequest : Type 0 where
  pub source_generation : ℕ

unfoldable pub is_marker : Bytes → Bool
is_marker key = starts_with key marker_ns || starts_with key journal_ns

pub is_reserved_key : Bytes → Bool
is_reserved_key key = is_marker key

unfoldable pub wip_marker : ℕ → Bytes
wip_marker generation = wip_prefix ++ to_decimal generation

unfoldable pub done_marker : ℕ → Bytes
done_marker generation = done_prefix ++ to_decimal generation

unfoldable pub pred_wip_marker : DelegateKey → Bytes
pred_wip_marker predecessor = pred_wip_prefix ++ predecessor.key

unfoldable pub pred_done_marker : DelegateKey → Bytes
pred_done_marker predecessor = pred_done_marker_key_prefix ++ predecessor.key

-- The value of a marker that records whether there was data.
abbrev pub flag_value : Bool → Bytes
flag_value had_data = if had_data then pred_done_marker_value_data else pred_done_marker_value_empty

pub predecessor_done_marker : DelegateKey → Bool → Bytes × Bytes
predecessor_done_marker predecessor had_data = (pred_done_marker predecessor, flag_value had_data)

-- `flag != PRED_DONE_MARKER_VALUE_EMPTY`
abbrev pub says_data : Bytes → Bool
says_data flag = not (list_beq flag pred_done_marker_value_empty)

-- `.is_some_and(|flag| flag != PRED_DONE_MARKER_VALUE_EMPTY)`
abbrev pub holds_data : Option Bytes → Bool
holds_data none = false
holds_data (some flag) = says_data flag

abbrev pub is_empty_flag : Option Bytes → Bool
is_empty_flag none = false
is_empty_flag (some flag) = list_beq flag pred_done_marker_value_empty

-- The closure of `filter_map`.
completed_of : Bytes → Option ℕ
completed_of key = elim (strip_prefix key done_prefix) [
  | none ↦ none
  | some rest ↦ parse_decimal rest
]

abbrev max_of : Option ℕ → Option ℕ → Option ℕ
max_of none b = b
max_of (some a) none = some a
max_of (some a) (some b) = some (max a b)

newest_of : List Bytes → Option ℕ
unfolding completed_of
newest_of [] = none
newest_of (key ∷ keys) = max_of (completed_of key) (newest_of keys)

module _ {S : Type 0} (ops : SecretStore S) where
  -- The loop of `export_scoped`.
  export_keys : S → List Bytes → List SecretPair
  export_keys s [] = []
  export_keys s (key ∷ keys) =
      let rest = export_keys s keys in
      if is_marker key
      then rest
      else elim (ops.get_secret s key) [ none ↦ rest | some val ↦ (key, val) ∷ rest ]

  unfoldable pub scoped_keys : S → ExportScope → List Bytes → List Bytes
  scoped_keys s entire_delegate all_keys = all_keys
  scoped_keys s (prefixed p) all_keys = ops.list_secrets s p

  unfoldable pub export_scoped : S → ExportScope → Result MigrateError (List SecretPair)
  unfolding export_keys scoped_keys
  export_scoped s scope =
      let all_keys = ops.list_secrets s [] in
      if leb host_enumeration_cap (length all_keys)
      then err (truncated_export (length all_keys) host_enumeration_cap)
      else ok (export_keys s (scoped_keys s scope all_keys))

  -- `message` is `OutboundDelegateMsg::ApplicationMessage` with its flag `processed`.
  unfoldable pub handle_export_request :
      {Message : Type 0}
      → Cbor
      → (Bytes → Bool → Message)
      → S
      → Option MessageOrigin
      → OriginPolicy
      → ExportScope
      → ExportRequest
      → Result MigrateError (List Message)
  unfolding authorize export_scoped to_bytes
  handle_export_request cbor message s origin policy scope req = do
    authorize policy origin
    secrets ← export_scoped s scope
    payload ←
        to_bytes cbor (record { source_generation = req.source_generation; secrets = secrets })
    ok (message payload true ∷ [])

  unfoldable pub empty_seal_contradicted : S → DelegateKey → Bool
  empty_seal_contradicted s predecessor =
      is_empty_flag (ops.get_secret s (pred_done_marker predecessor))
      && holds_data (ops.get_secret s (pred_wip_marker predecessor))

  unfoldable pub predecessor_already_migrated : S → DelegateKey → Bool
  predecessor_already_migrated s predecessor =
      ops.has_secret s (pred_done_marker predecessor) && not (empty_seal_contradicted s predecessor)

  pub predecessor_migration_had_data : S → DelegateKey → Option Bool
  predecessor_migration_had_data s predecessor =
      if empty_seal_contradicted s predecessor
      then none
      else elim (ops.get_secret s (pred_done_marker predecessor)) [
        | none ↦ none
        | some v ↦ some (says_data v)
      ]

  unfoldable pub newest_completed_generation : S → Option ℕ
  unfolding newest_of completed_of
  newest_completed_generation s = newest_of (ops.list_secrets s done_prefix)

  unfoldable pub legacy_generation_migrated : S → ℕ → Bool
  legacy_generation_migrated s generation = elim (newest_completed_generation s) [
    | none ↦ false
    | some newest ↦ leb generation newest
  ]

  pub legacy_generation_migrated_exact : S → ℕ → Bool
  legacy_generation_migrated_exact s generation = ops.has_secret s (done_marker generation)

pub predecessor_delegate_keys : List DelegateLineageEntry → List DelegateKey
predecessor_delegate_keys lineage = map lineage_key lineage

-- The loop of `predecessor_delegate_keys_checked`, over the entries with a regular key.
check_derived : (Bytes → Bytes) → Bytes → List DelegateLineageEntry → Result MigrateError (Unit {0})
check_derived blake3 params [] = ok tt
check_derived blake3 params (e ∷ es) =
    let rest = check_derived blake3 params es in
    let derived = blake3 (e.code_hash ++ params) in
    if not e.irregular_key && not (list_beq derived e.delegate_key)
    then err (bad_code_hash e derived)
    else rest

pub predecessor_delegate_keys_checked :
    (Bytes → Bytes) → Bytes → List DelegateLineageEntry → Result MigrateError (List DelegateKey)
unfolding check_derived predecessor_delegate_keys
predecessor_delegate_keys_checked blake3 params lineage = do
  check_derived blake3 params lineage
  ok (predecessor_delegate_keys lineage)
