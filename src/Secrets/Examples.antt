-- ===== src/Secrets/Examples.antt =====
-- The theorems on freenet-migrate/src/delegate.rs at concrete inputs.
use freenet_migrate.Prelude.{
  ℕ, ◌++◌, inr, true, ◌≤◌, ◌<◌, ◌≡◌, ◌⊎◌, ◌+◌, refl, Bool, some, List, [], ◌∷◌, arith, Bytes,
  length, nat_eq, get, insert, lex_ltb, to_decimal,
}
use freenet_migrate.Prelude.Result.{ok, err}
use freenet_migrate.Journal.{DelegateKey}
use freenet_migrate.Secrets.{
  SecretPair, ExportedSecrets, unauthorized_origin, truncated_export, host_enumeration_cap, Cbor,
  web_app, same_web_app, prefixed, is_marker, pred_wip_marker, pred_done_marker,
  predecessor_already_migrated, empty_seal_contradicted, handle_export_request,
  newest_completed_generation, done_marker, wip_marker,
}
use freenet_migrate.Secrets.Export.{Permits, Exports, sent, handle_export_request-answers}
use freenet_migrate.Secrets.Import.{
  imported, pred_imported, any_secret, import_secrets_once, import_predecessor_secrets_once,
  write_secrets_two_phase, conclude_predecessor, write_all, write_one, finish, import_unless_stale,
  conclude_import,
}
use freenet_migrate.Secrets.Import.Writes.{AllPresent}
use freenet_migrate.Secrets.Import.Sealed.{data_seen, IsSealed, import_predecessor-seals}
use freenet_migrate.Secrets.Import.Once.{import_secrets_once-closes}
use freenet_migrate.Secrets.Import.Completes.{count_secrets, import_predecessor-completes}
use freenet_migrate.Secrets.Mem.{
  MemStore, mem_store, mem_store-IsLawful, mem_store-ListsKeys, map_store, map_store-accepts,
}

abbrev old : DelegateKey
old = record { key = 7 ∷ []; code_hash = 9 ∷ [] }

-- The successor has a value under the key 5.
abbrev successor : MemStore
successor = record { entries = (5 ∷ [], 50 ∷ []) ∷ []; fail_keys = [] }

-- One key that is there, one that is not, and one that is reserved.
abbrev offered : List SecretPair
offered = (5 ∷ [], 1 ∷ []) ∷ (6 ∷ [], 60 ∷ []) ∷ (pred_done_marker old, 1 ∷ []) ∷ []

first_import :
    (import_predecessor_secrets_once mem_store successor old offered).1 ≡ pred_imported 1 1
unfolding import_predecessor_secrets_once predecessor_already_migrated empty_seal_contradicted
    pred_wip_marker pred_done_marker any_secret is_marker conclude_predecessor
    write_secrets_two_phase finish write_all write_one get insert lex_ltb
first_import = refl

import_predecessor-seals_example :
    IsSealed mem_store old
      (data_seen mem_store successor old offered)
      offered
      (import_predecessor_secrets_once mem_store successor old offered).0
import_predecessor-seals_example =
    import_predecessor-seals mem_store mem_store-IsLawful successor old offered 1 1 first_import

import_predecessor-completes_example :
    (n : ℕ) × (m : ℕ) × ((import_predecessor_secrets_once map_store [] old offered).1
      ≡ pred_imported n m)
    × (n + m ≡ count_secrets offered)
unfolding predecessor_already_migrated empty_seal_contradicted pred_wip_marker pred_done_marker get
import_predecessor-completes_example =
    import_predecessor-completes map_store map_store-accepts [] old offered refl refl

abbrev export_two : ExportedSecrets
export_two = record { source_generation = 2; secrets = offered }

abbrev export_one : ExportedSecrets
export_one = record { source_generation = 1; secrets = (8 ∷ [], 80 ∷ []) ∷ [] }

generation_import : (import_secrets_once mem_store successor export_two 3).1 ≡ ok (imported 2 1 1)
unfolding import_secrets_once import_unless_stale conclude_import write_secrets_two_phase finish
    write_all write_one done_marker wip_marker is_marker get insert lex_ltb to_decimal
    newest_completed_generation pred_done_marker
generation_import = refl

-- The older generation is under the cap.
import_secrets_once-closes_example :
    let s' = (import_secrets_once mem_store successor export_two 3).0 in
    AllPresent mem_store s' offered × ((import_secrets_once mem_store s' export_one 3).0 ≡ s')
unfolding import_secrets_once import_unless_stale conclude_import write_secrets_two_phase finish
    write_all write_one done_marker wip_marker is_marker get insert lex_ltb to_decimal
    newest_completed_generation pred_done_marker
import_secrets_once-closes_example =
    import_secrets_once-closes mem_store mem_store-IsLawful mem_store-ListsKeys successor export_two
      export_one 3 3 2 1 1 (omega arith) generation_import (inr (omega arith, omega arith))

-- The encoding lists the keys and the values.
listed_pairs : List SecretPair → Bytes
listed_pairs [] = []
listed_pairs ((k, v) ∷ secrets) = k ++ v ++ listed_pairs secrets

abbrev plain_cbor : Cbor
unfolding listed_pairs
plain_cbor = record {
  into_writer = λ e. ok (listed_pairs e.secrets);
  from_reader = λ b. ok export_one;
}

abbrev as_pair : Bytes → Bool → Bytes × Bool
as_pair payload processed = (payload, processed)

-- Two keys under the prefix 5, one under 6, and one that is reserved.
abbrev shared : MemStore
shared = record {
  entries =
      (pred_done_marker old, 1 ∷ [])
      ∷ (5 ∷ 1 ∷ [], 51 ∷ [])
      ∷ (5 ∷ 2 ∷ [], 52 ∷ [])
      ∷ (6 ∷ [], 60 ∷ [])
      ∷ [];
  fail_keys = [];
}

-- Only the keys under the prefix are sent.
prefix_sent :
    handle_export_request mem_store plain_cbor as_pair shared
      (some (web_app (4 ∷ [])))
      (same_web_app (4 ∷ []))
      (prefixed (5 ∷ []))
      (record { source_generation = 1 })
    ≡ ok ((5 ∷ 1 ∷ 51 ∷ 5 ∷ 2 ∷ 52 ∷ [], true) ∷ [])
unfolding handle_export_request is_marker get pred_done_marker listed_pairs
prefix_sent = refl

handle_export_request-answers_example :
    let r =
      handle_export_request mem_store plain_cbor as_pair shared
        (some (web_app (4 ∷ [])))
        (same_web_app (4 ∷ []))
        (prefixed (5 ∷ []))
        (record { source_generation = 1 }) in
    let all_keys = mem_store.list_secrets shared [] in
    ((¬ Permits (same_web_app (4 ∷ [])) (some (web_app (4 ∷ [])))) × (r ≡ err unauthorized_origin))
    ⊎ (Permits (same_web_app (4 ∷ [])) (some (web_app (4 ∷ [])))
        × (host_enumeration_cap ≤ length all_keys)
        × (r ≡ err (truncated_export (length all_keys) host_enumeration_cap)))
    ⊎ (Permits (same_web_app (4 ∷ [])) (some (web_app (4 ∷ [])))
        × (length all_keys < host_enumeration_cap)
        × ((secrets : List SecretPair) × Exports mem_store shared (prefixed (5 ∷ [])) secrets
            × (r ≡ sent plain_cbor as_pair (record { source_generation = 1; secrets = secrets }))))
handle_export_request-answers_example =
    handle_export_request-answers mem_store mem_store-ListsKeys plain_cbor as_pair shared
      (some (web_app (4 ∷ []))) (same_web_app (4 ∷ [])) (prefixed (5 ∷ []))
      (record { source_generation = 1 })
