-- ===== src/Migration/Examples.antt =====
-- The theorems on the walk of freenet-migrate/src/delegate_migrate.rs at concrete inputs.
use freenet_migrate.Prelude.{
  ℕ, ◌+◌, ◌≡◌, refl, false, some, List, [], ◌∷◌, All, get, insert, lex_ltb,
}
use freenet_migrate.Prelude.Result.{ok}
use freenet_migrate.Lineage.{DelegateLineageEntry}
use freenet_migrate.Journal.{newest_snapshot_wins, union_all_generations, DelegateKey, lineage_key}
use freenet_migrate.Driver.Ordering.{sort_newest}
use freenet_migrate.Secrets.{
  SecretPair, is_marker, pred_wip_marker, pred_done_marker, done_marker, empty_seal_contradicted,
  legacy_generation_migrated, newest_completed_generation,
}
use freenet_migrate.Secrets.Mem.{MemStore, mem_store, mem_store-IsLawful}
use freenet_migrate.Migration.{
  executable, PredecessorSecretsIo, imported, superseded, data_bearing_is_authoritative,
  legacy_bridge,
}
use freenet_migrate.Migration.Store.{
  secret_store_io, store_marker, store_record_marker, store_write_secret,
}
use freenet_migrate.Migration.Walk.{ordered, walk, walk_rows, migrate_delegate_secrets}
use freenet_migrate.Migration.Walk.Turns.{Walk, ◌>>=◌}
use freenet_migrate.Migration.Walk.Items.{
  note_write, note_flush, held_back, all_taken, prior_attempt, exported_count,
}
use freenet_migrate.Migration.Walk.Visits.{
  visit, visit_steps, visit_asking, import_all, check_journal, read_marker, known_data, check_seal,
  flag_prior, probe, fetch, observed_items, kept_items, check_export, begin_import, before_import,
  check_again, mark_begun, confirm_begun, import_items, write_and_flush, write_items, write_item,
  seal,
}
use freenet_migrate.Migration.Walk.Stored.{migrate-keeps_values}
use freenet_migrate.Migration.Walk.Stored.Arrived.{Answers, Arrived}
use freenet_migrate.Migration.Walk.Stored.Whole.{migrate_delegate_secrets-arrives}

-- Generation g of the delegate.
abbrev entry : ℕ → DelegateLineageEntry
entry g = record {
  generation = g;
  code_hash = 9 ∷ [];
  delegate_key = g ∷ [];
  irregular_key = false;
  note = "";
}

abbrev lineage : List DelegateLineageEntry
lineage = entry 1 ∷ entry 2 ∷ []

abbrev exports : DelegateKey → List SecretPair
exports k = (5 ∷ [], 1 ∷ []) ∷ (6 ∷ k.key, 60 ∷ []) ∷ []

-- Every predecessor answers, and the number counts the calls.
abbrev answering : PredecessorSecretsIo ℕ
answering = record {
  probe_verdict = λ n k. (n + 1, ok executable);
  fetch_secrets = λ n k. (n + 1, ok (exports k));
}

answering-Answers : Answers answering exports
answering-Answers = record { same = λ p k secrets e. cc }

-- The successor has a value under the key 5.
abbrev successor : MemStore
successor = record { entries = (5 ∷ [], 50 ∷ []) ∷ []; fail_keys = [] }

migrate-keeps_values_example :
    let (rows, s', p') =
      migrate_delegate_secrets
        (secret_store_io mem_store)
        answering
        lineage
        union_all_generations
        successor
        0 in
    mem_store.get_secret s' (5 ∷ []) ≡ some (50 ∷ [])
unfolding is_marker get
migrate-keeps_values_example =
    migrate-keeps_values mem_store mem_store-IsLawful answering union_all_generations lineage
      successor 0 (5 ∷ []) (50 ∷ []) refl refl

migrate_delegate_secrets-arrives_example :
    let (rows, s', p') =
      migrate_delegate_secrets
        (secret_store_io mem_store)
        answering
        lineage
        union_all_generations
        successor
        0 in
    All (Arrived mem_store exports s') rows
migrate_delegate_secrets-arrives_example =
    migrate_delegate_secrets-arrives mem_store mem_store-IsLawful answering union_all_generations
      exports answering-Answers lineage successor 0

-- Generation 2 has it all, one of its items is there already, and generation 1 is not asked.
newest_taken :
    migrate_delegate_secrets
      (secret_store_io mem_store)
      answering
      lineage
      newest_snapshot_wins
      (record { entries = (5 ∷ [], 50 ∷ []) ∷ []; fail_keys = [] })
      0
    ≡ (
      imported
            (lineage_key (entry 2))
            2
            (record { written = 1; skipped = 1; failed = 0; rejected = 0; withheld = 0 })
          ∷ superseded (lineage_key (entry 1)) 1
          ∷ [],
      record {
        entries =
            (pred_done_marker (lineage_key (entry 2)), 49 ∷ [])
            ∷ (pred_wip_marker (lineage_key (entry 2)), 49 ∷ [])
            ∷ (5 ∷ [], 50 ∷ [])
            ∷ (6 ∷ 2 ∷ [], 60 ∷ [])
            ∷ [];
        fail_keys = [];
      },
      2,
    )
unfolding migrate_delegate_secrets walk walk_rows ordered sort_newest visit visit_steps visit_asking
    import_all check_journal read_marker known_data check_seal flag_prior probe fetch observed_items
    kept_items check_export begin_import before_import check_again mark_begun confirm_begun
    import_items write_and_flush write_items write_item note_write note_flush held_back seal
    all_taken ◌>>=◌ prior_attempt exported_count store_marker store_record_marker store_write_secret
    is_marker pred_wip_marker pred_done_marker done_marker get insert lex_ltb
    empty_seal_contradicted newest_completed_generation data_bearing_is_authoritative legacy_bridge
    legacy_generation_migrated
newest_taken = refl
