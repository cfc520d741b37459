-- ===== src/Migration/Journaled/Examples.antt =====
-- The theorems on the journaled entry points of freenet-migrate/src/delegate_migrate.rs at concrete inputs.
use freenet_migrate.Prelude.{
  ℕ, ◌+◌, ◌≡◌, refl, true, false, ◌||◌, ◌⊎◌, is_some, map, Option, none, some, List, [], ◌∷◌, Bytes,
  bytes, Map, get, inl, IsSorted, nat_eq,
}
use freenet_migrate.Prelude.Result.{ok}
use freenet_migrate.Lineage.{DelegateLineageEntry}
use freenet_migrate.Journal.{
  newest_snapshot_wins, resolved, imported, MigrationJournal, lineage_key, mark_import_started,
}
use freenet_migrate.Journal.Wire.{encode, decode}
use freenet_migrate.Journal.Steps.{Holds}
use freenet_migrate.Journal.Examples.{numbers, numbers-RoundTrips}
use freenet_migrate.Secrets.Mem.{map_store}
use freenet_migrate.Migration.{executable, PredecessorSecretsIo}
use freenet_migrate.Migration.Store.{store_marker, store_record_marker, store_write_secret}
use freenet_migrate.Migration.Journaled.{JournaledSuccessorIo, JournalError, ◌>>=◌, store_merged}
use freenet_migrate.Driver.Ordering.{IsNewestFirst, of_generation}
use freenet_migrate.Migration.Walk.{with_generation}
use freenet_migrate.Migration.Walk.Report.{named}
use freenet_migrate.Migration.Journaled.Start.Readable.{is_readable}
use freenet_migrate.Migration.Journaled.Run.{
  with_data, journal_before_import, migrate_delegate_secrets_journaled,
}
use freenet_migrate.Migration.Journaled.Run.Flagged.{IsStored, journal_before_import-stores}
use freenet_migrate.Migration.Journaled.Run.Reported.{
  IsRefused, Comes, migrate_delegate_secrets_journaled-reports,
}
use freenet_migrate.Migration.Journaled.Run.Recorded.{
  StoresJournal, migrate_delegate_secrets_journaled-keeps_imported,
}

record Delegate : Type 0 where
  secrets : Map Bytes
  journal : Option Bytes

-- A delegate with its own store, and the journal beside it.
abbrev successor : JournaledSuccessorIo Delegate
successor = record {
  secrets_io = record {
    migration_marker = λ s query. (s, ok (store_marker map_store s.secrets query));
    record_marker = λ s key marker.
        let (secrets, r) = store_record_marker map_store s.secrets key marker in
        (record s { secrets = secrets }, r);
    write_secret = λ s item.
        let (secrets, r) = store_write_secret map_store s.secrets item in
        (record s { secrets = secrets }, r);
    flush_predecessor = λ s key. (s, ok tt);
  };
  load_journal = λ s. (s, ok s.journal);
  store_journal = λ s bytes. (record s { journal = some bytes }, ok tt);
  journal_key = bytes "journal";
  import_revision = 0;
}

abbrev journal_of : Delegate → Option Bytes
journal_of s = s.journal

successor-StoresJournal : StoresJournal successor journal_of
successor-StoresJournal = record {
  loads = λ s. refl;
  loaded = λ s bytes h. cc;
  stores = λ s bytes. inl refl;
  reads = λ s q. refl;
  marks = λ s k m. refl;
  writes = λ s i u. refl;
  flushes = λ s k. refl;
}

-- Generation g of the delegate.
abbrev entry : ℕ → DelegateLineageEntry
entry g = record {
  generation = g;
  code_hash = 9 ∷ [];
  delegate_key = g ∷ [];
  irregular_key = false;
  note = "";
}

abbrev lineage : List DelegateLineageEntry
lineage = entry 1 ∷ entry 2 ∷ []

-- Every predecessor answers with one secret.
abbrev answering : PredecessorSecretsIo ℕ
answering = record {
  probe_verdict = λ n k. (n + 1, ok executable);
  fetch_secrets = λ n k. (n + 1, ok ((6 ∷ k.key, 60 ∷ []) ∷ []));
}

abbrev display : JournalError → Bytes
display e = []

-- Generation 1 is imported, and generation 2 is new.
abbrev journal : MigrationJournal
journal = (1 ∷ [], record { generation = 1; state = resolved imported }) ∷ []

abbrev before : Delegate
before = record { secrets = []; journal = some (encode numbers journal) }

migrate_delegate_secrets_journaled-keeps_imported_example :
    let s' =
      (migrate_delegate_secrets_journaled numbers display successor answering newest_snapshot_wins
        lineage before 0).1 in
    (m' : MigrationJournal) × (journal_of s' ≡ some (encode numbers m'))
    × IsSorted m'
    × Holds (λ t. t ≡ resolved imported) (get (1 ∷ []) m')
unfolding get
migrate_delegate_secrets_journaled-keeps_imported_example =
    migrate_delegate_secrets_journaled-keeps_imported numbers numbers-RoundTrips display successor
      journal_of successor-StoresJournal answering newest_snapshot_wins lineage (1 ∷ []) before 0
      journal (tt, tt) refl refl

-- An import from generation 2 is accepted, and its flag stored.
flag_accepted :
    (journal_before_import numbers display successor answering newest_snapshot_wins lineage
      (record { journal = journal; first_error = none }, before)
      (lineage_key (entry 2))
      2
      (some 1)).1
    ≡ ok tt
unfolding journal_before_import numbers mark_import_started get store_merged ◌>>=◌ decode encode
flag_accepted = refl

journal_before_import-stores_example :
    IsStored numbers display successor answering newest_snapshot_wins lineage
      (lineage_key (entry 2))
      (journal_before_import numbers display successor answering newest_snapshot_wins lineage
        (record { journal = journal; first_error = none }, before)
        (lineage_key (entry 2))
        2
        (some 1))
unfolding get with_data
journal_before_import-stores_example =
    journal_before_import-stores numbers display successor answering newest_snapshot_wins lineage
      (record { journal = journal; first_error = none }) before (lineage_key (entry 2)) 2 1 refl
      flag_accepted

migrate_delegate_secrets_journaled-reports_example :
    let out =
      migrate_delegate_secrets_journaled numbers display successor answering newest_snapshot_wins
        lineage before 0 in
    IsNewestFirst (map named out.0.report)
    × ((g : ℕ)
        → of_generation g (map named out.0.report) ≡ of_generation g (map with_generation lineage))
    × ((is_some out.0.status || is_some out.0.journal_error) ≡ true)
    × ((is_readable numbers (successor.load_journal before).1 ≡ true)
        ⊎ ((e : JournalError) × IsRefused numbers display successor answering newest_snapshot_wins
              lineage
              (display e)
              0
              out))
    × Comes numbers display successor answering newest_snapshot_wins lineage before 0 out
migrate_delegate_secrets_journaled-reports_example =
    migrate_delegate_secrets_journaled-reports numbers display successor answering
      newest_snapshot_wins lineage before 0
