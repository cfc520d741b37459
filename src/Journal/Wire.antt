-- ===== src/Journal/Wire.antt =====
-- The stored form of a journal of freenet-migrate/src/journal.rs.
-- The CBOR codec (`ciborium` with `serde`) is a parameter.
pub mod RoundTrip
use freenet_migrate.Prelude.{
  ℕ, ◌≡◌, refl, Bool, true, false, Option, none, some, List, [], ◌∷◌, arith, Bytes, length,
  is_empty, nat_beq, if◌then◌else◌, Map, get, insert,
}
use freenet_migrate.Prelude.Result.{Result, ok, err, ◌>>=◌, ◌>>◌}
use freenet_migrate.Lineage.{DelegateLineageEntry}
use freenet_migrate.Journal.{
  migration_journal_version, JournalResolution, imported, no_data, imported_with_rejections,
  superseded_by_authoritative, ImportFlag, idle, started, is_started, PendingState, JournalState,
  pending, resolved, JournalEntry, JournalBinding, MigrationJournal,
}
use freenet_migrate.Journal.Status.{
  CorruptText, codec_error, listed_twice, trailing_bytes, unknown_flag, unknown_state,
  JournalDecodeError, unknown_version, corrupt, JournalStatus, not_started, unreadable, status,
}

pub record WireEntry : Type 0 where
  pub key : Bytes
  pub generation : ℕ
  pub state : ℕ
  pub attempts : ℕ
  pub flag : ℕ
  pub absent_streak : ℕ
  pub rejected : ℕ
  pub revision : ℕ
  pub items_seen : ℕ

pub record WireJournal : Type 0 where
  pub v : ℕ
  pub entries : List WireEntry

-- `into_writer` into a vector, and `from_reader` at the two types: `none` is an error, and the bytes
-- that are left stand beside the value.
pub record Cbor : Type 0 where
  pub into_writer : WireJournal → Bytes
  pub read_version : Bytes → Option ℕ
  pub read_journal : Bytes → Option (WireJournal × Bytes)

-- What is written reads back and leaves nothing, and its version reads on its own.
pub record RoundTrips (cbor : Cbor) : Type 0 where
  pub version : (w : WireJournal) → cbor.read_version (cbor.into_writer w) ≡ some w.v
  pub journal : (w : WireJournal) → cbor.read_journal (cbor.into_writer w) ≡ some (w, [])

abbrev blank : Bytes → ℕ → WireEntry
blank key generation = record {
  key = key;
  generation = generation;
  state = 0;
  attempts = 0;
  flag = 0;
  absent_streak = 0;
  rejected = 0;
  revision = 0;
  items_seen = 0;
}

flag_code : ImportFlag → ℕ
flag_code idle = 0
flag_code started = 1

wire_state : WireEntry → JournalState → WireEntry
unfolding flag_code
wire_state w (pending p) = record w {
  items_seen = p.items_seen;
  attempts = p.attempts;
  flag = flag_code p.flag;
  absent_streak = p.absent_streak;
  rejected = p.rejected;
}
wire_state w (resolved imported) = record w { state = 1 }
wire_state w (resolved no_data) = record w { state = 2 }
wire_state w (resolved (imported_with_rejections rejected revision items_seen)) = record w {
  state = 4;
  rejected = rejected;
  revision = revision;
  items_seen = items_seen;
}
wire_state w (resolved superseded_by_authoritative) = record w { state = 5 }

wire_entries : MigrationJournal → List WireEntry
unfolding wire_state
wire_entries [] = []
wire_entries ((key, e) ∷ es) = wire_state (blank key e.generation) e.state ∷ wire_entries es

read_flag : ℕ → Result JournalDecodeError ImportFlag
read_flag n =
    if nat_beq n 0
    then ok idle
    else if nat_beq n 1
    then ok started
    else err (corrupt (unknown_flag n))

read_pending : WireEntry → Result JournalDecodeError JournalState
unfolding read_flag
read_pending w = do
  flag ← read_flag w.flag
  ok (
      pending (record {
        attempts = w.attempts;
        flag = flag;
        rejected = w.rejected;
        absent_streak = w.absent_streak;
        items_seen = w.items_seen;
      }))

-- The `match` on `w.state`.
read_state : WireEntry → Result JournalDecodeError JournalState
unfolding read_pending
read_state w =
    if nat_beq w.state 0
    then read_pending w
    else if nat_beq w.state 1
    then ok (resolved imported)
    else if nat_beq w.state 2
    then ok (resolved no_data)
    else if nat_beq w.state 4
    then ok (resolved (imported_with_rejections w.rejected w.revision w.items_seen))
    else if nat_beq w.state 5
    then ok (resolved superseded_by_authoritative)
    else err (corrupt (unknown_state w.state))

-- `if journal.entries.insert(w.key, entry).is_some()`
add_entry : MigrationJournal → Bytes → JournalEntry → Result JournalDecodeError MigrationJournal
add_entry journal key e = elim (get key journal) [
  | some _ ↦ err (corrupt listed_twice)
  | none ↦ ok (insert key e journal)
]

read_entries : MigrationJournal → List WireEntry → Result JournalDecodeError MigrationJournal
unfolding read_state add_entry
read_entries journal [] = ok journal
read_entries journal (w ∷ ws) = do
  state ← read_state w
  journal' ← add_entry journal w.key (record { generation = w.generation; state = state })
  read_entries journal' ws

module _ (cbor : Cbor) where
  unfoldable pub encode : MigrationJournal → Bytes
  unfolding wire_entries
  encode journal =
      cbor.into_writer (record { v = migration_journal_version; entries = wire_entries journal })

  read_whole : WireJournal × Bytes → Result JournalDecodeError MigrationJournal
  unfolding read_entries
  read_whole (wire, []) = read_entries [] wire.entries
  read_whole (wire, b ∷ rest) = err (corrupt (trailing_bytes (length (b ∷ rest))))

  -- After the version.
  read_checked : ℕ → Bytes → Result JournalDecodeError MigrationJournal
  unfolding read_whole
  read_checked version bytes =
      if nat_beq version migration_journal_version
      then elim (cbor.read_journal bytes) [
        | none ↦ err (corrupt codec_error)
        | some r ↦ read_whole r
      ]
      else err (unknown_version version)

  unfoldable pub decode : Bytes → Result JournalDecodeError MigrationJournal
  unfolding read_checked
  decode bytes = elim (cbor.read_version bytes) [
    | none ↦ err (corrupt codec_error)
    | some version ↦ read_checked version bytes
  ]

  pub journal_status : Option Bytes → List DelegateLineageEntry → JournalBinding → JournalStatus
  unfolding decode
  journal_status none predecessors binding = not_started
  journal_status (some bytes) predecessors binding = elim (decode bytes) [
    | ok journal ↦ status journal predecessors binding
    | err e ↦ unreadable e
  ]
