-- ===== src/Journal.antt =====
-- freenet-migrate/src/journal.rs: the durable record of which predecessors a successor has dealt with.
-- A `u8` or `u32` is a number. `BTreeMap` is a sorted list of entries.
pub mod Status
pub mod Wire
pub mod Merge
pub mod Steps
pub mod Examples
use freenet_migrate.Prelude.{
  ℕ, zero, ◌+◌, max, Bool, true, false, not, ◌&&◌, ◌||◌, Option, none, some, List, [], ◌∷◌, Bytes,
  String, ltb, leb, nat_beq, if◌then◌else◌, sat_add, Map, get, insert,
}
use freenet_migrate.Lineage.{DelegateLineageEntry}

abbrev pub migration_journal_version : ℕ
migration_journal_version = 1

pub data JournalResolution : Type 0 where
  imported no_data : JournalResolution
  imported_with_rejections : ℕ → ℕ → ℕ → JournalResolution  -- rejected, revision, items_seen
  superseded_by_authoritative : JournalResolution

unfoldable pub is_data_bearing : JournalResolution → Bool
is_data_bearing imported = true
is_data_bearing (imported_with_rejections _ _ _) = true
is_data_bearing _ = false

pub data ImportFlag : Type 0 where
  idle started : ImportFlag

abbrev pub is_started : ImportFlag → Bool
is_started idle = false
is_started started = true

-- `ImportFlag::max`
abbrev pub flag_max : ImportFlag → ImportFlag → ImportFlag
flag_max flag started = started
flag_max flag idle = flag

pub record PendingState : Type 0 where
  pub attempts : ℕ
  pub flag : ImportFlag
  pub rejected : ℕ
  pub absent_streak : ℕ
  pub items_seen : ℕ

pub data JournalState : Type 0 where
  pending : PendingState → JournalState
  resolved : JournalResolution → JournalState

abbrev pub fresh : JournalState
fresh =
    pending (record { attempts = 0; flag = idle; rejected = 0; absent_streak = 0; items_seen = 0 })

pub record JournalEntry : Type 0 where
  pub generation : ℕ
  pub state : JournalState

-- Of delegate_migrate.rs; an acknowledgement carries no data.
pub data SecretSelectionPolicy : Type 0 where
  newest_snapshot_wins newest_snapshot_wins_continue_past_unresponsive : SecretSelectionPolicy
  union_all_generations : SecretSelectionPolicy

pub data PolicyFamily : Type 0 where
  newest_snapshot union : PolicyFamily

-- `PolicyFamily::of`
abbrev pub family_of : SecretSelectionPolicy → PolicyFamily
family_of newest_snapshot_wins = newest_snapshot
family_of newest_snapshot_wins_continue_past_unresponsive = newest_snapshot
family_of union_all_generations = union

pub record JournalBinding : Type 0 where
  pub policy : PolicyFamily
  pub import_revision : ℕ

abbrev pub binding_of : SecretSelectionPolicy → ℕ → JournalBinding
binding_of policy revision = record { policy = family_of policy; import_revision = revision }

-- The field `entries`.
abbrev pub MigrationJournal : Type 0
MigrationJournal = Map JournalEntry

pub record DelegateKey : Type 0 where
  pub key : Bytes
  pub code_hash : Bytes

-- `lineage_key`
abbrev pub lineage_key : DelegateLineageEntry → DelegateKey
lineage_key e = record { key = e.delegate_key; code_hash = e.code_hash }

pub data RunOutcome : Type 0 where
  resolved_as : JournalResolution → RunOutcome
  unresolved : Bool → RunOutcome  -- absent
  unexamined : RunOutcome

pub new_pending_from : MigrationJournal → List DelegateLineageEntry → MigrationJournal
new_pending_from journal [] = journal
new_pending_from journal (e ∷ es) =
    new_pending_from
      (insert e.delegate_key (record { generation = e.generation; state = fresh }) journal) es

pub new_pending : List DelegateLineageEntry → MigrationJournal
unfolding new_pending_from
new_pending predecessors = new_pending_from [] predecessors

unfoldable pub effective : JournalState → JournalBinding → JournalState
effective (resolved superseded_by_authoritative) binding = elim binding.policy [
  | newest_snapshot ↦ resolved superseded_by_authoritative
  | union ↦ fresh
]
effective (resolved (imported_with_rejections rejected revision items_seen)) binding =
    if ltb revision binding.import_revision
    then pending (record {
      attempts = 0;
      flag = idle;
      rejected = rejected;
      absent_streak = 0;
      items_seen = items_seen;
    })
    else resolved (imported_with_rejections rejected revision items_seen)
effective other binding = other

unfoldable pub completeness_rank : JournalResolution → ℕ
completeness_rank no_data = 0
completeness_rank superseded_by_authoritative = 0
completeness_rank (imported_with_rejections _ _ _) = 1
completeness_rank imported = 2

-- The four arms of `merge_states`.
merge_resolutions : JournalResolution → JournalResolution → JournalResolution
unfolding completeness_rank
merge_resolutions (imported_with_rejections na ra ia) (imported_with_rejections nb rb ib) =
    if leb ra rb
    then imported_with_rejections nb rb (max ia ib)
    else imported_with_rejections na ra (max ia ib)
merge_resolutions a b = if ltb (completeness_rank a) (completeness_rank b) then b else a

with_seen : JournalResolution → ℕ → JournalResolution
with_seen (imported_with_rejections rejected revision items_seen) seen =
    imported_with_rejections rejected revision (max items_seen seen)
with_seen r seen = r

merge_mixed : JournalResolution → PendingState → JournalState
unfolding is_data_bearing with_seen
merge_mixed r p =
    if not (is_data_bearing r) && is_started p.flag
    then pending p
    else resolved (with_seen r p.items_seen)

unfoldable pub merge_states : JournalState → JournalState → JournalState
unfolding merge_resolutions merge_mixed
merge_states (resolved a) (resolved b) = resolved (merge_resolutions a b)
merge_states (resolved r) (pending p) = merge_mixed r p
merge_states (pending p) (resolved r) = merge_mixed r p
merge_states (pending p) (pending q) = pending (record {
  attempts = max p.attempts q.attempts;
  flag = flag_max p.flag q.flag;
  rejected = max p.rejected q.rejected;
  absent_streak = q.absent_streak;
  items_seen = max p.items_seen q.items_seen;
})

-- `rebind`
unfoldable pub rebind : JournalBinding → MigrationJournal → MigrationJournal
unfolding effective
rebind binding [] = []
rebind binding ((k, e) ∷ es) =
    (k, record e { state = effective e.state binding }) ∷ rebind binding es

-- `.entry(key).or_insert(…)`
abbrev entry_or_fresh : Option JournalEntry → ℕ → JournalEntry
entry_or_fresh none generation = record { generation = generation; state = fresh }
entry_or_fresh (some e) generation = e

-- The `match` of `mark_import_started`: the new state, and whether it changed.
pub mark_state : JournalState → JournalState × Bool
unfolding is_data_bearing
mark_state (pending p) =
    if not (is_started p.flag)
    then (pending (record p { flag = started }), true)
    else (pending p, false)
mark_state (resolved r) =
    if not (is_data_bearing r)
    then (
      pending (record {
        attempts = 0;
        flag = started;
        rejected = 0;
        absent_streak = 0;
        items_seen = 0;
      }),
      true,
    )
    else (resolved r, false)

unfoldable pub mark_import_started : MigrationJournal → DelegateKey → ℕ → MigrationJournal × Bool
unfolding mark_state
mark_import_started journal predecessor generation =
    let e = entry_or_fresh (get predecessor.key journal) generation in
    let (state, changed) = mark_state e.state in
    (insert predecessor.key (record e { state = state }) journal, changed)

seen_of : Option JournalEntry → ℕ
seen_of none = 0
seen_of (some e) = elim e.state [ pending p ↦ p.items_seen | resolved _ ↦ 0 ]

pub items_seen_of : MigrationJournal → DelegateKey → ℕ
unfolding seen_of
items_seen_of journal predecessor = seen_of (get predecessor.key journal)

-- The `match` of `note_items_seen`: `none` where nothing changes.
pub note_state : JournalState → ℕ → Option JournalState
note_state (pending p) items =
    if is_started p.flag && ltb p.items_seen items
    then some (pending (record p { items_seen = items }))
    else none
note_state (resolved r) items = none

note_entry : Option JournalEntry → ℕ → Option JournalEntry
unfolding note_state
note_entry none items = none
note_entry (some e) items = elim (note_state e.state items) [
  | none ↦ none
  | some s ↦ some (record e { state = s })
]

put_noted : MigrationJournal → Bytes → Option JournalEntry → MigrationJournal × Bool
put_noted journal key none = (journal, false)
put_noted journal key (some e) = (insert key e journal, true)

unfoldable pub note_items_seen : MigrationJournal → DelegateKey → ℕ → MigrationJournal × Bool
unfolding note_entry put_noted
note_items_seen journal predecessor items =
    put_noted journal predecessor.key (note_entry (get predecessor.key journal) items)

-- `ours` of `record`
pub outcome_state : JournalState → RunOutcome → JournalState
outcome_state (pending p) (resolved_as (imported_with_rejections rejected revision resolved_seen)) =
    resolved (imported_with_rejections rejected revision (max p.items_seen resolved_seen))
outcome_state _ (resolved_as r) = resolved r
outcome_state (pending p) (unresolved absent) = pending (record {
  attempts = sat_add p.attempts 1;
  flag = p.flag;
  rejected = p.rejected;
  absent_streak = if absent then sat_add p.absent_streak 1 else 0;
  items_seen = p.items_seen;
})
outcome_state current _ = current

-- `record`
unfoldable pub record_outcome : MigrationJournal → DelegateKey → ℕ → RunOutcome → MigrationJournal
unfolding outcome_state merge_states
record_outcome journal predecessor generation outcome =
    let e = entry_or_fresh (get predecessor.key journal) generation in
    insert predecessor.key
      (record {
        generation = generation;
        state = merge_states e.state (outcome_state e.state outcome);
      })
      journal

abbrev eval : Option JournalBinding → JournalState → JournalState
eval none s = s
eval (some b) s = effective s b

merge_entry : Option JournalBinding → Option JournalEntry → JournalEntry → JournalEntry
unfolding merge_states
merge_entry binding (some ours) theirs = record {
  generation = ours.generation;
  state = merge_states (eval binding theirs.state) (eval binding ours.state);
}
merge_entry binding none theirs = record {
  generation = theirs.generation;
  state = eval binding theirs.state;
}

-- The loop over `stored`.
unfoldable pub merge_stored :
    MigrationJournal → MigrationJournal → Option JournalBinding → MigrationJournal
unfolding merge_entry
merge_stored journal [] binding = journal
merge_stored journal ((key, theirs) ∷ stored) binding =
    merge_stored (insert key (merge_entry binding (get key journal) theirs) journal) stored binding
