-- ===== src/Journal/Status.antt =====
-- The completeness that a journal of freenet-migrate/src/journal.rs records.
pub mod Promise
use freenet_migrate.Prelude.{
  ℕ, ◌+◌, ◌≤◌, ◌≡◌, ◌↔◌, refl, min, max, Bool, true, false, not, ◌&&◌, ◌||◌, Option, none, some,
  List, [], ◌∷◌, arith, Bytes, leb, is_empty, if◌then◌else◌, sat_add, u32_max, get, ap, ◌∙◌, sym,
  ◌++◌,
}
use freenet_migrate.Prelude.Result.{Result, ok, err}
use freenet_migrate.Lineage.{DelegateLineageEntry}
use freenet_migrate.Journal.{
  JournalResolution, imported_with_rejections, ImportFlag, idle, started, is_started, PendingState,
  JournalState, pending, resolved, JournalEntry, JournalBinding, MigrationJournal, DelegateKey,
  lineage_key, effective,
}

pub record PendingPredecessor : Type 0 where
  pub key : DelegateKey
  pub generation : ℕ
  pub attempts : ℕ
  pub flag : ImportFlag
  pub absent_streak : ℕ
  pub items_seen : ℕ

pub data CorruptText : Type 0 where
  codec_error listed_twice : CorruptText
  trailing_bytes unknown_flag unknown_state : ℕ → CorruptText

pub data JournalDecodeError : Type 0 where
  unknown_version : ℕ → JournalDecodeError
  corrupt : CorruptText → JournalDecodeError

pub data JournalStatus : Type 0 where
  not_started : JournalStatus
  unreadable : JournalDecodeError → JournalStatus
  complete : ℕ → JournalStatus
  incomplete : List PendingPredecessor → ℕ → JournalStatus

unfoldable pub is_complete : JournalStatus → Bool
is_complete (complete _) = true
is_complete _ = false

pub rejected_items : JournalStatus → ℕ
rejected_items (complete n) = n
rejected_items (incomplete _ n) = n
rejected_items _ = 0

-- `pending.iter().any(…)`
any_started : List PendingPredecessor → Bool
any_started [] = false
any_started (p ∷ ps) = is_started p.flag || any_started ps

unfoldable pub interrupted_import : JournalStatus → Bool
unfolding any_started
interrupted_import (unreadable _) = true
interrupted_import (incomplete ps _) = any_started ps
interrupted_import _ = false

-- `pending.iter().all(…)`
all_absent : List PendingPredecessor → ℕ → Bool
all_absent [] min_streak = true
all_absent (p ∷ ps) min_streak =
    not (is_started p.flag) && leb (max min_streak 1) p.absent_streak && all_absent ps min_streak

pub pending_all_absent : JournalStatus → ℕ → Bool
unfolding all_absent
pending_all_absent (incomplete ps _) min_streak = all_absent ps min_streak
pending_all_absent _ min_streak = false

-- `effective_state`
abbrev under : JournalBinding → Option JournalEntry → Option JournalState
under binding none = none
under binding (some e) = some (effective e.state binding)

unfoldable pub effective_state : MigrationJournal → Bytes → JournalBinding → Option JournalState
effective_state journal key binding = under binding (get key journal)

-- `PendingPredecessor { .. }` of one entry
abbrev pending_of : DelegateLineageEntry → PendingState → PendingPredecessor
pending_of e p = record {
  key = lineage_key e;
  generation = e.generation;
  attempts = p.attempts;
  flag = p.flag;
  absent_streak = p.absent_streak;
  items_seen = p.items_seen;
}

abbrev nothing_known : PendingState
nothing_known = record {
  attempts = 0;
  flag = idle;
  rejected = 0;
  absent_streak = 0;
  items_seen = 0;
}

-- One turn of the loop of `status`, on `pending` and `rejected`.
status_step :
    DelegateLineageEntry
    → Option JournalState
    → List PendingPredecessor × ℕ
    → List PendingPredecessor × ℕ
status_step e (some (resolved (imported_with_rejections n _ _))) (ps, rejected) =
    (ps, sat_add rejected n)
status_step e (some (resolved _)) (ps, rejected) = (ps, rejected)
status_step e (some (pending p)) (ps, rejected) =
    (ps ++ pending_of e p ∷ [], sat_add rejected p.rejected)
status_step e none (ps, rejected) = (ps ++ pending_of e nothing_known ∷ [], rejected)

status_loop :
    MigrationJournal
    → JournalBinding
    → List DelegateLineageEntry
    → List PendingPredecessor × ℕ
    → List PendingPredecessor × ℕ
unfolding status_step effective_state
status_loop journal binding [] acc = acc
status_loop journal binding (e ∷ es) acc =
    status_loop journal binding es
      (status_step e (effective_state journal e.delegate_key binding) acc)

conclude : List PendingPredecessor × ℕ → JournalStatus
conclude ([], rejected) = complete rejected
conclude (p ∷ ps, rejected) = incomplete (p ∷ ps) rejected

unfoldable pub status :
    MigrationJournal → List DelegateLineageEntry → JournalBinding → JournalStatus
unfolding status_loop conclude
status journal predecessors binding = conclude (status_loop journal binding predecessors ([], 0))
