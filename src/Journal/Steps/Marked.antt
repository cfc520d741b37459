-- ===== src/Journal/Steps/Marked.antt =====
-- What `mark_import_started` of freenet-migrate/src/journal.rs does to an entry.
use freenet_migrate.Prelude.{
  ℕ, ◌≡◌, refl, sym, subst, Bool, true, false, not, ◌||◌, ◌&&◌, Option, none, some, [], ◌∷◌, arith,
  ltb, get, get-insert, nat_eq,
}
use freenet_migrate.Journal.{
  JournalState, resolved, imported_with_rejections, JournalEntry, JournalBinding, MigrationJournal,
  DelegateKey, entry_or_fresh, mark_state, mark_import_started, note_items_seen, effective,
  merge_states,
}
use freenet_migrate.Journal.Merge.{rank, is_partial}
use freenet_migrate.Journal.Steps.{change, changes, note, Holds}
use freenet_migrate.Journal.Steps.Stable.{changes-Holds}
use freenet_migrate.Journal.Steps.Merged.{Survives}
use freenet_migrate.Journal.Steps.Persistence.{IsPartial, HasNoData, BringsNoData, IsPartial-stable}

abbrev pub says_data : Option JournalEntry → Bool
says_data none = false
says_data (some e) = ltb 0 (rank e.state)

abbrev pub says_partial : Option JournalEntry → Bool
says_partial none = false
says_partial (some e) = is_partial e.state

-- Of an entry without data: it is flagged now, and the change is reported unless it was before.
pub mark_import_started-flags :
    (m : MigrationJournal) (p : DelegateKey) (g : ℕ)
    → says_data (get p.key m) ≡ false
    → Holds IsPartial (get p.key (mark_import_started m p g).0)
      × ((mark_import_started m p g).1 ≡ not (says_partial (get p.key m)))
unfolding mark_import_started mark_state rank is_partial
mark_import_started-flags m p g h = (
  subst (Holds IsPartial) (sym (get-insert p.key _ m)) (flagged (get p.key m) h).0,
  (flagged (get p.key m) h).1,
)
  where
    flagged :
        (o : Option JournalEntry)
        → says_data o ≡ false
        → IsPartial (mark_state (entry_or_fresh o g).state).0
          × ((mark_state (entry_or_fresh o g).state).1 ≡ not (says_partial o))
    flagged none q = (refl, refl)
    flagged (some e) q = ground arith

pub note_items_seen-keeps_flag :
    (m : MigrationJournal) (p : DelegateKey) (n : ℕ)
    → Holds IsPartial (get p.key m)
    → Holds IsPartial (get p.key (note_items_seen m p n).0)
unfolding changes change
note_items_seen-keeps_flag m p n h =
    changes-Holds IsPartial HasNoData BringsNoData IsPartial-stable p.key (note p n ∷ []) m (tt, tt)
      h

-- No import is reopened under the binding.
is_settled : JournalBinding → JournalState → Bool
is_settled b (resolved (imported_with_rejections n revision i)) =
    not (ltb revision b.import_revision)
is_settled b _ = true

-- An import is under way, or its data is there.
unfoldable pub is_recorded : JournalBinding → JournalState → Bool
unfolding is_settled
is_recorded b s = is_partial s || (ltb 0 (rank s) && is_settled b s)

abbrev pub IsRecorded : JournalBinding → JournalState → Type 0
IsRecorded b s = is_recorded b s ≡ true

pub IsRecorded-Survives : (b : JournalBinding) → Survives (IsRecorded b) b
unfolding merge_states effective is_recorded is_partial rank
IsRecorded-Survives b t s h = ground arith

pub IsPartial-IsRecorded :
    (b : JournalBinding) (o : Option JournalEntry) → Holds IsPartial o → Holds (IsRecorded b) o
unfolding is_recorded
IsPartial-IsRecorded b none h = h
IsPartial-IsRecorded b (some e) h = ground arith

pub IsRecorded-says :
    (b : JournalBinding) (o : Option JournalEntry)
    → Holds (IsRecorded b) o
    → Holds (λ t. (is_partial t || ltb 0 (rank t)) ≡ true) o
unfolding is_recorded
IsRecorded-says b none h = h
IsRecorded-says b (some e) h = ground arith
