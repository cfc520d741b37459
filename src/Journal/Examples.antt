-- ===== src/Journal/Examples.antt =====
-- The theorems on freenet-migrate/src/journal.rs at concrete inputs, with a codec of numbers.
use freenet_migrate.Prelude.{
  ℕ, zero, suc, ◌≡◌, refl, ap, ap₂, ◌∙◌, true, false, ◌&&◌, ◌||◌, not, max, Option, none, some,
  List, [], ◌∷◌, ◌++◌, Bytes, All, length, take, drop, take-append, drop-append, get, IsSorted,
  lex_ltb, ltb, leb,
}
use freenet_migrate.Prelude.Result.{ok}
use freenet_migrate.Lineage.{DelegateLineageEntry}
use freenet_migrate.Journal.{
  imported, no_data, imported_with_rejections, superseded_by_authoritative, started, JournalState,
  pending, resolved, JournalEntry, JournalBinding, newest_snapshot, union, MigrationJournal,
  DelegateKey, resolved_as, is_data_bearing, merge_states,
}
use freenet_migrate.Journal.Merge.{rank, is_partial, is_resolved, merge_states-keeps}
use freenet_migrate.Journal.Status.{status, interrupted_import, is_complete}
use freenet_migrate.Journal.Status.Promise.{status_promise, status-eq-promise}
use freenet_migrate.Journal.Wire.{WireEntry, WireJournal, Cbor, RoundTrips, encode, decode}
use freenet_migrate.Journal.Wire.RoundTrip.{decode-encode}
use freenet_migrate.Journal.Steps.{Change, mark, outcome, stored, bind, changes, Holds, Brings}
use freenet_migrate.Journal.Steps.Persistence.{BringsNoData, HasNoData, changes-stay_interrupted}

-- A codec: the length of each key, the key, and the numbers.
write_all : List WireEntry → Bytes
write_all [] = []
write_all (w ∷ ws) =
    length w.key
    ∷ (w.key
        ++ w.generation
          ∷ w.state
          ∷ w.attempts
          ∷ w.flag
          ∷ w.absent_streak
          ∷ w.rejected
          ∷ w.revision
          ∷ w.items_seen
          ∷ write_all ws)

more : WireEntry → Option (List WireEntry × Bytes) → Option (List WireEntry × Bytes)
more w none = none
more w (some (ws, rest)) = some (w ∷ ws, rest)

fields : (Bytes → Option (List WireEntry × Bytes)) → Bytes → Bytes → Option (List WireEntry × Bytes)
unfolding more
fields next key (g ∷ s ∷ a ∷ f ∷ b ∷ r ∷ v ∷ i ∷ rest) =
    more
      (record {
        key = key;
        generation = g;
        state = s;
        attempts = a;
        flag = f;
        absent_streak = b;
        rejected = r;
        revision = v;
        items_seen = i;
      })
      (next rest)
fields next key _ = none

read_all : ℕ → Bytes → Option (List WireEntry × Bytes)
unfolding fields
read_all zero bytes = some ([], bytes)
read_all (suc n) [] = none
read_all (suc n) (l ∷ bytes) = fields (read_all n) (take l bytes) (drop l bytes)

versioned : ℕ → Option (List WireEntry × Bytes) → Option (WireJournal × Bytes)
versioned v none = none
versioned v (some (ws, rest)) = some (record { v = v; entries = ws }, rest)

read_counted : Bytes → Option (WireJournal × Bytes)
unfolding read_all versioned
read_counted (v ∷ n ∷ bytes) = versioned v (read_all n bytes)
read_counted _ = none

first : Bytes → Option ℕ
first [] = none
first (v ∷ bytes) = some v

unfoldable pub numbers : Cbor
unfolding write_all read_counted first
numbers = record {
  into_writer = λ w. w.v ∷ length w.entries ∷ write_all w.entries;
  read_version = first;
  read_journal = read_counted;
}

read_all-write_all : (ws : List WireEntry) → read_all (length ws) (write_all ws) ≡ some (ws, [])
unfolding read_all write_all
read_all-write_all [] = refl
read_all-write_all (w ∷ ws) =
    let tail : Bytes =
      w.generation
      ∷ w.state
      ∷ w.attempts
      ∷ w.flag
      ∷ w.absent_streak
      ∷ w.rejected
      ∷ w.revision
      ∷ w.items_seen
      ∷ write_all ws in
    ap₂ (fields (read_all (length ws))) (take-append (length w.key) w.key tail refl)
      (drop-append (length w.key) w.key tail refl)
    ∙ ap (more w) (read_all-write_all ws)

pub numbers-RoundTrips : RoundTrips numbers
unfolding numbers
numbers-RoundTrips = record {
  version = λ w. refl;
  journal = λ w. ap (versioned w.v) (read_all-write_all w.entries);
}

-- Two predecessors: one is being imported, one was imported except for three items at revision 1.
abbrev entry : ℕ → ℕ → DelegateLineageEntry
entry g b = record {
  generation = g;
  code_hash = b ∷ [];
  delegate_key = b ∷ [];
  irregular_key = false;
  note = "";
}

abbrev importing : JournalState
importing =
    pending
      (record { attempts = 1; flag = started; rejected = 0; absent_streak = 0; items_seen = 5 })

abbrev of_state : JournalState → JournalEntry
of_state s = record { generation = 1; state = s }

abbrev journal : MigrationJournal
journal =
    (1 ∷ [], of_state importing)
    ∷ (2 ∷ [], of_state (resolved (imported_with_rejections 3 1 9)))
    ∷ (3 ∷ [], of_state (resolved imported))
    ∷ []

abbrev lineage : List DelegateLineageEntry
lineage = entry 1 1 ∷ entry 2 2 ∷ entry 3 3 ∷ []

abbrev binding : JournalBinding
binding = record { policy = newest_snapshot; import_revision = 1 }

abbrev key_of : ℕ → DelegateKey
key_of b = record { key = b ∷ []; code_hash = b ∷ [] }

journal-IsSorted : IsSorted journal
unfolding lex_ltb
journal-IsSorted = ((refl, (refl, tt)), ((refl, tt), (tt, tt)))

decode-encode_example : decode numbers (encode numbers journal) ≡ ok journal
decode-encode_example = decode-encode numbers numbers-RoundTrips journal journal-IsSorted

merge_states-keeps_example :
    (rank (merge_states importing (resolved no_data))
      ≡ max (rank importing) (rank (resolved no_data)))
    × (is_partial (merge_states importing (resolved no_data)) ≡ (
        ltb (max (rank importing) (rank (resolved no_data))) 1
        && (is_partial importing || is_partial (resolved no_data))))
    × (is_resolved (merge_states importing (resolved no_data)) ≡ (
        leb 1 (max (rank importing) (rank (resolved no_data)))
        || ((is_resolved importing || is_resolved (resolved no_data))
            && not (is_partial importing || is_partial (resolved no_data)))))
    × (merge_states importing importing ≡ importing)
merge_states-keeps_example = merge_states-keeps importing (resolved no_data)

status-eq-promise_example : status journal lineage binding ≡ status_promise journal binding lineage
status-eq-promise_example = status-eq-promise journal binding lineage

-- Another walk found nothing, another session stored a superseded entry, and the policy changed.
abbrev later : List Change
later =
    outcome (key_of 1) 1 (resolved_as no_data)
    ∷ stored ((1 ∷ [], of_state (resolved superseded_by_authoritative)) ∷ []) (some binding)
    ∷ mark (key_of 2) 2
    ∷ bind (record { policy = union; import_revision = 2 })
    ∷ []

still_imported : Holds (λ s. s ≡ resolved imported) (get (3 ∷ []) journal)
unfolding get
still_imported = refl

under_way : Holds (λ s. is_partial s ≡ true) (get (1 ∷ []) journal)
unfolding get is_partial
under_way = refl

no_data_brought : All (Brings BringsNoData HasNoData (1 ∷ [])) later
unfolding rank is_data_bearing
no_data_brought = (λ h. refl, ((λ h. refl, tt), (tt, (tt, tt))))

changes-stay_interrupted_example :
    (interrupted_import (status (changes later journal) lineage binding) ≡ true)
    × (is_complete (status (changes later journal) lineage binding) ≡ false)
changes-stay_interrupted_example =
    changes-stay_interrupted [] (entry 2 2 ∷ entry 3 3 ∷ []) (entry 1 1) later journal binding
      no_data_brought under_way
