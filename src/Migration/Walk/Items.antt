-- ===== src/Migration/Walk/Items.antt =====
-- The loop over the items of one predecessor in freenet-migrate/src/delegate_migrate.rs: its variables.
use freenet_migrate.Prelude.{
  ℕ, ◌+◌, min, Bool, true, false, ◌&&◌, ◌||◌, Option, none, some, List, [], ◌∷◌, ◌++◌, map, Bytes,
  if◌then◌else◌, nat_eq, list_eq, contains, length, u32_max,
}
use freenet_migrate.Prelude.Result.{Result, ok, err}
use freenet_migrate.Secrets.{SecretPair}
use freenet_migrate.Migration.{
  MigrationMarker, in_progress, done, retryable, permanent, ItemWrite, written,
  already_authoritative, failed, ImportTally, no_items, is_clean, item, flush, is_item, printed,
  WriterFailure,
}

abbrev pub distinct : List Bytes → List Bytes
distinct [] = []
distinct (k ∷ ks) = if contains ks k then distinct ks else k ∷ distinct ks

abbrev key_of : SecretPair → Bytes
key_of p = p.0

-- `exported`: the number of keys, without repetition.
unfoldable pub exported_count : List SecretPair → ℕ
exported_count items = min (length (distinct (map key_of items))) u32_max

-- `(retry, prior_saw_data)`
unfoldable pub prior_attempt : Option MigrationMarker → Bool → Bool × Bool
prior_attempt (some (in_progress saw_data)) known_data = (true, saw_data || known_data)
prior_attempt (some (done _)) known_data = (true, true)
prior_attempt none known_data = (known_data, known_data)

-- The variables of the loop over the items.
pub record Items : Type 0 where
  pub tally : ImportTally
  pub failure : Option WriterFailure
  pub newly_withheld : List Bytes
  pub unflushed : List Bytes

abbrev pub no_items_yet : Items
no_items_yet = record { tally = no_items; failure = none; newly_withheld = []; unflushed = [] }

abbrev or_failure : Option WriterFailure → WriterFailure → Option WriterFailure
or_failure none f = some f
or_failure (some f) g = some f

-- The match on what `write_secret` says.
unfoldable pub note_write : Bytes → ItemWrite → Items → Items
note_write key written x = record x {
  tally = record (x.tally) { written = x.tally.written + 1 };
  unflushed = key ∷ x.unflushed;
}
note_write key already_authoritative x = record x {
  tally = record (x.tally) { skipped = x.tally.skipped + 1 };
  unflushed = key ∷ x.unflushed;
}
note_write key (failed error retryable) x = record x {
  tally = record (x.tally) { failed = x.tally.failed + 1 };
  failure = or_failure x.failure (record { stage = item; error = printed error });
  newly_withheld = key ∷ x.newly_withheld;
}
note_write key (failed error permanent) x = record x {
  tally = record (x.tally) { rejected = x.tally.rejected + 1 };
  failure = or_failure x.failure (record { stage = item; error = printed error });
}

-- A failed flush, which takes the place of no failure or of that of an item.
abbrev flush_failure : Option WriterFailure → WriterFailure → Option WriterFailure
flush_failure none g = some g
flush_failure (some f) g = if is_item f.stage then some g else some f

unfoldable pub note_flush : Result Bytes (Unit {0}) → Items → Items
note_flush (ok _) x = x
note_flush (err e) x = record x {
  tally = record (x.tally) { written = 0; failed = x.tally.failed + x.tally.written };
  failure = flush_failure x.failure (record { stage = flush; error = printed e });
}

-- What `withheld_keys` is extended by.
unfoldable pub held_back : Result Bytes (Unit {0}) → Items → List Bytes
held_back (ok _) x = x.newly_withheld
held_back (err e) x = x.unflushed ++ x.newly_withheld

-- `tally.is_clean() && failure.is_none()`
unfoldable pub all_taken : Items → Bool
unfolding is_clean
all_taken x = is_clean x.tally && elim x.failure [ none ↦ true | some _ ↦ false ]
