-- ===== src/Pointer.antt =====
-- freenet-migrate/src/pointer.rs: the floor of the canonical successor pointer's resolver,
-- and what a served record comes to under it.
-- The record is a copy of the pointer contract's, whose definition stands for both.
pub mod Order
pub mod Resolver
mod Examples
use freenet_migrate.Prelude.{
  ℕ, zero, suc, Bool, true, false, not, ◌&&◌, ◌||◌, Option, none, some, List, [], ◌∷◌, Bytes, ltb,
  nat_beq, PartialEq, nat_eq, list_beq, lex_ltb, is_empty, if◌then◌else◌,
}
use freenet_migrate.Prelude.Fault.{◌>>=◌}
use freenet_migrate.Prelude.Result.{Result, ok, err, map_err}
use freenet_migrate.PointerContract.{
  Ed25519, max_version, tombstone_code_hash, encode_params, PointerRecord, decode, verify,
  is_tombstone,
}
use freenet_migrate.PointerContract

pub data PointerError : Type 0 where
  of_record : PointerContract.PointerError → PointerError
  floor_version : ℕ → PointerError
  floor_tombstone : PointerError

pub record ResolvedPointer : Type 0 where
  pub version : ℕ
  pub code_hash : Bytes

pub record PointerFloor : Type 0 where
  pub version : ℕ
  pub code_hash : Option Bytes

pub never_resolved : PointerFloor
never_resolved = record { version = 0; code_hash = none }

-- `PointerFloor::at`
unfoldable pub floor_at : ℕ → Bytes → Result PointerError PointerFloor
floor_at version code_hash =
    if nat_beq version 0 || ltb max_version version
    then err (floor_version version)
    else if list_beq code_hash tombstone_code_hash
    then err floor_tombstone
    else ok (record { version = version; code_hash = some code_hash })

unfoldable pub withdrawn_at : ℕ → Result PointerError PointerFloor
withdrawn_at version =
    if nat_beq version 0 || ltb max_version version
    then err (floor_version version)
    else ok (record { version = version; code_hash = some tombstone_code_hash })

abbrev pub has_ever_resolved : PointerFloor → Bool
has_ever_resolved floor = ltb 0 floor.version

pub data PointerOutcome : Type 0 where
  resolved unchanged : ResolvedPointer → PointerOutcome
  competing_record withdrawn : ℕ → PointerOutcome
  never_published unavailable : PointerOutcome
  stale : ℕ → ℕ → PointerOutcome  -- served, floor

unfoldable pub may_use_baked_in_fallback : PointerOutcome → Bool
may_use_baked_in_fallback never_published = true
may_use_baked_in_fallback _ = false

abbrev ok_of : {E A : Type 0} → Result E A → Option A
ok_of (ok a) = some a
ok_of (err e) = none

unfoldable pub next_floor : PointerOutcome → Option PointerFloor
unfolding floor_at withdrawn_at
next_floor (resolved r) = ok_of (floor_at r.version r.code_hash)
next_floor (unchanged r) = ok_of (floor_at r.version r.code_hash)
next_floor (withdrawn version) = ok_of (withdrawn_at version)
next_floor _ = none

abbrev of_pointer : PointerRecord → ResolvedPointer
of_pointer r = record { version = r.version; code_hash = r.code_hash }

unfoldable pub adopt : PointerRecord → PointerOutcome
unfolding is_tombstone
adopt r = if is_tombstone r then withdrawn r.version else resolved (of_pointer r)

unfoldable pub unchanged_by : PointerRecord → PointerOutcome
unfolding is_tombstone
unchanged_by r = if is_tombstone r then withdrawn r.version else unchanged (of_pointer r)

-- The `match` on the two hashes.
order_hashes : PointerRecord → Bytes → PointerOutcome
unfolding adopt unchanged_by
order_hashes r floor_hash =
    if lex_ltb r.code_hash floor_hash
    then adopt r
    else if lex_ltb floor_hash r.code_hash
    then competing_record r.version
    else unchanged_by r

-- `order`, on the floor and its hash.
order_from : ℕ → Option Bytes → PointerRecord → PointerOutcome
unfolding adopt order_hashes
order_from floor none r =
    if nat_beq floor 0
    then adopt r
    else if ltb floor r.version
    then adopt r
    else stale r.version floor
order_from floor (some floor_hash) r =
    if ltb r.version floor
    then stale r.version floor
    else if ltb floor r.version
    then adopt r
    else order_hashes r floor_hash

unfoldable pub order : PointerFloor → PointerRecord → PointerOutcome
unfolding order_from
order floor r = order_from floor.version floor.code_hash r
