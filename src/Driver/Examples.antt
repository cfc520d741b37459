-- ===== src/Driver/Examples.antt =====
-- The theorems on freenet-migrate/src/driver.rs at concrete inputs, and runs of the driver.
use freenet_migrate.Prelude.{
  ℕ, ◌+◌, ◌*◌, ◌≡◌, refl, false, map, Option, none, some, List, [], ◌∷◌, Bytes, nat_eq, leb,
  nat_beq, if◌then◌else◌,
}
use freenet_migrate.Prelude.Result.{ok}
use freenet_migrate.Lineage.{ContractLineageEntry}
use freenet_migrate.Driver.{
  ProbeAnswer, ProbeStateOps, newest_first_wins, fold_all, Recovery, recovered, seed_local, new,
  next_action, on_absent, on_response, take_outcome,
}
use freenet_migrate.Driver.Ordering.{
  from_lineage, with_generations, of_generation, IsNewestFirst, from_lineage-IsNewestFirst,
}
use freenet_migrate.Driver.Invariant.{
  next, take, response, absent, unknown, calls, Returns, IsValid,
}
use freenet_migrate.Driver.Invariant.Preserved.{calls-IsValid}
use freenet_migrate.Driver.Pump.{migrate_contract}
use freenet_migrate.Driver.Pump.Outcomes.{newest_promise, fold_promise}
use freenet_migrate.Driver.Pump.Outcomes.Migration.{migrate_contract-newest, migrate_contract-fold}
use freenet_migrate.Driver.Pump.Outcomes.Guarantees.{
  AdoptsNewest, AllMissed, scripted, migrate_contract-adopts, migrate_contract-seeds,
}

-- A state is a number; 0 is the default, and merging adds.
abbrev decode_first : Bytes → Option ℕ
decode_first [] = none
decode_first (b ∷ _) = some b

abbrev counter_ops : ProbeStateOps ℕ
counter_ops = record {
  decode = decode_first;
  is_real = λ s. leb 1 s;
  merge_with_local = λ s l. s + l;
  merge_generations = λ newer older. newer + older;
  prepare_forward = λ s. s * 10;
}

-- The identifier is the first byte of the code hash.
abbrev first_byte : Bytes → Bytes → ℕ
first_byte [] params = 0
first_byte (b ∷ _) params = b

abbrev entry : ℕ → ℕ → ContractLineageEntry
entry g b = record { generation = g; code_hash = b ∷ []; note = "" }

abbrev three : List ContractLineageEntry
three = entry 1 11 ∷ entry 3 13 ∷ entry 2 12 ∷ []

-- 13 is absent, 12 has data, 11 has older data.
abbrev newest_absent : ℕ → ProbeAnswer
newest_absent id = if nat_beq id 13 then ProbeAnswer.absent else ProbeAnswer.state (id ∷ [])

-- 13 is silent.
abbrev newest_silent : ℕ → ProbeAnswer
newest_silent id = if nat_beq id 13 then ProbeAnswer.unknown else ProbeAnswer.state (id ∷ [])

abbrev all_absent : ℕ → ProbeAnswer
all_absent id = ProbeAnswer.absent

ordered : from_lineage first_byte [] three ≡ 13 ∷ 12 ∷ 11 ∷ []
unfolding from_lineage
ordered = refl

from_lineage-IsNewestFirst_example :
    (sorted : List (ℕ × ℕ)) × (from_lineage first_byte [] three ≡ map (λ p. p.1) sorted)
    × IsNewestFirst sorted
    × ((g : ℕ) → of_generation g sorted ≡ of_generation g (with_generations first_byte [] three))
from_lineage-IsNewestFirst_example = from_lineage-IsNewestFirst first_byte [] three

calls-IsValid_example : Returns (IsValid {ContractId = ℕ}) (
    calls
      (next ∷ absent 13 ∷ next ∷ response 13 [] ∷ unknown 12 ∷ take ∷ next ∷ [])
      (new counter_ops 5 (13 ∷ 12 ∷ 11 ∷ []) newest_first_wins))
calls-IsValid_example =
    calls-IsValid counter_ops 5 (13 ∷ 12 ∷ 11 ∷ []) newest_first_wins
      (next ∷ absent 13 ∷ next ∷ response 13 [] ∷ unknown 12 ∷ take ∷ next ∷ [])

migrate_contract-newest_example :
    migrate_contract {W = ℕ} {E = ℕ} first_byte
      (scripted newest_silent)
      counter_ops
      5
      []
      three
      newest_first_wins
      0
    ≡ some
        (newest_promise (scripted newest_silent) counter_ops 5 (from_lineage first_byte [] three) 0)
migrate_contract-newest_example =
    migrate_contract-newest first_byte (scripted newest_silent) counter_ops 5 [] three 0

migrate_contract-fold_example :
    migrate_contract {W = ℕ} {E = ℕ} first_byte
      (scripted newest_silent)
      counter_ops
      5
      []
      three
      fold_all
      0
    ≡ some
        (fold_promise (scripted newest_silent) counter_ops 5 (from_lineage first_byte [] three) 0)
migrate_contract-fold_example =
    migrate_contract-fold first_byte (scripted newest_silent) counter_ops 5 [] three 0

abbrev adopted : Recovery ℕ ℕ
adopted = record { merged = 170; source = 12; truncated_fold = false; unresolved = [] }

adopts :
    migrate_contract {W = ℕ} {E = ℕ} first_byte
      (scripted newest_absent)
      counter_ops
      5
      []
      three
      newest_first_wins
      0
    ≡ some (ok (recovered adopted), 0)
unfolding migrate_contract from_lineage new next_action on_absent on_response take_outcome
adopts = refl

migrate_contract-adopts_example :
    AdoptsNewest newest_absent counter_ops 5 (from_lineage first_byte [] three) adopted
migrate_contract-adopts_example =
    migrate_contract-adopts first_byte newest_absent counter_ops 5 [] three 0 0 adopted adopts

seeds :
    migrate_contract {W = ℕ} {E = ℕ} first_byte
      (scripted all_absent)
      counter_ops
      5
      []
      three
      fold_all
      0
    ≡ some (ok (seed_local 50), 0)
unfolding migrate_contract from_lineage new next_action on_absent on_response take_outcome
seeds = refl

migrate_contract-seeds_example :
    AllMissed all_absent counter_ops (from_lineage first_byte [] three)
    × (◌≡◌ {A = ℕ} 50 (counter_ops.prepare_forward 5))
migrate_contract-seeds_example =
    migrate_contract-seeds first_byte all_absent counter_ops 5 [] three 0 0 fold_all 50 seeds
