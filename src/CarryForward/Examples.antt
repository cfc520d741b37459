-- ===== src/CarryForward/Examples.antt =====
-- The theorems on freenet-migrate/src/contract.rs at concrete inputs.
use freenet_migrate.Prelude.{ℕ, ◌+◌, ◌⊎◌, [], ◌∷◌, Bytes, ltb, nat_eq, list_eq, if◌then◌else◌}
use freenet_migrate.Prelude.Result.{Result, ok, err}
use freenet_migrate.CarryForward.{ComposableState, carry_forward}
use freenet_migrate.CarryForward.Guarantees.{IsCarried, IsRefused, carry_forward-closed}

read_first : Bytes → Result Bytes ℕ
read_first [] = err []
read_first (b ∷ bytes) = ok b

-- A state is a number below 10, and merging adds.
abbrev counters : ComposableState ℕ (Unit {0}) (Unit {0})
counters = record {
  merge = λ s p q t. ok (s + t);
  verify = λ s p q. if ltb s 10 then ok tt else err [];
  into_writer = λ s. ok (s ∷ []);
  from_reader = read_first;
}

carry_forward-closed_example :
    IsCarried counters 3 4 tt tt (carry_forward counters 3 4 tt tt)
    ⊎ IsRefused counters 3 (carry_forward counters 3 4 tt tt)
carry_forward-closed_example = carry_forward-closed counters 3 4 tt tt
