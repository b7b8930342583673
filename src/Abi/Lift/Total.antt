-- ===== src/Abi/Lift/Total.antt =====
-- `lift` and `read_from_memory` of crates/core/src/abi.rs, for every type of a well-formed
-- resolution: no panic, a fixed effect on the stack, and the fuel that is enough.
use wai_bindgen.Prelude.{ℕ, zero, suc, ◌+◌, ◌*◌, ◌≤◌, refl, length, arith}
use wai_bindgen.Wit.{WitType, TypeId}
use wai_bindgen.Wit.Laws.{IsFlattening, IsWellFormed, Below}
use wai_bindgen.Abi.Generator.{Context}
use wai_bindgen.Abi.Generator.Effect.{Effect, Any, last}
use wai_bindgen.Abi.Generator.Rules.{IsBindgen, emit-Effect, step_type_at}
use wai_bindgen.Abi.Lift.ArmsEffect.{LiftsFrom}
use wai_bindgen.Abi.Lift.Memory.{read_body}
use wai_bindgen.Abi.Lift.MemoryEffect.{
  ReadsTo, emit_and_lift-Effect, read_list_from_memory-Effect, read_kind-Effect,
}
use wai_bindgen.Abi.Lift.{lift_body, lift, read_from_memory}
use wai_bindgen.Abi.Lift.Effects.{lift_kind-Effect}

module _ {O S : Type 0} (c : Context O S) (law : IsBindgen c.resolve c.bindgen)
    (flat : IsFlattening c.resolve) (rank : TypeId → ℕ) (wf : IsWellFormed c.resolve rank) where
  mutual
    unfolding lift lift_body read_body

    pub lift_fuel :
        (n r : ℕ) (t : WitType)
        → Below c.resolve rank r t
        → 2 * r + 1 ≤ n
        → LiftsFrom c law (lift c n) t
    lift_fuel zero r t b h = absurd (omega arith)
    lift_fuel (suc n) r (WitType.id i) (d, found, ok, lt) h = step_type_at c _ i d found (
        lift_kind-Effect c law rank (rank i) (lift c n) (read_from_memory c n)
          (λ t b. lift_fuel n (rank i) t b (omega arith))
          (λ t b a o. read_fuel n (rank i) t b (omega arith) a o) i d d.kind (wf.defined i d found)
          ok (flat.flat_type (WitType.id i) d found))
    lift_fuel (suc n) r WitType.string b h =
        last 0 (emit-Effect c _ law) (omega (arith, flat.flat_type WitType.string)) (omega arith)
    lift_fuel (suc n) r t b h =
        last 0 (emit-Effect c _ law) (omega (arith, flat.flat_type t)) (omega arith)

    pub read_fuel :
        (n r : ℕ) (t : WitType)
        → Below c.resolve rank r t
        → 2 * r + 2 ≤ n
        → ReadsTo c law (read_from_memory c n) t
    read_fuel zero r t b h addr offset = absurd (omega arith)
    read_fuel (suc n) r (WitType.id i) (d, found, ok, lt) h addr offset =
        step_type_at c _ i d found (
          read_kind-Effect c law flat rank (rank i) (lift c n) (read_from_memory c n)
            (λ t b a o. read_fuel n (rank i) t b (omega arith) a o) i d d.kind
            (wf.defined i d found) ok (flat.flat_type (WitType.id i) d found)
            (lift_fuel n r (WitType.id i) (d, found, ok, lt) (omega arith)) addr offset)
    read_fuel (suc n) r WitType.string b h addr offset =
        read_list_from_memory-Effect c law (lift c n) WitType.string addr offset
          (lift_fuel n r WitType.string b (omega arith)) (flat.flat_type WitType.string)
    read_fuel (suc n) r t b h addr offset =
        emit_and_lift-Effect c law (lift c n) t addr _ (lift_fuel n r t b (omega arith))
          (flat.flat_type t) refl refl

  -- With fuel `2 * r + 1`, for a type of rank below `r`, `lift` takes one operand for each flat type
  -- of the type and leaves one. It does not panic.
  pub lift-Effect :
      (n r : ℕ) (t : WitType)
      → Below c.resolve rank r t
      → 2 * r + 1 ≤ n
      → Effect (lift c n t) (length (c.resolve.push_flat t)) Any 1
  lift-Effect n r t b fuel = lift_fuel n r t b fuel

  -- With fuel `2 * r + 2`, for a type of rank below `r`, `read_from_memory` takes no operand and
  -- leaves one. It does not panic.
  pub read_from_memory-Effect :
      (n r : ℕ) (t : WitType)
      → Below c.resolve rank r t
      → 2 * r + 2 ≤ n
      → (addr : O) (offset : ℕ) → Effect (read_from_memory c n t addr offset) 0 Any 1
  read_from_memory-Effect n r t b fuel addr offset = read_fuel n r t b fuel addr offset
