-- ===== src/Abi/Lower/Total.antt =====
-- `lower` and `write_to_memory` of crates/core/src/abi.rs, for every type of a well-formed
-- resolution: no panic, a fixed effect on the stack, and the fuel that is enough.
use wai_bindgen.Prelude.{ℕ, zero, suc, ◌+◌, ◌*◌, ◌≤◌, refl, length, arith}
use wai_bindgen.Wit.{WitType, TypeId}
use wai_bindgen.Wit.Laws.{IsFlattening, IsWellFormed, Below}
use wai_bindgen.Abi.Generator.{Context}
use wai_bindgen.Abi.Generator.Effect.{Effect, Any, last}
use wai_bindgen.Abi.Generator.Rules.{IsBindgen, emit-Effect, step_type_at}
use wai_bindgen.Abi.Lower.ArmsEffect.{LowersTo}
use wai_bindgen.Abi.Lower.Memory.{write_body}
use wai_bindgen.Abi.Lower.MemoryEffect.{
  WritesTo, lower_and_emit-Effect, write_list_to_memory-Effect, write_kind-Effect,
}
use wai_bindgen.Abi.Lower.{lower_body, lower, write_to_memory}
use wai_bindgen.Abi.Lower.Effects.{lower_kind-Effect}

module _ {O S : Type 0} (c : Context O S) (law : IsBindgen c.resolve c.bindgen)
    (flat : IsFlattening c.resolve) (rank : TypeId → ℕ) (wf : IsWellFormed c.resolve rank) where
  mutual
    unfolding lower lower_body write_body

    pub lower_fuel :
        (n r : ℕ) (t : WitType)
        → Below c.resolve rank r t
        → 2 * r + 1 ≤ n
        → LowersTo c law (lower c n) t
    lower_fuel zero r t b h = absurd (omega arith)
    lower_fuel (suc n) r (WitType.id i) (d, found, ok, lt) h = step_type_at c _ i d found (
        lower_kind-Effect c law flat rank (rank i) (lower c n) (write_to_memory c n)
          (λ t b. lower_fuel n (rank i) t b (omega arith))
          (λ t b a o. write_fuel n (rank i) t b (omega arith) a o) i d d.kind (wf.defined i d found)
          ok (flat.flat_type (WitType.id i) d found))
    lower_fuel (suc n) r WitType.string b h =
        last 0 (emit-Effect c _ law) (omega arith) (omega (arith, flat.flat_type WitType.string))
    lower_fuel (suc n) r t b h =
        last 0 (emit-Effect c _ law) (omega arith) (omega (arith, flat.flat_type t))

    pub write_fuel :
        (n r : ℕ) (t : WitType)
        → Below c.resolve rank r t
        → 2 * r + 2 ≤ n
        → WritesTo c law (write_to_memory c n) t
    write_fuel zero r t b h addr offset = absurd (omega arith)
    write_fuel (suc n) r (WitType.id i) (d, found, ok, lt) h addr offset =
        step_type_at c _ i d found (
          write_kind-Effect c law flat rank (rank i) (lower c n) (write_to_memory c n)
            (λ t b a o. write_fuel n (rank i) t b (omega arith) a o) i d d.kind
            (wf.defined i d found) ok (flat.flat_type (WitType.id i) d found)
            (lower_fuel n r (WitType.id i) (d, found, ok, lt) (omega arith)) addr offset)
    write_fuel (suc n) r WitType.string b h addr offset =
        write_list_to_memory-Effect c law (lower c n) WitType.string addr offset
          (lower_fuel n r WitType.string b (omega arith)) (flat.flat_type WitType.string)
    write_fuel (suc n) r t b h addr offset =
        lower_and_emit-Effect c law (lower c n) t addr _ (lower_fuel n r t b (omega arith))
          (flat.flat_type t) refl refl

  -- With fuel `2 * r + 1`, for a type of rank below `r`, `lower` takes one operand and leaves one
  -- for each flat type of the type. It does not panic.
  pub lower-Effect :
      (n r : ℕ) (t : WitType)
      → Below c.resolve rank r t
      → 2 * r + 1 ≤ n
      → Effect (lower c n t) 1 Any (length (c.resolve.push_flat t))
  lower-Effect n r t b fuel = lower_fuel n r t b fuel

  -- With fuel `2 * r + 2`, for a type of rank below `r`, `write_to_memory` takes one operand and
  -- leaves none. It does not panic.
  pub write_to_memory-Effect :
      (n r : ℕ) (t : WitType)
      → Below c.resolve rank r t
      → 2 * r + 2 ≤ n
      → (addr : O) (offset : ℕ) → Effect (write_to_memory c n t addr offset) 1 Any 0
  write_to_memory-Effect n r t b fuel addr offset = write_fuel n r t b fuel addr offset
