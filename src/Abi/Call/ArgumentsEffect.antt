-- ===== src/Abi/Call/ArgumentsEffect.antt =====
-- The effect on the stack of the loops of crates/core/src/abi.rs, `Generator::call`.
use wai_bindgen.Prelude.{
  ℕ, zero, suc, ◌+◌, ◌*◌, ◌≤◌, List, [], ◌∷◌, length, All, arith, length-append,
}
use wai_bindgen.Wit.{WitType, TypeId}
use wai_bindgen.Wit.Laws.{IsFlattening, IsWellFormed, Below, flat_all}
use wai_bindgen.Abi.Instruction.{get_arg}
use wai_bindgen.Abi.Generator.{Context}
use wai_bindgen.Abi.Generator.Effect.{Effect, Any, step, last}
use wai_bindgen.Abi.Generator.Rules.{IsBindgen, pure-Effect, push-Effect, emit-Effect}
use wai_bindgen.Abi.Lower.Total.{lower_fuel, write_fuel}
use wai_bindgen.Abi.Lift.Total.{lift_fuel, read_fuel}
use wai_bindgen.Abi.Call.Arguments.{
  align_to, add_usize, lower_args, write_args_at, write_args, read_args, get_args, lift_args,
  lift_results,
}

module _ {O S : Type 0} (c : Context O S) (law : IsBindgen c.resolve c.bindgen)
    (flat : IsFlattening c.resolve) (rank : TypeId → ℕ) (wf : IsWellFormed c.resolve rank) (n r : ℕ)
    (fuel : 2 * r + 2 ≤ n) where
  abbrev BelowAll : List WitType → Type 0
  BelowAll ts = All (Below c.resolve rank r) ts

  pub lower_args-Effect :
      (nth : ℕ) (ts : List WitType)
      → BelowAll ts
      → Effect (lower_args c n nth ts) 0 Any (length (flat_all c.resolve ts))
  unfolding lower_args
  lower_args-Effect nth [] h = pure-Effect tt tt
  lower_args-Effect nth (t ∷ ts) h = step 0 (emit-Effect c (get_arg nth) law) (omega arith) λ _ _.
      step 0 (lower_fuel c law flat rank wf n r t h.0 (omega arith)) (omega arith) λ _ _.
        last (length (c.resolve.push_flat t)) (lower_args-Effect (nth + 1) ts h.1) (omega arith)
          (omega (arith, length-append (c.resolve.push_flat t) (flat_all c.resolve ts)))

  write_args_at-Effect :
      (ptr : O) (nth offset : ℕ) (ts : List WitType)
      → BelowAll ts
      → Effect (write_args_at c n ptr nth offset ts) 0 Any 0
  unfolding write_args_at
  write_args_at-Effect ptr nth offset [] h = pure-Effect tt tt
  write_args_at-Effect ptr nth offset (t ∷ ts) h =
      step 0 (emit-Effect c (get_arg nth) law) (omega arith) λ _ _.
        step 0 (write_fuel c law flat rank wf n r t h.0 fuel ptr _) (omega arith) λ _ _.
          last 0
            (write_args_at-Effect ptr (nth + 1)
              (add_usize (align_to offset (c.resolve.align t)) (c.resolve.size t)) ts h.1)
            (omega arith) (omega arith)

  pub write_args-Effect :
      (ts : List WitType) (ptr : O) → BelowAll ts → Effect (write_args c n ts ptr) 0 Any 1
  unfolding write_args
  write_args-Effect ts ptr h =
      step 0 (write_args_at-Effect ptr 0 0 ts h) (omega arith)
        λ _ _. last 0 (push-Effect ptr) (omega arith) (omega arith)

  pub read_args-Effect :
      (ptr : O) (offset : ℕ) (ts : List WitType)
      → BelowAll ts
      → Effect (read_args c n ptr offset ts) 0 Any (length ts)
  unfolding read_args
  read_args-Effect ptr offset [] h = pure-Effect tt tt
  read_args-Effect ptr offset (t ∷ ts) h =
      step 0 (read_fuel c law flat rank wf n r t h.0 fuel ptr _) (omega arith) λ _ _.
        last 1
          (read_args-Effect ptr (add_usize (align_to offset (c.resolve.align t)) (c.resolve.size t))
            ts h.1)
          (omega arith) (omega arith)

  get_args-Effect : (offset k : ℕ) → Effect (get_args c n offset k) 0 Any k
  unfolding get_args
  get_args-Effect offset zero = pure-Effect tt tt
  get_args-Effect offset (suc k) =
      step 0 (emit-Effect c (get_arg offset) law) (omega arith)
        λ _ _. last 1 (get_args-Effect (offset + 1) k) (omega arith) (omega arith)

  pub lift_args-Effect :
      (offset : ℕ) (ts : List WitType)
      → BelowAll ts
      → Effect (lift_args c n offset ts) 0 Any (length ts)
  unfolding lift_args
  lift_args-Effect offset [] h = pure-Effect tt tt
  lift_args-Effect offset (t ∷ ts) h =
      step 0 (get_args-Effect offset (length (c.resolve.push_flat t))) (omega arith) λ _ _.
        step 0 (lift_fuel c law flat rank wf n r t h.0 (omega arith)) (omega arith) λ _ _.
          last 1 (lift_args-Effect (offset + length (c.resolve.push_flat t)) ts h.1) (omega arith)
            (omega arith)

  pub lift_results-Effect :
      (ts : List WitType)
      → BelowAll ts
      → Effect (lift_results c n ts) (length (flat_all c.resolve ts)) Any (length ts)
  unfolding lift_results
  lift_results-Effect [] h = pure-Effect tt tt
  lift_results-Effect (t ∷ ts) h =
      step (length (flat_all c.resolve ts)) (lift_fuel c law flat rank wf n r t h.0 (omega arith))
        (omega (arith, length-append (c.resolve.push_flat t) (flat_all c.resolve ts)))
        λ _ _. last 1 (lift_results-Effect ts h.1) (omega arith) (omega arith)
