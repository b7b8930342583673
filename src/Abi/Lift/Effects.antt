-- ===== src/Abi/Lift/Effects.antt =====
-- The effect on the stack of the arms of crates/core/src/abi.rs, `lift`.
use wai_bindgen.Prelude.{
  ℕ, ap, Bool, true, false, Option, none, some, [], ◌∷◌, length, All-map, arith, length-map,
}
use wai_bindgen.Wit.{WitType, TypeId, TypeDef, TypeDefKind, Field, field_types, case_types}
use wai_bindgen.Wit.Laws.{WfKind, FlatKind, Below, BelowOption, IsValue}
use wai_bindgen.Abi.Instruction.{
  list_canon_lift, list_lift, iter_base_pointer, record_lift, tuple_lift, flags_lift, variant_lift,
  enum_lift, option_lift, result_lift, handle_lift, future_lift, stream_lift, error_context_lift,
}
use wai_bindgen.Abi.Generator.{Context}
use wai_bindgen.Abi.Generator.Effect.{Effect, Any, step, last}
use wai_bindgen.Abi.Generator.Rules.{
  IsBindgen, pop-Effect, drain-Effect, push_block-Effect, finish_block-Effect, emit-Effect,
  step_type_at, name_of-Effect, is_list_canonical-Effect,
}
use wai_bindgen.Abi.Lift.ArmsEffect.{
  LiftsFrom, LiftsOption, lift_each-Effect, lift_variant_arms-Effect,
}
use wai_bindgen.Abi.Lift.Memory.{Lifts, Reads}
use wai_bindgen.Abi.Lift.MemoryEffect.{ReadsTo}
use wai_bindgen.Abi.Lift.{lift_list, lift_kind}

module _ {O S : Type 0} (c : Context O S) (law : IsBindgen c.resolve c.bindgen) (rank : TypeId → ℕ)
    (n : ℕ) (lift : Lifts O S) (read : Reads O S)
    (lifts : (t : WitType) → Below c.resolve rank n t → LiftsFrom c law lift t)
    (reads : (t : WitType) → Below c.resolve rank n t → ReadsTo c law read t) where
  lifts_option : (t : Option WitType) → BelowOption c.resolve rank n t → LiftsOption c law lift t
  lifts_option none h = tt
  lifts_option (some t) h = lifts t h

  lift_list-Effect :
      (i : TypeId) (t : WitType) (canonical : Bool)
      → Below c.resolve rank n t
      → Effect (lift_list c lift read i t canonical) 2 Any 1
  unfolding lift_list
  lift_list-Effect i t true h = emit-Effect c (list_canon_lift t i) law
  lift_list-Effect i t false h = step 2 (push_block-Effect c) (omega arith) λ _ _.
      step 2 (emit-Effect c iter_base_pointer law) (omega arith) λ _ _.
        step 2 pop-Effect (omega arith) λ addr _. step 2 (reads t h addr 0) (omega arith) λ _ _.
          step 2 (finish_block-Effect c 1) (omega arith)
            λ _ _. last 0 (emit-Effect c (list_lift t i) law) (omega arith) (omega arith)

  -- Lifting consumes exactly the flat values of the type and pushes one value.
  pub lift_kind-Effect :
      (i : TypeId) (d : TypeDef) (kind : TypeDefKind)
      → WfKind c.resolve rank n d kind
      → IsValue kind
      → FlatKind c.resolve (c.resolve.push_flat (WitType.id i)) kind
      → Effect (lift_kind c lift read i d kind) (length (c.resolve.push_flat (WitType.id i))) Any 1
  unfolding lift_kind
  lift_kind-Effect i d (TypeDefKind.type t) wf ok f =
      last 0 (lifts t wf) (omega (arith, ap length f)) (omega arith)
  lift_kind-Effect i d (TypeDefKind.list t) wf ok f =
      step 2 (is_list_canonical-Effect c t) (omega (arith, f))
        λ canonical _. last 0 (lift_list-Effect i t canonical wf) (omega arith) (omega arith)
  lift_kind-Effect i d (TypeDefKind.handle h) (r, found, named) ok f = step_type_at c _ _ r found (
      step 1 (name_of-Effect c r named.0 named.1) (omega (arith, f))
        λ name _. last 0 (emit-Effect c (handle_lift h name i) law) (omega arith) (omega arith))
  lift_kind-Effect i d TypeDefKind.resource wf ok f = absurd ok
  lift_kind-Effect i d (TypeDefKind.record_ fields) wf ok f =
      step 0 (drain-Effect (length (c.resolve.push_flat (WitType.id i)))) (omega arith) λ vs len.
        step 0
          (lift_each-Effect c law lift (field_types fields) vs
            (All-map lifts (field_types fields) wf.1) (omega (arith, len, ap length f)))
          (omega arith)
          λ _ _.
            step (length (field_types fields)) (name_of-Effect c d wf.0.0 wf.0.1) (omega arith)
              λ name _.
                last 0 (emit-Effect c (record_lift fields name i) law)
                  (omega (arith, length-map (λ (x : Field). x.ty) fields)) (omega arith)
  lift_kind-Effect i d (TypeDefKind.tuple types) wf ok f =
      step 0 (drain-Effect (length (c.resolve.push_flat (WitType.id i)))) (omega arith) λ vs len.
        step 0
          (lift_each-Effect c law lift types vs (All-map lifts types wf)
            (omega (arith, len, ap length f)))
          (omega arith)
          λ _ _. last 0 (emit-Effect c (tuple_lift types i) law) (omega arith) (omega arith)
  lift_kind-Effect i d (TypeDefKind.flags x) wf ok f =
      step (length (c.resolve.push_flat (WitType.id i))) (name_of-Effect c d wf.0 wf.1)
        (omega arith)
        λ name _. last 0 (emit-Effect c (flags_lift x name i) law) (omega (arith, f)) (omega arith)
  lift_kind-Effect i d (TypeDefKind.variant cases) wf ok f =
      step 0
        (lift_variant_arms-Effect c law lift (WitType.id i) (case_types cases)
          (All-map lifts_option (case_types cases) wf.1) f)
        (omega arith)
        λ _ _. step 1 (name_of-Effect c d wf.0.0 wf.0.1) (omega arith) λ name _.
          last 0 (emit-Effect c (variant_lift cases name i) law) (omega arith) (omega arith)
  lift_kind-Effect i d (TypeDefKind.enum e) wf ok f =
      step 1 (name_of-Effect c d wf.0 wf.1) (omega (arith, f))
        λ name _. last 0 (emit-Effect c (enum_lift e name i) law) (omega arith) (omega arith)
  lift_kind-Effect i d (TypeDefKind.option t) wf ok f =
      step 0
        (lift_variant_arms-Effect c law lift (WitType.id i) (none ∷ some t ∷ [])
          (tt, (lifts t wf, tt)) f)
        (omega arith)
        λ _ _. last 0 (emit-Effect c (option_lift t i) law) (omega arith) (omega arith)
  lift_kind-Effect i d (TypeDefKind.result a b) wf ok f =
      step 0
        (lift_variant_arms-Effect c law lift (WitType.id i) (a ∷ b ∷ [])
          (lifts_option a wf.0, (lifts_option b wf.1, tt)) f)
        (omega arith)
        λ _ _. last 0 (emit-Effect c (result_lift a b i) law) (omega arith) (omega arith)
  lift_kind-Effect i d (TypeDefKind.future p) wf ok f =
      last 0 (emit-Effect c (future_lift p i) law) (omega (arith, f)) (omega arith)
  lift_kind-Effect i d (TypeDefKind.stream p) wf ok f =
      last 0 (emit-Effect c (stream_lift p i) law) (omega (arith, f)) (omega arith)
  lift_kind-Effect i d TypeDefKind.error_context wf ok f =
      last 0 (emit-Effect c (error_context_lift i) law) (omega (arith, f)) (omega arith)
  lift_kind-Effect i d TypeDefKind.unknown wf ok f = absurd ok
