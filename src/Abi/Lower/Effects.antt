-- ===== src/Abi/Lower/Effects.antt =====
-- The effect on the stack of `lower` and `write_to_memory` of crates/core/src/abi.rs.
use wai_bindgen.Prelude.{
  ℕ, ◌≡◌, ap, sym, subst, Bool, true, false, Option, none, some, [], ◌∷◌, length, All-map, arith,
  length-map,
}
use wai_bindgen.Wit.{WitType, TypeId, TypeDef, TypeDefKind, Field, field_types, case_types}
use wai_bindgen.Wit.Laws.{IsFlattening, WfKind, FlatKind, Below, BelowOption, IsValue}
use wai_bindgen.Abi.Instruction.{
  list_canon_lower, list_lower, iter_elem, iter_base_pointer, record_lower, tuple_lower,
  flags_lower, variant_lower, enum_lower, option_lower, result_lower, handle_lower, future_lower,
  stream_lower, error_context_lower,
}
use wai_bindgen.Abi.Generator.{Context}
use wai_bindgen.Abi.Generator.Effect.{Effect, Any, step, last}
use wai_bindgen.Abi.Generator.Rules.{
  IsBindgen, pop-Effect, drain-Effect, push_block-Effect, finish_block-Effect, emit-Effect,
  type_at-Effect, name_of-Effect, is_list_canonical-Effect,
}
use wai_bindgen.Abi.Lower.Arms.{list_realloc}
use wai_bindgen.Abi.Lower.ArmsEffect.{
  LowersTo, LowersOption, lower_each-Effect, lower_variant_arms-Effect,
}
use wai_bindgen.Abi.Lower.Memory.{Lowers, Writes}
use wai_bindgen.Abi.Lower.MemoryEffect.{WritesTo}
use wai_bindgen.Abi.Lower.{lower_list, lower_kind}

module _ {O S : Type 0} (c : Context O S) (law : IsBindgen c.resolve c.bindgen)
    (flat : IsFlattening c.resolve) (rank : TypeId → ℕ) (n : ℕ) (lower : Lowers O S)
    (write : Writes O S)
    (lowers : (t : WitType) → Below c.resolve rank n t → LowersTo c law lower t)
    (writes : (t : WitType) → Below c.resolve rank n t → WritesTo c law write t) where
  lowers_option : (t : Option WitType) → BelowOption c.resolve rank n t → LowersOption c law lower t
  lowers_option none h = tt
  lowers_option (some t) h = lowers t h

  lower_list-Effect :
      (t : WitType) (canonical : Bool)
      → Below c.resolve rank n t
      → Effect (lower_list c lower write t canonical) 1 Any 2
  unfolding lower_list
  lower_list-Effect t true h = emit-Effect c (list_canon_lower t (list_realloc c)) law
  lower_list-Effect t false h = step 1 (push_block-Effect c) (omega arith) λ _ _.
      step 1 (emit-Effect c (iter_elem t) law) (omega arith) λ _ _.
        step 2 (emit-Effect c iter_base_pointer law) (omega arith) λ _ _.
          step 2 pop-Effect (omega arith) λ addr _. step 1 (writes t h addr 0) (omega arith) λ _ _.
            step 1 (finish_block-Effect c 0) (omega arith) λ _ _.
              last 0 (emit-Effect c (list_lower t (list_realloc c)) law) (omega arith) (omega arith)

  pub lower_kind-Effect :
      (i : TypeId) (d : TypeDef) (kind : TypeDefKind)
      → WfKind c.resolve rank n d kind
      → IsValue kind
      → FlatKind c.resolve (c.resolve.push_flat (WitType.id i)) kind
      → Effect
          (lower_kind c lower write i d kind)
          1
          Any
          (length (c.resolve.push_flat (WitType.id i)))
  unfolding lower_kind
  lower_kind-Effect i d (TypeDefKind.type t) wf ok f =
      last 0 (lowers t wf) (omega arith) (omega (arith, ap length f))
  lower_kind-Effect i d (TypeDefKind.list t) wf ok f =
      step 1 (is_list_canonical-Effect c t) (omega arith)
        λ canonical _. last 0 (lower_list-Effect t canonical wf) (omega arith) (omega (arith, f))
  lower_kind-Effect i d (TypeDefKind.handle h) (r, found, named) ok f =
      step 1 (type_at-Effect c _ r found) (omega arith) λ x same.
        step 1 (name_of-Effect c x named.0 (subst (λ y. y.name ≡ some named.0) (sym same) named.1))
          (omega arith)
          λ name _.
            last 0 (emit-Effect c (handle_lower h name i) law) (omega arith) (omega (arith, f))
  lower_kind-Effect i d TypeDefKind.resource wf ok f = absurd ok
  lower_kind-Effect i d (TypeDefKind.record_ fields) wf ok f =
      step 1 (name_of-Effect c d wf.0.0 wf.0.1) (omega arith) λ name _.
        step 0 (emit-Effect c (record_lower fields name i) law) (omega arith) λ _ _.
          step 0 (drain-Effect (length fields)) (omega arith) λ vs len.
            last 0
              (lower_each-Effect c law lower (field_types fields) vs
                (All-map lowers (field_types fields) wf.1)
                (omega (arith, len, length-map (λ (x : Field). x.ty) fields)))
              (omega arith) (omega (arith, ap length f))
  lower_kind-Effect i d (TypeDefKind.tuple types) wf ok f =
      step 0 (emit-Effect c (tuple_lower types i) law) (omega arith) λ _ _.
        step 0 (drain-Effect (length types)) (omega arith) λ vs len.
          last 0 (lower_each-Effect c law lower types vs (All-map lowers types wf) len)
            (omega arith) (omega (arith, ap length f))
  lower_kind-Effect i d (TypeDefKind.flags x) wf ok f =
      step 1 (name_of-Effect c d wf.0 wf.1) (omega arith)
        λ name _. last 0 (emit-Effect c (flags_lower x name i) law) (omega arith) (omega (arith, f))
  lower_kind-Effect i d (TypeDefKind.variant cases) wf ok f =
      step 1
        (lower_variant_arms-Effect c law lower (WitType.id i) (case_types cases)
          (All-map lowers_option (case_types cases) wf.1) f)
        (omega arith)
        λ rs same. step 1 (name_of-Effect c d wf.0.0 wf.0.1) (omega arith) λ name _.
          last 0 (emit-Effect c (variant_lower cases name i rs) law) (omega arith)
            (omega (arith, ap length same))
  lower_kind-Effect i d (TypeDefKind.enum e) wf ok f =
      step 1 (name_of-Effect c d wf.0 wf.1) (omega arith)
        λ name _. last 0 (emit-Effect c (enum_lower e name i) law) (omega arith) (omega (arith, f))
  lower_kind-Effect i d (TypeDefKind.option t) wf ok f =
      step 1
        (lower_variant_arms-Effect c law lower (WitType.id i) (none ∷ some t ∷ [])
          (tt, (lowers t wf, tt)) f)
        (omega arith)
        λ rs same.
          last 0 (emit-Effect c (option_lower t i rs) law) (omega arith)
            (omega (arith, ap length same))
  lower_kind-Effect i d (TypeDefKind.result a b) wf ok f =
      step 1
        (lower_variant_arms-Effect c law lower (WitType.id i) (a ∷ b ∷ [])
          (lowers_option a wf.0, (lowers_option b wf.1, tt)) f)
        (omega arith)
        λ rs same.
          last 0 (emit-Effect c (result_lower a b i rs) law) (omega arith)
            (omega (arith, ap length same))
  lower_kind-Effect i d (TypeDefKind.future p) wf ok f =
      last 0 (emit-Effect c (future_lower p i) law) (omega arith) (omega (arith, f))
  lower_kind-Effect i d (TypeDefKind.stream p) wf ok f =
      last 0 (emit-Effect c (stream_lower p i) law) (omega arith) (omega (arith, f))
  lower_kind-Effect i d TypeDefKind.error_context wf ok f =
      last 0 (emit-Effect c (error_context_lower i) law) (omega arith) (omega (arith, f))
  lower_kind-Effect i d TypeDefKind.unknown wf ok f = absurd ok
