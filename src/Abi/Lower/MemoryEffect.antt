-- ===== src/Abi/Lower/MemoryEffect.antt =====
-- The effect on the stack of crates/core/src/abi.rs, `write_to_memory` and its helpers.
use wai_bindgen.Prelude.{
  ℕ, zero, suc, ◌+◌, ◌≡◌, sym, subst, Option, none, some, List, [], ◌∷◌, length, All, All-map, refl,
  map, arith, length-map,
}
use wai_bindgen.Wit.{
  WitInt, WitType, TypeId, TypeDef, TypeDefKind, FlagsRepr, Field, field_types, case_types,
}
use wai_bindgen.Wit.Laws.{IsFlattening, WfKind, FlatKind, Below, BelowOption, IsValue, words}
use wai_bindgen.Abi.Instruction.{
  Instruction, operands_len, results_len, i32_store, i32_store8, i32_store16, i64_store,
  pointer_store, length_store, record_lower, tuple_lower, variant_payload_name, variant_lower,
  option_lower, result_lower, i32_const,
}
use wai_bindgen.Abi.Generator.{Context}
use wai_bindgen.Abi.Generator.Effect.{Effect, Any, step, last}
use wai_bindgen.Abi.Generator.Rules.{
  IsBindgen, pure-Effect, push-Effect, pop-Effect, drain-Effect, push_block-Effect,
  finish_block-Effect, emit-Effect, name_of-Effect,
}
use wai_bindgen.Abi.Lower.Arms.{as_i32}
use wai_bindgen.Abi.Lower.ArmsEffect.{LowersTo}
use wai_bindgen.Abi.Lower.Memory.{
  Lowers, Writes, store_intrepr, lower_and_emit, write_list_to_memory, store_words, store_flags,
  write_each, write_fields_to_memory, write_payload, write_arms, write_variant_arms_to_memory,
  write_kind,
}

module _ {O S : Type 0} (c : Context O S) (law : IsBindgen c.resolve c.bindgen) where
  store_intrepr-Effect : (offset : ℕ) (repr : WitInt) → Effect (store_intrepr c offset repr) 2 Any 0
  unfolding store_intrepr
  store_intrepr-Effect offset WitInt.u8 = emit-Effect c (i32_store8 offset) law
  store_intrepr-Effect offset WitInt.u16 = emit-Effect c (i32_store16 offset) law
  store_intrepr-Effect offset WitInt.u32 = emit-Effect c (i32_store offset) law
  store_intrepr-Effect offset WitInt.u64 = emit-Effect c (i64_store offset) law

  store_words-Effect : (addr : O) (offset n : ℕ) → Effect (store_words c addr offset n) n Any 0
  unfolding store_words
  store_words-Effect addr offset zero = pure-Effect tt tt
  store_words-Effect addr offset (suc n) = step (suc n) (push-Effect addr) (omega arith) λ _ _.
      step n (emit-Effect c (i32_store _) law) (omega arith)
        λ _ _. last 0 (store_words-Effect addr offset n) (omega arith) (omega arith)

  store_flags-Effect :
      (addr : O) (offset : ℕ) (r : FlagsRepr) → Effect (store_flags c addr offset r) (words r) Any 0
  unfolding store_flags
  store_flags-Effect addr offset FlagsRepr.u8 =
      step 1 (push-Effect addr) (omega arith)
        λ _ _. last 0 (store_intrepr-Effect offset WitInt.u8) (omega arith) (omega arith)
  store_flags-Effect addr offset FlagsRepr.u16 =
      step 1 (push-Effect addr) (omega arith)
        λ _ _. last 0 (store_intrepr-Effect offset WitInt.u16) (omega arith) (omega arith)
  store_flags-Effect addr offset (FlagsRepr.u32 n) = store_words-Effect addr offset n

  module _ (lower : Lowers O S) where
    pub lower_and_emit-Effect :
        (t : WitType) (addr : O) (inst : Instruction)
        → LowersTo c law lower t
        → length (c.resolve.push_flat t) ≡ 1
        → operands_len c.resolve inst ≡ 2
        → results_len c.resolve inst ≡ 0
        → Effect (lower_and_emit c lower t addr inst) 1 Any 0
    unfolding lower_and_emit
    lower_and_emit-Effect t addr inst h len pops pushes = step 0 h (omega arith) λ _ _.
        step 1 (push-Effect addr) (omega (arith, len))
          λ _ _. last 0 (emit-Effect c inst law) (omega (arith, pops)) (omega (arith, pushes))

    pub write_list_to_memory-Effect :
        (t : WitType) (addr : O) (offset : ℕ)
        → LowersTo c law lower t
        → length (c.resolve.push_flat t) ≡ 2
        → Effect (write_list_to_memory c lower t addr offset) 1 Any 0
    unfolding write_list_to_memory
    write_list_to_memory-Effect t addr offset h len = step 0 h (omega arith) λ _ _.
        step 2 (push-Effect addr) (omega (arith, len)) λ _ _.
          step 1 (emit-Effect c (length_store _) law) (omega arith) λ _ _.
            step 1 (push-Effect addr) (omega arith)
              λ _ _. last 0 (emit-Effect c (pointer_store offset) law) (omega arith) (omega arith)

  -- `write` stores one value of the type.
  abbrev pub WritesTo : Writes O S → WitType → Type 0
  WritesTo write t = (addr : O) (offset : ℕ) → Effect (write t addr offset) 1 Any 0

  abbrev pub WritesOption : Writes O S → Option WitType → Type 0
  WritesOption write none = Unit
  WritesOption write (some t) = WritesTo write t

  module _ (write : Writes O S) where
    write_each-Effect :
        (fs : List (ℕ × WitType)) (ops : List O) (addr : O) (offset : ℕ)
        → All (WritesTo write) (map (λ (p : ℕ × WitType). p.1) fs)
        → Effect (write_each c write fs ops addr offset) 0 Any 0
    unfolding write_each
    write_each-Effect [] ops addr offset h = pure-Effect tt tt
    write_each-Effect (f ∷ fs) [] addr offset h = pure-Effect tt tt
    write_each-Effect (f ∷ fs) (op ∷ ops) addr offset h =
        step 0 (push-Effect op) (omega arith) λ _ _.
          step 0 (h.0 addr _) (omega arith)
            λ _ _. last 0 (write_each-Effect fs ops addr offset h.1) (omega arith) (omega arith)

    pub write_fields_to_memory-Effect :
        IsFlattening c.resolve
        → (ts : List WitType) (addr : O) (offset : ℕ) → All (WritesTo write) ts
        → Effect (write_fields_to_memory c write ts addr offset) (length ts) Any 0
    unfolding write_fields_to_memory
    write_fields_to_memory-Effect flat ts addr offset h =
        step 0 (drain-Effect (length ts)) (omega arith) λ ops _.
          last 0
            (write_each-Effect (c.resolve.field_offsets ts) ops addr offset
              (subst (λ l. All (WritesTo write) l) (sym (flat.field_types_eq ts)) h))
            (omega arith) (omega arith)

    write_payload-Effect :
        (x addr : O) (offset : ℕ) (ty : Option WitType)
        → WritesOption write ty
        → Effect (write_payload c write x addr offset ty) 0 Any 0
    unfolding write_payload
    write_payload-Effect x addr offset none h = pure-Effect tt tt
    write_payload-Effect x addr offset (some t) h =
        step 0 (push-Effect x) (omega arith)
          λ _ _. last 0 (h addr offset) (omega arith) (omega arith)

    write_arms-Effect :
        (addr : O) (offset payload_offset : ℕ) (tag : WitInt) (i : ℕ) (tys : List (Option WitType))
        → All (WritesOption write) tys
        → Effect (write_arms c write addr offset payload_offset tag i tys) 0 Any 0
    unfolding write_arms
    write_arms-Effect addr offset payload_offset tag i [] h = pure-Effect tt tt
    write_arms-Effect addr offset payload_offset tag i (ty ∷ tys) h =
        step 0 (push_block-Effect c) (omega arith) λ _ _.
          step 0 (emit-Effect c variant_payload_name law) (omega arith) λ _ _.
            step 0 pop-Effect (omega arith) λ x _.
              step 0 (emit-Effect c (i32_const (as_i32 i)) law) (omega arith) λ _ _.
                step 1 (push-Effect addr) (omega arith) λ _ _.
                  step 0 (store_intrepr-Effect offset tag) (omega arith) λ _ _.
                    step 0 (write_payload-Effect x addr payload_offset ty h.0) (omega arith) λ _ _.
                      step 0 (finish_block-Effect c 0) (omega arith) λ _ _.
                        last 0 (write_arms-Effect addr offset payload_offset tag (i + 1) tys h.1)
                          (omega arith) (omega arith)

    pub write_variant_arms_to_memory-Effect :
        (offset : ℕ) (addr : O) (tag : WitInt) (cases : List (Option WitType))
        → All (WritesOption write) cases
        → Effect (write_variant_arms_to_memory c write offset addr tag cases) 0 Any 0
    unfolding write_variant_arms_to_memory
    write_variant_arms_to_memory-Effect offset addr tag cases h =
        write_arms-Effect addr offset _ tag 0 cases h

module _ {O S : Type 0} (c : Context O S) (law : IsBindgen c.resolve c.bindgen)
    (flat : IsFlattening c.resolve) (rank : TypeId → ℕ) (n : ℕ) (lower : Lowers O S)
    (write : Writes O S)
    (writes : (t : WitType) → Below c.resolve rank n t → WritesTo c law write t) where
  writes_option : (t : Option WitType) → BelowOption c.resolve rank n t → WritesOption c law write t
  writes_option none h = tt
  writes_option (some t) h = writes t h

  -- Writing a value of a defined type consumes exactly that value.
  pub write_kind-Effect :
      (i : TypeId) (d : TypeDef) (kind : TypeDefKind)
      → WfKind c.resolve rank n d kind
      → IsValue kind
      → FlatKind c.resolve (c.resolve.push_flat (WitType.id i)) kind
      → LowersTo c law lower (WitType.id i)
      → WritesTo c law (λ t. write_kind c lower write i d kind) (WitType.id i)
  unfolding write_kind
  write_kind-Effect i d (TypeDefKind.type t) wf ok f h addr offset = writes t wf addr offset
  write_kind-Effect i d (TypeDefKind.list t) wf ok f h addr offset =
      write_list_to_memory-Effect c law lower (WitType.id i) addr offset h f
  write_kind-Effect i d (TypeDefKind.future t) wf ok f h addr offset =
      lower_and_emit-Effect c law lower (WitType.id i) addr (i32_store offset) h f refl refl
  write_kind-Effect i d (TypeDefKind.stream t) wf ok f h addr offset =
      lower_and_emit-Effect c law lower (WitType.id i) addr (i32_store offset) h f refl refl
  write_kind-Effect i d TypeDefKind.error_context wf ok f h addr offset =
      lower_and_emit-Effect c law lower (WitType.id i) addr (i32_store offset) h f refl refl
  write_kind-Effect i d (TypeDefKind.handle t) wf ok f h addr offset =
      lower_and_emit-Effect c law lower (WitType.id i) addr (i32_store offset) h f refl refl
  write_kind-Effect i d (TypeDefKind.record_ fields) wf ok f h addr offset =
      step 1 (name_of-Effect c d wf.0.0 wf.0.1) (omega arith) λ name _.
        step 0 (emit-Effect c (record_lower fields name i) law) (omega arith) λ _ _.
          last 0
            (write_fields_to_memory-Effect c law write flat (field_types fields) addr offset
              (All-map writes (field_types fields) wf.1))
            (omega (arith, length-map (λ (x : Field). x.ty) fields)) (omega arith)
  write_kind-Effect i d TypeDefKind.resource wf ok f h addr offset = absurd ok
  write_kind-Effect i d (TypeDefKind.tuple types) wf ok f h addr offset =
      step 0 (emit-Effect c (tuple_lower types i) law) (omega arith) λ _ _.
        last 0
          (write_fields_to_memory-Effect c law write flat types addr offset
            (All-map writes types wf))
          (omega arith) (omega arith)
  write_kind-Effect i d (TypeDefKind.flags x) wf ok f h addr offset = step 0 h (omega arith) λ _ _.
      last 0 (store_flags-Effect c law addr offset (c.resolve.flags_repr x))
        (omega (arith, f, flat.count_eq x)) (omega arith)
  write_kind-Effect i d (TypeDefKind.variant cases) wf ok f h addr offset =
      step 1
        (write_variant_arms_to_memory-Effect c law write offset addr _ (case_types cases)
          (All-map writes_option (case_types cases) wf.1))
        (omega arith)
        λ _ _. step 1 (name_of-Effect c d wf.0.0 wf.0.1) (omega arith) λ name _.
          last 0 (emit-Effect c (variant_lower cases name i []) law) (omega arith) (omega arith)
  write_kind-Effect i d (TypeDefKind.option t) wf ok f h addr offset =
      step 1
        (write_variant_arms_to_memory-Effect c law write offset addr _ (none ∷ some t ∷ [])
          (tt, (writes t wf, tt)))
        (omega arith)
        λ _ _. last 0 (emit-Effect c (option_lower t i []) law) (omega arith) (omega arith)
  write_kind-Effect i d (TypeDefKind.result a b) wf ok f h addr offset =
      step 1
        (write_variant_arms_to_memory-Effect c law write offset addr _ (a ∷ b ∷ [])
          (writes_option a wf.0, (writes_option b wf.1, tt)))
        (omega arith)
        λ _ _. last 0 (emit-Effect c (result_lower a b i []) law) (omega arith) (omega arith)
  write_kind-Effect i d (TypeDefKind.enum e) wf ok f h addr offset = step 0 h (omega arith) λ _ _.
      step 1 (push-Effect addr) (omega (arith, f))
        λ _ _. last 0 (store_intrepr-Effect c law offset _) (omega arith) (omega arith)
  write_kind-Effect i d TypeDefKind.unknown wf ok f h addr offset = absurd ok
