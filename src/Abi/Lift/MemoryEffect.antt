-- ===== src/Abi/Lift/MemoryEffect.antt =====
-- The effect on the stack of crates/core/src/abi.rs, `read_from_memory` and its helpers.
use wai_bindgen.Prelude.{
  ℕ, zero, suc, ◌+◌, ◌≡◌, refl, sym, subst, Option, none, some, List, [], ◌∷◌, length, All, All-map,
  map, arith, length-map,
}
use wai_bindgen.Wit.{
  WitInt, WitType, TypeId, TypeDef, TypeDefKind, FlagsRepr, Field, field_types, case_types,
}
use wai_bindgen.Wit.Laws.{IsFlattening, WfKind, FlatKind, Below, BelowOption, IsValue, words}
use wai_bindgen.Abi.Instruction.{
  Instruction, operands_len, results_len, i32_load, i32_load8_u, i32_load16_u, i64_load,
  pointer_load, length_load, record_lift, tuple_lift, variant_lift, option_lift, result_lift,
}
use wai_bindgen.Abi.Generator.{Context}
use wai_bindgen.Abi.Generator.Effect.{Effect, Any, step, last}
use wai_bindgen.Abi.Generator.Rules.{
  IsBindgen, pure-Effect, push-Effect, push_block-Effect, finish_block-Effect, emit-Effect,
  name_of-Effect,
}
use wai_bindgen.Abi.Lift.ArmsEffect.{LiftsFrom}
use wai_bindgen.Abi.Lift.Memory.{
  Lifts, Reads, load_intrepr, emit_and_lift, read_list_from_memory, load_words, load_flags,
  read_each, read_fields_from_memory, read_arms, read_variant_arms_from_memory, read_kind,
}

module _ {O S : Type 0} (c : Context O S) (law : IsBindgen c.resolve c.bindgen) where
  pub load_intrepr-Effect :
      (offset : ℕ) (repr : WitInt) → Effect (load_intrepr c offset repr) 1 Any 1
  unfolding load_intrepr
  load_intrepr-Effect offset WitInt.u8 = emit-Effect c (i32_load8_u offset) law
  load_intrepr-Effect offset WitInt.u16 = emit-Effect c (i32_load16_u offset) law
  load_intrepr-Effect offset WitInt.u32 = emit-Effect c (i32_load offset) law
  load_intrepr-Effect offset WitInt.u64 = emit-Effect c (i64_load offset) law

  load_words-Effect : (addr : O) (offset i n : ℕ) → Effect (load_words c addr offset i n) 0 Any n
  unfolding load_words
  load_words-Effect addr offset i zero = pure-Effect tt tt
  load_words-Effect addr offset i (suc n) = step 0 (push-Effect addr) (omega arith) λ _ _.
      step 0 (emit-Effect c (i32_load _) law) (omega arith)
        λ _ _. last 1 (load_words-Effect addr offset (i + 1) n) (omega arith) (omega arith)

  load_flags-Effect :
      (addr : O) (offset : ℕ) (r : FlagsRepr) → Effect (load_flags c addr offset r) 0 Any (words r)
  unfolding load_flags
  load_flags-Effect addr offset FlagsRepr.u8 =
      step 0 (push-Effect addr) (omega arith)
        λ _ _. last 0 (load_intrepr-Effect offset WitInt.u8) (omega arith) (omega arith)
  load_flags-Effect addr offset FlagsRepr.u16 =
      step 0 (push-Effect addr) (omega arith)
        λ _ _. last 0 (load_intrepr-Effect offset WitInt.u16) (omega arith) (omega arith)
  load_flags-Effect addr offset (FlagsRepr.u32 n) = load_words-Effect addr offset 0 n

  module _ (lift : Lifts O S) where
    pub emit_and_lift-Effect :
        (t : WitType) (addr : O) (inst : Instruction)
        → LiftsFrom c law lift t
        → length (c.resolve.push_flat t) ≡ 1
        → operands_len c.resolve inst ≡ 1
        → results_len c.resolve inst ≡ 1
        → Effect (emit_and_lift c lift t addr inst) 0 Any 1
    unfolding emit_and_lift
    emit_and_lift-Effect t addr inst h len pops pushes =
        step 0 (push-Effect addr) (omega arith) λ _ _.
          step 0 (emit-Effect c inst law) (omega (arith, pops))
            λ _ _. last 0 h (omega (arith, len, pushes)) (omega arith)

    pub read_list_from_memory-Effect :
        (t : WitType) (addr : O) (offset : ℕ)
        → LiftsFrom c law lift t
        → length (c.resolve.push_flat t) ≡ 2
        → Effect (read_list_from_memory c lift t addr offset) 0 Any 1
    unfolding read_list_from_memory
    read_list_from_memory-Effect t addr offset h len =
        step 0 (push-Effect addr) (omega arith) λ _ _.
          step 0 (emit-Effect c (pointer_load offset) law) (omega arith) λ _ _.
            step 1 (push-Effect addr) (omega arith) λ _ _.
              step 1 (emit-Effect c (length_load _) law) (omega arith)
                λ _ _. last 0 h (omega (arith, len)) (omega arith)

  -- `read` loads one value of the type.
  abbrev pub ReadsTo : Reads O S → WitType → Type 0
  ReadsTo read t = (addr : O) (offset : ℕ) → Effect (read t addr offset) 0 Any 1

  abbrev pub ReadsOption : Reads O S → Option WitType → Type 0
  ReadsOption read none = Unit
  ReadsOption read (some t) = ReadsTo read t

  module _ (read : Reads O S) where
    read_each-Effect :
        (fs : List (ℕ × WitType)) (addr : O) (offset : ℕ)
        → All (ReadsTo read) (map (λ (p : ℕ × WitType). p.1) fs)
        → Effect
            (read_each c read fs addr offset)
            0
            Any
            (length (map (λ (p : ℕ × WitType). p.1) fs))
    unfolding read_each
    read_each-Effect [] addr offset h = pure-Effect tt tt
    read_each-Effect (f ∷ fs) addr offset h =
        step 0 (h.0 addr _) (omega arith)
          λ _ _. last 1 (read_each-Effect fs addr offset h.1) (omega arith) (omega arith)

    pub read_fields_from_memory-Effect :
        IsFlattening c.resolve
        → (ts : List WitType) (addr : O) (offset : ℕ) → All (ReadsTo read) ts
        → Effect (read_fields_from_memory c read ts addr offset) 0 Any (length ts)
    unfolding read_fields_from_memory
    read_fields_from_memory-Effect flat ts addr offset h =
        subst
          (λ l. Effect (read_each c read (c.resolve.field_offsets ts) addr offset) 0 Any (length l))
          (flat.field_types_eq ts)
          (read_each-Effect (c.resolve.field_offsets ts) addr offset
            (subst (λ l. All (ReadsTo read) l) (sym (flat.field_types_eq ts)) h))

    read_arms-Effect :
        (addr : O) (payload_offset : ℕ) (tys : List (Option WitType))
        → All (ReadsOption read) tys
        → Effect (read_arms c read addr payload_offset tys) 0 Any 0
    unfolding read_arms
    read_arms-Effect addr payload_offset [] h = pure-Effect tt tt
    read_arms-Effect addr payload_offset (none ∷ tys) h =
        step 0 (push_block-Effect c) (omega arith) λ _ _.
          step 0 (finish_block-Effect c 0) (omega arith)
            λ _ _. last 0 (read_arms-Effect addr payload_offset tys h.1) (omega arith) (omega arith)
    read_arms-Effect addr payload_offset (some t ∷ tys) h =
        step 0 (push_block-Effect c) (omega arith) λ _ _.
          step 0 (h.0 addr payload_offset) (omega arith) λ _ _.
            step 0 (finish_block-Effect c 1) (omega arith) λ _ _.
              last 0 (read_arms-Effect addr payload_offset tys h.1) (omega arith) (omega arith)

    pub read_variant_arms_from_memory-Effect :
        (offset : ℕ) (addr : O) (tag : WitInt) (cases : List (Option WitType))
        → All (ReadsOption read) cases
        → Effect (read_variant_arms_from_memory c read offset addr tag cases) 0 Any 1
    unfolding read_variant_arms_from_memory
    read_variant_arms_from_memory-Effect offset addr tag cases h =
        step 0 (push-Effect addr) (omega arith) λ _ _.
          step 0 (load_intrepr-Effect offset tag) (omega arith)
            λ _ _. last 1 (read_arms-Effect addr _ cases h) (omega arith) (omega arith)

module _ {O S : Type 0} (c : Context O S) (law : IsBindgen c.resolve c.bindgen)
    (flat : IsFlattening c.resolve) (rank : TypeId → ℕ) (n : ℕ) (lift : Lifts O S)
    (read : Reads O S)
    (reads : (t : WitType) → Below c.resolve rank n t → ReadsTo c law read t) where
  reads_option : (t : Option WitType) → BelowOption c.resolve rank n t → ReadsOption c law read t
  reads_option none h = tt
  reads_option (some t) h = reads t h

  -- Reading a value of a defined type pushes exactly that value.
  pub read_kind-Effect :
      (i : TypeId) (d : TypeDef) (kind : TypeDefKind)
      → WfKind c.resolve rank n d kind
      → IsValue kind
      → FlatKind c.resolve (c.resolve.push_flat (WitType.id i)) kind
      → LiftsFrom c law lift (WitType.id i)
      → ReadsTo c law (λ t. read_kind c lift read i d kind) (WitType.id i)
  unfolding read_kind
  read_kind-Effect i d (TypeDefKind.type t) wf ok f h addr offset = reads t wf addr offset
  read_kind-Effect i d (TypeDefKind.list t) wf ok f h addr offset =
      read_list_from_memory-Effect c law lift (WitType.id i) addr offset h f
  read_kind-Effect i d (TypeDefKind.future t) wf ok f h addr offset =
      emit_and_lift-Effect c law lift (WitType.id i) addr (i32_load offset) h f refl refl
  read_kind-Effect i d (TypeDefKind.stream t) wf ok f h addr offset =
      emit_and_lift-Effect c law lift (WitType.id i) addr (i32_load offset) h f refl refl
  read_kind-Effect i d TypeDefKind.error_context wf ok f h addr offset =
      emit_and_lift-Effect c law lift (WitType.id i) addr (i32_load offset) h f refl refl
  read_kind-Effect i d (TypeDefKind.handle t) wf ok f h addr offset =
      emit_and_lift-Effect c law lift (WitType.id i) addr (i32_load offset) h f refl refl
  read_kind-Effect i d (TypeDefKind.record_ fields) wf ok f h addr offset =
      step 0
        (read_fields_from_memory-Effect c law read flat (field_types fields) addr offset
          (All-map reads (field_types fields) wf.1))
        (omega arith)
        λ _ _.
          step (length (field_types fields)) (name_of-Effect c d wf.0.0 wf.0.1) (omega arith)
            λ name _.
              last 0 (emit-Effect c (record_lift fields name i) law)
                (omega (arith, length-map (λ (x : Field). x.ty) fields)) (omega arith)
  read_kind-Effect i d TypeDefKind.resource wf ok f h addr offset = absurd ok
  read_kind-Effect i d (TypeDefKind.tuple types) wf ok f h addr offset =
      step 0
        (read_fields_from_memory-Effect c law read flat types addr offset (All-map reads types wf))
        (omega arith)
        λ _ _. last 0 (emit-Effect c (tuple_lift types i) law) (omega arith) (omega arith)
  read_kind-Effect i d (TypeDefKind.flags x) wf ok f h addr offset =
      step 0 (load_flags-Effect c law addr offset (c.resolve.flags_repr x)) (omega arith)
        λ _ _. last 0 h (omega (arith, f, flat.count_eq x)) (omega arith)
  read_kind-Effect i d (TypeDefKind.variant cases) wf ok f h addr offset =
      step 0
        (read_variant_arms_from_memory-Effect c law read offset addr _ (case_types cases)
          (All-map reads_option (case_types cases) wf.1))
        (omega arith)
        λ _ _. step 1 (name_of-Effect c d wf.0.0 wf.0.1) (omega arith) λ name _.
          last 0 (emit-Effect c (variant_lift cases name i) law) (omega arith) (omega arith)
  read_kind-Effect i d (TypeDefKind.option t) wf ok f h addr offset =
      step 0
        (read_variant_arms_from_memory-Effect c law read offset addr _ (none ∷ some t ∷ [])
          (tt, (reads t wf, tt)))
        (omega arith)
        λ _ _. last 0 (emit-Effect c (option_lift t i) law) (omega arith) (omega arith)
  read_kind-Effect i d (TypeDefKind.result a b) wf ok f h addr offset =
      step 0
        (read_variant_arms_from_memory-Effect c law read offset addr _ (a ∷ b ∷ [])
          (reads_option a wf.0, (reads_option b wf.1, tt)))
        (omega arith)
        λ _ _. last 0 (emit-Effect c (result_lift a b i) law) (omega arith) (omega arith)
  read_kind-Effect i d (TypeDefKind.enum e) wf ok f h addr offset =
      step 0 (push-Effect addr) (omega arith) λ _ _.
        step 0 (load_intrepr-Effect c law offset _) (omega arith)
          λ _ _. last 0 h (omega (arith, f)) (omega arith)
  read_kind-Effect i d TypeDefKind.unknown wf ok f h addr offset = absurd ok
