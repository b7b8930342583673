-- ===== src/Abi/Deallocate/Effects.antt =====
-- The effect on the stack of crates/core/src/abi.rs, `deallocate`: none, and no panic. The arms that
-- panic are passed over by the test at its head.
use wai_bindgen.Prelude.{
  ℕ, zero, suc, ◌+◌, ◌≤◌, sym, subst, Bool, Option, none, some, List, [], ◌∷◌, length, All, All-map,
  map, arith, if◌then◌else◌,
}
use wai_bindgen.Wit.{WitInt, WitType, TypeId, TypeDef, TypeDefKind, field_types, case_types}
use wai_bindgen.Wit.Laws.{IsFlattening, IsWellFormed, WfKind, Below, BelowOption}
use wai_bindgen.Abi.Instruction.{
  pointer_load, length_load, iter_base_pointer, guest_deallocate_string, guest_deallocate_list,
  guest_deallocate_variant,
}
use wai_bindgen.Abi.Generator.{M, Context, Result, ◌>>=◌, skip}
use wai_bindgen.Abi.Generator.Effect.{Effect, Any, step, last}
use wai_bindgen.Abi.Generator.Rules.{
  IsBindgen, pure-Effect, push-Effect, pop-Effect, push_block-Effect, finish_block-Effect,
  emit-Effect, step_type_at,
}
use wai_bindgen.Abi.Lift.MemoryEffect.{load_intrepr-Effect}
use wai_bindgen.Abi.PostReturn.Decides.{
  HoldsListKind, HoldsList-def, Decides, holds, fails, needs_post_return-Decides,
}
use wai_bindgen.Abi.Deallocate.{
  Frees, from_result, free_arms, deallocate_variant, free_each, deallocate_fields, deallocate_kind,
  deallocate_body, deallocate,
}

module _ {O S : Type 0} (c : Context O S) (law : IsBindgen c.resolve c.bindgen) where
  -- `free` leaves the stack as it is.
  abbrev pub FreesTo : Frees O S → WitType → Type 0
  FreesTo free t = (addr : O) (offset : ℕ) → Effect (free t addr offset) 0 Any 0

  abbrev FreesOption : Frees O S → Option WitType → Type 0
  FreesOption free none = Unit
  FreesOption free (some t) = FreesTo free t

  module _ (free : Frees O S) where
    free_arms-Effect :
        (addr : O) (payload_offset : ℕ) (tys : List (Option WitType))
        → All (FreesOption free) tys
        → Effect (free_arms c free addr payload_offset tys) 0 Any 0
    unfolding free_arms
    free_arms-Effect addr payload_offset [] h = pure-Effect tt tt
    free_arms-Effect addr payload_offset (none ∷ tys) h =
        step 0 (push_block-Effect c) (omega arith) λ _ _.
          step 0 (finish_block-Effect c 0) (omega arith)
            λ _ _. last 0 (free_arms-Effect addr payload_offset tys h.1) (omega arith) (omega arith)
    free_arms-Effect addr payload_offset (some t ∷ tys) h =
        step 0 (push_block-Effect c) (omega arith) λ _ _.
          step 0 (h.0 addr payload_offset) (omega arith) λ _ _.
            step 0 (finish_block-Effect c 0) (omega arith) λ _ _.
              last 0 (free_arms-Effect addr payload_offset tys h.1) (omega arith) (omega arith)

    deallocate_variant-Effect :
        (offset : ℕ) (addr : O) (tag : WitInt) (cases : List (Option WitType))
        → All (FreesOption free) cases
        → Effect (deallocate_variant c free offset addr tag cases) 0 Any 1
    unfolding deallocate_variant
    deallocate_variant-Effect offset addr tag cases h =
        step 0 (push-Effect addr) (omega arith) λ _ _.
          step 0 (load_intrepr-Effect c law offset tag) (omega arith)
            λ _ _. last 1 (free_arms-Effect addr _ cases h) (omega arith) (omega arith)

    free_each-Effect :
        (fs : List (ℕ × WitType)) (addr : O) (offset : ℕ)
        → All (FreesTo free) (map (λ (p : ℕ × WitType). p.1) fs)
        → Effect (free_each c free fs addr offset) 0 Any 0
    unfolding free_each
    free_each-Effect [] addr offset h = pure-Effect tt tt
    free_each-Effect (f ∷ fs) addr offset h =
        step 0 (h.0 addr _) (omega arith)
          λ _ _. last 0 (free_each-Effect fs addr offset h.1) (omega arith) (omega arith)

    pub deallocate_fields-Effect :
        IsFlattening c.resolve
        → (ts : List WitType) (addr : O) (offset : ℕ) → All (FreesTo free) ts
        → Effect (deallocate_fields c free ts addr offset) 0 Any 0
    unfolding deallocate_fields
    deallocate_fields-Effect flat ts addr offset h =
        free_each-Effect (c.resolve.field_offsets ts) addr offset
          (subst (λ l. All (FreesTo free) l) (sym (flat.field_types_eq ts)) h)

  module _ (flat : IsFlattening c.resolve) (rank : TypeId → ℕ) (n : ℕ) (free : Frees O S)
      (frees : (t : WitType) → Below c.resolve rank n t → FreesTo free t) where
    frees_option : (t : Option WitType) → BelowOption c.resolve rank n t → FreesOption free t
    frees_option none h = tt
    frees_option (some t) h = frees t h

    deallocate_kind-Effect :
        (d : TypeDef) (kind : TypeDefKind) (addr : O) (offset : ℕ)
        → WfKind c.resolve rank n d kind
        → HoldsListKind c.resolve kind
        → Effect (deallocate_kind c free kind addr offset) 0 Any 0
    unfolding deallocate_kind
    deallocate_kind-Effect d (TypeDefKind.type t) addr offset wf h = frees t wf addr offset
    deallocate_kind-Effect d (TypeDefKind.list t) addr offset wf h =
        step 0 (push-Effect addr) (omega arith) λ _ _.
          step 0 (emit-Effect c (pointer_load offset) law) (omega arith) λ _ _.
            step 1 (push-Effect addr) (omega arith) λ _ _.
              step 1 (emit-Effect c (length_load _) law) (omega arith) λ _ _.
                step 2 (push_block-Effect c) (omega arith) λ _ _.
                  step 2 (emit-Effect c iter_base_pointer law) (omega arith) λ _ _.
                    step 2 pop-Effect (omega arith) λ elem _.
                      step 2 (frees t wf elem 0) (omega arith) λ _ _.
                        step 2 (finish_block-Effect c 0) (omega arith) λ _ _.
                          last 0 (emit-Effect c (guest_deallocate_list t) law) (omega arith)
                            (omega arith)
    deallocate_kind-Effect d (TypeDefKind.handle _) addr offset wf h = elim h [ ]
    deallocate_kind-Effect d TypeDefKind.resource addr offset wf h = elim h [ ]
    deallocate_kind-Effect d (TypeDefKind.record_ fields) addr offset wf h =
        deallocate_fields-Effect free flat (field_types fields) addr offset
          (All-map frees (field_types fields) wf.1)
    deallocate_kind-Effect d (TypeDefKind.tuple types) addr offset wf h =
        deallocate_fields-Effect free flat types addr offset (All-map frees types wf)
    deallocate_kind-Effect d (TypeDefKind.flags _) addr offset wf h = pure-Effect tt tt
    deallocate_kind-Effect d (TypeDefKind.variant cases) addr offset wf h =
        step 0
          (deallocate_variant-Effect free offset addr _ (case_types cases)
            (All-map frees_option (case_types cases) wf.1))
          (omega arith)
          λ _ _.
            last 0 (emit-Effect c (guest_deallocate_variant (length cases)) law) (omega arith)
              (omega arith)
    deallocate_kind-Effect d (TypeDefKind.option t) addr offset wf h =
        step 0
          (deallocate_variant-Effect free offset addr _ (none ∷ some t ∷ []) (tt, (frees t wf, tt)))
          (omega arith)
          λ _ _. last 0 (emit-Effect c (guest_deallocate_variant 2) law) (omega arith) (omega arith)
    deallocate_kind-Effect d (TypeDefKind.result a b) addr offset wf h =
        step 0
          (deallocate_variant-Effect free offset addr _ (a ∷ b ∷ [])
            (frees_option a wf.0, (frees_option b wf.1, tt)))
          (omega arith)
          λ _ _. last 0 (emit-Effect c (guest_deallocate_variant 2) law) (omega arith) (omega arith)
    deallocate_kind-Effect d (TypeDefKind.enum _) addr offset wf h = pure-Effect tt tt
    deallocate_kind-Effect d (TypeDefKind.future _) addr offset wf h = elim h [ ]
    deallocate_kind-Effect d (TypeDefKind.stream _) addr offset wf h = elim h [ ]
    deallocate_kind-Effect d TypeDefKind.error_context addr offset wf h = elim h [ ]
    deallocate_kind-Effect d TypeDefKind.unknown addr offset wf h = elim h [ ]

  -- After a test that decides `P`, the guarded code may rely on it.
  guarded :
      {P : Type 0} {r : Result Bool} {m : M O S (Unit {0})}
      → Decides P r
      → (P → Effect m 0 Any 0)
      → Effect (from_result r >>= λ b. if b then m else skip) 0 Any 0
  unfolding from_result ◌>>=◌
  guarded (holds p) h = record { run = λ base g above. (h p).run base g above }
  guarded (fails n) h = record { run = λ base g above. (pure-Effect tt tt).run base g above }

  module _ (flat : IsFlattening c.resolve) (rank : TypeId → ℕ)
      (wf : IsWellFormed c.resolve rank) where
    pub deallocate_fuel :
        (n r : ℕ) (t : WitType) → Below c.resolve rank r t → r + 1 ≤ n → FreesTo (deallocate c n) t
    unfolding deallocate deallocate_body
    deallocate_fuel zero r t b h addr offset = absurd (omega arith)
    deallocate_fuel (suc n) r WitType.string b h addr offset =
        guarded (needs_post_return-Decides c.resolve rank wf (suc n) r WitType.string b h) λ _.
          step 0 (push-Effect addr) (omega arith) λ _ _.
            step 0 (emit-Effect c (pointer_load offset) law) (omega arith) λ _ _.
              step 1 (push-Effect addr) (omega arith) λ _ _.
                step 1 (emit-Effect c (length_load _) law) (omega arith) λ _ _.
                  last 0 (emit-Effect c guest_deallocate_string law) (omega arith) (omega arith)
    deallocate_fuel (suc n) r (WitType.id i) (d, found, v, lt) h addr offset =
        guarded
          (needs_post_return-Decides c.resolve rank wf (suc n) r (WitType.id i) (d, found, v, lt) h)
          λ p. step_type_at c _ i d found (
            deallocate_kind-Effect flat rank (rank i) (deallocate c n)
              (λ t b a o. deallocate_fuel n (rank i) t b (omega arith) a o) d d.kind addr offset
              (wf.defined i d found) (HoldsList-def c.resolve i d found p))
    deallocate_fuel (suc n) r t b h addr offset =
        guarded (needs_post_return-Decides c.resolve rank wf (suc n) r t b h) λ _. pure-Effect tt tt

    -- With fuel `r + 1`, for a type of rank below `r`, `deallocate` leaves the stack as it is. It
    -- does not panic.
    pub deallocate-Effect :
        (n r : ℕ) (t : WitType)
        → Below c.resolve rank r t
        → r + 1 ≤ n
        → (addr : O) (offset : ℕ) → Effect (deallocate c n t addr offset) 0 Any 0
    deallocate-Effect n r t b fuel addr offset = deallocate_fuel n r t b fuel addr offset
