-- ===== src/Abi/Lower/Memory.antt =====
-- crates/core/src/abi.rs, `write_to_memory` and its helpers. `lower` and `write` are the recursive
-- calls.
use wai_bindgen.Prelude.{ℕ, ◌+◌, ◌*◌, zero, suc, Option, none, some, List, [], ◌∷◌, length}
use wai_bindgen.Wit.{
  WitInt, WitType, TypeId, TypeDef, TypeDefKind, FlagsRepr, field_types, case_types,
}
use wai_bindgen.Abi.Instruction.{
  Instruction, i32_store, i32_store8, i32_store16, i64_store, f32_store, f64_store, pointer_store,
  length_store, record_lower, tuple_lower, variant_payload_name, variant_lower, option_lower,
  result_lower, i32_const,
}
use wai_bindgen.Abi.Generator.{
  M, Context, ◌>>=◌, ◌>>◌, fail, todo, unreachable, skip, push, pop, drain, push_block,
  finish_block, emit, type_at, name_of, add_i32,
}
use wai_bindgen.Abi.Lower.Arms.{as_i32}

abbrev pub Lowers : Type 0 → Type 0 → Type 0
Lowers O S = WitType → M O S (Unit {0})

-- type, address, offset
abbrev pub Writes : Type 0 → Type 0 → Type 0
Writes O S = WitType → O → ℕ → M O S (Unit {0})

abbrev store_inst : ℕ → WitInt → Instruction
store_inst offset WitInt.u64 = i64_store offset
store_inst offset WitInt.u32 = i32_store offset
store_inst offset WitInt.u16 = i32_store16 offset
store_inst offset WitInt.u8 = i32_store8 offset

module _ {O S : Type 0} (c : Context O S) where
  unfoldable pub store_intrepr : ℕ → WitInt → M O S (Unit {0})
  store_intrepr offset repr = emit c (store_inst offset repr)

  module _ (lower : Lowers O S) where
    unfoldable pub lower_and_emit : WitType → O → Instruction → M O S (Unit {0})
    lower_and_emit ty addr inst = do lower ty; push addr; emit c inst

    unfoldable pub write_list_to_memory : WitType → O → ℕ → M O S (Unit {0})
    write_list_to_memory ty addr offset = do
      lower ty
      push addr
      emit c (length_store (add_i32 offset 4))
      push addr
      emit c (pointer_store offset)

  -- `for i in (0..n).rev()`
  unfoldable pub store_words : O → ℕ → ℕ → M O S (Unit {0})
  store_words addr offset zero = skip
  store_words addr offset (suc i) = do
    push addr
    emit c (i32_store (add_i32 offset (as_i32 i * 4)))
    store_words addr offset i

  unfoldable pub store_flags : O → ℕ → FlagsRepr → M O S (Unit {0})
  store_flags addr offset FlagsRepr.u8 = do push addr; store_intrepr offset WitInt.u8
  store_flags addr offset FlagsRepr.u16 = do push addr; store_intrepr offset WitInt.u16
  store_flags addr offset (FlagsRepr.u32 n) = store_words addr offset n

  module _ (write : Writes O S) where
    -- The loop of `write_fields_to_memory` over the zipped lists.
    unfoldable pub write_each : List (ℕ × WitType) → List O → O → ℕ → M O S (Unit {0})
    write_each [] ops addr offset = skip
    write_each (f ∷ fs) [] addr offset = skip
    write_each ((field_offset, ty) ∷ fs) (op ∷ ops) addr offset = do
      push op
      write ty addr (add_i32 offset (as_i32 field_offset))
      write_each fs ops addr offset

    unfoldable pub write_fields_to_memory : List WitType → O → ℕ → M O S (Unit {0})
    write_fields_to_memory tys addr offset = do
      fields ← drain (length tys)
      write_each (c.resolve.field_offsets tys) fields addr offset

    unfoldable pub write_payload : O → O → ℕ → Option WitType → M O S (Unit {0})
    write_payload payload_name addr payload_offset none = skip
    write_payload payload_name addr payload_offset (some t) = do
      push payload_name
      write t addr payload_offset

    unfoldable pub write_arms : O → ℕ → ℕ → WitInt → ℕ → List (Option WitType) → M O S (Unit {0})
    write_arms addr offset payload_offset tag i [] = skip
    write_arms addr offset payload_offset tag i (ty ∷ tys) = do
      push_block c
      emit c variant_payload_name
      payload_name ← pop
      emit c (i32_const (as_i32 i))
      push addr
      store_intrepr offset tag
      write_payload payload_name addr payload_offset ty
      finish_block c 0
      write_arms addr offset payload_offset tag (i + 1) tys

    unfoldable pub write_variant_arms_to_memory :
        ℕ → O → WitInt → List (Option WitType) → M O S (Unit {0})
    write_variant_arms_to_memory offset addr tag cases =
        let payload_offset = add_i32 offset (as_i32 (c.resolve.payload_offset tag cases)) in
        write_arms addr offset payload_offset tag 0 cases

  module _ (lower : Lowers O S) (write : Writes O S) where
    -- The arms of `write_to_memory` for the definition `d` of the type `i`.
    unfoldable pub write_kind : TypeId → TypeDef → TypeDefKind → O → ℕ → M O S (Unit {0})
    write_kind i d (TypeDefKind.type t) addr offset = write t addr offset
    write_kind i d (TypeDefKind.list _) addr offset =
        write_list_to_memory lower (WitType.id i) addr offset
    write_kind i d (TypeDefKind.future _) addr offset =
        lower_and_emit lower (WitType.id i) addr (i32_store offset)
    write_kind i d (TypeDefKind.stream _) addr offset =
        lower_and_emit lower (WitType.id i) addr (i32_store offset)
    write_kind i d TypeDefKind.error_context addr offset =
        lower_and_emit lower (WitType.id i) addr (i32_store offset)
    write_kind i d (TypeDefKind.handle _) addr offset =
        lower_and_emit lower (WitType.id i) addr (i32_store offset)
    write_kind i d (TypeDefKind.record_ fields) addr offset = do
      name ← name_of c d
      emit c (record_lower fields name i)
      write_fields_to_memory write (field_types fields) addr offset
    write_kind i d TypeDefKind.resource addr offset = fail todo
    write_kind i d (TypeDefKind.tuple types) addr offset = do
      emit c (tuple_lower types i)
      write_fields_to_memory write types addr offset
    write_kind i d (TypeDefKind.flags f) addr offset = do
      lower (WitType.id i)
      store_flags addr offset (c.resolve.flags_repr f)
    write_kind i d (TypeDefKind.variant cases) addr offset = do
      write_variant_arms_to_memory write offset addr (c.resolve.variant_tag cases)
          (case_types cases)
      name ← name_of c d
      emit c (variant_lower cases name i [])
    write_kind i d (TypeDefKind.option t) addr offset = do
      write_variant_arms_to_memory write offset addr WitInt.u8 (none ∷ some t ∷ [])
      emit c (option_lower t i [])
    write_kind i d (TypeDefKind.result a b) addr offset = do
      write_variant_arms_to_memory write offset addr WitInt.u8 (a ∷ b ∷ [])
      emit c (result_lower a b i [])
    write_kind i d (TypeDefKind.enum e) addr offset = do
      lower (WitType.id i)
      push addr
      store_intrepr offset (c.resolve.enum_tag e)
    write_kind i d TypeDefKind.unknown addr offset = fail unreachable

    -- `write_to_memory`
    unfoldable pub write_body : WitType → O → ℕ → M O S (Unit {0})
    write_body WitType.bool addr offset = lower_and_emit lower WitType.bool addr (i32_store8 offset)
    write_body WitType.u8 addr offset = lower_and_emit lower WitType.u8 addr (i32_store8 offset)
    write_body WitType.s8 addr offset = lower_and_emit lower WitType.s8 addr (i32_store8 offset)
    write_body WitType.u16 addr offset = lower_and_emit lower WitType.u16 addr (i32_store16 offset)
    write_body WitType.s16 addr offset = lower_and_emit lower WitType.s16 addr (i32_store16 offset)
    write_body WitType.u32 addr offset = lower_and_emit lower WitType.u32 addr (i32_store offset)
    write_body WitType.s32 addr offset = lower_and_emit lower WitType.s32 addr (i32_store offset)
    write_body WitType.char addr offset = lower_and_emit lower WitType.char addr (i32_store offset)
    write_body WitType.u64 addr offset = lower_and_emit lower WitType.u64 addr (i64_store offset)
    write_body WitType.s64 addr offset = lower_and_emit lower WitType.s64 addr (i64_store offset)
    write_body WitType.f32 addr offset = lower_and_emit lower WitType.f32 addr (f32_store offset)
    write_body WitType.f64 addr offset = lower_and_emit lower WitType.f64 addr (f64_store offset)
    write_body WitType.string addr offset = write_list_to_memory lower WitType.string addr offset
    write_body (WitType.id i) addr offset = do d ← type_at c i; write_kind i d d.kind addr offset
