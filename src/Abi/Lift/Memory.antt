-- ===== src/Abi/Lift/Memory.antt =====
-- crates/core/src/abi.rs, `read_from_memory` and its helpers. `lift` and `read` are the recursive
-- calls.
use wai_bindgen.Prelude.{ℕ, ◌+◌, ◌*◌, zero, suc, Option, none, some, List, [], ◌∷◌}
use wai_bindgen.Wit.{
  WitInt, WitType, TypeId, TypeDef, TypeDefKind, FlagsRepr, field_types, case_types,
}
use wai_bindgen.Abi.Instruction.{
  Instruction, i32_load, i32_load8_u, i32_load8_s, i32_load16_u, i32_load16_s, i64_load, f32_load,
  f64_load, pointer_load, length_load, record_lift, tuple_lift, variant_lift, option_lift,
  result_lift,
}
use wai_bindgen.Abi.Generator.{
  M, Context, ◌>>=◌, ◌>>◌, fail, todo, unreachable, skip, push, push_block, finish_block, emit,
  type_at, name_of, add_i32,
}
use wai_bindgen.Abi.Lower.Arms.{as_i32}
use wai_bindgen.Abi.Lower.Memory.{Lowers, Writes}

-- `lift` and `read_from_memory` take what `lower` and `write_to_memory` take.
abbrev pub Lifts : Type 0 → Type 0 → Type 0
Lifts = Lowers

abbrev pub Reads : Type 0 → Type 0 → Type 0
Reads = Writes

abbrev load_inst : ℕ → WitInt → Instruction
load_inst offset WitInt.u64 = i64_load offset
load_inst offset WitInt.u32 = i32_load offset
load_inst offset WitInt.u16 = i32_load16_u offset
load_inst offset WitInt.u8 = i32_load8_u offset

module _ {O S : Type 0} (c : Context O S) where
  unfoldable pub load_intrepr : ℕ → WitInt → M O S (Unit {0})
  load_intrepr offset repr = emit c (load_inst offset repr)

  module _ (lift : Lifts O S) where
    unfoldable pub emit_and_lift : WitType → O → Instruction → M O S (Unit {0})
    emit_and_lift ty addr inst = do push addr; emit c inst; lift ty

    unfoldable pub read_list_from_memory : WitType → O → ℕ → M O S (Unit {0})
    read_list_from_memory ty addr offset = do
      push addr
      emit c (pointer_load offset)
      push addr
      emit c (length_load (add_i32 offset 4))
      lift ty

  -- `for i in 0..n`, with the rounds that are left.
  unfoldable pub load_words : O → ℕ → ℕ → ℕ → M O S (Unit {0})
  load_words addr offset i zero = skip
  load_words addr offset i (suc left) = do
    push addr
    emit c (i32_load (add_i32 offset (as_i32 i * 4)))
    load_words addr offset (i + 1) left

  unfoldable pub load_flags : O → ℕ → FlagsRepr → M O S (Unit {0})
  load_flags addr offset FlagsRepr.u8 = do push addr; load_intrepr offset WitInt.u8
  load_flags addr offset FlagsRepr.u16 = do push addr; load_intrepr offset WitInt.u16
  load_flags addr offset (FlagsRepr.u32 n) = load_words addr offset 0 n

  module _ (read : Reads O S) where
    unfoldable pub read_each : List (ℕ × WitType) → O → ℕ → M O S (Unit {0})
    read_each [] addr offset = skip
    read_each ((field_offset, ty) ∷ fs) addr offset = do
      read ty addr (add_i32 offset (as_i32 field_offset))
      read_each fs addr offset

    unfoldable pub read_fields_from_memory : List WitType → O → ℕ → M O S (Unit {0})
    read_fields_from_memory tys addr offset = read_each (c.resolve.field_offsets tys) addr offset

    unfoldable pub read_arms : O → ℕ → List (Option WitType) → M O S (Unit {0})
    read_arms addr payload_offset [] = skip
    read_arms addr payload_offset (none ∷ tys) = do
      push_block c
      finish_block c 0
      read_arms addr payload_offset tys
    read_arms addr payload_offset (some t ∷ tys) = do
      push_block c
      read t addr payload_offset
      finish_block c 1
      read_arms addr payload_offset tys

    unfoldable pub read_variant_arms_from_memory :
        ℕ → O → WitInt → List (Option WitType) → M O S (Unit {0})
    read_variant_arms_from_memory offset addr tag cases = do
      push addr
      load_intrepr offset tag
      let payload_offset = add_i32 offset (as_i32 (c.resolve.payload_offset tag cases))
      read_arms addr payload_offset cases

  module _ (lift : Lifts O S) (read : Reads O S) where
    -- The arms of `read_from_memory` for the definition `d` of the type `i`.
    unfoldable pub read_kind : TypeId → TypeDef → TypeDefKind → O → ℕ → M O S (Unit {0})
    read_kind i d (TypeDefKind.type t) addr offset = read t addr offset
    read_kind i d (TypeDefKind.list _) addr offset =
        read_list_from_memory lift (WitType.id i) addr offset
    read_kind i d (TypeDefKind.future _) addr offset =
        emit_and_lift lift (WitType.id i) addr (i32_load offset)
    read_kind i d (TypeDefKind.stream _) addr offset =
        emit_and_lift lift (WitType.id i) addr (i32_load offset)
    read_kind i d TypeDefKind.error_context addr offset =
        emit_and_lift lift (WitType.id i) addr (i32_load offset)
    read_kind i d (TypeDefKind.handle _) addr offset =
        emit_and_lift lift (WitType.id i) addr (i32_load offset)
    read_kind i d TypeDefKind.resource addr offset = fail todo
    read_kind i d (TypeDefKind.record_ fields) addr offset = do
      read_fields_from_memory read (field_types fields) addr offset
      name ← name_of c d
      emit c (record_lift fields name i)
    read_kind i d (TypeDefKind.tuple types) addr offset = do
      read_fields_from_memory read types addr offset
      emit c (tuple_lift types i)
    read_kind i d (TypeDefKind.flags f) addr offset = do
      load_flags addr offset (c.resolve.flags_repr f)
      lift (WitType.id i)
    read_kind i d (TypeDefKind.variant cases) addr offset = do
      read_variant_arms_from_memory read offset addr (c.resolve.variant_tag cases)
          (case_types cases)
      name ← name_of c d
      emit c (variant_lift cases name i)
    read_kind i d (TypeDefKind.option t) addr offset = do
      read_variant_arms_from_memory read offset addr WitInt.u8 (none ∷ some t ∷ [])
      emit c (option_lift t i)
    read_kind i d (TypeDefKind.result a b) addr offset = do
      read_variant_arms_from_memory read offset addr WitInt.u8 (a ∷ b ∷ [])
      emit c (result_lift a b i)
    read_kind i d (TypeDefKind.enum e) addr offset = do
      push addr
      load_intrepr offset (c.resolve.enum_tag e)
      lift (WitType.id i)
    read_kind i d TypeDefKind.unknown addr offset = fail unreachable

    -- `read_from_memory`
    unfoldable pub read_body : WitType → O → ℕ → M O S (Unit {0})
    read_body WitType.bool addr offset = emit_and_lift lift WitType.bool addr (i32_load8_u offset)
    read_body WitType.u8 addr offset = emit_and_lift lift WitType.u8 addr (i32_load8_u offset)
    read_body WitType.s8 addr offset = emit_and_lift lift WitType.s8 addr (i32_load8_s offset)
    read_body WitType.u16 addr offset = emit_and_lift lift WitType.u16 addr (i32_load16_u offset)
    read_body WitType.s16 addr offset = emit_and_lift lift WitType.s16 addr (i32_load16_s offset)
    read_body WitType.u32 addr offset = emit_and_lift lift WitType.u32 addr (i32_load offset)
    read_body WitType.s32 addr offset = emit_and_lift lift WitType.s32 addr (i32_load offset)
    read_body WitType.char addr offset = emit_and_lift lift WitType.char addr (i32_load offset)
    read_body WitType.u64 addr offset = emit_and_lift lift WitType.u64 addr (i64_load offset)
    read_body WitType.s64 addr offset = emit_and_lift lift WitType.s64 addr (i64_load offset)
    read_body WitType.f32 addr offset = emit_and_lift lift WitType.f32 addr (f32_load offset)
    read_body WitType.f64 addr offset = emit_and_lift lift WitType.f64 addr (f64_load offset)
    read_body WitType.string addr offset = read_list_from_memory lift WitType.string addr offset
    read_body (WitType.id i) addr offset = do d ← type_at c i; read_kind i d d.kind addr offset
