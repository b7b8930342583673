-- ===== src/Abi/Lift.antt =====
-- crates/core/src/abi.rs, `lift`: the instructions that turn flat values into a value of an interface
-- type. It and `read_from_memory` call each other; the recursion is on fuel, and the bodies take
-- the recursive calls as arguments.
pub mod Arms
pub mod Memory
pub mod ArmsEffect
pub mod MemoryEffect
pub mod Effects
pub mod Total
use wai_bindgen.Prelude.{ℕ, zero, suc, Bool, true, false, none, some, [], ◌∷◌, length}
use wai_bindgen.Wit.{WitType, TypeId, TypeDef, TypeDefKind, field_types, case_types}
use wai_bindgen.Wit.Laws.{handle_type}
use wai_bindgen.Abi.Instruction.{
  bool_from_i32, s8_from_i32, u8_from_i32, s16_from_i32, u16_from_i32, s32_from_i32, u32_from_i32,
  s64_from_i64, u64_from_i64, char_from_i32, f32_from_core_f32, f64_from_core_f64, string_lift,
  list_canon_lift, list_lift, iter_base_pointer, handle_lift, record_lift, tuple_lift, flags_lift,
  variant_lift, enum_lift, option_lift, result_lift, future_lift, stream_lift, error_context_lift,
}
use wai_bindgen.Abi.Generator.{
  M, Context, ◌>>=◌, ◌>>◌, fail, todo, unreachable, out_of_fuel, pop, push_block, finish_block,
  drain, emit, type_at, name_of, is_list_canonical,
}
use wai_bindgen.Abi.Lift.Arms.{lift_each, lift_variant_arms}
use wai_bindgen.Abi.Lift.Memory.{Lifts, Reads, read_body}

module _ {O S : Type 0} (c : Context O S) where
  module _ (lift : Lifts O S) (read : Reads O S) where
    unfoldable pub lift_list : TypeId → WitType → Bool → M O S (Unit {0})
    lift_list i element true = emit c (list_canon_lift element i)
    lift_list i element false = do
      push_block c
      emit c iter_base_pointer
      addr ← pop
      read element addr 0
      finish_block c 1
      emit c (list_lift element i)

    -- The arms of `lift` for the definition `d` of the type `i`.
    unfoldable pub lift_kind : TypeId → TypeDef → TypeDefKind → M O S (Unit {0})
    lift_kind i d (TypeDefKind.type t) = lift t
    lift_kind i d (TypeDefKind.list element) = do
      canonical ← is_list_canonical c element
      lift_list i element canonical
    lift_kind i d (TypeDefKind.handle h) = do
      r ← type_at c (handle_type h)
      name ← name_of c r
      emit c (handle_lift h name i)
    lift_kind i d TypeDefKind.resource = fail todo
    lift_kind i d (TypeDefKind.record_ fields) = do
      args ← drain (length (c.resolve.push_flat (WitType.id i)))
      lift_each c lift (field_types fields) args
      name ← name_of c d
      emit c (record_lift fields name i)
    lift_kind i d (TypeDefKind.tuple types) = do
      args ← drain (length (c.resolve.push_flat (WitType.id i)))
      lift_each c lift types args
      emit c (tuple_lift types i)
    lift_kind i d (TypeDefKind.flags f) = do name ← name_of c d; emit c (flags_lift f name i)
    lift_kind i d (TypeDefKind.variant cases) = do
      lift_variant_arms c lift (WitType.id i) (case_types cases)
      name ← name_of c d
      emit c (variant_lift cases name i)
    lift_kind i d (TypeDefKind.enum e) = do name ← name_of c d; emit c (enum_lift e name i)
    lift_kind i d (TypeDefKind.option t) = do
      lift_variant_arms c lift (WitType.id i) (none ∷ some t ∷ [])
      emit c (option_lift t i)
    lift_kind i d (TypeDefKind.result a b) = do
      lift_variant_arms c lift (WitType.id i) (a ∷ b ∷ [])
      emit c (result_lift a b i)
    lift_kind i d (TypeDefKind.future payload) = emit c (future_lift payload i)
    lift_kind i d (TypeDefKind.stream payload) = emit c (stream_lift payload i)
    lift_kind i d TypeDefKind.error_context = emit c (error_context_lift i)
    lift_kind i d TypeDefKind.unknown = fail unreachable

    unfoldable pub lift_body : WitType → M O S (Unit {0})
    lift_body WitType.bool = emit c bool_from_i32
    lift_body WitType.s8 = emit c s8_from_i32
    lift_body WitType.u8 = emit c u8_from_i32
    lift_body WitType.s16 = emit c s16_from_i32
    lift_body WitType.u16 = emit c u16_from_i32
    lift_body WitType.s32 = emit c s32_from_i32
    lift_body WitType.u32 = emit c u32_from_i32
    lift_body WitType.s64 = emit c s64_from_i64
    lift_body WitType.u64 = emit c u64_from_i64
    lift_body WitType.char = emit c char_from_i32
    lift_body WitType.f32 = emit c f32_from_core_f32
    lift_body WitType.f64 = emit c f64_from_core_f64
    lift_body WitType.string = emit c string_lift
    lift_body (WitType.id i) = do d ← type_at c i; lift_kind i d d.kind

  unfoldable mutual
    pub lift : ℕ → Lifts O S
    lift zero ty = fail out_of_fuel
    lift (suc n) ty = lift_body (lift n) (read_from_memory n) ty

    pub read_from_memory : ℕ → Reads O S
    read_from_memory zero ty addr offset = fail out_of_fuel
    read_from_memory (suc n) ty addr offset =
        read_body c (lift n) (read_from_memory n) ty addr offset
