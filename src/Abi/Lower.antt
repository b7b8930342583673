-- ===== src/Abi/Lower.antt =====
-- crates/core/src/abi.rs, `lower`: the instructions that turn a value of an interface type into flat
-- values. It and `write_to_memory` call each other; the recursion is on fuel, and the bodies take
-- the recursive calls as arguments.
pub mod Arms
pub mod Memory
pub mod ArmsEffect
pub mod MemoryEffect
pub mod Effects
pub mod Total
use wai_bindgen.Prelude.{ℕ, zero, suc, Bool, true, false, none, some, [], ◌∷◌, length}
use wai_bindgen.Wit.{WitType, TypeId, TypeDef, TypeDefKind, field_types, case_types}
use wai_bindgen.Wit.Laws.{handle_type}
use wai_bindgen.Abi.Instruction.{
  i32_from_bool, i32_from_s8, i32_from_u8, i32_from_s16, i32_from_u16, i32_from_s32, i32_from_u32,
  i64_from_s64, i64_from_u64, i32_from_char, core_f32_from_f32, core_f64_from_f64, string_lower,
  list_canon_lower, list_lower, iter_elem, iter_base_pointer, handle_lower, record_lower,
  tuple_lower, flags_lower, variant_lower, enum_lower, option_lower, result_lower, future_lower,
  stream_lower, error_context_lower,
}
use wai_bindgen.Abi.Generator.{
  M, Context, ◌>>=◌, ◌>>◌, fail, todo, unreachable, out_of_fuel, pop, push_block, finish_block,
  drain, emit, type_at, name_of, is_list_canonical,
}
use wai_bindgen.Abi.Lower.Arms.{list_realloc, lower_each, lower_variant_arms}
use wai_bindgen.Abi.Lower.Memory.{Lowers, Writes, write_body}

module _ {O S : Type 0} (c : Context O S) where
  module _ (lower : Lowers O S) (write : Writes O S) where
    -- The list's elements are lowered one by one, unless the language's layout is canonical.
    unfoldable pub lower_list : WitType → Bool → M O S (Unit {0})
    lower_list element true = emit c (list_canon_lower element (list_realloc c))
    lower_list element false = do
      push_block c
      emit c (iter_elem element)
      emit c iter_base_pointer
      addr ← pop
      write element addr 0
      finish_block c 0
      emit c (list_lower element (list_realloc c))

    -- The arms of `lower` for the definition `d` of the type `i`.
    unfoldable pub lower_kind : TypeId → TypeDef → TypeDefKind → M O S (Unit {0})
    lower_kind i d (TypeDefKind.type t) = lower t
    lower_kind i d (TypeDefKind.list element) = do
      canonical ← is_list_canonical c element
      lower_list element canonical
    lower_kind i d (TypeDefKind.handle h) = do
      r ← type_at c (handle_type h)
      name ← name_of c r
      emit c (handle_lower h name i)
    lower_kind i d TypeDefKind.resource = fail todo
    lower_kind i d (TypeDefKind.record_ fields) = do
      name ← name_of c d
      emit c (record_lower fields name i)
      values ← drain (length fields)
      lower_each c lower (field_types fields) values
    lower_kind i d (TypeDefKind.tuple types) = do
      emit c (tuple_lower types i)
      values ← drain (length types)
      lower_each c lower types values
    lower_kind i d (TypeDefKind.flags f) = do name ← name_of c d; emit c (flags_lower f name i)
    lower_kind i d (TypeDefKind.variant cases) = do
      results ← lower_variant_arms c lower (WitType.id i) (case_types cases)
      name ← name_of c d
      emit c (variant_lower cases name i results)
    lower_kind i d (TypeDefKind.enum e) = do name ← name_of c d; emit c (enum_lower e name i)
    lower_kind i d (TypeDefKind.option t) = do
      results ← lower_variant_arms c lower (WitType.id i) (none ∷ some t ∷ [])
      emit c (option_lower t i results)
    lower_kind i d (TypeDefKind.result a b) = do
      results ← lower_variant_arms c lower (WitType.id i) (a ∷ b ∷ [])
      emit c (result_lower a b i results)
    lower_kind i d (TypeDefKind.future payload) = emit c (future_lower payload i)
    lower_kind i d (TypeDefKind.stream payload) = emit c (stream_lower payload i)
    lower_kind i d TypeDefKind.error_context = emit c (error_context_lower i)
    lower_kind i d TypeDefKind.unknown = fail unreachable

    unfoldable pub lower_body : WitType → M O S (Unit {0})
    lower_body WitType.bool = emit c i32_from_bool
    lower_body WitType.s8 = emit c i32_from_s8
    lower_body WitType.u8 = emit c i32_from_u8
    lower_body WitType.s16 = emit c i32_from_s16
    lower_body WitType.u16 = emit c i32_from_u16
    lower_body WitType.s32 = emit c i32_from_s32
    lower_body WitType.u32 = emit c i32_from_u32
    lower_body WitType.s64 = emit c i64_from_s64
    lower_body WitType.u64 = emit c i64_from_u64
    lower_body WitType.char = emit c i32_from_char
    lower_body WitType.f32 = emit c core_f32_from_f32
    lower_body WitType.f64 = emit c core_f64_from_f64
    lower_body WitType.string = emit c (string_lower (list_realloc c))
    lower_body (WitType.id i) = do d ← type_at c i; lower_kind i d d.kind

  unfoldable mutual
    pub lower : ℕ → Lowers O S
    lower zero ty = fail out_of_fuel
    lower (suc n) ty = lower_body (lower n) (write_to_memory n) ty

    pub write_to_memory : ℕ → Writes O S
    write_to_memory zero ty addr offset = fail out_of_fuel
    write_to_memory (suc n) ty addr offset =
        write_body c (lower n) (write_to_memory n) ty addr offset
