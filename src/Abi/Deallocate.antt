-- ===== src/Abi/Deallocate.antt =====
-- crates/core/src/abi.rs, `deallocate`, `deallocate_variant` and `deallocate_fields`: the
-- instructions that free the memory which a returned value holds. The recursion is on fuel.
pub mod Effects
use wai_bindgen.Prelude.{ℕ, zero, suc, Option, none, some, List, [], ◌∷◌, length, if◌then◌else◌}
use wai_bindgen.Wit.{WitInt, WitType, TypeDefKind, field_types, case_types}
use wai_bindgen.Abi.Instruction.{
  pointer_load, length_load, iter_base_pointer, guest_deallocate_string, guest_deallocate_list,
  guest_deallocate_variant,
}
use wai_bindgen.Abi.Generator.{
  M, Context, Result, ok, panic, ◌>>=◌, ◌>>◌, fail, todo, unreachable, out_of_fuel, skip, push, pop,
  push_block, finish_block, emit, type_at, add_i32,
}
use wai_bindgen.Abi.Lower.Arms.{as_i32}
use wai_bindgen.Abi.Lift.Memory.{load_intrepr}
use wai_bindgen.Abi.PostReturn.{needs_post_return}

-- type, address, offset
abbrev pub Frees : Type 0 → Type 0 → Type 0
Frees O S = WitType → O → ℕ → M O S (Unit {0})

module _ {O S : Type 0} where
  -- A call of a function that does not touch the generator.
  unfoldable pub from_result : {A : Type 0} → Result A → M O S A
  from_result (ok a) g = ok (a, g)
  from_result (panic p) g = panic p

  module _ (c : Context O S) where
    module _ (free : Frees O S) where
      unfoldable pub free_arms : O → ℕ → List (Option WitType) → M O S (Unit {0})
      free_arms addr payload_offset [] = skip
      free_arms addr payload_offset (none ∷ tys) = do
        push_block c
        finish_block c 0
        free_arms addr payload_offset tys
      free_arms addr payload_offset (some t ∷ tys) = do
        push_block c
        free t addr payload_offset
        finish_block c 0
        free_arms addr payload_offset tys

      unfoldable pub deallocate_variant : ℕ → O → WitInt → List (Option WitType) → M O S (Unit {0})
      deallocate_variant offset addr tag cases = do
        push addr
        load_intrepr c offset tag
        let payload_offset = add_i32 offset (as_i32 (c.resolve.payload_offset tag cases))
        free_arms addr payload_offset cases

      unfoldable pub free_each : List (ℕ × WitType) → O → ℕ → M O S (Unit {0})
      free_each [] addr offset = skip
      free_each ((field_offset, ty) ∷ fs) addr offset = do
        free ty addr (add_i32 offset (as_i32 field_offset))
        free_each fs addr offset

      unfoldable pub deallocate_fields : List WitType → O → ℕ → M O S (Unit {0})
      deallocate_fields tys addr offset = free_each (c.resolve.field_offsets tys) addr offset

      unfoldable pub deallocate_kind : TypeDefKind → O → ℕ → M O S (Unit {0})
      deallocate_kind (TypeDefKind.type t) addr offset = free t addr offset
      deallocate_kind (TypeDefKind.list element) addr offset = do
        push addr
        emit c (pointer_load offset)
        push addr
        emit c (length_load (add_i32 offset 4))
        push_block c
        emit c iter_base_pointer
        elemaddr ← pop
        free element elemaddr 0
        finish_block c 0
        emit c (guest_deallocate_list element)
      deallocate_kind (TypeDefKind.handle _) addr offset = fail todo
      deallocate_kind TypeDefKind.resource addr offset = fail todo
      deallocate_kind (TypeDefKind.record_ fields) addr offset =
          deallocate_fields (field_types fields) addr offset
      deallocate_kind (TypeDefKind.tuple types) addr offset = deallocate_fields types addr offset
      deallocate_kind (TypeDefKind.flags _) addr offset = skip
      deallocate_kind (TypeDefKind.variant cases) addr offset = do
        deallocate_variant offset addr (c.resolve.variant_tag cases) (case_types cases)
        emit c (guest_deallocate_variant (length cases))
      deallocate_kind (TypeDefKind.option t) addr offset = do
        deallocate_variant offset addr WitInt.u8 (none ∷ some t ∷ [])
        emit c (guest_deallocate_variant 2)
      deallocate_kind (TypeDefKind.result a b) addr offset = do
        deallocate_variant offset addr WitInt.u8 (a ∷ b ∷ [])
        emit c (guest_deallocate_variant 2)
      deallocate_kind (TypeDefKind.enum _) addr offset = skip
      deallocate_kind (TypeDefKind.future _) addr offset = fail todo
      deallocate_kind (TypeDefKind.stream _) addr offset = fail todo
      deallocate_kind TypeDefKind.error_context addr offset = fail todo
      deallocate_kind TypeDefKind.unknown addr offset = fail unreachable

      -- The `match` of `deallocate`.
      unfoldable pub deallocate_body : WitType → O → ℕ → M O S (Unit {0})
      deallocate_body WitType.string addr offset = do
        push addr
        emit c (pointer_load offset)
        push addr
        emit c (length_load (add_i32 offset 4))
        emit c guest_deallocate_string
      deallocate_body (WitType.id i) addr offset = do
        d ← type_at c i
        deallocate_kind d.kind addr offset
      deallocate_body _ addr offset = skip

    -- Types that need no post-return are passed over before the `match`.
    unfoldable pub deallocate : ℕ → Frees O S
    deallocate zero ty addr offset = fail out_of_fuel
    deallocate (suc n) ty addr offset = do
      needed ← from_result (needs_post_return c.resolve (suc n) ty)
      if needed then deallocate_body (deallocate n) ty addr offset else skip
