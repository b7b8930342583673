-- ===== src/Abi/PostReturn.antt =====
-- crates/core/src/abi.rs, `needs_post_return` and `guest_export_needs_post_return`: whether a value
-- of a type holds memory that is freed after a call. The recursion is on fuel.
pub mod Decides
use wai_bindgen.Prelude.{ℕ, zero, suc, Bool, true, false, Option, none, some, List, [], ◌∷◌}
use wai_bindgen.Wit.{
  Wit, WitType, TypeDef, TypeDefKind, Function, type_def, field_types, case_types,
}
use wai_bindgen.Abi.Generator.{Result, ok, panic, unreachable, type_id_out_of_range, out_of_fuel}

-- `filter_map(|t| t.as_ref())`
abbrev pub present {ℓ} : {A : Type ℓ} → List (Option A) → List A
present [] = []
present (none ∷ os) = present os
present (some a ∷ os) = a ∷ present os

-- `iter().any(..)` over a test that may panic: it stops at the first type that passes.
unfoldable pub any_type : (WitType → Result Bool) → List WitType → Result Bool
any_type needs [] = ok false
any_type needs (t ∷ ts) = elim (needs t) [
  | ok true ↦ ok true
  | ok false ↦ any_type needs ts
  | panic p ↦ panic p
]

module _ (w : Wit) where
  module _ (needs : WitType → Result Bool) where
    unfoldable pub needs_kind : TypeDefKind → Result Bool
    needs_kind (TypeDefKind.list _) = ok true
    needs_kind (TypeDefKind.type t) = needs t
    needs_kind (TypeDefKind.handle _) = ok false
    needs_kind TypeDefKind.resource = ok false
    needs_kind (TypeDefKind.record_ fields) = any_type needs (field_types fields)
    needs_kind (TypeDefKind.tuple types) = any_type needs types
    needs_kind (TypeDefKind.variant cases) = any_type needs (present (case_types cases))
    needs_kind (TypeDefKind.option t) = needs t
    needs_kind (TypeDefKind.result a b) = any_type needs (present (a ∷ b ∷ []))
    needs_kind (TypeDefKind.flags _) = ok false
    needs_kind (TypeDefKind.enum _) = ok false
    needs_kind (TypeDefKind.future _) = ok false
    needs_kind (TypeDefKind.stream _) = ok false
    needs_kind TypeDefKind.error_context = ok false
    needs_kind TypeDefKind.unknown = panic unreachable

    unfoldable pub needs_def : Option TypeDef → Result Bool
    needs_def none = panic type_id_out_of_range
    needs_def (some d) = needs_kind d.kind

    unfoldable pub needs_body : WitType → Result Bool
    needs_body WitType.string = ok true
    needs_body (WitType.id i) = needs_def (type_def w i)
    needs_body _ = ok false

  unfoldable pub needs_post_return : ℕ → WitType → Result Bool
  needs_post_return zero t = panic out_of_fuel
  needs_post_return (suc n) t = needs_body (needs_post_return n) t

  unfoldable pub guest_export_needs_post_return : ℕ → Function → Result Bool
  guest_export_needs_post_return n func = any_type (needs_post_return n) func.results
