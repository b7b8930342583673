-- ===== src/Types.antt =====
-- crates/core/src/types.rs: `TypeInfo`, and `Types::type_id_info`, which computes what a type holds
-- and records it. The map of the recorded infos is an association list, latest first; a panic is a
-- result. The recursion over the table of types is on fuel.
pub mod Infers
pub mod HasList
pub mod Analyze
mod Tests
use wai_bindgen.Prelude.{
  ℕ, zero, suc, Bool, true, false, not, ◌&&◌, ◌||◌, Option, none, some, List, [], ◌∷◌, ◌==◌,
  if◌then◌else◌,
}
use wai_bindgen.Wit.{
  Wit, WitType, TypeId, TypeDef, TypeDefKind, own, borrow, type_def, field_types, case_types,
}
use wai_bindgen.Abi.Generator.{
  Result, ok, panic, type_id_out_of_range, unreachable, assertion_failed, out_of_fuel,
}

pub record TypeInfo : Type 0 where
  pub borrowed : Bool
  pub owned : Bool
  pub error : Bool
  pub has_list : Bool
  pub has_tuple : Bool
  pub has_resource : Bool
  pub has_borrow_handle : Bool
  pub has_own_handle : Bool

-- `TypeInfo::default`
abbrev pub default : TypeInfo
default = record {
  borrowed = false;
  owned = false;
  error = false;
  has_list = false;
  has_tuple = false;
  has_resource = false;
  has_borrow_handle = false;
  has_own_handle = false;
}

-- `BitOrAssign::bitor_assign`
abbrev pub bitor_assign : TypeInfo → TypeInfo → TypeInfo
bitor_assign a b = record {
  borrowed = a.borrowed || b.borrowed;
  owned = a.owned || b.owned;
  error = a.error || b.error;
  has_list = a.has_list || b.has_list;
  has_tuple = a.has_tuple || b.has_tuple;
  has_resource = a.has_resource || b.has_resource;
  has_borrow_handle = a.has_borrow_handle || b.has_borrow_handle;
  has_own_handle = a.has_own_handle || b.has_own_handle;
}

-- `TypeInfo::is_clone`
abbrev is_clone : TypeInfo → Bool
is_clone info = not info.has_resource

-- `TypeInfo::is_copy`
abbrev is_copy : TypeInfo → Bool
is_copy info = not info.has_list && not info.has_resource

-- The field `type_info` of `Types`.
abbrev pub Types : Type 0
Types = List (TypeId × TypeInfo)

abbrev pub get : Types → TypeId → Option TypeInfo
get [] i = none
get ((j, info) ∷ m) i = if i == j then some info else get m i

-- A method of `Types`, which may record more types.
abbrev pub Infos : Type 0
Infos = Types → Result (TypeInfo × Types)

-- `let prev = self.type_info.insert(ty, info); assert!(prev.is_none()); info`
unfoldable pub insert_info : TypeId → Result (TypeInfo × Types) → Result (TypeInfo × Types)
insert_info i (panic p) = panic p
insert_info i (ok (info, m)) = elim (get m i) [
  | none ↦ ok (info, (i, info) ∷ m)
  | some prev ↦ panic assertion_failed
]

-- What a kind adds to the info of what it holds.
unfoldable pub adjust : (TypeInfo → TypeInfo) → Infos → Infos
adjust f run m = elim (run m) [ ok (info, m') ↦ ok (f info, m') | panic p ↦ panic p ]

abbrev pub somes : List WitType → List (Option WitType)
somes [] = []
somes (t ∷ ts) = some t ∷ somes ts

module _ (w : Wit) where
  module _ (info : WitType → Infos) where
    -- `optional_type_info`
    unfoldable pub optional_type_info : Option WitType → Infos
    optional_type_info none m = ok (default, m)
    optional_type_info (some t) m = info t m

    -- `for ty in types { info |= self.type_info(resolve, ty) }`, and so for cases.
    unfoldable pub all_infos : TypeInfo → List (Option WitType) → Infos
    all_infos acc [] m = ok (acc, m)
    all_infos acc (t ∷ ts) m = elim (optional_type_info t m) [
      | ok (x, m') ↦ all_infos (bitor_assign acc x) ts m'
      | panic p ↦ panic p
    ]

    -- The `match` of `type_id_info`.
    unfoldable pub kind_info : TypeDefKind → Infos
    kind_info (TypeDefKind.record_ fields) m = all_infos default (somes (field_types fields)) m
    kind_info TypeDefKind.resource m = ok (record default { has_resource = true }, m)
    kind_info (TypeDefKind.handle (borrow _)) m =
        ok (record default { has_borrow_handle = true; has_resource = true }, m)
    kind_info (TypeDefKind.handle (own _)) m =
        ok (record default { has_own_handle = true; has_resource = true }, m)
    kind_info (TypeDefKind.tuple types) m =
        adjust (λ i. record i { has_tuple = true }) (all_infos default (somes types)) m
    kind_info (TypeDefKind.flags _) m = ok (default, m)
    kind_info (TypeDefKind.enum _) m = ok (default, m)
    kind_info (TypeDefKind.variant cases) m = all_infos default (case_types cases) m
    kind_info (TypeDefKind.list t) m = adjust (λ i. record i { has_list = true }) (info t) m
    kind_info (TypeDefKind.type t) m = info t m
    kind_info (TypeDefKind.option t) m = info t m
    kind_info (TypeDefKind.result a b) m = all_infos default (a ∷ b ∷ []) m
    kind_info (TypeDefKind.future _) m = ok (record default { has_resource = true }, m)
    kind_info (TypeDefKind.stream _) m = ok (record default { has_resource = true }, m)
    kind_info TypeDefKind.error_context m = ok (record default { has_resource = true }, m)
    kind_info TypeDefKind.unknown m = panic unreachable

    unfoldable pub def_info : Option TypeDef → Infos
    def_info none m = panic type_id_out_of_range
    def_info (some d) m = kind_info d.kind m

    unfoldable pub type_id_body : TypeId → Infos
    type_id_body i m = elim (get m i) [
      | some x ↦ ok (x, m)
      | none ↦ insert_info i (def_info (type_def w i) m)
    ]

    unfoldable pub type_body : WitType → Infos
    type_body WitType.string m = ok (record default { has_list = true }, m)
    type_body (WitType.id i) m = type_id_body i m
    type_body _ m = ok (default, m)

  -- `type_info`
  unfoldable pub type_info : ℕ → WitType → Infos
  type_info zero t m = panic out_of_fuel
  type_info (suc n) t m = type_body (type_info n) t m
