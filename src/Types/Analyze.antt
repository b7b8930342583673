-- ===== src/Types/Analyze.antt =====
-- crates/core/src/types.rs: `Types::analyze`, which infers the info of every type, and then marks the
-- types that the functions of the worlds use. `LiveTypes` of `wit_parser` is a parameter: the ids
-- that it yields for the types that are added. crates/core/src/lib.rs: `dealias`.
pub mod Marks
pub mod Errors
pub mod Functions
use wai_bindgen.Prelude.{
  ℕ, zero, suc, Bool, true, false, none, some, List, [], ◌∷◌, length, map, ◌==◌, if◌then◌else◌,
}
use wai_bindgen.Wit.{Wit, WitType, TypeId, TypeDefKind, Function, type_def}
use wai_bindgen.Abi.Generator.{Result, ok, panic, type_id_out_of_range, unwrap_none, out_of_fuel}
use wai_bindgen.Types.{TypeInfo, Types, get, type_info}

-- `WorldItem`, with the functions of an interface.
pub data WorldItem : Type 0 where
  function : Function → WorldItem
  interface : List Function → WorldItem
  type : WorldItem

pub record World : Type 0 where
  pub imports : List WorldItem
  pub exports : List WorldItem

-- `*self.type_info.get_mut(&id)`, where the id is recorded.
unfoldable pub modify : (TypeInfo → TypeInfo) → TypeId → Types → Types
modify f i [] = []
modify f i ((j, info) ∷ m) = if i == j then (j, f info) ∷ m else (j, info) ∷ modify f i m

-- `self.type_info.get_mut(&id).unwrap()`, and a change of it.
unfoldable pub set_info : (TypeInfo → TypeInfo) → TypeId → Types → Result Types
unfolding modify
set_info f i m = elim (get m i) [ none ↦ panic unwrap_none | some x ↦ ok (modify f i m) ]

unfoldable pub set_borrowed : TypeInfo → TypeInfo
set_borrowed info = record info { borrowed = true }

unfoldable pub set_owned : TypeInfo → TypeInfo
set_owned info = record info { owned = true }

unfoldable pub set_error : TypeInfo → TypeInfo
set_error info = record info { error = true }

module _ (w : Wit) where
  -- `resolve.types[id].name.is_some()`
  unfoldable pub is_named : TypeId → Result Bool
  is_named i = elim (type_def w i) [
    | none ↦ panic type_id_out_of_range
    | some d ↦ ok (elim d.name [ none ↦ false | some n ↦ true ])
  ]

  -- The loops over `live.iter()`.
  unfoldable pub mark_live : (TypeInfo → TypeInfo) → List TypeId → Types → Result Types
  unfolding set_info is_named
  mark_live f [] m = ok m
  mark_live f (i ∷ is) m = elim (is_named i) [
    | panic p ↦ panic p
    | ok false ↦ mark_live f is m
    | ok true ↦ elim (set_info f i m) [ panic p ↦ panic p | ok m' ↦ mark_live f is m' ]
  ]

  -- The calls of `type_info` for each of some types.
  unfoldable pub infer_all : ℕ → List WitType → Types → Result Types
  infer_all n [] m = ok m
  infer_all n (t ∷ ts) m = elim (type_info w n t m) [
    | panic p ↦ panic p
    | ok x ↦ infer_all n ts x.1
  ]

  -- `resolve_type_definition_id`, and `dealias`
  unfoldable pub dealias : ℕ → TypeId → Result TypeId
  dealias zero i = panic out_of_fuel
  dealias (suc n) i = elim (type_def w i) [
    | none ↦ panic type_id_out_of_range
    | some d ↦ elim d.kind [ TypeDefKind.type (WitType.id j) ↦ dealias n j | _ ↦ ok i ]
  ]

  unfoldable pub mark_error_kind : ℕ → TypeDefKind → Types → Result Types
  unfolding set_info
  mark_error_kind n (TypeDefKind.result a (some (WitType.id e))) m = elim (dealias n e) [
    | panic p ↦ panic p
    | ok i ↦ set_info set_error i m
  ]
  mark_error_kind n _ m = ok m

  -- The error of a result is marked.
  unfoldable pub mark_error : ℕ → WitType → Types → Result Types
  unfolding mark_error_kind
  mark_error n (WitType.id i) m = elim (type_def w i) [
    | none ↦ panic type_id_out_of_range
    | some d ↦ mark_error_kind n d.kind m
  ]
  mark_error n _ m = ok m

  unfoldable pub mark_errors : ℕ → List WitType → Types → Result Types
  mark_errors n [] m = ok m
  mark_errors n (t ∷ ts) m = elim (mark_error n t m) [
    | panic p ↦ panic p
    | ok m' ↦ mark_errors n ts m'
  ]

  module _ (live : List WitType → List TypeId) where
    unfoldable pub type_info_func : ℕ → Function → Bool → Types → Result Types
    unfolding set_borrowed set_owned
    type_info_func n func import m =
        let params = map (λ p. p.1) func.params in
        elim (infer_all n params m) [
          | panic p ↦ panic p
          | ok m1 ↦ elim (mark_live (if import then set_borrowed else set_owned) (live params) m1) [
            | panic p ↦ panic p
            | ok m2 ↦ elim (infer_all n func.results m2) [
              | panic p ↦ panic p
              | ok m3 ↦ elim (mark_live set_owned (live func.results) m3) [
                | panic p ↦ panic p
                | ok m4 ↦ mark_errors n func.results m4
              ]
            ]
          ]
        ]

    unfoldable pub analyze_funcs : ℕ → List Function → Bool → Types → Result Types
    analyze_funcs n [] import m = ok m
    analyze_funcs n (f ∷ fs) import m = elim (type_info_func n f import m) [
      | panic p ↦ panic p
      | ok m' ↦ analyze_funcs n fs import m'
    ]

    item_functions : WorldItem → List Function
    item_functions (function f) = f ∷ []
    item_functions (interface fs) = fs
    item_functions type = []

    unfoldable pub analyze_items : ℕ → List WorldItem → Bool → Types → Result Types
    unfolding item_functions
    analyze_items n [] import m = ok m
    analyze_items n (i ∷ is) import m = elim (analyze_funcs n (item_functions i) import m) [
      | panic p ↦ panic p
      | ok m' ↦ analyze_items n is import m'
    ]

    unfoldable pub analyze_worlds : ℕ → List World → Types → Result Types
    analyze_worlds n [] m = ok m
    analyze_worlds n (x ∷ xs) m = elim (analyze_items n x.imports true m) [
      | panic p ↦ panic p
      | ok m1 ↦ elim (analyze_items n x.exports false m1) [
        | panic p ↦ panic p
        | ok m2 ↦ analyze_worlds n xs m2
      ]
    ]

    -- The ids of `resolve.types.iter()`.
    abbrev pub all_ids : ℕ → ℕ → List WitType
    all_ids i zero = []
    all_ids i (suc k) = WitType.id i ∷ all_ids (suc i) k

    unfoldable pub analyze : ℕ → List World → Types → Result Types
    analyze n worlds m = elim (infer_all n (all_ids 0 (length w.types)) m) [
      | panic p ↦ panic p
      | ok m' ↦ analyze_worlds n worlds m'
    ]
