-- ===== src/World.antt =====
-- crates/core/src/lib.rs: `WorldGenerator::generate`, with the methods of the backend as a record.
-- `S` is what they change, the backend and its files, and `E` their errors.
pub mod Calls
pub mod Order
mod Tests
use wai_bindgen.Prelude.{ℕ, List, [], ◌∷◌, String, ◌++◌}
use wai_bindgen.Wit.{Function, TypeId}

-- `WorldKey` and `WorldItem` of `wit_parser`.
pub data WorldKey : Type 0 where
  name : String → WorldKey
  interface : ℕ → WorldKey

pub data WorldItem : Type 0 where
  function : Function → WorldItem
  interface : ℕ → WorldItem
  type : TypeId → WorldItem

abbrev pub Items : Type 0
Items = List (WorldKey × WorldItem)

-- A run that ends with a state, with an error, or in a panic.
pub data Run (E A : Type 0) : Type 0 where
  done : A → Run E A
  error : E → Run E A
  panic : Run E A

module _ {E : Type 0} where
  infixl 5 ◌>>=◌
  abbrev pub ◌>>=◌ : {A B : Type 0} → Run E A → (A → Run E B) → Run E B
  ◌>>=◌ r f = elim r [ done a ↦ f a | error e ↦ error e | panic ↦ panic ]

abbrev pub Functions : Type 0
Functions = List (String × Function)

abbrev pub TypeNames : Type 0
TypeNames = List (String × TypeId)

abbrev pub Interfaces : Type 0
Interfaces = List (WorldKey × ℕ)

-- The methods that `generate` calls.
pub record WorldGenerator (S E : Type 0) : Type 0 where
  pub preprocess : S → S
  pub import_interface : WorldKey → ℕ → S → Run E S
  pub import_types : TypeNames → S → S
  pub import_funcs : Functions → S → S
  pub finish_imports : S → S
  pub export_funcs : Functions → S → Run E S
  pub pre_export_interface : S → Run E S
  pub export_interface : WorldKey → ℕ → S → Run E S
  pub finish : S → Run E S

module _ {S E : Type 0} (g : WorldGenerator S E) where
  -- The loop over the imports, with the functions and the types met so far.
  unfoldable pub import_items :
      Items → Functions → TypeNames → S → Run E ((Functions × TypeNames) × S)
  import_items [] funcs types s = done ((funcs, types), s)
  import_items ((WorldKey.name n, WorldItem.function f) ∷ items) funcs types s =
      import_items items (funcs ++ (n, f) ∷ []) types s
  import_items ((WorldKey.interface k, WorldItem.function f) ∷ items) funcs types s = panic
  import_items ((key, WorldItem.interface i) ∷ items) funcs types s =
      elim (g.import_interface key i s) [
        | done s' ↦ import_items items funcs types s'
        | error e ↦ error e
        | panic ↦ panic
      ]
  import_items ((WorldKey.name n, WorldItem.type t) ∷ items) funcs types s =
      import_items items funcs (types ++ (n, t) ∷ []) s
  import_items ((WorldKey.interface k, WorldItem.type t) ∷ items) funcs types s = panic

  -- The loop over the exports.
  unfoldable pub export_items : Items → Functions → Interfaces → Run E (Functions × Interfaces)
  export_items [] funcs interfaces = done (funcs, interfaces)
  export_items ((WorldKey.name n, WorldItem.function f) ∷ items) funcs interfaces =
      export_items items (funcs ++ (n, f) ∷ []) interfaces
  export_items ((WorldKey.interface k, WorldItem.function f) ∷ items) funcs interfaces = panic
  export_items ((key, WorldItem.interface i) ∷ items) funcs interfaces =
      export_items items funcs (interfaces ++ (key, i) ∷ [])
  export_items ((key, WorldItem.type t) ∷ items) funcs interfaces = panic

  unfoldable pub export_interfaces : Interfaces → S → Run E S
  export_interfaces [] s = done s
  export_interfaces ((key, i) ∷ rest) s = elim (g.export_interface key i s) [
    | done s' ↦ export_interfaces rest s'
    | error e ↦ error e
    | panic ↦ panic
  ]

  unfoldable pub types_if_any : TypeNames → S → S
  types_if_any [] s = s
  types_if_any (t ∷ ts) s = g.import_types (t ∷ ts) s

  unfoldable pub funcs_if_any : Functions → S → S
  funcs_if_any [] s = s
  funcs_if_any (f ∷ fs) s = g.import_funcs (f ∷ fs) s

  unfoldable pub exports_if_any : Functions → S → Run E S
  exports_if_any [] s = done s
  exports_if_any (f ∷ fs) s = g.export_funcs (f ∷ fs) s

  -- `WorldGenerator::generate`
  unfoldable pub generate : Items → Items → S → Run E S
  unfolding types_if_any funcs_if_any exports_if_any
  generate imports exports s = do
    i ← import_items imports [] [] (g.preprocess s)
    t ← done (g.finish_imports (funcs_if_any i.0.0 (types_if_any i.0.1 i.1)))
    x ← export_items exports [] []
    r ← exports_if_any x.0 t
    u ← g.pre_export_interface r
    v ← export_interfaces x.1 u
    g.finish v
