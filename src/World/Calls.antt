-- ===== src/World/Calls.antt =====
-- The calls of a backend's methods for a world.
use wai_bindgen.Prelude.{ℕ, List, [], ◌∷◌, ◌++◌, map}
use wai_bindgen.World.{
  WorldKey, WorldItem, Items, Run, done, Functions, TypeNames, Interfaces, WorldGenerator, ◌>>=◌,
}

pub data Call : Type 0 where
  preprocess finish_imports pre_export_interface finish : Call
  import_interface export_interface : WorldKey → ℕ → Call
  import_types : TypeNames → Call
  import_funcs export_funcs : Functions → Call

unfoldable pub functions_of : Items → Functions
functions_of [] = []
functions_of ((WorldKey.name n, WorldItem.function f) ∷ items) = (n, f) ∷ functions_of items
functions_of (_ ∷ items) = functions_of items

unfoldable pub types_of : Items → TypeNames
types_of [] = []
types_of ((WorldKey.name n, WorldItem.type t) ∷ items) = (n, t) ∷ types_of items
types_of (_ ∷ items) = types_of items

unfoldable pub interfaces_of : Items → Interfaces
interfaces_of [] = []
interfaces_of ((key, WorldItem.interface i) ∷ items) = (key, i) ∷ interfaces_of items
interfaces_of (_ ∷ items) = interfaces_of items

-- A call with a list, where there is anything in it.
unfoldable pub unless_empty : {A : Type 0} → (List A → Call) → List A → List Call
unless_empty call [] = []
unless_empty call (x ∷ xs) = call (x ∷ xs) ∷ []

abbrev pub imported : Interfaces → List Call
imported = map (λ i. import_interface i.0 i.1)

abbrev pub exported : Interfaces → List Call
exported = map (λ i. export_interface i.0 i.1)

abbrev pub export_calls : Items → List Call
export_calls exports =
    unless_empty export_funcs (functions_of exports)
    ++ (pre_export_interface ∷ (exported (interfaces_of exports) ++ (finish ∷ [])))

-- The calls for a world, in their order.
abbrev pub calls : Items → Items → List Call
calls imports exports =
    preprocess
    ∷ (imported (interfaces_of imports)
        ++ (unless_empty import_types (types_of imports)
            ++ (unless_empty import_funcs (functions_of imports)
                ++ (finish_imports ∷ export_calls exports))))

-- Functions and types have names, and no type is exported.
unfoldable pub IsImport : WorldKey × WorldItem → Type 0
IsImport (WorldKey.interface k, WorldItem.function f) = ⊥
IsImport (WorldKey.interface k, WorldItem.type t) = ⊥
IsImport _ = Unit

unfoldable pub IsExport : WorldKey × WorldItem → Type 0
IsExport (WorldKey.interface k, WorldItem.function f) = ⊥
IsExport (key, WorldItem.type t) = ⊥
IsExport _ = Unit

module _ {S E : Type 0} (g : WorldGenerator S E) where
  unfoldable pub perform : Call → S → Run E S
  perform preprocess s = done (g.preprocess s)
  perform finish_imports s = done (g.finish_imports s)
  perform pre_export_interface s = g.pre_export_interface s
  perform finish s = g.finish s
  perform (import_interface key i) s = g.import_interface key i s
  perform (export_interface key i) s = g.export_interface key i s
  perform (import_types ts) s = done (g.import_types ts s)
  perform (import_funcs fs) s = done (g.import_funcs fs s)
  perform (export_funcs fs) s = g.export_funcs fs s

  -- One call after the other, up to the first that fails.
  unfoldable pub perform_all : List Call → S → Run E S
  unfolding perform
  perform_all [] s = done s
  perform_all (c ∷ cs) s = perform c s >>= perform_all cs
