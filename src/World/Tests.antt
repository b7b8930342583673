-- ===== src/World/Tests.antt =====
-- The theorem about `generate` of crates/core/src/lib.rs on a concrete world.
use wai_bindgen.Prelude.{ℕ, ◌+◌, ◌≡◌, [], ◌∷◌, ◌==◌, if◌then◌else◌}
use wai_bindgen.Wit.{Function, WitType}
use wai_bindgen.World.{WorldKey, WorldItem, Items, done, error, WorldGenerator, generate}
use wai_bindgen.World.Calls.{calls, perform_all, IsImport, IsExport}
use wai_bindgen.World.Order.{generate-calls}

-- A backend that counts its calls, and fails at an interface that is 3.
abbrev counter : WorldGenerator ℕ ℕ
counter = record {
  preprocess = λ s. s + 1;
  import_interface = λ k i s. if i == 3 then error s else done (s + 1);
  import_types = λ ts s. s + 1;
  import_funcs = λ fs s. s + 1;
  finish_imports = λ s. s + 1;
  export_funcs = λ fs s. done (s + 1);
  pre_export_interface = λ s. done (s + 1);
  export_interface = λ k i s. if i == 3 then error s else done (s + 1);
  finish = λ s. done (s + 1);
}

abbrev double : Function
double = record { name = "double"; params = ("x", WitType.u32) ∷ []; results = WitType.u32 ∷ [] }

abbrev imports : Items
imports =
    (WorldKey.name "double", WorldItem.function double)
    ∷ (WorldKey.interface 1, WorldItem.interface 1)
    ∷ (WorldKey.name "pair", WorldItem.type 0)
    ∷ []

abbrev exports : Items
exports =
    (WorldKey.interface 3, WorldItem.interface 3)
    ∷ (WorldKey.name "double", WorldItem.function double)
    ∷ []

generate-calls_example :
    generate counter imports exports 0 ≡ perform_all counter (calls imports exports) 0
unfolding IsImport IsExport
generate-calls_example =
    generate-calls counter imports exports 0 (tt, (tt, (tt, tt))) (tt, (tt, tt))
