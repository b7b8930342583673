-- ===== src/Abi/Call/Laws.antt =====
-- What `Generator::call` of crates/core/src/abi.rs relies on of `Resolve::wasm_signature`: the
-- parameters are flat or one pointer, the results are flat or behind a pointer, which an import
-- takes as its last parameter and an export returns; results of more than one flat value are
-- behind a pointer.
use wai_bindgen.Prelude.{ℕ, ◌+◌, ◌≤◌, ◌≡◌, true, false, length, All, if◌then◌else◌, ◌&&◌}
use wai_bindgen.Wit.{Wit, AbiVariant, guest_import, guest_export, Function, WasmSignature, TypeId}
use wai_bindgen.Wit.Laws.{flat_all, Below}
use wai_bindgen.Abi.Call.{param_types, is_import}

-- The variants that the generators in the repository use.
abbrev pub IsPlain : AbiVariant → Type 0
IsPlain guest_import = Unit
IsPlain guest_export = Unit
IsPlain _ = ⊥

abbrev pub ret_params : AbiVariant → WasmSignature → ℕ
ret_params v sig = if is_import v && sig.retptr then 1 else 0

pub record IsSignature (w : Wit) : Type 0 where
  pub direct_params :
      (v : AbiVariant) (f : Function)
      → IsPlain v
      → (w.wasm_signature v f).indirect_params ≡ false
      → length (w.wasm_signature v f).params
        ≡ length (flat_all w (param_types f)) + ret_params v (w.wasm_signature v f)
  pub indirect_params :
      (v : AbiVariant) (f : Function)
      → IsPlain v
      → (w.wasm_signature v f).indirect_params ≡ true
      → length (w.wasm_signature v f).params ≡ 1 + ret_params v (w.wasm_signature v f)
  pub direct_results :
      (v : AbiVariant) (f : Function)
      → IsPlain v
      → (w.wasm_signature v f).retptr ≡ false
      → length (w.wasm_signature v f).results ≡ length (flat_all w f.results)
  pub pointed_results :
      (v : AbiVariant) (f : Function)
      → IsPlain v
      → (w.wasm_signature v f).retptr ≡ true
      → length (w.wasm_signature v f).results ≡ (if is_import v then 0 else 1)
  pub pointed :
      (v : AbiVariant) (f : Function)
      → IsPlain v
      → 2 ≤ length (flat_all w f.results)
      → (w.wasm_signature v f).retptr ≡ true

-- The function's types are types of values of rank below `r`.
pub record IsCallable (w : Wit) (rank : TypeId → ℕ) (r : ℕ) (f : Function) : Type 0 where
  pub params_below : All (Below w rank r) (param_types f)
  pub results_below : All (Below w rank r) f.results
