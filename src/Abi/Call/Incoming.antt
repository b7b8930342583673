-- ===== src/Abi/Call/Incoming.antt =====
-- The callee's side of `Generator::call` of crates/core/src/abi.rs: the arguments are lifted, the
-- interface is called, the results are lowered.
use wai_bindgen.Prelude.{
  ℕ, suc, [], ◌∷◌, ◌+◌, ◌*◌, ◌≤◌, ◌≡◌, refl, Bool, true, false, not, ◌&&◌, List, length, All-map,
  leb, ltb, arith, Bool-cases, inl, inr, length-map, if◌then◌else◌,
}
use mathlib.Core.Bool.{false≢true}
use wai_bindgen.Wit.{
  Wit, TypeId, AbiVariant, WasmType, pointer, guest_import, guest_export, Function, WasmSignature,
}
use wai_bindgen.Wit.Laws.{IsFlattening, IsWellFormed, flat_all}
use wai_bindgen.Abi.Instruction.{
  get_arg, return, guest_deallocate, call_interface, async_post_call_interface, async_call_return,
}
use wai_bindgen.Abi.Generator.{Bindgen, Context, LiftLower}
use wai_bindgen.Abi.Generator.Effect.{Effect, Any, step, last}
use wai_bindgen.Abi.Generator.Rules.{
  IsBindgen, pure-Effect, check-Effect, push-Effect, pop-Effect, drain-Effect, emit-Effect,
  return_pointer_area-Effect,
}
use wai_bindgen.Abi.Lower.Memory.{write_fields_to_memory}
use wai_bindgen.Abi.Lower.{lower, write_to_memory}
use wai_bindgen.Abi.Lower.ArmsEffect.{lower_each-Effect}
use wai_bindgen.Abi.Lower.MemoryEffect.{write_fields_to_memory-Effect}
use wai_bindgen.Abi.Lower.Total.{lower_fuel, write_fuel}
use wai_bindgen.Abi.Call.Laws.{IsPlain, IsSignature, IsCallable, ret_params}
use wai_bindgen.Abi.Call.ArgumentsEffect.{read_args-Effect, lift_args-Effect}
use wai_bindgen.Abi.Call.{
  is_import, max_flat_params, param_types, lift_params, free_params, store_results, lower_results,
  post_call, return_lowered, call_in,
}

sync_sound : (v : AbiVariant) → (not (is_import v && false)) ≡ true
sync_sound guest_import = refl
sync_sound _ = refl

module _ {O S : Type 0} (w : Wit) (b : Bindgen O S) (l : LiftLower) (law : IsBindgen w b)
    (flat : IsFlattening w) (signed : IsSignature w) (rank : TypeId → ℕ) (wf : IsWellFormed w rank)
    (n r : ℕ) (fuel : 2 * r + 2 ≤ n) (f : Function) (ok : IsCallable w rank r f) where
  abbrev at : AbiVariant → Bool → Context O S
  at v is_async = record {
    resolve = w;
    bindgen = b;
    variant = v;
    lift_lower = l;
    is_async = is_async;
  }

  abbrev sig_at : AbiVariant → WasmSignature
  sig_at v = w.wasm_signature v f

  lift_params-Effect :
      (v : AbiVariant) (a indirect : Bool)
      → Effect (lift_params (at v a) n f indirect) 0 Any (length f.params)
  unfolding lift_params
  lift_params-Effect v a false =
      last 0 (lift_args-Effect (at v a) law flat rank wf n r fuel 0 (param_types f) ok.params_below)
        (omega arith) (omega (arith, length-map (λ p. p.1) f.params))
  lift_params-Effect v a true = step 0 (emit-Effect (at v a) (get_arg 0) law) (omega arith) λ _ _.
      step 0 pop-Effect (omega arith) λ ptr _.
        last 0
          (read_args-Effect (at v a) law flat rank wf n r fuel ptr 0 (param_types f)
            ok.params_below)
          (omega arith) (omega (arith, length-map (λ p. p.1) f.params))

  free_params-Effect :
      (v : AbiVariant) (a free : Bool) → Effect (free_params (at v a) n f free) 0 Any 0
  unfolding free_params
  free_params-Effect v a false = pure-Effect tt tt
  free_params-Effect v a true =
      step 0 (emit-Effect (at v a) (get_arg 0) law) (omega arith)
        λ _ _. last 0 (emit-Effect (at v a) (guest_deallocate _ _) law) (omega arith) (omega arith)

  write_results :
      (v : AbiVariant) (a : Bool) (ptr : O)
      → Effect
          (write_fields_to_memory (at v a) (write_to_memory (at v a) n) f.results ptr 0)
          (length f.results)
          Any
          0
  write_results v a ptr =
      write_fields_to_memory-Effect (at v a) law (write_to_memory (at v a) n) flat f.results ptr 0 (
        All-map (λ t b a' o. write_fuel (at v a) law flat rank wf n r t b fuel a' o) f.results
          ok.results_below)

  -- An import whose results are behind a pointer takes that pointer.
  takes_pointer :
      (sig_at guest_import).retptr ≡ true → leb 1 (length (sig_at guest_import).params) ≡ true
  takes_pointer e =
      let one : ret_params guest_import (sig_at guest_import) ≡ 1 = rw e refl in
      elim (Bool-cases (sig_at guest_import).indirect_params) [
        | inl i ↦ let eq = signed.indirect_params guest_import f tt i in ground (arith, eq, one)
        | inr i ↦ let eq = signed.direct_params guest_import f tt i in ground (arith, eq, one)
      ]

  store_import-Effect :
      (sig_at guest_import).retptr ≡ true
      → Effect
          (store_results (at guest_import false) n guest_import f (sig_at guest_import))
          (length f.results)
          Any
          0
  unfolding store_results
  store_import-Effect e =
      step (length f.results) (check-Effect _ _ (takes_pointer e)) (omega arith) λ _ _.
        step (length f.results) (emit-Effect (at guest_import false) (get_arg _) law) (omega arith)
          λ _ _.
            step (length f.results) pop-Effect (omega arith)
              λ ptr _. last 0 (write_results guest_import false ptr) (omega arith) (omega arith)

  store_export-Effect :
      (a : Bool)
      → Effect
          (store_results (at guest_export a) n guest_export f (sig_at guest_export))
          (length f.results)
          Any
          1
  unfolding store_results
  store_export-Effect a =
      step (length f.results) (return_pointer_area-Effect (at guest_export a) _ _) (omega arith)
        λ ptr _.
          step 0 (write_results guest_export a ptr) (omega arith)
            λ _ _. last 0 (push-Effect ptr) (omega arith) (omega arith)

  lower_flat-Effect :
      (v : AbiVariant) (a : Bool)
      → Effect
          (lower_results (at v a) n f (sig_at v) false)
          (length f.results)
          Any
          (length (flat_all w f.results))
  unfolding lower_results
  lower_flat-Effect v a = step 0 (drain-Effect (length f.results)) (omega arith) λ vs e.
      last 0
        (lower_each-Effect (at v a) law (lower (at v a) n) f.results vs
          (All-map (λ t b. lower_fuel (at v a) law flat rank wf n r t b (omega arith)) f.results
            ok.results_below)
          e)
        (omega arith) (omega arith)

  sync_results-Effect :
      (v : AbiVariant) (p : Bool)
      → IsPlain v
      → (sig_at v).retptr ≡ p
      → Effect
          (lower_results (at v false) n f (sig_at v) p)
          (length f.results)
          Any
          (length (sig_at v).results)
  unfolding lower_results
  sync_results-Effect v false plain e =
      last 0 (lower_flat-Effect v false) (omega arith)
        (omega (arith, signed.direct_results v f plain e))
  sync_results-Effect guest_import true plain e =
      last 0 (store_import-Effect e) (omega arith)
        (omega (arith, signed.pointed_results guest_import f tt e))
  sync_results-Effect guest_export true plain e =
      last 0 (store_export-Effect false) (omega arith)
        (omega (arith, signed.pointed_results guest_export f tt e))
  sync_results-Effect _ true plain e = absurd plain

  -- What an asynchronous call returns to `task.return`.
  abbrev returned : List WasmType → List WasmType
  returned types = if ltb max_flat_params (length types) then pointer ∷ [] else types

  async_results-Effect :
      (p : Bool)
      → ltb max_flat_params (length (flat_all w f.results)) ≡ p
      → Effect
          (lower_results (at guest_export true) n f (sig_at guest_export) p)
          (length f.results)
          Any
          (length (returned (flat_all w f.results)))
  unfolding lower_results
  async_results-Effect false e = rw e (lower_flat-Effect guest_export true)
  async_results-Effect true e = rw e (store_export-Effect true)

  sync_in-Effect : (v : AbiVariant) → IsPlain v → Effect (call_in (at v false) n f) 0 Any 0
  unfolding call_in post_call return_lowered
  sync_in-Effect v plain =
      let c = at v false in
      step 0 (check-Effect _ _ (sync_sound v)) (omega arith) λ _ _.
        step 0 (lift_params-Effect v false (sig_at v).indirect_params) (omega arith) λ _ _.
          step 0 (emit-Effect c (call_interface f false) law) (omega arith) λ _ _.
            step (length f.results) (pure-Effect {Q = Any} tt tt) (omega arith) λ _ _.
              step (length f.results) (free_params-Effect v false _) (omega arith) λ _ _.
                step 0 (sync_results-Effect v (sig_at v).retptr plain refl) (omega arith) λ _ _.
                  last 0 (emit-Effect c (return (length (sig_at v).results) f) law) (omega arith)
                    (omega arith)

  async_in-Effect : Effect (call_in (at guest_export true) n f) 0 Any 0
  unfolding call_in post_call return_lowered
  async_in-Effect =
      let v = guest_export in
      let c = at v true in
      let types = flat_all w f.results in
      step 0 (check-Effect _ _ refl) (omega arith) λ _ _.
        step 0 (lift_params-Effect v true (sig_at v).indirect_params) (omega arith) λ _ _.
          step 0 (emit-Effect c (call_interface f true) law) (omega arith) λ _ _.
            step 0 (emit-Effect c (async_post_call_interface f) law) (omega arith) λ _ _.
              step (suc (length f.results)) (free_params-Effect v true _) (omega arith) λ _ _.
                step 1 (async_results-Effect _ refl) (omega arith) λ _ _.
                  step 1 (emit-Effect c (async_call_return _ (returned types)) law) (omega arith)
                    λ _ _. last 0 (emit-Effect c (return 1 f) law) (omega arith) (omega arith)

  -- `call_in` under the variants that `call` supports.
  pub call_in-Effect :
      (v : AbiVariant) (a : Bool)
      → IsPlain v
      → not (is_import v && a) ≡ true
      → Effect (call_in (at v a) n f) 0 Any 0
  call_in-Effect v false plain sound = sync_in-Effect v plain
  call_in-Effect guest_import true plain sound = absurd (false≢true sound)
  call_in-Effect guest_export true plain sound = async_in-Effect
  call_in-Effect _ true plain sound = absurd plain
