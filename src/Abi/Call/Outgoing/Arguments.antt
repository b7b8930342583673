-- ===== src/Abi/Call/Outgoing/Arguments.antt =====
-- The caller's side of `Generator::call` of crates/core/src/abi.rs: the arguments are lowered.
use wai_bindgen.Prelude.{
  ℕ, ◌+◌, ◌*◌, ◌≤◌, ◌≡◌, refl, Bool, true, false, none, some, length, arith, Bool-cases, inl, inr,
}
use wai_bindgen.Wit.{
  Wit, TypeId, AbiVariant, guest_import, guest_export, Function, WasmSignature, ElementInfo,
}
use wai_bindgen.Wit.Laws.{IsFlattening, IsWellFormed, flat_all}
use wai_bindgen.Abi.Instruction.{async_malloc, malloc}
use wai_bindgen.Abi.Generator.{Bindgen, Context, LiftLower, ◌>>=◌}
use wai_bindgen.Abi.Generator.Effect.{Effect, Any, step, last}
use wai_bindgen.Abi.Generator.Rules.{
  IsBindgen, pure-Effect, pop-Effect, emit-Effect, return_pointer_area-Effect,
}
use wai_bindgen.Abi.Call.Laws.{IsPlain, IsSignature, IsCallable, ret_params}
use wai_bindgen.Abi.Call.Arguments.{write_args}
use wai_bindgen.Abi.Call.ArgumentsEffect.{lower_args-Effect, write_args-Effect}
use wai_bindgen.Abi.Call.{param_types, params_area, lower_params}

module _ {O S : Type 0} (w : Wit) (b : Bindgen O S) (l : LiftLower) (law : IsBindgen w b)
    (flat : IsFlattening w) (signed : IsSignature w) (rank : TypeId → ℕ) (wf : IsWellFormed w rank)
    (n r : ℕ) (fuel : 2 * r + 2 ≤ n) (f : Function) (ok : IsCallable w rank r f) where
  -- The generator's context in a variant, sync or async.
  abbrev at : AbiVariant → Bool → Context O S
  at v is_async = record {
    resolve = w;
    bindgen = b;
    variant = v;
    lift_lower = l;
    is_async = is_async;
  }

  abbrev sig_at : AbiVariant → WasmSignature
  sig_at v = w.wasm_signature v f

  params_area-Effect :
      (c : Context O S) (v : AbiVariant) (info : ElementInfo)
      → IsBindgen c.resolve c.bindgen
      → IsPlain v
      → Effect (params_area c n v info) 0 Any 0
  unfolding params_area
  params_area-Effect c guest_import info law plain =
      return_pointer_area-Effect c info.size info.align
  params_area-Effect c guest_export info law plain =
      step 0 (emit-Effect c (malloc "cabi_realloc" info.size info.align) law) (omega arith)
        λ _ _. last 0 pop-Effect (omega arith) (omega arith)
  params_area-Effect c _ info law plain = absurd plain

  indirect-Effect :
      (v : AbiVariant)
      → IsPlain v
      → Effect
          (params_area (at v false) n v (w.record_info (param_types f))
            >>= write_args (at v false) n (param_types f))
          0
          Any
          1
  indirect-Effect v plain =
      step 0 (params_area-Effect (at v false) v (w.record_info (param_types f)) law plain)
        (omega arith)
        λ ptr _.
          last 0
            (write_args-Effect (at v false) law flat rank wf n r fuel (param_types f) ptr
              ok.params_below)
            (omega arith) (omega arith)

  -- The arguments of a synchronous call take the parameters of the signature but the return pointer.
  pub lower_params-Effect :
      (v : AbiVariant)
      → IsPlain v
      → (k : ℕ) × Effect (lower_params (at v false) n f (sig_at v) false) 0 (λ x. x ≡ none) k
        × (length (sig_at v).params ≡ k + ret_params v (sig_at v))
  unfolding lower_params
  lower_params-Effect v plain = elim (Bool-cases (sig_at v).indirect_params) [
    | inl e ↦ (
      1,
      rw e (
          step 0 (indirect-Effect v plain) (omega arith)
            λ _ _. last 1 (pure-Effect none refl) (omega arith) (omega arith)),
      signed.indirect_params v f plain e,
    )
    | inr e ↦
        let k = length (flat_all w (param_types f)) in
        (
          k,
          rw e (
              step 0
                (lower_args-Effect (at v false) law flat rank wf n r fuel 0 (param_types f)
                  ok.params_below)
                (omega arith) λ _ _. last k (pure-Effect none refl) (omega arith) (omega arith)),
          signed.direct_params v f plain e,
        )
  ]

  -- An asynchronous call passes an area for the arguments and an area for the results.
  pub async_lower-Effect :
      Effect
        (lower_params (at guest_import true) n f (sig_at guest_import) true)
        0
        (λ x. x ≡ some (w.record_info (param_types f)))
        1
  unfolding lower_params
  async_lower-Effect =
      let c = at guest_import true in
      let info = w.record_info (param_types f) in
      step 0 (emit-Effect c (async_malloc info.size info.align) law) (omega arith) λ _ _.
        step 0 pop-Effect (omega arith) λ ptr _.
          step 0 (write_args-Effect c law flat rank wf n r fuel (param_types f) ptr ok.params_below)
            (omega arith) λ _ _. last 1 (pure-Effect (some info) refl) (omega arith) (omega arith)
