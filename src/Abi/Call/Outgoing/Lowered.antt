-- ===== src/Abi/Call/Outgoing/Lowered.antt =====
-- The caller's side of `Generator::call` of crates/core/src/abi.rs: the lowered function is called,
-- and its results are lifted.
use wai_bindgen.Prelude.{
  ℕ, ◌+◌, ◌*◌, ◌≤◌, ◌≡◌, refl, sym, subst, ◌∙◌, Bool, true, false, ◌||◌, Option, none, some, length,
  ◌==◌, arith, Bool-cases, inl, inr,
}
use wai_bindgen.Wit.{
  Wit, TypeId, AbiVariant, guest_import, guest_export, Function, WasmSignature, ElementInfo,
}
use wai_bindgen.Wit.Laws.{IsFlattening, IsWellFormed}
use wai_bindgen.Abi.Instruction.{async_malloc, call_wasm}
use wai_bindgen.Abi.Generator.{
  Bindgen, Context, LiftLower, emit, stack_len, check, assertion_failed, ◌>>=◌, pure,
}
use wai_bindgen.Abi.Generator.Effect.{Any}
use wai_bindgen.Abi.Generator.Rules.{
  IsBindgen, pure-Effect, check-Effect, push-Effect, pop-Effect, emit-Effect,
  return_pointer_area-Effect,
}
use wai_bindgen.Abi.Call.Laws.{IsPlain, IsSignature, IsCallable, ret_params}
use wai_bindgen.Abi.Call.Ends.{Ends, Saved, ends_step, ends_set, ends_len, ends_assoc}
use wai_bindgen.Abi.Call.{prepare_retptr, call_lowered}
use wai_bindgen.Abi.Call.Outgoing.Results.{after, after_direct, after_import, after_export}

eqb_of_eq : (a b : ℕ) → a ≡ b → (a == b) ≡ true
eqb_of_eq a b h = ground arith

or_left : {a : Bool} (b : Bool) → a ≡ true → (a || b) ≡ true
or_left b e = rw e refl

or_right : (a : Bool) → (a || true) ≡ true
or_right true = refl
or_right false = refl

module _ {O S : Type 0} (w : Wit) (b : Bindgen O S) (l : LiftLower) (law : IsBindgen w b)
    (flat : IsFlattening w) (signed : IsSignature w) (rank : TypeId → ℕ) (wf : IsWellFormed w rank)
    (n r : ℕ) (fuel : 2 * r + 2 ≤ n) (f : Function) (ok : IsCallable w rank r f) where
  -- The generator's context in a variant, sync or async.
  abbrev at : AbiVariant → Bool → Context O S
  at v is_async = record {
    resolve = w;
    bindgen = b;
    variant = v;
    lift_lower = l;
    is_async = is_async;
  }

  abbrev sig_at : AbiVariant → WasmSignature
  sig_at v = w.wasm_signature v f

  -- The call of the core function, and what follows it.
  wasm_call-Ends :
      {H : Option O → Type 0} (v : AbiVariant) (k : ℕ)
      → k ≡ length (sig_at v).params
      → ((p : ℕ)
          → p ≡ length (sig_at v).results
          → Ends (after w b l law flat signed rank wf n r fuel f ok v false none) p H)
      → Ends
          ((stack_len >>= λ len. check (len == length (sig_at v).params) assertion_failed >>= λ _.
              emit (at v false) (call_wasm f.name (sig_at v)) >>= λ _. pure none)
            >>= after w b l law flat signed rank wf n r fuel f ok v false)
          k
          H
  wasm_call-Ends {H} v k e rest = ends_assoc _ _ _ (
      ends_len _ (
        ends_assoc _ _ _ (
          ends_step k (check-Effect _ _ (eqb_of_eq k _ e)) (omega arith) λ _ _. ends_assoc _ _ _ (
            ends_step 0 (emit-Effect (at v false) (call_wasm f.name (sig_at v)) law)
              (omega (arith, e))
              λ _ _.
                ends_step (length (sig_at v).results) (pure-Effect {Q = λ x. x ≡ none} none refl)
                  (omega arith)
                  λ x same.
                    subst
                      (λ y.
                        Ends (after w b l law flat signed rank wf n r fuel f ok v false y)
                          (0 + length (sig_at v).results) H)
                      (sym same) (rest _ (omega arith))))))

  sync_direct :
      {H : Option O → Type 0} (v : AbiVariant) (k : ℕ)
      → IsPlain v
      → (sig_at v).retptr ≡ false
      → k ≡ length (sig_at v).params
      → Ends
          (call_lowered (at v false) n f (sig_at v) none
            >>= after w b l law flat signed rank wf n r fuel f ok v false)
          k
          H
  unfolding call_lowered prepare_retptr
  sync_direct guest_import k plain e eq = rw e (
      ends_assoc _ _ _ (
        ends_step k (pure-Effect {Q = Any} tt tt) (omega arith) λ _ _.
          wasm_call-Ends guest_import _ (omega (arith, eq)) (λ p q.
            after_direct w b l law flat signed rank wf n r fuel f ok guest_import p plain e q)))
  sync_direct guest_export k plain e eq = ends_assoc _ _ _ (
      ends_step k (pure-Effect {Q = Any} tt tt) (omega arith) λ _ _.
        wasm_call-Ends guest_export _ (omega (arith, eq)) (λ p q.
          after_direct w b l law flat signed rank wf n r fuel f ok guest_export p plain e q))
  sync_direct _ k plain e eq = absurd plain

  results_empty : (sig_at guest_import).retptr ≡ true → length (sig_at guest_import).results ≡ 0
  results_empty e = signed.pointed_results guest_import f tt e

  pointed_params :
      (k : ℕ)
      → (sig_at guest_import).retptr ≡ true
      → length (sig_at guest_import).params ≡ k + ret_params guest_import (sig_at guest_import)
      → 1 + k ≡ length (sig_at guest_import).params
  pointed_params k e eq =
      let one : ret_params guest_import (sig_at guest_import) ≡ 1 = rw e refl in
      omega (arith, eq, one)

  no_pointer :
      (v : AbiVariant) (k : ℕ)
      → (sig_at v).retptr ≡ false
      → length (sig_at v).params ≡ k + ret_params v (sig_at v)
      → k ≡ length (sig_at v).params
  no_pointer guest_import k e eq =
      let zero : ret_params guest_import (sig_at guest_import) ≡ 0 = rw e refl in
      omega (arith, eq, zero)
  no_pointer _ k e eq = omega (arith, eq)

  -- An import takes the pointer to its results as its last argument, an export returns it.
  sync_pointed :
      {H : Option O → Type 0} (v : AbiVariant) (k : ℕ)
      → IsPlain v
      → (sig_at v).retptr ≡ true
      → length (sig_at v).params ≡ k + ret_params v (sig_at v)
      → Ends
          (call_lowered (at v false) n f (sig_at v) none
            >>= after w b l law flat signed rank wf n r fuel f ok v false)
          k
          H
  unfolding call_lowered prepare_retptr
  sync_pointed guest_import k plain e eq = rw e (
      ends_assoc _ _ _ (
        ends_assoc _ _ _ (
          ends_step k (return_pointer_area-Effect (at guest_import false) _ _) (omega arith)
            λ ptr _. ends_assoc _ _ _ (
              ends_set _ ptr (
                ends_step k (push-Effect ptr) (omega arith) λ _ _.
                  wasm_call-Ends guest_import _ (pointed_params k e eq) (λ p q.
                    after_import w b l law flat signed rank wf n r fuel f ok false none p
                      (or_left false e) (or_left false (eqb_of_eq _ 0 (results_empty e)))
                      (q ∙ results_empty e)))))))
  sync_pointed guest_export k plain e eq = ends_assoc _ _ _ (
      ends_step k (pure-Effect {Q = Any} tt tt) (omega arith) λ _ _.
        wasm_call-Ends guest_export _ (omega (arith, eq)) (λ p q.
          after_export w b l law flat signed rank wf n r fuel f ok p e
            (q ∙ signed.pointed_results guest_export f tt e)))
  sync_pointed _ k plain e eq = absurd plain

  pub async_call :
      {H : Option O → Type 0} (params : ElementInfo)
      → Ends
          (call_lowered (at guest_import true) n f (sig_at guest_import) (some params)
            >>= after w b l law flat signed rank wf n r fuel f ok guest_import true)
          1
          H
  unfolding call_lowered
  async_call params =
      let c = at guest_import true in
      let info = w.record_info f.results in
      ends_assoc _ _ _ (
        ends_step 1 (emit-Effect c (async_malloc info.size info.align) law) (omega arith) λ _ _.
          ends_assoc _ _ _ (
            ends_step 1 pop-Effect (omega arith) λ ptr _. ends_assoc _ _ _ (
              ends_set _ ptr (
                ends_assoc _ _ _ (
                  ends_step 1 (push-Effect ptr) (omega arith) λ _ _. ends_assoc _ _ _ (
                    ends_len _ (
                      ends_assoc _ _ _ (
                        ends_step 2 (check-Effect _ _ refl) (omega arith) λ _ _. ends_assoc _ _ _ (
                          ends_step 0 (emit-Effect c _ law) (omega arith) λ _ _.
                            ends_step 0 (pure-Effect {Q = λ x. x ≡ some info} (some info) refl)
                              (omega arith)
                              λ x same.
                                subst
                                  (λ y.
                                    Ends
                                      (after w b l law flat signed rank wf n r fuel f ok
                                        guest_import true y)
                                      0 Saved)
                                  (sym same)
                                  (after_import w b l law flat signed rank wf n r fuel f ok true
                                    (some info) 0 (or_right _) (or_right _) refl))))))))))

  pub sync_lowered :
      {H : Option O → Type 0} (v : AbiVariant) (k : ℕ)
      → IsPlain v
      → length (sig_at v).params ≡ k + ret_params v (sig_at v)
      → Ends
          (call_lowered (at v false) n f (sig_at v) none
            >>= after w b l law flat signed rank wf n r fuel f ok v false)
          k
          H
  sync_lowered v k plain eq = elim (Bool-cases (sig_at v).retptr) [
    | inl e ↦ sync_pointed v k plain e eq
    | inr e ↦ sync_direct v k plain e (no_pointer v k e eq)
  ]
