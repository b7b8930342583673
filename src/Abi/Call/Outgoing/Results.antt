-- ===== src/Abi/Call/Outgoing/Results.antt =====
-- The caller's side of `Generator::call` of crates/core/src/abi.rs: what follows the call of the
-- lowered function, up to the last assertion.
use wai_bindgen.Prelude.{
  ℕ, ◌+◌, ◌*◌, ◌≤◌, ◌≡◌, Bool, true, false, ◌||◌, Option, none, some, length, All-map, ◌==◌, arith,
  if◌then◌else◌,
}
use wai_bindgen.Wit.{
  Wit, TypeId, AbiVariant, guest_import, guest_export, Function, WasmSignature, ElementInfo,
}
use wai_bindgen.Wit.Laws.{IsFlattening, IsWellFormed}
use wai_bindgen.Abi.Instruction.{return, flush, guest_deallocate}
use wai_bindgen.Abi.Generator.{Bindgen, Context, LiftLower, M, emit, ◌>>=◌}
use wai_bindgen.Abi.Generator.Effect.{Effect, Any, step, last}
use wai_bindgen.Abi.Generator.Rules.{
  IsBindgen, pure-Effect, check-Effect, push-Effect, pop-Effect, emit-Effect,
}
use wai_bindgen.Abi.Lift.Memory.{read_fields_from_memory}
use wai_bindgen.Abi.Lift.{read_from_memory}
use wai_bindgen.Abi.Lift.MemoryEffect.{read_fields_from_memory-Effect}
use wai_bindgen.Abi.Lift.Total.{read_fuel}
use wai_bindgen.Abi.Call.Laws.{IsPlain, IsSignature, IsCallable}
use wai_bindgen.Abi.Call.Arguments.{lift_results}
use wai_bindgen.Abi.Call.ArgumentsEffect.{lift_results-Effect}
use wai_bindgen.Abi.Call.Ends.{Ends, Saved, ends_step, ends_take, ends_len, ends_assoc, ends_last}
use wai_bindgen.Abi.Call.{results_pointer, free_results, read_results, assert_empty}

eqb_of_eq : (a b : ℕ) → a ≡ b → (a == b) ≡ true
eqb_of_eq a b h = ground arith

module _ {O S : Type 0} (w : Wit) (b : Bindgen O S) (l : LiftLower) (law : IsBindgen w b)
    (flat : IsFlattening w) (signed : IsSignature w) (rank : TypeId → ℕ) (wf : IsWellFormed w rank)
    (n r : ℕ) (fuel : 2 * r + 2 ≤ n) (f : Function) (ok : IsCallable w rank r f) where
  -- The generator's context in a variant, sync or async.
  abbrev at : AbiVariant → Bool → Context O S
  at v is_async = record {
    resolve = w;
    bindgen = b;
    variant = v;
    lift_lower = l;
    is_async = is_async;
  }

  abbrev sig_at : AbiVariant → WasmSignature
  sig_at v = w.wasm_signature v f

  read_fields :
      (c : Bool) (v : AbiVariant) (ptr : O)
      → Effect
          (read_fields_from_memory (at v c) (read_from_memory (at v c) n) f.results ptr 0)
          0
          Any
          (length f.results)
  read_fields c v ptr =
      read_fields_from_memory-Effect (at v c) law (read_from_memory (at v c) n) flat f.results ptr 0
        (All-map (λ t b a o. read_fuel (at v c) law flat rank wf n r t b fuel a o) f.results
          ok.results_below)

  assert_empty-Ends :
      {H : Option O → Type 0} (c : Context O S) (p : ℕ) → p ≡ 0 → Ends (assert_empty c n) p H
  unfolding assert_empty
  assert_empty-Ends c p e =
      ends_len _
        (ends_last (last 0 (check-Effect _ _ (eqb_of_eq p 0 e)) (omega arith) (omega arith)))

  -- What follows the call of the lowered function.
  abbrev pub after : AbiVariant → Bool → Option ElementInfo → M O S (Unit {0})
  after v a dealloc =
      (if (sig_at v).retptr || a
        then read_results (at v a) n f (sig_at v) dealloc
        else lift_results (at v a) n f.results)
      >>= (λ _. emit (at v a) (return (length f.results) f))
      >>= λ _. assert_empty (at v a) n

  -- Once the results are on the stack.
  return-Ends :
      {H : Option O → Type 0} (v : AbiVariant) (a : Bool) (p : ℕ)
      → p ≡ length f.results
      → Ends (emit (at v a) (return (length f.results) f) >>= λ _. assert_empty (at v a) n) p H
  return-Ends v a p e =
      ends_step 0 (emit-Effect (at v a) (return (length f.results) f) law) (omega (arith, e))
        λ _ _. assert_empty-Ends (at v a) _ (omega arith)

  pub after_direct :
      {H : Option O → Type 0} (v : AbiVariant) (p : ℕ)
      → IsPlain v
      → (sig_at v).retptr ≡ false
      → p ≡ length (sig_at v).results
      → Ends (after v false none) p H
  after_direct v p plain e eq = rw e (
      ends_assoc _ _ _ (
        ends_step 0
          (lift_results-Effect (at v false) law flat rank wf n r fuel f.results ok.results_below)
          (omega (arith, eq, signed.direct_results v f plain e))
          λ _ _. return-Ends v false _ (omega arith)))

  free_results-Effect :
      (v : AbiVariant) (a : Bool) (ptr : O) (d : Option ElementInfo)
      → Effect (free_results (at v a) n ptr d) 0 Any 0
  unfolding free_results
  free_results-Effect v a ptr none = pure-Effect tt tt
  free_results-Effect v a ptr (some info) = step 0 (push-Effect ptr) (omega arith) λ _ _.
      last 0 (emit-Effect (at v a) (guest_deallocate info.size info.align) law) (omega arith)
        (omega arith)

  -- The results are read, and their area is freed in an async call.
  read_results-Effect :
      (v : AbiVariant) (a : Bool) (ptr : O) (d : Option ElementInfo)
      → Effect
          (read_fields_from_memory (at v a) (read_from_memory (at v a) n) f.results ptr 0 >>= λ _.
            emit (at v a) (flush (length f.results)) >>= λ _. free_results (at v a) n ptr d)
          0
          Any
          (length f.results)
  read_results-Effect v a ptr d = step 0 (read_fields a v ptr) (omega arith) λ _ _.
      step 0 (emit-Effect (at v a) (flush (length f.results)) law) (omega arith)
        λ _ _. last (length f.results) (free_results-Effect v a ptr d) (omega arith) (omega arith)

  -- An import's results are behind the saved return pointer.
  pub after_import :
      (a : Bool) (d : Option ElementInfo) (p : ℕ)
      → ((sig_at guest_import).retptr || a) ≡ true
      → (length (sig_at guest_import).results == 0 || a) ≡ true
      → p ≡ 0
      → Ends (after guest_import a d) p Saved
  unfolding read_results results_pointer
  after_import a d p e empty z = rw e (
      ends_assoc _ _ _ (
        ends_assoc _ _ _ (
          ends_assoc _ _ _ (
            ends_step 0 (check-Effect _ _ empty) (omega (arith, z)) λ _ _. ends_take _ λ ptr.
              ends_step 0 (read_results-Effect guest_import a ptr d) (omega arith)
                λ _ _. return-Ends guest_import a _ (omega arith)))))

  pub after_export :
      {H : Option O → Type 0} (p : ℕ)
      → (sig_at guest_export).retptr ≡ true
      → p ≡ 1
      → Ends (after guest_export false none) p H
  unfolding read_results results_pointer
  after_export p e one = rw e (
      ends_assoc _ _ _ (
        ends_assoc _ _ _ (
          ends_step 0 pop-Effect (omega (arith, one)) λ ptr _.
            ends_step 0 (read_results-Effect guest_export false ptr none) (omega arith)
              λ _ _. return-Ends guest_export false _ (omega arith))))
