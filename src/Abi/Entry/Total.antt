-- ===== src/Abi/Entry/Total.antt =====
-- The entry points of crates/core/src/abi.rs run to their end.
use wai_bindgen.Prelude.{
  ℕ, ◌+◌, ◌*◌, ◌^◌, ◌<◌, ◌≤◌, ◌≡◌, refl, sym, ap, map, false, subst, List, [], ◌∷◌, Bool, true,
  false, ltb, All, All-map, Option, arith,
}
use mathlib.Core.Bool.{false≢true}
use wai_bindgen.Wit.{Wit, WitType, TypeId, guest_export, Function}
use wai_bindgen.Wit.Laws.{IsFlattening, IsWellFormed, Below}
use wai_bindgen.Abi.Instruction.{get_arg, return}
use wai_bindgen.Abi.Generator.{Bindgen, Context, Generator, Result, ok, panic, new, pop, ◌>>=◌}
use wai_bindgen.Abi.Lift.{read_from_memory}
use wai_bindgen.Abi.Generator.Effect.{Effect, Any, Done, done, Above, step, last}
use wai_bindgen.Abi.Generator.Rules.{
  IsBindgen, pure-Effect, check-Effect, push-Effect, pop-Effect, emit-Effect,
}
use wai_bindgen.Abi.Lower.Total.{write_fuel}
use wai_bindgen.Abi.Lift.Total.{read_fuel}
use wai_bindgen.Abi.PostReturn.{guest_export_needs_post_return}
use wai_bindgen.Abi.PostReturn.Decides.{
  Decides, holds, fails, guest_export_needs_post_return-Decides, HoldsListAny-two_flat,
}
use wai_bindgen.Abi.Deallocate.{deallocate}
use wai_bindgen.Abi.Deallocate.Effects.{deallocate_fuel}
use wai_bindgen.Abi.Call.{assert_empty}
use wai_bindgen.Abi.Call.Laws.{IsSignature}
use wai_bindgen.Abi.Call.Ends.{Ends, EndsWith, Whatever, ends_step, ends_len, ends_last}
use wai_bindgen.Abi.Entry.{
  memory_context, export_context, lower_to_memory, lift_from_memory, deallocate_results,
  post_return_body, post_return,
}

-- The offset is an `i32`.
abbrev pub FitsI32 : ℕ × WitType → Type 0
FitsI32 (offset, t) = offset < 2 ^ 31

abbrev said : Result Bool → Bool
said (ok b) = b
said (panic p) = false

decides_true : {P : Type 0} {r : Result Bool} → Decides P r → r ≡ ok true → P
decides_true (holds p) e = p
decides_true (fails n) e = absurd (false≢true (ap said e))

new_empty : {O S : Type 0} (s : S) → Above {O = O} [] 0 (new s)
unfolding new
new_empty s = ([], refl, refl)

-- `read_from_memory` returns with one operand on the stack, which `lift_from_memory` takes from it
-- and returns.
pub record Lifts {O S : Type 0} (w : Wit) (b : Bindgen O S) (n : ℕ) (address : O) (t : WitType)
    (s : S) : Type 0 where
  pub operand : O
  pub generator : Generator O S
  pub reads : read_from_memory (memory_context w b) n t address 0 (new s) ≡ ok (tt, generator)
  pub leaves : generator.stack ≡ operand ∷ []
  pub lifts : lift_from_memory w b n address t s ≡ ok (operand, record generator { stack = [] })

module _ {O S : Type 0} (w : Wit) (b : Bindgen O S) (n : ℕ) (address : O) (t : WitType)
    (s : S) where
  Lifts-by :
      (r : Result (Unit {0} × Generator O S)) {rp : Option O}
      → read_from_memory (memory_context w b) n t address 0 (new s) ≡ r
      → Done Any [] 1 rp r
      → Lifts w b n address t s
  unfolding lift_from_memory pop ◌>>=◌
  Lifts-by _ e (done q ([], at, l) same) = absurd (omega arith)
  Lifts-by _ e (done {g = g} q (x ∷ [], at, l) same) = record {
    operand = x;
    generator = g;
    reads = e;
    leaves = at;
    lifts = ground (arith, at);
  }
  Lifts-by _ e (done q (x ∷ y ∷ r, at, l) same) = absurd (omega arith)

module _ {O S : Type 0} (w : Wit) (b : Bindgen O S) (law : IsBindgen w b) (flat : IsFlattening w)
    (rank : TypeId → ℕ) (wf : IsWellFormed w rank) (n r : ℕ) (fuel : 2 * r + 2 ≤ n) where
  -- `lower_to_memory` returns without a panic and leaves no operand, for a type of rank below `r`
  -- and fuel `2 * r + 2`.
  pub lower_to_memory-EndsWith :
      (t : WitType)
      → Below w rank r t
      → (address value : O) (s : S) → EndsWith (lower_to_memory w b n address value t s)
  unfolding lower_to_memory new
  lower_to_memory-EndsWith t h address value s =
      let c = memory_context w b in
      let run : Ends _ 0 Whatever = ends_step 0 (push-Effect value) (omega arith) λ _ _. ends_last (
        last 0 (write_fuel c law flat rank wf n r t h fuel address 0) (omega arith)
          (omega arith)) in
      run.run _ ([], refl, refl) tt

  -- For a type of rank below `r` and fuel `2 * r + 2`, `read_from_memory` at offset 0 returns with
  -- one operand on the stack, and `lift_from_memory` returns that operand and leaves none. Neither
  -- panics.
  pub lift_from_memory-reads :
      (t : WitType) → Below w rank r t → (address : O) (s : S) → Lifts w b n address t s
  lift_from_memory-reads t h address s =
      let c = memory_context w b in
      Lifts-by w b n address t s (read_from_memory c n t address 0 (new s)) refl
        ((read_fuel c law flat rank wf n r t h fuel address 0).run [] (new s) (new_empty s))

  abbrev Frees : Context O S → WitType → Type 0
  Frees c t = (addr : O) (offset : ℕ) → Effect (deallocate c n t addr offset) 0 Any 0

  module _ (c : Context O S) where
    deallocate_results-Effect :
        (addr : O) (fs : List (ℕ × WitType))
        → All FitsI32 fs
        → All (λ t. Frees c t) (map (λ (p : ℕ × WitType). p.1) fs)
        → Effect (deallocate_results c n addr fs) 0 Any 0
    unfolding deallocate_results
    deallocate_results-Effect addr [] small frees = pure-Effect tt tt
    deallocate_results-Effect addr ((offset, t) ∷ fs) small frees =
        let lt = small.0 in
        step 0 (check-Effect (ltb offset (2 ^ 31)) _ (ground (arith, lt))) (omega arith) λ _ _.
          step 0 (frees.0 addr offset) (omega arith) λ _ _.
            last 0 (deallocate_results-Effect addr fs small.1 frees.1) (omega arith) (omega arith)

  module _ (f : Function) (below : All (Below w rank r) f.results) where
    -- The assertion that a return pointer is used.
    post_return_pointer :
        IsSignature w
        → guest_export_needs_post_return w n f ≡ ok true
        → (w.wasm_signature guest_export f).retptr ≡ true
    post_return_pointer signed needed = signed.pointed guest_export f tt (
        HoldsListAny-two_flat w flat f.results (
          decides_true
            (guest_export_needs_post_return-Decides w rank wf n r f below (omega (arith, fuel)))
            needed))

    results_freed :
        (a : Bool)
        → All
            (Frees (export_context w b a))
            (map (λ (p : ℕ × WitType). p.1) (w.field_offsets f.results))
    results_freed a =
        subst (λ l. All (Frees (export_context w b a)) l) (sym (flat.field_types_eq f.results))
          (All-map
            (λ t h.
              deallocate_fuel (export_context w b a) law flat rank wf n r t h (omega (arith, fuel)))
            f.results below)

    -- For a function that `guest_export_needs_post_return` accepts, whose results have rank below
    -- `r` and offsets below `2 ^ 31`, and fuel `2 * r + 2`, `post_return` returns without a panic
    -- and leaves no operand: its assertion that a return pointer is used holds.
    pub post_return-EndsWith :
        IsSignature w
        → guest_export_needs_post_return w n f ≡ ok true
        → All FitsI32 (w.field_offsets f.results)
        → (a : Bool) (s : S) → EndsWith (post_return w b a n f s)
    unfolding post_return post_return_body assert_empty new
    post_return-EndsWith signed needed small a s =
        let c = export_context w b a in
        let run : Ends (post_return_body c n f) 0 Whatever =
          ends_step 0 (check-Effect _ _ (post_return_pointer signed needed)) (omega arith) λ _ _.
            ends_step 0 (emit-Effect c (get_arg 0) law) (omega arith) λ _ _.
              ends_step 0 pop-Effect (omega arith) λ addr _.
                ends_step 0
                  (deallocate_results-Effect c addr (w.field_offsets f.results) small
                    (results_freed a))
                  (omega arith)
                  λ _ _.
                    ends_step 0 (emit-Effect c (return 0 f) law) (omega arith)
                      λ _ _. ends_len _ (ends_last (check-Effect _ _ refl)) in
        run.run _ ([], refl, refl) tt
