-- ===== src/Abi/Call/Total.antt =====
-- `Generator::call` of crates/core/src/abi.rs runs to its end.
use wai_bindgen.Prelude.{ℕ, ◌+◌, ◌*◌, ◌≤◌, ◌≡◌, [], refl, Bool, true, not, ◌&&◌}
use wai_bindgen.Wit.{TypeId, AbiVariant, Function}
use wai_bindgen.Wit.Laws.{IsFlattening, IsWellFormed}
use wai_bindgen.Abi.Generator.{
  Context, LiftLower, lift_args_lower_results, lower_args_lift_results, ◌>>=◌, new,
}
use wai_bindgen.Abi.Generator.Rules.{IsBindgen, check-Effect}
use wai_bindgen.Abi.Call.Laws.{IsPlain, IsSignature, IsCallable}
use wai_bindgen.Abi.Call.Ends.{Ends, EndsWith, Whatever, ends_step, ends_len, ends_last}
use wai_bindgen.Abi.Call.Outgoing.{call_out-Ends}
use wai_bindgen.Abi.Call.Incoming.{call_in-Effect}
use wai_bindgen.Abi.Call.{is_import, is_export, call_body, call, assert_empty}

-- Asynchronous calls are lowered by imports and lifted by exports only.
abbrev pub supported : LiftLower → AbiVariant → Bool → Bool
supported lower_args_lift_results v is_async = not (is_export v && is_async)
supported lift_args_lower_results v is_async = not (is_import v && is_async)

module _ {O S : Type 0} (c : Context O S) (law : IsBindgen c.resolve c.bindgen)
    (flat : IsFlattening c.resolve) (signed : IsSignature c.resolve) (rank : TypeId → ℕ)
    (wf : IsWellFormed c.resolve rank) (n r : ℕ) (fuel : 2 * r + 2 ≤ n) (f : Function)
    (ok : IsCallable c.resolve rank r f) (plain : IsPlain c.variant) where
  body-Ends :
      (l : LiftLower)
      → supported l c.variant c.is_async ≡ true
      → Ends (call_body c n l f >>= λ _. assert_empty c n) 0 Whatever
  unfolding call_body assert_empty
  body-Ends lower_args_lift_results sound =
      call_out-Ends c.resolve c.bindgen c.lift_lower law flat signed rank wf n r fuel f ok c.variant
        c.is_async plain sound
  body-Ends lift_args_lower_results sound =
      ends_step 0
        (call_in-Effect c.resolve c.bindgen c.lift_lower law flat signed rank wf n r fuel f ok
          c.variant c.is_async plain sound)
        refl λ _ _. ends_len _ (ends_last (check-Effect _ _ refl))

  -- For a function whose types have rank below `r`, fuel `2 * r + 2`, and a plain variant in which
  -- the call is supported, `call` from a new generator returns without a panic, and leaves no
  -- operand on the stack: every instruction finds its operands, and all assertions hold.
  pub call-EndsWith :
      supported c.lift_lower c.variant c.is_async ≡ true → (s : S) → EndsWith (call c n f (new s))
  unfolding call new
  call-EndsWith sound s = (body-Ends c.lift_lower sound).run _ ([], refl, refl) tt
