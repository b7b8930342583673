-- ===== src/Abi/Call/Outgoing.antt =====
-- The caller's side of `Generator::call` of crates/core/src/abi.rs, `LiftLower::LowerArgsLiftResults`.
mod Arguments
mod Results
mod Lowered
use wai_bindgen.Prelude.{
  ℕ, ◌+◌, ◌*◌, ◌≤◌, ◌≡◌, refl, sym, subst, ◌∙◌, Bool, true, false, not, ◌&&◌, ◌||◌, Option, none,
  ◌==◌, arith, if◌then◌else◌,
}
use mathlib.Core.Bool.{false≢true}
use wai_bindgen.Wit.{
  Wit, TypeId, AbiVariant, guest_import, guest_export, Function, WasmSignature, ElementInfo,
}
use wai_bindgen.Wit.Laws.{IsFlattening, IsWellFormed}
use wai_bindgen.Abi.Generator.{Bindgen, Context, LiftLower, M, ◌>>=◌}
use wai_bindgen.Abi.Generator.Effect.{Effect}
use wai_bindgen.Abi.Generator.Rules.{IsBindgen, check-Effect}
use wai_bindgen.Abi.Call.Laws.{IsPlain, IsSignature, IsCallable}
use wai_bindgen.Abi.Call.Ends.{Ends, ends_step, ends_assoc}
use wai_bindgen.Abi.Call.{is_export, lower_params, call_lowered, call_out, assert_empty}
use Arguments.{lower_params-Effect, async_lower-Effect}
use Results.{after}
use Lowered.{async_call, sync_lowered}

sync_sound : (v : AbiVariant) → (not (is_export v && false)) ≡ true
sync_sound guest_export = refl
sync_sound _ = refl

ends_at :
    {O S A : Type 0} {H : Option O → Type 0} {m : M O S A} {p q : ℕ}
    → p ≡ q
    → Ends m q H
    → Ends m p H
ends_at e h = rw e h

module _ {O S : Type 0} (w : Wit) (b : Bindgen O S) (l : LiftLower) (law : IsBindgen w b)
    (flat : IsFlattening w) (signed : IsSignature w) (rank : TypeId → ℕ) (wf : IsWellFormed w rank)
    (n r : ℕ) (fuel : 2 * r + 2 ≤ n) (f : Function) (ok : IsCallable w rank r f) where
  -- The generator's context in a variant, sync or async.
  abbrev at : AbiVariant → Bool → Context O S
  at v is_async = record {
    resolve = w;
    bindgen = b;
    variant = v;
    lift_lower = l;
    is_async = is_async;
  }

  abbrev sig_at : AbiVariant → WasmSignature
  sig_at v = w.wasm_signature v f

  after_lowering :
      {H : Option O → Type 0} (v : AbiVariant) (a : Bool) {k : ℕ} (x : Option ElementInfo)
      → (not (is_export v && a)) ≡ true
      → Effect (lower_params (at v a) n f (sig_at v) a) 0 (λ y. y ≡ x) k
      → Ends
          (call_lowered (at v a) n f (sig_at v) x
            >>= after w b l law flat signed rank wf n r fuel f ok v a)
          k
          H
      → Ends (call_out (at v a) n f >>= λ _. assert_empty (at v a) n) 0 H
  unfolding call_out
  after_lowering {H} v a {k} x sound e rest = ends_assoc _ _ _ (
      ends_step 0 (check-Effect _ _ sound) (omega arith) λ _ _. ends_assoc _ _ _ (
        ends_step 0 e (omega arith) λ y same. ends_at (omega arith) (
          ends_assoc _ _ _ (
            subst
              (λ y.
                Ends
                  (call_lowered (at v a) n f (sig_at v) y
                    >>= after w b l law flat signed rank wf n r fuel f ok v a)
                  k H)
              (sym same) rest))))

  sync_out-Ends :
      {H : Option O → Type 0} (v : AbiVariant)
      → IsPlain v
      → Ends (call_out (at v false) n f >>= λ _. assert_empty (at v false) n) 0 H
  sync_out-Ends v plain =
      let lowered = lower_params-Effect w b l law flat signed rank wf n r fuel f ok v plain in
      after_lowering v false none (sync_sound v) lowered.1
        (sync_lowered w b l law flat signed rank wf n r fuel f ok v _ plain lowered.2)

  async_out-Ends :
      {H : Option O → Type 0}
      → Ends
          (call_out (at guest_import true) n f >>= λ _. assert_empty (at guest_import true) n)
          0
          H
  async_out-Ends =
      after_lowering guest_import true _ refl
        (async_lower-Effect w b l law flat signed rank wf n r fuel f ok)
        (async_call w b l law flat signed rank wf n r fuel f ok _)

  -- `call_out` under the variants that `call` supports.
  pub call_out-Ends :
      {H : Option O → Type 0} (v : AbiVariant) (a : Bool)
      → IsPlain v
      → (not (is_export v && a)) ≡ true
      → Ends (call_out (at v a) n f >>= λ _. assert_empty (at v a) n) 0 H
  call_out-Ends v false plain sound = sync_out-Ends v plain
  call_out-Ends guest_import true plain sound = async_out-Ends
  call_out-Ends guest_export true plain sound = absurd (false≢true sound)
  call_out-Ends _ true plain sound = absurd plain
