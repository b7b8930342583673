-- ===== src/Abi/Entry.antt =====
-- The entry points of crates/core/src/abi.rs beside `call`: `lower_to_memory`, `lift_from_memory`
-- and `post_return`, each on a generator of its own.
pub mod Total
use wai_bindgen.Prelude.{ℕ, ◌^◌, List, [], ◌∷◌, ltb, true, Bool}
use wai_bindgen.Wit.{Wit, WitType, guest_import, guest_export, Function}
use wai_bindgen.Abi.Instruction.{get_arg, return}
use wai_bindgen.Abi.Generator.{
  M, Bindgen, Context, Generator, Result, lower_args_lift_results, lift_args_lower_results, ◌>>=◌,
  ◌>>◌, skip, check, push, pop, emit, new, offset_overflow, assertion_failed,
}
use wai_bindgen.Abi.Lower.{write_to_memory}
use wai_bindgen.Abi.Lift.{read_from_memory}
use wai_bindgen.Abi.Deallocate.{deallocate}
use wai_bindgen.Abi.Call.{assert_empty}

module _ {O S : Type 0} where
  -- "a bunch of unused dummy parameters"
  abbrev pub memory_context : Wit → Bindgen O S → Context O S
  memory_context w b = record {
    resolve = w;
    bindgen = b;
    variant = guest_import;
    lift_lower = lower_args_lift_results;
    is_async = true;
  }

  unfoldable pub lower_to_memory :
      Wit → Bindgen O S → ℕ → O → O → WitType → S → Result (Unit {0} × Generator O S)
  lower_to_memory w b n address value ty s =
      (push value >>= λ _. write_to_memory (memory_context w b) n ty address 0) (new s)

  unfoldable pub lift_from_memory :
      Wit → Bindgen O S → ℕ → O → WitType → S → Result (O × Generator O S)
  lift_from_memory w b n address ty s =
      (read_from_memory (memory_context w b) n ty address 0 >>= λ _. pop) (new s)

  -- The loop of `Generator::post_return`; `i32::try_from(offset).unwrap()`.
  unfoldable pub deallocate_results : Context O S → ℕ → O → List (ℕ × WitType) → M O S (Unit {0})
  deallocate_results c n addr [] = skip
  deallocate_results c n addr ((offset, ty) ∷ fs) = do
    check (ltb offset (2 ^ 31)) offset_overflow
    deallocate c n ty addr offset
    deallocate_results c n addr fs

  -- `Generator::post_return`
  unfoldable pub post_return_body : Context O S → ℕ → Function → M O S (Unit {0})
  post_return_body c n func = do
    let sig = c.resolve.wasm_signature c.variant func
    check sig.retptr assertion_failed
    emit c (get_arg 0)
    addr ← pop
    deallocate_results c n addr (c.resolve.field_offsets func.results)
    emit c (return 0 func)
    assert_empty c n

  -- The context of `post_return`.
  abbrev pub export_context : Wit → Bindgen O S → Bool → Context O S
  export_context w b is_async = record {
    resolve = w;
    bindgen = b;
    variant = guest_export;
    lift_lower = lift_args_lower_results;
    is_async = is_async;
  }

  unfoldable pub post_return :
      Wit → Bindgen O S → Bool → ℕ → Function → S → Result (Unit {0} × Generator O S)
  post_return w b is_async n func s = post_return_body (export_context w b is_async) n func (new s)
