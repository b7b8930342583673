-- ===== src/Abi/Call.antt =====
-- crates/core/src/abi.rs, `Generator::call`: the instructions of a whole call, from the caller's side
-- (arguments are lowered and results lifted) or from the callee's.
pub mod Arguments
pub mod ArgumentsEffect
pub mod Ends
pub mod Laws
pub mod Outgoing
pub mod Incoming
pub mod Total
use Prim.Native.String.{◌++◌ as str_append}
use wai_bindgen.Prelude.{
  ℕ, ◌-◌, String, Bool, true, false, not, ◌&&◌, ◌||◌, Option, none, some, List, [], ◌∷◌, length,
  map, leb, ltb, ◌==◌, if◌then◌else◌,
}
use wai_bindgen.Wit.{
  WasmType, pointer, WitType, AbiVariant, guest_import, guest_export, Function, WasmSignature,
  ElementInfo,
}
use wai_bindgen.Wit.Laws.{flat_all}
use wai_bindgen.Abi.Instruction.{
  get_arg, async_malloc, malloc, call_wasm, async_call_wasm, return, flush, guest_deallocate,
  call_interface, async_post_call_interface, async_call_return,
}
use wai_bindgen.Abi.Generator.{
  M, Context, LiftLower, lift_args_lower_results, lower_args_lift_results, ◌>>=◌, ◌>>◌, pure, fail,
  skip, check, push, pop, drain, stack_len, set_return_pointer, take_return_pointer,
  return_pointer_area, emit, unimplemented, todo, unreachable, assertion_failed, stack_not_empty,
  drain_out_of_range,
}
use wai_bindgen.Abi.Lower.Arms.{lower_each}
use wai_bindgen.Abi.Lower.Memory.{write_fields_to_memory}
use wai_bindgen.Abi.Lower.{lower, write_to_memory}
use wai_bindgen.Abi.Lift.Memory.{read_fields_from_memory}
use wai_bindgen.Abi.Lift.{read_from_memory}
use wai_bindgen.Abi.Call.Arguments.{lower_args, write_args, read_args, lift_args, lift_results}

abbrev pub max_flat_params : ℕ
max_flat_params = 16

abbrev pub param_types : Function → List WitType
param_types func = map (λ (p : String × WitType). p.1) func.params

-- `matches!(variant, AbiVariant::GuestImport)`, and so for an export.
abbrev pub is_import : AbiVariant → Bool
is_import guest_import = true
is_import _ = false

abbrev pub is_export : AbiVariant → Bool
is_export guest_export = true
is_export _ = false

module _ {O S : Type 0} (c : Context O S) (n : ℕ) where
  -- Space for indirect parameters.
  unfoldable pub params_area : AbiVariant → ElementInfo → M O S O
  params_area guest_import info = return_pointer_area c info.size info.align
  params_area guest_export info = do emit c (malloc "cabi_realloc" info.size info.align); pop
  params_area _ info = fail unreachable

  -- The arguments; the result is the layout of their area, in an async call.
  unfoldable pub lower_params : Function → WasmSignature → Bool → M O S (Option ElementInfo)
  lower_params func sig true = do
    let info = c.resolve.record_info (param_types func)
    emit c (async_malloc info.size info.align)
    ptr ← pop
    write_args c n (param_types func) ptr
    pure (some info)
  lower_params func sig false = do
    let info = c.resolve.record_info (param_types func)
    let direct = lower_args c n 0 (param_types func)
    let indirect = params_area c.variant info >>= write_args c n (param_types func)
    if sig.indirect_params then indirect else direct
    pure none

  -- `if variant == GuestImport && sig.retptr { .. }`
  unfoldable pub prepare_retptr : Function → Bool → M O S (Unit {0})
  prepare_retptr func false = skip
  prepare_retptr func true = do
    let info = c.resolve.params_info func.results
    ptr ← return_pointer_area c info.size info.align
    set_return_pointer ptr
    push ptr

  -- The call itself; the result is the layout of the result area, in an async call.
  unfoldable pub call_lowered :
      Function → WasmSignature → Option ElementInfo → M O S (Option ElementInfo)
  call_lowered func sig (some params) = do
    let info = c.resolve.record_info func.results
    emit c (async_malloc info.size info.align)
    ptr ← pop
    set_return_pointer ptr
    push ptr
    len ← stack_len
    check (len == 2) assertion_failed
    emit c (async_call_wasm (str_append "[async]" func.name) params.size params.align)
    pure (some info)
  call_lowered func sig none = do
    prepare_retptr func (is_import c.variant && sig.retptr)
    len ← stack_len
    check (len == length sig.params) assertion_failed
    emit c (call_wasm func.name sig)
    pure none

  -- Where the results are.
  unfoldable pub results_pointer : AbiVariant → WasmSignature → M O S O
  results_pointer guest_import sig = do
    check (length sig.results == 0 || c.is_async) assertion_failed
    take_return_pointer
  results_pointer guest_export sig = pop
  results_pointer _ sig = fail unreachable

  unfoldable pub free_results : O → Option ElementInfo → M O S (Unit {0})
  free_results ptr none = skip
  free_results ptr (some info) = do push ptr; emit c (guest_deallocate info.size info.align)

  unfoldable pub read_results : Function → WasmSignature → Option ElementInfo → M O S (Unit {0})
  read_results func sig dealloc = do
    ptr ← results_pointer c.variant sig
    read_fields_from_memory c (read_from_memory c n) func.results ptr 0
    emit c (flush (length func.results))
    free_results ptr dealloc

  -- `LiftLower::LowerArgsLiftResults`
  unfoldable pub call_out : Function → M O S (Unit {0})
  call_out func = do
    let sig = c.resolve.wasm_signature c.variant func
    check (not (is_export c.variant && c.is_async)) unimplemented
    params ← lower_params func sig c.is_async
    dealloc ← call_lowered func sig params
    if sig.retptr || c.is_async
        then read_results func sig dealloc
        else lift_results c n func.results
    emit c (return (length func.results) func)

  unfoldable pub lift_params : Function → Bool → M O S (Unit {0})
  lift_params func false = lift_args c n 0 (param_types func)
  lift_params func true = do emit c (get_arg 0); ptr ← pop; read_args c n ptr 0 (param_types func)

  -- The caller's area for indirect parameters is freed once they are read.
  unfoldable pub free_params : Function → Bool → M O S (Unit {0})
  free_params func false = skip
  free_params func true = do
    let info = c.resolve.record_info (param_types func)
    emit c (get_arg 0)
    emit c (guest_deallocate info.size info.align)

  unfoldable pub store_results : AbiVariant → Function → WasmSignature → M O S (Unit {0})
  store_results guest_import func sig = do
    check (leb 1 (length sig.params)) drain_out_of_range
    emit c (get_arg (length sig.params - 1))
    ptr ← pop
    write_fields_to_memory c (write_to_memory c n) func.results ptr 0
  store_results guest_export func sig = do
    let info = c.resolve.params_info func.results
    ptr ← return_pointer_area c info.size info.align
    write_fields_to_memory c (write_to_memory c n) func.results ptr 0
    push ptr
  store_results _ func sig = fail unreachable

  unfoldable pub lower_results : Function → WasmSignature → Bool → M O S (Unit {0})
  lower_results func sig true = store_results c.variant func sig
  lower_results func sig false = do
    results ← drain (length func.results)
    lower_each c (lower c n) func.results results

  -- `let (lower_to_memory, async_results)`: in an async call, the flat types of the results.
  abbrev pub results_in_memory : WasmSignature → Bool → List WasmType → Bool
  results_in_memory sig true flat = ltb max_flat_params (length flat)
  results_in_memory sig false flat = sig.retptr

  unfoldable pub post_call : Function → Bool → M O S (Unit {0})
  post_call func true = emit c (async_post_call_interface func)
  post_call func false = skip

  unfoldable pub return_lowered : Function → WasmSignature → Bool → List WasmType → M O S (Unit {0})
  return_lowered func sig true flat = do
    emit c (
        async_call_return (str_append "[task-return]" func.name)
          (if ltb max_flat_params (length flat) then pointer ∷ [] else flat))
    emit c (return 1 func)
  return_lowered func sig false flat = emit c (return (length sig.results) func)

  -- `LiftLower::LiftArgsLowerResults`
  unfoldable pub call_in : Function → M O S (Unit {0})
  call_in func = do
    let sig = c.resolve.wasm_signature c.variant func
    let flat = flat_all c.resolve func.results
    check (not (is_import c.variant && c.is_async)) todo
    lift_params func sig.indirect_params
    emit c (call_interface func c.is_async)
    post_call func c.is_async
    free_params func (is_export c.variant && (sig.indirect_params && not c.is_async))
    lower_results func sig (results_in_memory sig c.is_async flat)
    return_lowered func sig c.is_async flat

  unfoldable pub call_body : LiftLower → Function → M O S (Unit {0})
  call_body lower_args_lift_results func = call_out func
  call_body lift_args_lower_results func = call_in func

  -- `assert!(self.stack.is_empty())`
  unfoldable pub assert_empty : M O S (Unit {0})
  assert_empty = do len ← stack_len; check (len == 0) stack_not_empty

  -- `Generator::call`
  unfoldable pub call : Function → M O S (Unit {0})
  call func = do call_body c.lift_lower func; assert_empty
