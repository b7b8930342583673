-- ===== src/Abi/Tests.antt =====
-- The theorems about crates/core/src/abi.rs and crates/core/src/types.rs on concrete inputs.
mod Sample
use wai_bindgen.Prelude.{
  subst, reverse, List, ℕ, ◌+◌, ◌≤◌, ◌≡◌, refl, true, false, [], ◌∷◌, arith, List,
}
use wai_bindgen.Wit.{Function, guest_import, WitType, f32, f64, i32, pointer}
use wai_bindgen.Wit.Laws.{Below}
use wai_bindgen.Wit.Join.{f32_in_pointer}
use wai_bindgen.Abi.Instruction.{
  pointer_load, length_load, guest_deallocate_string, get_arg, i32_from_u32, call_wasm,
  u32_from_i32, return, Instruction,
}
use wai_bindgen.Abi.Bitcast.{cast}
use wai_bindgen.Abi.Bitcast.Typed.{Typed, cast-Typed, Casts, Widens-Casts}
use wai_bindgen.Abi.Generator.{
  ◌>>=◌, pure, check, stack_len, type_at, push, pop, unwrap, add_i32, Result, Generator, new, ok,
  panic, emit,
}
use wai_bindgen.Abi.Generator.Effect.{Effect, Any}
use wai_bindgen.Abi.Lower.{lower, lower_body, write_to_memory}
use wai_bindgen.Abi.Lower.Total.{lower-Effect, write_to_memory-Effect}
use wai_bindgen.Abi.Lift.{lift, lift_body, read_from_memory}
use wai_bindgen.Abi.Lift.Total.{lift-Effect, read_from_memory-Effect}
use wai_bindgen.Abi.PostReturn.{
  any_type, needs_body, needs_def, needs_kind, needs_post_return, guest_export_needs_post_return,
}
use wai_bindgen.Abi.PostReturn.Decides.{
  Decides, HoldsList, HoldsListAny, needs_post_return-Decides,
  guest_export_needs_post_return-Decides,
}
use wai_bindgen.Abi.Deallocate.{
  deallocate, deallocate_body, deallocate_kind, deallocate_fields, free_each, from_result,
}
use wai_bindgen.Abi.Deallocate.Effects.{deallocate-Effect}
use wai_bindgen.Abi.Call.{
  call, call_body, call_out, lower_params, call_lowered, prepare_retptr, assert_empty,
}
use wai_bindgen.Abi.Call.Arguments.{lower_args, lift_results}
use wai_bindgen.Abi.Call.Ends.{EndsWith}
use wai_bindgen.Abi.Call.Total.{call-EndsWith}
use wai_bindgen.Abi.Entry.{lower_to_memory, post_return, post_return_body, deallocate_results}
use wai_bindgen.Abi.Entry.Total.{
  Lifts, lower_to_memory-EndsWith, lift_from_memory-reads, post_return-EndsWith,
}
use wai_bindgen.Types.{
  TypeInfo, default, type_info, type_body, type_id_body, insert_info, def_info, kind_info,
  all_infos, optional_type_info,
}
use wai_bindgen.Types.Infers.{IsSound, Gives}
use wai_bindgen.Types.HasList.{type_info-Gives, needs_post_return-type_info}
use Sample.{
  IfInfo, sample, tracer, tracer-IsBindgen, rank, sample-IsFlattening, sample-IsWellFormed,
  sample-IsSignature, sample_function, sample-IsCallable, caller, async_callee,
}

-- `result<list<pair>, f32>`
abbrev nested : WitType
nested = WitType.id 2

nested-Below : Below sample rank 3 nested
nested-Below = (_, refl, tt, omega arith)

call-EndsWith_example : EndsWith (call async_callee 8 sample_function (new []))
call-EndsWith_example =
    call-EndsWith async_callee tracer-IsBindgen sample-IsFlattening sample-IsSignature rank
      sample-IsWellFormed 8 3 (omega arith) sample_function sample-IsCallable tt refl []

sample_needs_post_return : guest_export_needs_post_return sample 8 sample_function ≡ ok true
unfolding guest_export_needs_post_return needs_post_return any_type needs_body needs_def needs_kind
sample_needs_post_return = refl

post_return-EndsWith_example : EndsWith (post_return sample tracer false 8 sample_function [])
post_return-EndsWith_example =
    post_return-EndsWith sample tracer tracer-IsBindgen sample-IsFlattening rank sample-IsWellFormed
      8 3 (omega arith) sample_function ((_, refl, tt, omega arith), tt) sample-IsSignature
      sample_needs_post_return (omega arith, tt) false []

lower_to_memory-EndsWith_example : EndsWith (lower_to_memory sample tracer 8 20 10 nested [])
lower_to_memory-EndsWith_example =
    lower_to_memory-EndsWith sample tracer tracer-IsBindgen sample-IsFlattening rank
      sample-IsWellFormed 8 3 (omega arith) nested nested-Below 20 10 []

lift_from_memory-reads_example : Lifts sample tracer 8 20 nested []
lift_from_memory-reads_example =
    lift_from_memory-reads sample tracer tracer-IsBindgen sample-IsFlattening rank
      sample-IsWellFormed 8 3 (omega arith) nested nested-Below 20 []

lower-Effect_example : Effect (lower caller 7 nested) 1 Any 3
lower-Effect_example =
    lower-Effect caller tracer-IsBindgen sample-IsFlattening rank sample-IsWellFormed 7 3 nested
      nested-Below (omega arith)

write_to_memory-Effect_example : Effect (write_to_memory caller 8 nested 20 4) 1 Any 0
write_to_memory-Effect_example =
    write_to_memory-Effect caller tracer-IsBindgen sample-IsFlattening rank sample-IsWellFormed 8 3
      nested nested-Below (omega arith) 20 4

lift-Effect_example : Effect (lift caller 7 nested) 3 Any 1
lift-Effect_example =
    lift-Effect caller tracer-IsBindgen sample-IsFlattening rank sample-IsWellFormed 7 3 nested
      nested-Below (omega arith)

read_from_memory-Effect_example : Effect (read_from_memory caller 8 nested 20 4) 0 Any 1
read_from_memory-Effect_example =
    read_from_memory-Effect caller tracer-IsBindgen sample-IsFlattening rank sample-IsWellFormed 8 3
      nested nested-Below (omega arith) 20 4

deallocate-Effect_example : Effect (deallocate caller 4 nested 20 4) 0 Any 0
deallocate-Effect_example =
    deallocate-Effect caller tracer-IsBindgen sample-IsFlattening rank sample-IsWellFormed 4 3
      nested nested-Below (omega arith) 20 4

guest_export_needs_post_return-Decides_example :
    Decides
      (HoldsListAny sample (WitType.id 0 ∷ []))
      (guest_export_needs_post_return sample 4 sample_function)
guest_export_needs_post_return-Decides_example =
    guest_export_needs_post_return-Decides sample rank sample-IsWellFormed 4 3 sample_function
      ((_, refl, tt, omega arith), tt) (omega arith)

needs_post_return-Decides_example :
    Decides (HoldsList sample nested) (needs_post_return sample 4 nested)
needs_post_return-Decides_example =
    needs_post_return-Decides sample rank sample-IsWellFormed 4 3 nested nested-Below (omega arith)

cast-Typed_example : Typed (cast f64 i32) f64 i32
cast-Typed_example = cast-Typed f64 i32

Widens-Casts_example : Casts f32 pointer × Casts pointer f32
Widens-Casts_example = Widens-Casts f32_in_pointer

no_records-IsSound : IsSound sample rank []
no_records-IsSound i x e =
    subst (IfInfo (Decides (HoldsList sample (WitType.id i)) (ok x.has_list))) e tt

type_info-Gives_example :
    Gives sample rank 3 (HoldsList sample nested) [] (type_info sample 4 nested [])
type_info-Gives_example =
    type_info-Gives sample rank sample-IsWellFormed 4 3 nested nested-Below (omega arith) []
      no_records-IsSound

abbrev pair_info : TypeInfo
pair_info = record default { has_list = true }

pair_type_info : type_info sample 4 (WitType.id 0) [] ≡ ok (pair_info, (0, pair_info) ∷ [])
unfolding type_info type_body type_id_body insert_info def_info kind_info all_infos
    optional_type_info
pair_type_info = refl

needs_post_return-type_info_example : needs_post_return sample 4 (WitType.id 0) ≡ ok true
needs_post_return-type_info_example =
    needs_post_return-type_info sample rank sample-IsWellFormed 4 3 (WitType.id 0)
      (_, refl, tt, omega arith) (omega arith) [] ((0, pair_info) ∷ []) pair_info no_records-IsSound
      pair_type_info

-- `double: func(x: u32) -> u32`
abbrev double : Function
double = record { name = "double"; params = ("x", WitType.u32) ∷ []; results = WitType.u32 ∷ [] }

-- The instructions of a run, first one first.
abbrev trace : {A : Type 0} → Result (A × Generator ℕ (List Instruction)) → List Instruction
trace (ok (a, g)) = reverse g.state
trace (panic p) = []

trace-double :
    trace (call caller 2 double (new []))
    ≡ get_arg 0
      ∷ i32_from_u32
      ∷ call_wasm "double" (sample.wasm_signature guest_import double)
      ∷ u32_from_i32
      ∷ return 1 double
      ∷ []
unfolding call call_body call_out lower_params call_lowered prepare_retptr assert_empty lower_args
    lift_results lower lower_body lift lift_body emit ◌>>=◌ pure check stack_len new
trace-double = refl

trace-post_return :
    trace (post_return sample tracer false 4 sample_function [])
    ≡ get_arg 0
      ∷ pointer_load 8
      ∷ length_load 12
      ∷ guest_deallocate_string
      ∷ return 0 sample_function
      ∷ []
unfolding post_return post_return_body deallocate_results deallocate deallocate_body deallocate_kind
    deallocate_fields free_each from_result needs_post_return needs_body needs_def needs_kind
    any_type type_at emit push pop assert_empty ◌>>=◌ pure check unwrap stack_len add_i32 new
trace-post_return = refl
