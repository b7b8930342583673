-- ===== src/Abi/Instruction.antt =====
-- crates/core/src/abi.rs, the macro `def_instruction!` and the enum `Instruction`: the abstract
-- stack machine's instructions, with how many operands each pops and how many results it pushes.
-- An `i32` is its 32 bits, as a number below 2 ^ 32.
use wai_bindgen.Prelude.{ℕ, suc, String, Bool, Option, List, length, if◌then◌else◌}
use wai_bindgen.Wit.{WasmType, WitType, TypeId, Handle, Field, Case, Function, WasmSignature, Wit}
use wai_bindgen.Abi.Bitcast.{Bitcast}

pub data Instruction : Type 0 where
  get_arg : ℕ → Instruction
  i32_const : ℕ → Instruction
  bitcasts : List Bitcast → Instruction
  const_zero : List WasmType → Instruction
  i32_load i32_load8_u i32_load8_s i32_load16_u i32_load16_s i64_load : ℕ → Instruction
  f32_load f64_load pointer_load length_load : ℕ → Instruction
  i32_store i32_store8 i32_store16 i64_store f32_store f64_store : ℕ → Instruction
  pointer_store length_store : ℕ → Instruction
  i32_from_char i64_from_u64 i64_from_s64 i32_from_u32 i32_from_s32 : Instruction
  i32_from_u16 i32_from_s16 i32_from_u8 i32_from_s8 : Instruction
  core_f32_from_f32 core_f64_from_f64 : Instruction
  s8_from_i32 u8_from_i32 s16_from_i32 u16_from_i32 s32_from_i32 u32_from_i32 : Instruction
  s64_from_i64 u64_from_i64 char_from_i32 f32_from_core_f32 f64_from_core_f64 : Instruction
  bool_from_i32 i32_from_bool : Instruction
  list_canon_lower : WitType → Option String → Instruction
  string_lower : Option String → Instruction
  list_lower : WitType → Option String → Instruction
  list_canon_lift : WitType → TypeId → Instruction
  string_lift : Instruction
  list_lift : WitType → TypeId → Instruction
  iter_elem : WitType → Instruction
  iter_base_pointer : Instruction
  record_lower record_lift : List Field → String → TypeId → Instruction
  handle_lower handle_lift : Handle → String → TypeId → Instruction
  future_lower future_lift stream_lower stream_lift : Option WitType → TypeId → Instruction
  error_context_lower error_context_lift : TypeId → Instruction
  tuple_lower tuple_lift : List WitType → TypeId → Instruction
  flags_lower flags_lift : List String → String → TypeId → Instruction
  variant_payload_name : Instruction
  variant_lower : List Case → String → TypeId → List WasmType → Instruction
  variant_lift : List Case → String → TypeId → Instruction
  enum_lower enum_lift : List String → String → TypeId → Instruction
  option_lower : WitType → TypeId → List WasmType → Instruction
  option_lift : WitType → TypeId → Instruction
  result_lower : Option WitType → Option WitType → TypeId → List WasmType → Instruction
  result_lift : Option WitType → Option WitType → TypeId → Instruction
  call_wasm : String → WasmSignature → Instruction
  call_interface : Function → Bool → Instruction
  return : ℕ → Function → Instruction
  malloc : String → ℕ → ℕ → Instruction
  guest_deallocate : ℕ → ℕ → Instruction
  guest_deallocate_string : Instruction
  guest_deallocate_list : WitType → Instruction
  guest_deallocate_variant : ℕ → Instruction
  async_malloc : ℕ → ℕ → Instruction
  async_call_wasm : String → ℕ → ℕ → Instruction
  async_post_call_interface : Function → Instruction
  async_call_return : String → List WasmType → Instruction
  flush : ℕ → Instruction

-- How many operands an instruction pops: the left column of the macro's table.
abbrev pub operands_len : Wit → Instruction → ℕ
operands_len w (get_arg _) = 0
operands_len w (i32_const _) = 0
operands_len w (bitcasts casts) = length casts
operands_len w (const_zero _) = 0
operands_len w (i32_store _) = 2
operands_len w (i32_store8 _) = 2
operands_len w (i32_store16 _) = 2
operands_len w (i64_store _) = 2
operands_len w (f32_store _) = 2
operands_len w (f64_store _) = 2
operands_len w (pointer_store _) = 2
operands_len w (length_store _) = 2
operands_len w (list_canon_lift _ _) = 2
operands_len w string_lift = 2
operands_len w (list_lift _ _) = 2
operands_len w (iter_elem _) = 0
operands_len w iter_base_pointer = 0
operands_len w (record_lift fields _ _) = length fields
operands_len w (tuple_lift types _) = length types
operands_len w (flags_lift flags _ _) = w.flags_count flags
operands_len w variant_payload_name = 0
operands_len w (call_wasm _ sig) = length sig.params
operands_len w (call_interface func _) = length func.params
operands_len w (return amt _) = amt
operands_len w (malloc _ _ _) = 0
operands_len w guest_deallocate_string = 2
operands_len w (guest_deallocate_list _) = 2
operands_len w (async_malloc _ _) = 0
operands_len w (async_call_wasm _ _ _) = 2
operands_len w (async_call_return _ params) = length params
operands_len w (flush amt) = amt
operands_len w _ = 1

-- How many results an instruction pushes: the right column.
abbrev pub results_len : Wit → Instruction → ℕ
results_len w (bitcasts casts) = length casts
results_len w (const_zero tys) = length tys
results_len w (i32_store _) = 0
results_len w (i32_store8 _) = 0
results_len w (i32_store16 _) = 0
results_len w (i64_store _) = 0
results_len w (f32_store _) = 0
results_len w (f64_store _) = 0
results_len w (pointer_store _) = 0
results_len w (length_store _) = 0
results_len w (list_canon_lower _ _) = 2
results_len w (string_lower _) = 2
results_len w (list_lower _ _) = 2
results_len w (record_lower fields _ _) = length fields
results_len w (tuple_lower types _) = length types
results_len w (flags_lower flags _ _) = w.flags_count flags
results_len w (variant_lower _ _ _ results) = length results
results_len w (option_lower _ _ results) = length results
results_len w (result_lower _ _ _ results) = length results
results_len w (call_wasm _ sig) = length sig.results
results_len w (call_interface func is_async) = if is_async then 1 else length func.results
results_len w (return _ _) = 0
results_len w (guest_deallocate _ _) = 0
results_len w guest_deallocate_string = 0
results_len w (guest_deallocate_list _) = 0
results_len w (guest_deallocate_variant _) = 0
results_len w (async_call_wasm _ _ _) = 0
results_len w (async_post_call_interface func) = suc (length func.results)
results_len w (async_call_return _ _) = 0
results_len w (flush amt) = amt
results_len w _ = 1
