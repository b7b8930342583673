-- ===== src/Abi/Bitcast.antt =====
-- crates/core/src/abi.rs, `Bitcast` and `cast`: how a flat value of one core type is converted to
-- the type of the slot of a variant that it is stored in. A panic of `cast` is `none`.
pub mod Typed
use wai_bindgen.Prelude.{ℕ, zero, suc, Option, none, some}
use wai_bindgen.Wit.{WasmType, i32, i64, f32, f64, pointer, pointer_or_i64, length}

pub data Bitcast : Type 0 where
  f32_to_i32 f64_to_i64 i32_to_i64 f32_to_i64 : Bitcast
  i32_to_f32 i64_to_f64 i64_to_i32 i64_to_f32 : Bitcast
  p64_to_i64 i64_to_p64 p64_to_p p_to_p64 : Bitcast
  i32_to_p p_to_i32 p_to_l l_to_p : Bitcast
  i32_to_l l_to_i32 i64_to_l l_to_i64 : Bitcast
  sequence : Bitcast → Bitcast → Bitcast
  no_cast : Bitcast

-- `Bitcast::Sequence(Box::new([first, second]))`, where either argument may panic.
abbrev pub sequence_of : Option Bitcast → Option Bitcast → Option Bitcast
sequence_of (some a) (some b) = some (sequence a b)
sequence_of none b = none
sequence_of (some a) none = none

-- The arms of the `match` in their order; `rec` is the function itself. The last clause is the
-- `unreachable!` arm.
cast_arms : (WasmType → WasmType → Option Bitcast) → WasmType → WasmType → Option Bitcast
cast_arms rec i32 i32 = some no_cast
cast_arms rec i64 i64 = some no_cast
cast_arms rec f32 f32 = some no_cast
cast_arms rec f64 f64 = some no_cast
cast_arms rec pointer pointer = some no_cast
cast_arms rec pointer_or_i64 pointer_or_i64 = some no_cast
cast_arms rec length length = some no_cast
cast_arms rec i32 i64 = some i32_to_i64
cast_arms rec f32 i32 = some f32_to_i32
cast_arms rec f64 i64 = some f64_to_i64
cast_arms rec i64 i32 = some i64_to_i32
cast_arms rec i32 f32 = some i32_to_f32
cast_arms rec i64 f64 = some i64_to_f64
cast_arms rec f32 i64 = some f32_to_i64
cast_arms rec i64 f32 = some i64_to_f32
cast_arms rec i64 pointer_or_i64 = some i64_to_p64
cast_arms rec pointer pointer_or_i64 = some p_to_p64
cast_arms rec from pointer_or_i64 = sequence_of (rec from i64) (rec i64 pointer_or_i64)
cast_arms rec pointer_or_i64 i64 = some p64_to_i64
cast_arms rec pointer_or_i64 pointer = some p64_to_p
cast_arms rec pointer_or_i64 to = sequence_of (rec pointer_or_i64 i64) (rec i64 to)
cast_arms rec i32 pointer = some i32_to_p
cast_arms rec pointer i32 = some p_to_i32
cast_arms rec i32 length = some i32_to_l
cast_arms rec length i32 = some l_to_i32
cast_arms rec i64 length = some i64_to_l
cast_arms rec length i64 = some l_to_i64
cast_arms rec pointer length = some p_to_l
cast_arms rec length pointer = some l_to_p
cast_arms rec f32 pointer = sequence_of (rec f32 i32) (rec i32 pointer)
cast_arms rec f32 length = sequence_of (rec f32 i32) (rec i32 length)
cast_arms rec pointer f32 = sequence_of (rec pointer i32) (rec i32 f32)
cast_arms rec length f32 = sequence_of (rec length i32) (rec i32 f32)
cast_arms rec from to = none

-- The recursion on fuel: the calls that an arm makes end in arms that make none.
cast_at : ℕ → WasmType → WasmType → Option Bitcast
unfolding cast_arms
cast_at zero from to = none
cast_at (suc n) from to = cast_arms (cast_at n) from to

unfoldable pub cast : WasmType → WasmType → Option Bitcast
unfolding cast_at
cast from to = cast_at 2 from to
