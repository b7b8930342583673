-- ===== src/Wit/Join.antt =====
-- How the canonical ABI joins the flat types of a variant's cases.
use wai_bindgen.Wit.{WasmType, i32, i64, f32, f64, pointer, pointer_or_i64, length}

-- `Widens s t`: a slot of type `t` can stand for a payload of type `s`. This is how the canonical
-- ABI joins the flat types of a variant's cases.
pub data Widens : WasmType → WasmType → Type 0 where
  same : {t : WasmType} → Widens t t
  f32_in_i32 : Widens f32 i32
  i32_in_i64 : Widens i32 i64
  f32_in_i64 : Widens f32 i64
  f64_in_i64 : Widens f64 i64
  length_in_i64 : Widens length i64
  i32_in_length : Widens i32 length
  f32_in_length : Widens f32 length
  i32_in_pointer : Widens i32 pointer
  f32_in_pointer : Widens f32 pointer
  length_in_pointer : Widens length pointer
  in_pointer_or_i64 : {t : WasmType} → Widens t pointer_or_i64
