-- ===== src/Abi/Bitcast/Typed.antt =====
-- What the bitcasts of crates/core/src/abi.rs convert, and on which pairs of types `cast` panics.
use wai_bindgen.Prelude.{◌≡◌, refl, subst, Option, none, some}
use wai_bindgen.Wit.{WasmType, i32, i64, f32, f64, pointer, pointer_or_i64, length}
use wai_bindgen.Wit.Join.{
  Widens, same, f32_in_i32, i32_in_i64, f32_in_i64, f64_in_i64, length_in_i64, i32_in_length,
  f32_in_length, i32_in_pointer, f32_in_pointer, length_in_pointer, in_pointer_or_i64,
}
use wai_bindgen.Abi.Bitcast.{
  Bitcast, f32_to_i32, f64_to_i64, i32_to_i64, f32_to_i64, i32_to_f32, i64_to_f64, i64_to_i32,
  i64_to_f32, p64_to_i64, i64_to_p64, p64_to_p, p_to_p64, i32_to_p, p_to_i32, p_to_l, l_to_p,
  i32_to_l, l_to_i32, i64_to_l, l_to_i64, sequence, no_cast, cast,
}

-- The conversion that each bitcast's name stands for.
pub data Converts : Bitcast → WasmType → WasmType → Type 0 where
  c_none : {t : WasmType} → Converts no_cast t t
  c_f32_i32 : Converts f32_to_i32 f32 i32
  c_f64_i64 : Converts f64_to_i64 f64 i64
  c_i32_i64 : Converts i32_to_i64 i32 i64
  c_f32_i64 : Converts f32_to_i64 f32 i64
  c_i32_f32 : Converts i32_to_f32 i32 f32
  c_i64_f64 : Converts i64_to_f64 i64 f64
  c_i64_i32 : Converts i64_to_i32 i64 i32
  c_i64_f32 : Converts i64_to_f32 i64 f32
  c_p64_i64 : Converts p64_to_i64 pointer_or_i64 i64
  c_i64_p64 : Converts i64_to_p64 i64 pointer_or_i64
  c_p64_p : Converts p64_to_p pointer_or_i64 pointer
  c_p_p64 : Converts p_to_p64 pointer pointer_or_i64
  c_i32_p : Converts i32_to_p i32 pointer
  c_p_i32 : Converts p_to_i32 pointer i32
  c_p_l : Converts p_to_l pointer length
  c_l_p : Converts l_to_p length pointer
  c_i32_l : Converts i32_to_l i32 length
  c_l_i32 : Converts l_to_i32 length i32
  c_i64_l : Converts i64_to_l i64 length
  c_l_i64 : Converts l_to_i64 length i64
  c_sequence :
      {a b : Bitcast} {s t u : WasmType}
      → Converts a s t
      → Converts b t u
      → Converts (sequence a b) s u

-- The pairs for which there is no conversion.
pub data Unsupported : WasmType → WasmType → Type 0 where
  f32_f64 : Unsupported f32 f64
  f64_f32 : Unsupported f64 f32
  f64_i32 : Unsupported f64 i32
  i32_f64 : Unsupported i32 f64
  pointer_i64 : Unsupported pointer i64
  pointer_f64 : Unsupported pointer f64
  length_f64 : Unsupported length f64
  i64_pointer : Unsupported i64 pointer
  f64_pointer : Unsupported f64 pointer
  f64_length : Unsupported f64 length

-- A cast either converts the one type to the other, or panics on an unsupported pair.
pub data Typed : Option Bitcast → WasmType → WasmType → Type 0 where
  converts : {c : Bitcast} {s t : WasmType} → Converts c s t → Typed (some c) s t
  panics : {s t : WasmType} → Unsupported s t → Typed none s t

ruleset conversions = (
  converts, panics, c_none, c_f32_i32, c_f64_i64, c_i32_i64, c_f32_i64, c_i32_f32, c_i64_f64,
  c_i64_i32, c_i64_f32, c_p64_i64, c_i64_p64, c_p64_p, c_p_p64, c_i32_p, c_p_i32, c_p_l, c_l_p,
  c_i32_l, c_l_i32, c_i64_l, c_l_i64, c_sequence, f32_f64, f64_f32, f64_i32, i32_f64, pointer_i64,
  pointer_f64, length_f64, i64_pointer, f64_pointer, f64_length,
)

-- For every two types, `cast` gives a bitcast from the first to the second, or the pair is one of
-- the ten unsupported ones and it panics.
pub cast-Typed : (s t : WasmType) → Typed (cast s t) s t
unfolding cast
cast-Typed i32 i32 = search conversions
cast-Typed i32 _ = search conversions
cast-Typed i64 i32 = search conversions
cast-Typed i64 _ = search conversions
cast-Typed f32 i32 = search conversions
cast-Typed f32 _ = search conversions
cast-Typed f64 i32 = search conversions
cast-Typed f64 _ = search conversions
cast-Typed pointer i32 = search conversions
cast-Typed pointer _ = search conversions
cast-Typed pointer_or_i64 i32 = search conversions
cast-Typed pointer_or_i64 _ = search conversions
cast-Typed length i32 = search conversions
cast-Typed length _ = search conversions

-- A cast that does not panic, with what it converts.
abbrev pub Casts : WasmType → WasmType → Type 0
Casts s t = (c : Bitcast) × (cast s t ≡ some c) × Converts c s t

Typed-some : {c : Bitcast} {s t : WasmType} → Typed (some c) s t → Converts c s t
Typed-some (converts h) = h

-- A bitcast that `cast` gives converts the one type to the other.
pub cast-Converts : {c : Bitcast} (s t : WasmType) → cast s t ≡ some c → Converts c s t
cast-Converts s t e = Typed-some (subst (λ o. Typed o s t) e (cast-Typed s t))

give : (s t : WasmType) {c : Bitcast} → cast s t ≡ some c → Casts s t
give s t {c} e = (c, e, cast-Converts s t e)

-- A flat type can be cast to every type of slot that can stand for it, and back, and each of the
-- two bitcasts converts the one type to the other.
pub Widens-Casts : {s t : WasmType} → Widens s t → Casts s t × Casts t s
unfolding cast
Widens-Casts (same {t = i32}) = (give _ _ refl, give _ _ refl)
Widens-Casts (same {t = i64}) = (give _ _ refl, give _ _ refl)
Widens-Casts (same {t = f32}) = (give _ _ refl, give _ _ refl)
Widens-Casts (same {t = f64}) = (give _ _ refl, give _ _ refl)
Widens-Casts (same {t = pointer}) = (give _ _ refl, give _ _ refl)
Widens-Casts (same {t = pointer_or_i64}) = (give _ _ refl, give _ _ refl)
Widens-Casts (same {t = length}) = (give _ _ refl, give _ _ refl)
Widens-Casts f32_in_i32 = (give _ _ refl, give _ _ refl)
Widens-Casts i32_in_i64 = (give _ _ refl, give _ _ refl)
Widens-Casts f32_in_i64 = (give _ _ refl, give _ _ refl)
Widens-Casts f64_in_i64 = (give _ _ refl, give _ _ refl)
Widens-Casts length_in_i64 = (give _ _ refl, give _ _ refl)
Widens-Casts i32_in_length = (give _ _ refl, give _ _ refl)
Widens-Casts f32_in_length = (give _ _ refl, give _ _ refl)
Widens-Casts i32_in_pointer = (give _ _ refl, give _ _ refl)
Widens-Casts f32_in_pointer = (give _ _ refl, give _ _ refl)
Widens-Casts length_in_pointer = (give _ _ refl, give _ _ refl)
Widens-Casts (in_pointer_or_i64 {t = i32}) = (give _ _ refl, give _ _ refl)
Widens-Casts (in_pointer_or_i64 {t = i64}) = (give _ _ refl, give _ _ refl)
Widens-Casts (in_pointer_or_i64 {t = f32}) = (give _ _ refl, give _ _ refl)
Widens-Casts (in_pointer_or_i64 {t = f64}) = (give _ _ refl, give _ _ refl)
Widens-Casts (in_pointer_or_i64 {t = pointer}) = (give _ _ refl, give _ _ refl)
Widens-Casts (in_pointer_or_i64 {t = pointer_or_i64}) = (give _ _ refl, give _ _ refl)
Widens-Casts (in_pointer_or_i64 {t = length}) = (give _ _ refl, give _ _ refl)
