-- ===== src/Abi/Lower/Arms.antt =====
-- crates/core/src/abi.rs, `lower_variant_arms`, `list_realloc` and the loop over the fields of a
-- record or a tuple in `lower`.
use wai_bindgen.Prelude.{
  ℕ, ◌+◌, ◌%◌, ◌^◌, String, Bool, true, false, Option, none, some, List, [], ◌∷◌, length, drop, ltb,
  leb, if◌then◌else◌,
}
use wai_bindgen.Wit.{WasmType, WitType, AbiVariant, guest_import, guest_export}
use wai_bindgen.Abi.Bitcast.{Bitcast, no_cast, cast}
use wai_bindgen.Abi.Instruction.{bitcasts, variant_payload_name, i32_const, const_zero}
use wai_bindgen.Abi.Generator.{
  M, Context, LiftLower, lower_args_lift_results, lift_args_lower_results, ◌>>=◌, ◌>>◌, pure, skip,
  check, unwrap, slice_out_of_range, unsupported_cast, push, pop, push_block, finish_block, emit,
}

-- `usize as i32`
abbrev pub as_i32 : ℕ → ℕ
as_i32 n = n % 2 ^ 32

unfoldable pub cons_option {ℓ} : {A : Type ℓ} → Option A → Option (List A) → Option (List A)
cons_option (some a) (some l) = some (a ∷ l)
cons_option (some a) none = none
cons_option none l = none

-- `for (actual, expected) in actual.iter().zip(expected) { casts.push(cast(..)) }`
unfoldable pub casts_of : List WasmType → List WasmType → Option (List Bitcast)
unfolding cons_option
casts_of (a ∷ as_) (e ∷ es) = cons_option (cast a e) (casts_of as_ es)
casts_of [] es = some []
casts_of (a ∷ as_) [] = some []

-- `*c != Bitcast::None`
abbrev is_cast : Bitcast → Bool
is_cast no_cast = false
is_cast _ = true

-- `casts.iter().any(|c| *c != Bitcast::None)`
abbrev pub any_cast : List Bitcast → Bool
any_cast [] = false
any_cast (c ∷ cs) = if is_cast c then true else any_cast cs

-- The name of the allocator, where ownership of the memory is passed on.
abbrev realloc_for : AbiVariant → LiftLower → Bool → Option String
realloc_for guest_import lower_args_lift_results _ = none
realloc_for guest_export lift_args_lower_results true = none
realloc_for _ _ _ = some "cabi_realloc"

module _ {O S : Type 0} (c : Context O S) where
  unfoldable pub list_realloc : Option String
  list_realloc = realloc_for c.variant c.lift_lower c.is_async

  -- `if casts.iter().any(..) { emit(Bitcasts) }`
  unfoldable pub emit_casts : List Bitcast → M O S (Unit {0})
  emit_casts casts = if any_cast casts then emit c (bitcasts casts) else skip

  -- `if pushed < results.len() { emit(ConstZero { tys: &results[pushed..] }) }`
  unfoldable pub pad : List WasmType → ℕ → M O S (Unit {0})
  pad results pushed =
      if ltb pushed (length results) then emit c (const_zero (drop pushed results)) else skip

  module _ (lower : WitType → M O S (Unit {0})) where
    -- `for (ty, value) in types.iter().zip(values) { push(value); lower(ty) }`
    unfoldable pub lower_each : List WitType → List O → M O S (Unit {0})
    lower_each [] vs = skip
    lower_each (t ∷ ts) [] = skip
    lower_each (t ∷ ts) (v ∷ vs) = do push v; lower t; lower_each ts vs

    -- The payload of one arm; the result is the number of flat values pushed with the discriminant.
    unfoldable pub lower_payload : List WasmType → O → Option WitType → M O S ℕ
    lower_payload results payload_name none = pure 1
    lower_payload results payload_name (some t) = do
      push payload_name
      lower t
      let temp = c.resolve.push_flat t
      check (leb 1 (length results)) slice_out_of_range
      casts ← unwrap (casts_of temp (drop 1 results)) unsupported_cast
      emit_casts casts
      pure (1 + length temp)

    -- One round of the loop over the cases.
    unfoldable pub lower_arm : List WasmType → ℕ → Option WitType → M O S (Unit {0})
    lower_arm results i ty = do
      push_block c
      emit c variant_payload_name
      payload_name ← pop
      emit c (i32_const (as_i32 i))
      pushed ← lower_payload results payload_name ty
      pad results pushed
      finish_block c (length results)

    unfoldable pub lower_arms : List WasmType → ℕ → List (Option WitType) → M O S (Unit {0})
    lower_arms results i [] = skip
    lower_arms results i (ty ∷ tys) = do lower_arm results i ty; lower_arms results (i + 1) tys

    unfoldable pub lower_variant_arms : WitType → List (Option WitType) → M O S (List WasmType)
    lower_variant_arms ty cases = do
      let results = c.resolve.push_flat ty
      lower_arms results 0 cases
      pure results
