-- ===== src/Abi/Lift/Arms.antt =====
-- crates/core/src/abi.rs, `lift_variant_arms` and the loop over the fields of a record or a tuple in
-- `lift`.
use wai_bindgen.Prelude.{◌-◌, Option, none, some, List, [], ◌∷◌, length, take, drop, leb}
use wai_bindgen.Wit.{WasmType, WitType}
use wai_bindgen.Abi.Bitcast.{Bitcast, cast}
use wai_bindgen.Abi.Generator.{
  M, Context, ◌>>=◌, ◌>>◌, skip, check, unwrap, drain_out_of_range, slice_out_of_range,
  unsupported_cast, extend, drain, push_block, finish_block,
}
use wai_bindgen.Abi.Lower.Arms.{cons_option, emit_casts}

-- `for (actual, expected) in actual.iter().zip(expected) { casts.push(cast(expected, actual)) }`
unfoldable pub casts_back : List WasmType → List WasmType → Option (List Bitcast)
unfolding cons_option
casts_back (a ∷ as_) (e ∷ es) = cons_option (cast e a) (casts_back as_ es)
casts_back [] es = some []
casts_back (a ∷ as_) [] = some []

module _ {O S : Type 0} (c : Context O S) (lift : WitType → M O S (Unit {0})) where
  -- `for ty in types { temp = flat(ty); stack.extend(args.drain(..temp.len())); lift(ty) }`
  unfoldable pub lift_each : List WitType → List O → M O S (Unit {0})
  lift_each [] args = skip
  lift_each (t ∷ ts) args = do
    let n = length (c.resolve.push_flat t)
    check (leb n (length args)) drain_out_of_range
    extend (take n args)
    lift t
    lift_each ts (drop n args)

  -- One round of the loop over the cases.
  unfoldable pub lift_arm : List WasmType → List O → Option WitType → M O S (Unit {0})
  lift_arm params block_inputs none = do push_block c; finish_block c 0
  lift_arm params block_inputs (some t) = do
    push_block c
    let temp = c.resolve.push_flat t
    check (leb (length temp) (length block_inputs)) slice_out_of_range
    extend (take (length temp) block_inputs)
    check (leb 1 (length params)) slice_out_of_range
    casts ← unwrap (casts_back temp (drop 1 params)) unsupported_cast
    emit_casts c casts
    lift t
    finish_block c 1

  unfoldable pub lift_arms : List WasmType → List O → List (Option WitType) → M O S (Unit {0})
  lift_arms params block_inputs [] = skip
  lift_arms params block_inputs (ty ∷ tys) = do
    lift_arm params block_inputs ty
    lift_arms params block_inputs tys

  -- `drain(self.stack.len() + 1 - params.len()..)` leaves the discriminant, and is out of range
  -- where there are no flat types.
  unfoldable pub lift_variant_arms : WitType → List (Option WitType) → M O S (Unit {0})
  lift_variant_arms ty cases = do
    let params = c.resolve.push_flat ty
    check (leb 1 (length params)) drain_out_of_range
    block_inputs ← drain (length params - 1)
    lift_arms params block_inputs cases
