-- ===== src/Abi/Call/Arguments.antt =====
-- crates/core/src/abi.rs, the loops of `Generator::call` over the parameters and the results, and
-- `align_to`. The methods on types are run with fuel `n`.
use Prim.Native.Nat.{bit_and}
use wai_bindgen.Prelude.{ℕ, zero, suc, ◌+◌, ◌-◌, ◌%◌, ◌^◌, List, [], ◌∷◌, length}
use wai_bindgen.Wit.{WitType}
use wai_bindgen.Abi.Instruction.{get_arg}
use wai_bindgen.Abi.Generator.{M, Context, ◌>>◌, skip, push, emit}
use wai_bindgen.Abi.Lower.Arms.{as_i32}
use wai_bindgen.Abi.Lower.{lower, write_to_memory}
use wai_bindgen.Abi.Lift.{lift, read_from_memory}

-- `(val + align - 1) & !(align - 1)` on 64-bit words; an alignment is at least 1.
unfoldable pub align_to : ℕ → ℕ → ℕ
align_to val align = bit_and ((val + align - 1) % 2 ^ 64) (2 ^ 64 - align)

-- `offset += size`
unfoldable pub add_usize : ℕ → ℕ → ℕ
add_usize a b = (a + b) % 2 ^ 64

module _ {O S : Type 0} (c : Context O S) (n : ℕ) where
  -- `for (nth, (_, ty)) in params { emit(GetArg { nth }); lower(ty) }`
  unfoldable pub lower_args : ℕ → List WitType → M O S (Unit {0})
  lower_args nth [] = skip
  lower_args nth (t ∷ ts) = do emit c (get_arg nth); lower c n t; lower_args (nth + 1) ts

  unfoldable pub write_args_at : O → ℕ → ℕ → List WitType → M O S (Unit {0})
  write_args_at ptr nth offset [] = skip
  write_args_at ptr nth offset (t ∷ ts) = do
    emit c (get_arg nth)
    let aligned = align_to offset (c.resolve.align t)
    write_to_memory c n t ptr (as_i32 aligned)
    write_args_at ptr (nth + 1) (add_usize aligned (c.resolve.size t)) ts

  -- The closure `lower_to_memory`.
  unfoldable pub write_args : List WitType → O → M O S (Unit {0})
  unfolding write_args_at
  write_args ts ptr = do write_args_at ptr 0 0 ts; push ptr

  -- The loop of the closure `read_from_memory`, after the pointer is popped.
  unfoldable pub read_args : O → ℕ → List WitType → M O S (Unit {0})
  read_args ptr offset [] = skip
  read_args ptr offset (t ∷ ts) = do
    let aligned = align_to offset (c.resolve.align t)
    read_from_memory c n t ptr (as_i32 aligned)
    read_args ptr (add_usize aligned (c.resolve.size t)) ts

  -- `for _ in 0..temp.len() { emit(GetArg { nth: offset }); offset += 1 }`
  unfoldable pub get_args : ℕ → ℕ → M O S (Unit {0})
  get_args offset zero = skip
  get_args offset (suc left) = do emit c (get_arg offset); get_args (offset + 1) left

  unfoldable pub lift_args : ℕ → List WitType → M O S (Unit {0})
  lift_args offset [] = skip
  lift_args offset (t ∷ ts) = do
    let k = length (c.resolve.push_flat t)
    get_args offset k
    lift c n t
    lift_args (offset + k) ts

  -- `for ty in results { lift(ty) }`
  unfoldable pub lift_results : List WitType → M O S (Unit {0})
  lift_results [] = skip
  lift_results (t ∷ ts) = do lift c n t; lift_results ts
