-- ===== src/Abi/Generator.antt =====
-- crates/core/src/abi.rs, `Generator`, `Bindgen` and the operations on the generator's stack. A
-- method that mutates the generator is a function of its state that returns the next state, or the
-- panic that it stops with. The buffers `operands` and `results` are cleared before each use, so
-- they are local to `emit` and `finish_block`. The stack is a list, last pushed first.
pub mod Effect
pub mod Rules
use wai_bindgen.Prelude.{
  ℕ, String, Bool, true, false, Option, none, some, List, [], ◌∷◌, ◌++◌, length, take, drop,
  reverse, leb, ◌==◌, if◌then◌else◌, ◌+◌, ◌%◌, ◌^◌,
}
use wai_bindgen.Wit.{Wit, AbiVariant, WitType, TypeId, TypeDef, type_def}
use wai_bindgen.Abi.Instruction.{Instruction, operands_len, results_len}

pub data LiftLower : Type 0 where
  lift_args_lower_results lower_args_lift_results : LiftLower

-- The panics of the generator: failed assertions, `unwrap` of `None`, indices out of range, and the
-- `unreachable!`, `todo!` and `unimplemented!` of the source. `out_of_fuel` is the model's own.
pub data Panic : Type 0 where
  not_enough_operands wrong_results_len drain_out_of_range pop_of_empty_stack : Panic
  slice_out_of_range type_id_out_of_range unnamed_type no_return_pointer : Panic
  unsupported_cast offset_overflow assertion_failed stack_not_empty : Panic
  unreachable todo unimplemented unwrap_none out_of_fuel : Panic

-- The trait `Bindgen`: a language backend, with its own state and operands. `sizes` is part of
-- `Wit`.
pub record Bindgen (Operand State : Type 0) : Type 0 where
  pub emit_inst : State → Instruction → List Operand → List Operand × State
  pub return_area : State → ℕ → ℕ → Operand × State
  pub enter_block : State → State
  pub leave_block : State → List Operand → State
  pub is_list_canonical : State → WitType → Bool

-- The fields of `Generator` that never change.
pub record Context (Operand State : Type 0) : Type 0 where
  pub resolve : Wit
  pub bindgen : Bindgen Operand State
  pub variant : AbiVariant
  pub lift_lower : LiftLower
  pub is_async : Bool

-- The fields that do.
pub record Generator (Operand State : Type 0) : Type 0 where
  pub state : State
  pub stack : List Operand
  pub return_pointer : Option Operand

pub data Result (A : Type 0) : Type 0 where
  ok : A → Result A
  panic : Panic → Result A

abbrev pub M : Type 0 → Type 0 → Type 0 → Type 0
M O S A = Generator O S → Result (A × Generator O S)

module _ {O S : Type 0} where
  unfoldable pub pure : {A : Type 0} → A → M O S A
  pure a g = ok (a, g)

  unfoldable pub fail : {A : Type 0} → Panic → M O S A
  fail p g = panic p

  infixl 5 ◌>>=◌ ◌>>◌
  unfoldable pub ◌>>=◌ : {A B : Type 0} → M O S A → (A → M O S B) → M O S B
  ◌>>=◌ m f g = elim (m g) [ ok (a, g') ↦ f a g' | panic p ↦ panic p ]

  abbrev pub ◌>>◌ : {B : Type 0} → M O S (Unit {0}) → M O S B → M O S B
  m >> k = m >>= λ _. k

  abbrev pub skip : M O S (Unit {0})
  skip = pure tt

  -- `if test { panic }`
  unfoldable pub check : Bool → Panic → M O S (Unit {0})
  check true p g = ok (tt, g)
  check false p g = panic p

  -- An `unwrap`, or a lookup that panics.
  unfoldable pub unwrap : {A : Type 0} → Option A → Panic → M O S A
  unwrap (some a) p g = ok (a, g)
  unwrap none p g = panic p

  unfoldable pub push : O → M O S (Unit {0})
  push x g = ok (tt, record g { stack = x ∷ g.stack })

  -- `self.stack.extend(xs)`
  unfoldable pub extend : List O → M O S (Unit {0})
  extend xs g = ok (tt, record g { stack = reverse xs ++ g.stack })

  pop_from : List O → M O S O
  pop_from [] g = panic pop_of_empty_stack
  pop_from (x ∷ xs) g = ok (x, record g { stack = xs })

  -- `self.stack.pop().unwrap()`
  unfoldable pub pop : M O S O
  unfolding pop_from
  pop g = pop_from g.stack g

  -- `self.stack.drain(self.stack.len() - n..).collect()`, in the order in which they were pushed.
  unfoldable pub drain : ℕ → M O S (List O)
  drain n g =
      if leb n (length g.stack)
      then ok (reverse (take n g.stack), record g { stack = drop n g.stack })
      else panic drain_out_of_range

  unfoldable pub stack_len : M O S ℕ
  stack_len g = ok (length g.stack, g)

  unfoldable pub set_return_pointer : O → M O S (Unit {0})
  set_return_pointer p g = ok (tt, record g { return_pointer = some p })

  unfoldable pub take_from : Option O → M O S O
  take_from none g = panic no_return_pointer
  take_from (some p) g = ok (p, record g { return_pointer = none })

  -- `self.return_pointer.take().unwrap()`
  unfoldable pub take_return_pointer : M O S O
  unfolding take_from
  take_return_pointer g = take_from g.return_pointer g

  module _ (c : Context O S) where
    finish_emit : Instruction → List O → List O × S → M O S (Unit {0})
    finish_emit inst rest (results, s) g =
        if length results == results_len c.resolve inst
        then ok (tt, record g { state = s; stack = reverse results ++ rest })
        else panic wrong_results_len

    unfoldable pub emit : Instruction → M O S (Unit {0})
    unfolding finish_emit
    emit inst g =
        let n = operands_len c.resolve inst in
        if leb n (length g.stack)
        then finish_emit inst (drop n g.stack)
            (c.bindgen.emit_inst g.state inst (reverse (take n g.stack))) g
        else panic not_enough_operands

    unfoldable pub push_block : M O S (Unit {0})
    push_block g = ok (tt, record g { state = c.bindgen.enter_block g.state })

    unfoldable pub finish_block : ℕ → M O S (Unit {0})
    finish_block n g =
        if leb n (length g.stack)
        then ok (
          tt,
          record g {
            state = c.bindgen.leave_block g.state (reverse (take n g.stack));
            stack = drop n g.stack;
          },
        )
        else panic not_enough_operands

    -- `self.bindgen.return_pointer(size, align)`
    unfoldable pub return_pointer_area : ℕ → ℕ → M O S O
    return_pointer_area size align g =
        let (p, s) = c.bindgen.return_area g.state size align in ok (p, record g { state = s })

    -- `self.bindgen.is_list_canonical(self.resolve, element)`
    unfoldable pub is_list_canonical : WitType → M O S Bool
    is_list_canonical element g = ok (c.bindgen.is_list_canonical g.state element, g)

    -- `&self.resolve.types[id]`
    unfoldable pub type_at : TypeId → M O S TypeDef
    unfolding unwrap
    type_at i = unwrap (type_def c.resolve i) type_id_out_of_range

    -- `d.name.as_deref().unwrap()`
    unfoldable pub name_of : TypeDef → M O S String
    unfolding unwrap
    name_of d = unwrap d.name unnamed_type

-- `(a + b as i32)` on the 32 bits of the numbers.
unfoldable pub add_i32 : ℕ → ℕ → ℕ
add_i32 a b = (a + b) % 2 ^ 32

-- `Generator::new`
unfoldable pub new : {O S : Type 0} → S → Generator O S
new s = record { state = s; stack = []; return_pointer = none }
