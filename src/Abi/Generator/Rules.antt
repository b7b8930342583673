-- ===== src/Abi/Generator/Rules.antt =====
-- The effect of each operation on the generator's stack, and the contract of a language backend.
use wai_bindgen.Prelude.{
  ℕ, ◌≤◌, ◌≡◌, refl, sym, subst, ◌+◌, ◌∙◌, ap, Bool, true, Option, some, List, [], ◌∷◌, ◌++◌,
  length, take, drop, reverse, leb, ◌==◌, arith, length-append, length-reverse, take-append,
  drop-append, String,
}
use wai_bindgen.Wit.{Wit, TypeDef, TypeId, WitType, type_def}
use wai_bindgen.Abi.Instruction.{Instruction, operands_len, results_len}
use wai_bindgen.Abi.Generator.{
  Bindgen, Context, Generator, Panic, M, pure, ◌>>=◌, check, unwrap, push, extend, pop, drain, emit,
  finish_emit, pop_from, push_block, finish_block, return_pointer_area, is_list_canonical, type_at,
  name_of,
}
use wai_bindgen.Abi.Generator.Effect.{Done, done, Effect, Any, step, last, weaken}

-- The documentation of `Bindgen::emit`: given the operands that the instruction pops, it pushes
-- as many results as the instruction has.
pub record IsBindgen {O S : Type 0} (w : Wit) (b : Bindgen O S) : Type 0 where
  pub emit_len :
      (s : S) (inst : Instruction) (operands : List O)
      → length operands ≡ operands_len w inst
      → length (b.emit_inst s inst operands).0 ≡ results_len w inst

module _ {ℓ} {A : Type ℓ} where
  leb-length : (n : ℕ) (l : List A) → n ≤ length l → leb n (length l) ≡ true
  leb-length n l h = ground arith

  le-Above : (n : ℕ) (l outs base : List A) → l ≡ outs ++ base → length outs ≡ n → n ≤ length l
  le-Above n l outs base e h = omega (arith, ap length e, length-append outs base)

  take-Above : (n : ℕ) (l outs base : List A) → l ≡ outs ++ base → length outs ≡ n → take n l ≡ outs
  take-Above n l outs base e h = rw (e, ← h) (take-append outs base)

  drop-Above : (n : ℕ) (l outs base : List A) → l ≡ outs ++ base → length outs ≡ n → drop n l ≡ base
  drop-Above n l outs base e h = rw (e, ← h) (drop-append outs base)

eqb_refl : (n : ℕ) → (n == n) ≡ true
eqb_refl n = ground arith

-- Nothing, above a stack as it is.
zero-Above : {O : Type 0} (outs base : List O) → length outs ≡ 0 → outs ++ base ≡ base
zero-Above [] base h = refl
zero-Above (x ∷ xs) base h = absurd (omega arith)

module _ {O S A : Type 0} where
  pub pure-Effect : {Q : A → Type 0} (a : A) → Q a → Effect {O = O} {S = S} (pure a) 0 Q 0
  unfolding pure
  pure-Effect a q = record { run = λ base g above. done q above refl }

  pub unwrap-Effect :
      (o : Option A) (p : Panic) (a : A)
      → o ≡ some a
      → Effect {O = O} {S = S} (unwrap o p) 0 (λ x. x ≡ a) 0
  unfolding unwrap
  unwrap-Effect o p a e = rw e (record { run = λ base g above. done refl above refl })

module _ {O S : Type 0} where
  pub check-Effect : (b : Bool) (p : Panic) → b ≡ true → Effect {O = O} {S = S} (check b p) 0 Any 0
  unfolding check
  check-Effect b p e = rw e (record { run = λ base g above. done tt above refl })

  pub push-Effect : (x : O) → Effect {O = O} {S = S} (push x) 0 Any 1
  unfolding push
  push-Effect x = record {
    run = λ base g (outs, e, l). done tt (x ∷ outs, ap (λ s. x ∷ s) e, omega (arith, l)) refl;
  }

  pop_from-Done :
      (s outs base : List O) (g : Generator O S)
      → s ≡ outs ++ base
      → length outs ≡ 1
      → Done Any base 0 g.return_pointer (pop_from s g)
  unfolding pop_from
  pop_from-Done s [] base g e l = absurd (omega arith)
  pop_from-Done s (x ∷ []) base g e l = rw e (done tt ([], refl, refl) refl)
  pop_from-Done s (x ∷ y ∷ r) base g e l = absurd (omega arith)

  pub pop-Effect : Effect {O = O} {S = S} pop 1 Any 0
  unfolding pop
  pop-Effect = record { run = λ base g (outs, e, l). pop_from-Done g.stack outs base g e l }

  pub extend-Effect : (xs : List O) → Effect {O = O} {S = S} (extend xs) 0 Any (length xs)
  unfolding extend
  extend-Effect xs = record {
    run = λ base g (outs, e, l).
        done tt
          (reverse xs, ap (λ s. reverse xs ++ s) (e ∙ zero-Above outs base l), length-reverse xs)
          refl;
  }

  pub drain-Effect : (n : ℕ) → Effect {O = O} {S = S} (drain n) n (λ xs. length xs ≡ n) 0
  unfolding drain
  drain-Effect n = record {
    run = λ base g (outs, e, l). rw (leb-length n g.stack (le-Above n g.stack outs base e l)) (
        done
          (length-reverse (take n g.stack) ∙ (ap length (take-Above n g.stack outs base e l) ∙ l))
          ([], drop-Above n g.stack outs base e l, refl) refl);
  }

  module _ (c : Context O S) where
    pub push_block-Effect : Effect (push_block c) 0 Any 0
    unfolding push_block
    push_block-Effect = record { run = λ base g above. done tt above refl }

    pub finish_block-Effect : (n : ℕ) → Effect (finish_block c n) n Any 0
    unfolding finish_block
    finish_block-Effect n = record {
      run = λ base g (outs, e, l).
          rw (leb-length n g.stack (le-Above n g.stack outs base e l))
            (done tt ([], drop-Above n g.stack outs base e l, refl) refl);
    }

    pub return_pointer_area-Effect :
        (size align : ℕ) → Effect (return_pointer_area c size align) 0 Any 0
    unfolding return_pointer_area
    return_pointer_area-Effect size align = record { run = λ base g above. done tt above refl }

    pub is_list_canonical-Effect : (t : WitType) → Effect (is_list_canonical c t) 0 Any 0
    unfolding is_list_canonical
    is_list_canonical-Effect t = record { run = λ base g above. done tt above refl }

    pub type_at-Effect :
        (i : TypeId) (d : TypeDef)
        → type_def c.resolve i ≡ some d
        → Effect (type_at c i) 0 (λ x. x ≡ d) 0
    unfolding type_at
    type_at-Effect i d e = unwrap-Effect _ _ d e

    -- A step that looks up a type that is there.
    pub step_type_at :
        {B : Type 0} {R : B → Type 0} {p r : ℕ} (f : TypeDef → M O S B) (i : TypeId) (d : TypeDef)
        → type_def c.resolve i ≡ some d
        → Effect (f d) p R r
        → Effect (type_at c i >>= f) p R r
    step_type_at {R = R} {p = p} {r = r} f i d e h =
        step p (type_at-Effect i d e) (omega arith) λ x same.
          subst (λ y. Effect (f y) (0 + p) R r) (sym same) (last 0 h (omega arith) (omega arith))

    pub name_of-Effect : (d : TypeDef) (n : String) → d.name ≡ some n → Effect (name_of c d) 0 Any 0
    unfolding name_of
    name_of-Effect d n e = weaken (λ _ _. tt) (unwrap-Effect _ _ n e)

    finish_emit-Done :
        (inst : Instruction) (rest : List O) (r : List O × S) (g : Generator O S)
        → length r.0 ≡ results_len c.resolve inst
        → Done Any rest (results_len c.resolve inst) g.return_pointer (finish_emit c inst rest r g)
    unfolding finish_emit
    finish_emit-Done inst rest (results, s) g e =
        rw (e, eqb_refl (results_len c.resolve inst))
          (done tt (reverse results, refl, length-reverse results ∙ e) refl)

    -- For a language backend that returns as many results as it must, `emit` takes as many operands
    -- as the instruction has, leaves as many results and does not panic.
    pub emit-Effect :
        (inst : Instruction)
        → IsBindgen c.resolve c.bindgen
        → Effect (emit c inst) (operands_len c.resolve inst) Any (results_len c.resolve inst)
    unfolding emit
    emit-Effect inst law = record {
      run = λ base g (outs, e, l).
          let n = operands_len c.resolve inst in
          let taken = take-Above n g.stack outs base e l in
          rw
            (
              leb-length n g.stack (le-Above n g.stack outs base e l),
              drop-Above n g.stack outs base e l,
            )
            (finish_emit-Done inst base _ g (
              law.emit_len g.state inst _
                (length-reverse (take n g.stack) ∙ (ap length taken ∙ l))));
    }
