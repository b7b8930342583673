-- ===== src/Abi/Generator/Effect.antt =====
-- Total correctness of the generator's methods with respect to its stack: `Effect m p Q q` says
-- that `m`, on a stack with `p` operands above any base, returns without a panic a value that
-- meets `Q`, and leaves `q` operands above the same base and the saved return pointer untouched.
use mathlib.Core.List.{append_assoc}
use wai_bindgen.Prelude.{
  ℕ, ◌+◌, ◌≡◌, sym, ◌∙◌, ap, subst, Option, List, ◌++◌, length, take, drop, arith, length-append,
  length-take, length-drop, take-append-drop,
}
use wai_bindgen.Abi.Generator.{Generator, Result, ok, panic, M, ◌>>=◌}

abbrev pub Above : {O S : Type 0} → List O → ℕ → Generator O S → Type 0
Above {O} base n g = (outs : List O) × (g.stack ≡ outs ++ base) × (length outs ≡ n)

pub data Done {O S A : Type 0} (Q : A → Type 0) (base : List O) (q : ℕ) (rp : Option O)
    : Result (A × Generator O S) → Type 0 where
  done :
      {a : A} {g : Generator O S}
      → Q a
      → Above base q g
      → g.return_pointer ≡ rp
      → Done Q base q rp (ok (a, g))

pub record Effect {O S A : Type 0} (m : M O S A) (p : ℕ) (Q : A → Type 0) (q : ℕ) : Type 0 where
  pub run :
      (base : List O) (g : Generator O S) → Above base p g → Done Q base q g.return_pointer (m g)

-- No claim about the value.
abbrev pub Any : {A : Type 0} → A → Type 0
Any _ = Unit {0}

module _ {O S A : Type 0} {Q : A → Type 0} where
  unframe :
      {k b : ℕ} {base : List O} {rp : Option O} {r : Result (A × Generator O S)} (rest : List O)
      → length rest ≡ k
      → Done Q (rest ++ base) b rp r
      → Done Q base (b + k) rp r
  unframe {base = base} rest e (done q (outs, s, l) h) =
      done q
        (
          outs ++ rest,
          s ∙ sym (append_assoc outs rest base),
          omega (arith, length-append outs rest),
        )
        h

  -- Operands further down are left alone.
  frame : {m : M O S A} {a b : ℕ} (k : ℕ) → Effect m a Q b → Effect m (a + k) Q (b + k)
  frame {m} {a} k e = record {
    run = λ base g (outs, s, l). unframe (drop a outs) (omega (arith, length-drop a outs)) (
        e.run (drop a outs ++ base) g (
          take a outs,
          s
              ∙ (ap (λ xs. xs ++ base) (sym (take-append-drop a outs))
                  ∙ append_assoc (take a outs) (drop a outs) base),
          omega (arith, length-take a outs),
        ));
  }

  pub last :
      {m : M O S A} {a b p q : ℕ} (k : ℕ) → Effect m a Q b → p ≡ a + k → q ≡ b + k → Effect m p Q q
  last k e ep eq = rw (ep, eq) (frame k e)

module _ {O S A B : Type 0} {Q : A → Type 0} {R : B → Type 0} where
  continue :
      {f : A → M O S B} {base : List O} {b r : ℕ} {rp : Option O} {res : Result (A × Generator O S)}
      → ((x : A) → Q x → Effect (f x) b R r)
      → Done Q base b rp res
      → Done R base r rp (elim res [ ok (a, g') ↦ f a g' | panic p ↦ panic p ])
  continue {f} {base} {r} h (done {a = a} {g = g} q above same) =
      subst (λ rp. Done R base r rp (f a g)) same ((h a q).run base g above)

  -- One step of a `do` block, on the `a` topmost operands of `p`.
  pub step :
      {m : M O S A} {f : A → M O S B} {a b p r : ℕ} (k : ℕ)
      → Effect m a Q b
      → p ≡ a + k
      → ((x : A) → Q x → Effect (f x) (b + k) R r)
      → Effect (m >>= f) p R r
  unfolding ◌>>=◌
  step k e ep h = rw ep (record { run = λ base g above. continue h ((frame k e).run base g above) })

module _ {O S A : Type 0} {Q R : A → Type 0} where
  weaken-Done :
      {base : List O} {q : ℕ} {rp : Option O} {r : Result (A × Generator O S)}
      → ((a : A) → Q a → R a)
      → Done Q base q rp r
      → Done R base q rp r
  weaken-Done h (done {a = a} x y z) = done (h a x) y z

  -- A weaker claim about the value.
  pub weaken : {m : M O S A} {p q : ℕ} → ((a : A) → Q a → R a) → Effect m p Q q → Effect m p R q
  weaken h e = record { run = λ base g above. weaken-Done h (e.run base g above) }
