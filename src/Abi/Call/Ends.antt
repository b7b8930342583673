-- ===== src/Abi/Call/Ends.antt =====
-- Runs of the generator from an empty stack: `Ends m p H` says that `m`, with `p` operands on the
-- stack and a saved return pointer that meets `H`, returns without a panic and leaves the stack
-- empty.
use wai_bindgen.Prelude.{
  ℕ, ◌+◌, ◌≡◌, refl, sym, fun_ext, ◌∙◌, subst, ap, Option, some, List, [], ◌∷◌, length, arith,
}
use mathlib.Core.List.{append-nil}
use wai_bindgen.Abi.Generator.{
  Generator, Result, ok, panic, M, ◌>>=◌, stack_len, set_return_pointer, take_return_pointer,
  take_from,
}
use wai_bindgen.Abi.Generator.Effect.{Above, Done, done, Effect, last}

pub data EndsWith {O S A : Type 0} : Result (A × Generator O S) → Type 0 where
  ends : {a : A} {g : Generator O S} → g.stack ≡ [] → EndsWith (ok (a, g))

pub record Ends {O S A : Type 0} (m : M O S A) (p : ℕ) (H : Option O → Type 0) : Type 0 where
  pub run : (g : Generator O S) → Above [] p g → H g.return_pointer → EndsWith (m g)

-- A return pointer is saved, or there is no claim.
abbrev pub Saved : {O : Type 0} → Option O → Type 0
Saved {O} rp = (p : O) × (rp ≡ some p)

abbrev pub Whatever : {O : Type 0} → Option O → Type 0
Whatever _ = Unit {0}

no_outs : {O : Type 0} (outs : List O) → length outs ≡ 0 → outs ≡ []
no_outs [] h = refl
no_outs (x ∷ xs) h = absurd (omega arith)

module _ {O S A B : Type 0} {H : Option O → Type 0} where
  continue :
      {Q : A → Type 0} {f : A → M O S B} {b : ℕ} {rp : Option O} {r : Result (A × Generator O S)}
      → ((x : A) → Q x → Ends (f x) b H)
      → H rp
      → Done Q [] b rp r
      → EndsWith (elim r [ ok (a, g') ↦ f a g' | panic p ↦ panic p ])
  continue h k (done {a = a} {g = g} q above same) = (h a q).run g above (subst H (sym same) k)

  -- A step that saves no return pointer.
  pub ends_step :
      {Q : A → Type 0} {m : M O S A} {f : A → M O S B} {a b p : ℕ} (k : ℕ)
      → Effect m a Q b
      → p ≡ a + k
      → ((x : A) → Q x → Ends (f x) (b + k) H)
      → Ends (m >>= f) p H
  unfolding ◌>>=◌
  ends_step {b = b} k e ep h =
      rw ep (record { run = λ g above held. continue h held ((last k e refl refl).run [] g above) })

module _ {O S B : Type 0} where
  pub ends_set :
      {H : Option O → Type 0} (f : Unit {0} → M O S B) {p : ℕ} (x : O)
      → Ends (f tt) p Saved
      → Ends (set_return_pointer x >>= f) p H
  unfolding ◌>>=◌ set_return_pointer
  ends_set f x h = record { run = λ g above held. h.run _ above (x, refl) }

  pub ends_take :
      (f : O → M O S B) {p : ℕ}
      → ((x : O) → Ends (f x) p Whatever)
      → Ends (take_return_pointer >>= f) p Saved
  unfolding ◌>>=◌ take_return_pointer take_from
  ends_take f h = record {
    run = λ g above held. rw (held.1, take_from) ((h held.0).run _ above tt);
  }

  pub ends_len :
      {H : Option O → Type 0} (f : ℕ → M O S B) {p : ℕ}
      → Ends (f p) p H
      → Ends (stack_len >>= f) p H
  unfolding ◌>>=◌ stack_len
  ends_len {H} f h = record {
    run = λ g above held.
        subst (λ k. EndsWith (f k g)) (sym (ap length (above.1 ∙ append-nil above.0) ∙ above.2))
          (h.run g above held);
  }

module _ {O S A C B : Type 0} (f : A → M O S C) (h : C → M O S B) where
  assoc_at :
      (r : Result (A × Generator O S))
      → ◌≡◌ {A = Result (B × Generator O S)}
          (elim (elim r as (λ _. Result (C × Generator O S)) [
            | ok (a, g) ↦ f a g
            | panic p ↦ panic p
          ])
            as (λ _. Result (B × Generator O S)) [ ok (x, g) ↦ h x g | panic p ↦ panic p ])
          (elim r as (λ _. Result (B × Generator O S)) [
            | ok (a, g) ↦ elim (f a g) as (λ _. Result (B × Generator O S)) [
              | ok (x, g') ↦ h x g'
              | panic p ↦ panic p
            ]
            | panic p ↦ panic p
          ])
  assoc_at (ok (a, g)) = refl
  assoc_at (panic p) = refl

  bind_assoc : (m : M O S A) → ((m >>= f) >>= h) ≡ (m >>= λ x. f x >>= h)
  unfolding ◌>>=◌
  bind_assoc m = fun_ext (λ g. assoc_at (m g))

  -- A block inside a block.
  pub ends_assoc :
      {H : Option O → Type 0} (m : M O S A) {p : ℕ}
      → Ends (m >>= λ x. f x >>= h) p H
      → Ends ((m >>= f) >>= h) p H
  ends_assoc {H} m {p} e = subst (λ m. Ends m p H) (sym (bind_assoc m)) e

ends-Done :
    {O S A : Type 0} {Q : A → Type 0} {rp : Option O} {r : Result (A × Generator O S)}
    → Done Q [] 0 rp r
    → EndsWith r
ends-Done (done q (outs, e, l) same) = ends (e ∙ append-nil outs ∙ no_outs outs l)

-- The last step.
pub ends_last :
    {O S A : Type 0} {H : Option O → Type 0} {Q : A → Type 0} {m : M O S A} {p : ℕ}
    → Effect m p Q 0
    → Ends m p H
ends_last e = record { run = λ g above held. ends-Done (e.run [] g above) }
