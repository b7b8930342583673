-- ===== src/Abi/Lower/ArmsEffect.antt =====
-- The effect on the stack of the loops over fields and over the cases of a variant in
-- crates/core/src/abi.rs, `lower`.
use wai_bindgen.Prelude.{
  ℕ, suc, ◌+◌, ◌≤◌, ◌≡◌, refl, ap, true, false, Option, none, some, List, [], ◌∷◌, length, drop,
  All, ltb, leb, arith, length-append, length-drop, Bool-cases, inl, inr,
}
use wai_bindgen.Wit.{Wit, WasmType, WitType}
use wai_bindgen.Wit.Laws.{Fits, CaseFits, IsJoined, flat_all}
use wai_bindgen.Abi.Bitcast.{Bitcast}
use wai_bindgen.Abi.Bitcast.Typed.{Widens-Casts}
use wai_bindgen.Abi.Instruction.{bitcasts, variant_payload_name, i32_const, const_zero}
use wai_bindgen.Abi.Generator.{M, Context}
use wai_bindgen.Abi.Generator.Effect.{Effect, Any, step, last}
use wai_bindgen.Abi.Generator.Rules.{
  IsBindgen, pure-Effect, unwrap-Effect, check-Effect, push-Effect, pop-Effect, push_block-Effect,
  finish_block-Effect, emit-Effect,
}
use wai_bindgen.Abi.Lower.Arms.{
  casts_of, any_cast, as_i32, emit_casts, lower_each, lower_payload, pad, lower_arm, lower_arms,
  lower_variant_arms,
}

-- Flat types that fit into slots can be cast to them, one bitcast for each.
casts_of-Fits :
    (w : Wit) (xs ys : List WasmType)
    → Fits w xs ys
    → (cs : List Bitcast) × (casts_of xs ys ≡ some cs) × (length cs ≡ length xs)
unfolding casts_of
casts_of-Fits w [] ys h = ([], refl, refl)
casts_of-Fits w (x ∷ xs) [] h = absurd h
casts_of-Fits w (x ∷ xs) (y ∷ ys) h =
    let there = (Widens-Casts h.0).0 in
    let rest = casts_of-Fits w xs ys h.1 in (there.0 ∷ rest.0, rw (there.1, rest.1), ap suc rest.2)

pub Fits-le : (w : Wit) (xs ys : List WasmType) → Fits w xs ys → length xs ≤ length ys
Fits-le w [] ys h = omega arith
Fits-le w (x ∷ xs) [] h = absurd h
Fits-le w (x ∷ xs) (y ∷ ys) h = omega (arith, Fits-le w xs ys h.1)

pub leb_one : (n : ℕ) → leb 1 (suc n) ≡ true
leb_one n = ground arith

eq_of_not_lt : (a b : ℕ) → a ≤ b → ltb a b ≡ false → b ≡ a
eq_of_not_lt a b h e = ground arith

module _ {O S : Type 0} (c : Context O S) (law : IsBindgen c.resolve c.bindgen) where
  pub emit_casts-Effect :
      (casts : List Bitcast) → Effect (emit_casts c casts) (length casts) Any (length casts)
  unfolding emit_casts
  emit_casts-Effect casts = elim (Bool-cases (any_cast casts)) [
    | inl e ↦ rw e (emit-Effect c (bitcasts casts) law)
    | inr e ↦ rw e (last (length casts) (pure-Effect tt tt) (omega arith) (omega arith))
  ]

  pad-Effect :
      (results : List WasmType) (pushed : ℕ)
      → pushed ≤ length results
      → Effect (pad c results pushed) pushed Any (length results)
  unfolding pad
  pad-Effect results pushed h = elim (Bool-cases (ltb pushed (length results))) [
    | inl e ↦ rw e (
        last pushed (emit-Effect c (const_zero (drop pushed results)) law) (omega arith)
          (omega (arith, length-drop pushed results)))
    | inr e ↦ rw e (
        last pushed (pure-Effect tt tt) (omega arith)
          (omega (arith, eq_of_not_lt pushed (length results) h e)))
  ]

  -- How many flat values the payload of a case has.
  abbrev pub payload_len : Option WitType → ℕ
  payload_len none = 0
  payload_len (some t) = length (c.resolve.push_flat t)

  -- `lower` turns one value of the type into its flat values.
  abbrev pub LowersTo : (WitType → M O S (Unit {0})) → WitType → Type 0
  LowersTo lower t = Effect (lower t) 1 Any (length (c.resolve.push_flat t))

  abbrev pub LowersOption : (WitType → M O S (Unit {0})) → Option WitType → Type 0
  LowersOption lower none = Unit
  LowersOption lower (some t) = LowersTo lower t

  module _ (lower : WitType → M O S (Unit {0})) where
    pub lower_each-Effect :
        (ts : List WitType) (vs : List O)
        → All (LowersTo lower) ts
        → length vs ≡ length ts
        → Effect (lower_each c lower ts vs) 0 Any (length (flat_all c.resolve ts))
    unfolding lower_each
    lower_each-Effect [] vs h e = pure-Effect tt tt
    lower_each-Effect (t ∷ ts) [] h e = absurd (omega arith)
    lower_each-Effect (t ∷ ts) (v ∷ vs) h e =
        let n = length (c.resolve.push_flat t) in
        step 0 (push-Effect v) (omega arith) λ _ _. step 0 h.0 (omega arith) λ _ _.
          last n (lower_each-Effect ts vs h.1 (omega arith)) (omega arith)
            (omega (arith, length-append (c.resolve.push_flat t) (flat_all c.resolve ts)))

    module _ (results slots : List WasmType) (disc : WasmType)
        (joined : results ≡ disc ∷ slots) where
      lower_payload-Effect :
          (x : O) (ty : Option WitType)
          → LowersOption lower ty
          → CaseFits c.resolve slots ty
          → Effect
              (lower_payload c lower results x ty)
              0
              (λ n. n ≡ payload_len ty + 1)
              (payload_len ty)
      unfolding lower_payload
      lower_payload-Effect x none h fits = pure-Effect 1 (omega arith)
      lower_payload-Effect x (some t) h fits =
          let n = length (c.resolve.push_flat t) in
          let (casts, cast_eq, len) = casts_of-Fits c.resolve (c.resolve.push_flat t) slots fits in
          rw joined (
            step 0 (push-Effect x) (omega arith) λ _ _. step 0 h (omega arith) λ _ _.
              step n (check-Effect _ _ (leb_one (length slots))) (omega arith) λ _ _.
                step n (unwrap-Effect _ _ casts cast_eq) (omega arith) λ cs same.
                  step 0 (emit_casts-Effect cs) (omega (arith, ap length same)) λ _ _.
                    last n (pure-Effect _ (omega arith)) (omega (arith, ap length same, len))
                      (omega arith))

      payload_len-le :
          (ty : Option WitType) → CaseFits c.resolve slots ty → payload_len ty + 1 ≤ length results
      payload_len-le none h = omega (arith, ap length joined)
      payload_len-le (some t) h =
          omega (arith, ap length joined, Fits-le c.resolve (c.resolve.push_flat t) slots h)

      -- Each arm ends with an empty block, whatever its payload.
      lower_arm-Effect :
          (i : ℕ) (ty : Option WitType)
          → LowersOption lower ty
          → CaseFits c.resolve slots ty
          → Effect (lower_arm c lower results i ty) 0 Any 0
      unfolding lower_arm
      lower_arm-Effect i ty h fits =
          let n = payload_len ty in
          step 0 (push_block-Effect c) (omega arith) λ _ _.
            step 0 (emit-Effect c variant_payload_name law) (omega arith) λ _ _.
              step 0 pop-Effect (omega arith) λ x _.
                step 0 (emit-Effect c (i32_const (as_i32 i)) law) (omega arith) λ _ _.
                  step 1 (lower_payload-Effect x ty h fits) (omega arith) λ k same.
                    step 0 (pad-Effect results k (omega (arith, same, payload_len-le ty fits)))
                      (omega (arith, same))
                      λ _ _.
                        last 0 (finish_block-Effect c (length results)) (omega arith) (omega arith)

      lower_arms-Effect :
          (i : ℕ) (tys : List (Option WitType))
          → All (LowersOption lower) tys
          → All (CaseFits c.resolve slots) tys
          → Effect (lower_arms c lower results i tys) 0 Any 0
      unfolding lower_arms
      lower_arms-Effect i [] h fits = pure-Effect tt tt
      lower_arms-Effect i (ty ∷ tys) h fits =
          step 0 (lower_arm-Effect i ty h.0 fits.0) (omega arith)
            λ _ _. last 0 (lower_arms-Effect (i + 1) tys h.1 fits.1) (omega arith) (omega arith)

    pub lower_variant_arms-Effect :
        (ty : WitType) (cases : List (Option WitType))
        → All (LowersOption lower) cases
        → IsJoined c.resolve (c.resolve.push_flat ty) cases
        → Effect (lower_variant_arms c lower ty cases) 0 (λ r. r ≡ c.resolve.push_flat ty) 0
    unfolding lower_variant_arms
    lower_variant_arms-Effect ty cases h j =
        step 0
          (lower_arms-Effect (c.resolve.push_flat ty) j.slots j.discriminant j.flat_eq 0 cases h
            j.cases_fit)
          (omega arith) λ _ _. last 0 (pure-Effect _ refl) (omega arith) (omega arith)
