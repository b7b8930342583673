-- ===== src/Abi/Lift/ArmsEffect.antt =====
-- The effect on the stack of the loops over fields and over the cases of a variant in
-- crates/core/src/abi.rs, `lift`.
use wai_bindgen.Prelude.{
  ℕ, suc, ◌-◌, ◌≤◌, ◌≡◌, refl, ap, true, Option, none, some, List, [], ◌∷◌, length, take, drop, All,
  leb, arith, length-append, length-take, length-drop,
}
use wai_bindgen.Wit.{Wit, WasmType, WitType}
use wai_bindgen.Wit.Laws.{Fits, CaseFits, IsJoined, flat_all}
use wai_bindgen.Abi.Bitcast.{Bitcast}
use wai_bindgen.Abi.Bitcast.Typed.{Widens-Casts}
use wai_bindgen.Abi.Generator.{M, Context}
use wai_bindgen.Abi.Generator.Effect.{Effect, Any, step, last}
use wai_bindgen.Abi.Generator.Rules.{
  IsBindgen, pure-Effect, unwrap-Effect, check-Effect, extend-Effect, drain-Effect,
  push_block-Effect, finish_block-Effect,
}
use wai_bindgen.Abi.Lower.ArmsEffect.{Fits-le, leb_one, emit_casts-Effect}
use wai_bindgen.Abi.Lift.Arms.{casts_back, lift_each, lift_arm, lift_arms, lift_variant_arms}

casts_back-Fits :
    (w : Wit) (xs ys : List WasmType)
    → Fits w xs ys
    → (cs : List Bitcast) × (casts_back xs ys ≡ some cs) × (length cs ≡ length xs)
unfolding casts_back
casts_back-Fits w [] ys h = ([], refl, refl)
casts_back-Fits w (x ∷ xs) [] h = absurd h
casts_back-Fits w (x ∷ xs) (y ∷ ys) h =
    let back = (Widens-Casts h.0).1 in
    let rest = casts_back-Fits w xs ys h.1 in (back.0 ∷ rest.0, rw (back.1, rest.1), ap suc rest.2)

le→leb : (a b : ℕ) → a ≤ b → leb a b ≡ true
le→leb a b h = ground arith

length-take_le {ℓ} : {A : Type ℓ} (n : ℕ) (xs : List A) → n ≤ length xs → length (take n xs) ≡ n
length-take_le n xs h = omega (arith, length-take n xs)

module _ {O S : Type 0} (c : Context O S) (law : IsBindgen c.resolve c.bindgen) where
  -- `lift` turns the flat values of the type into one value of it.
  abbrev pub LiftsFrom : (WitType → M O S (Unit {0})) → WitType → Type 0
  LiftsFrom lift t = Effect (lift t) (length (c.resolve.push_flat t)) Any 1

  abbrev pub LiftsOption : (WitType → M O S (Unit {0})) → Option WitType → Type 0
  LiftsOption lift none = Unit
  LiftsOption lift (some t) = LiftsFrom lift t

  module _ (lift : WitType → M O S (Unit {0})) where
    pub lift_each-Effect :
        (ts : List WitType) (args : List O)
        → All (LiftsFrom lift) ts
        → length args ≡ length (flat_all c.resolve ts)
        → Effect (lift_each c lift ts args) 0 Any (length ts)
    unfolding lift_each
    lift_each-Effect [] args h e = pure-Effect tt tt
    lift_each-Effect (t ∷ ts) args h e =
        let n = length (c.resolve.push_flat t) in
        let total = length-append (c.resolve.push_flat t) (flat_all c.resolve ts) in
        step 0 (check-Effect _ _ (le→leb n (length args) (omega (arith, total)))) (omega arith)
          λ _ _. step 0 (extend-Effect (take n args)) (omega arith) λ _ _.
            step 0 h.0 (omega (arith, length-take_le n args (omega (arith, total)))) λ _ _.
              last 1
                (lift_each-Effect ts (drop n args) h.1 (omega (arith, length-drop n args, total)))
                (omega arith) (omega arith)

    module _ (params slots : List WasmType) (disc : WasmType) (joined : params ≡ disc ∷ slots) where
      -- Each arm ends with its payload, if it has one, as the block's result.
      lift_arm-Effect :
          (inputs : List O) (ty : Option WitType)
          → length inputs ≡ length slots
          → LiftsOption lift ty
          → CaseFits c.resolve slots ty
          → Effect (lift_arm c lift params inputs ty) 0 Any 0
      unfolding lift_arm
      lift_arm-Effect inputs none e h fits =
          step 0 (push_block-Effect c) (omega arith)
            λ _ _. last 0 (finish_block-Effect c 0) (omega arith) (omega arith)
      lift_arm-Effect inputs (some t) e h fits =
          let n = length (c.resolve.push_flat t) in
          let le = Fits-le c.resolve (c.resolve.push_flat t) slots fits in
          let (casts, cast_eq, len) =
            casts_back-Fits c.resolve (c.resolve.push_flat t) slots fits in
          rw joined (
            step 0 (push_block-Effect c) (omega arith) λ _ _.
              step 0 (check-Effect _ _ (le→leb n (length inputs) (omega (arith, le)))) (omega arith)
                λ _ _. step 0 (extend-Effect (take n inputs)) (omega arith) λ _ _.
                  step n (check-Effect _ _ (leb_one (length slots)))
                    (omega (arith, length-take_le n inputs (omega (arith, le))))
                    λ _ _. step n (unwrap-Effect _ _ casts cast_eq) (omega arith) λ cs same.
                      step 0 (emit_casts-Effect c law cs) (omega (arith, ap length same, len))
                        λ _ _.
                          step 0 h (omega (arith, ap length same, len))
                            λ _ _. last 0 (finish_block-Effect c 1) (omega arith) (omega arith))

      lift_arms-Effect :
          (inputs : List O) (tys : List (Option WitType))
          → length inputs ≡ length slots
          → All (LiftsOption lift) tys
          → All (CaseFits c.resolve slots) tys
          → Effect (lift_arms c lift params inputs tys) 0 Any 0
      unfolding lift_arms
      lift_arms-Effect inputs [] e h fits = pure-Effect tt tt
      lift_arms-Effect inputs (ty ∷ tys) e h fits =
          step 0 (lift_arm-Effect inputs ty e h.0 fits.0) (omega arith)
            λ _ _. last 0 (lift_arms-Effect inputs tys e h.1 fits.1) (omega arith) (omega arith)

    -- All but the discriminant is consumed.
    pub lift_variant_arms-Effect :
        (ty : WitType) (cases : List (Option WitType))
        → All (LiftsOption lift) cases
        → IsJoined c.resolve (c.resolve.push_flat ty) cases
        → Effect (lift_variant_arms c lift ty cases) (length (c.resolve.push_flat ty)) Any 1
    unfolding lift_variant_arms
    lift_variant_arms-Effect ty cases h j =
        let params = c.resolve.push_flat ty in
        let n = length params in
        step n (check-Effect _ _ (le→leb 1 n (omega (arith, ap length j.flat_eq)))) (omega arith)
          λ _ _. step 1 (drain-Effect (n - 1)) (omega (arith, ap length j.flat_eq)) λ inputs len.
            last 1
              (lift_arms-Effect params j.slots j.discriminant j.flat_eq inputs cases
                (omega (arith, len, ap length j.flat_eq)) h j.cases_fit)
              (omega arith) (omega arith)
