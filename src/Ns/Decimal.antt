-- ===== src/Ns/Decimal.antt =====
-- The decimal digits of a number are those of no other.
use wai_bindgen.Prelude.{
  ℕ, zero, suc, ◌+◌, ◌-◌, ◌*◌, ◌/◌, ◌%◌, ◌≡◌, ◌<◌, refl, sym, ap, ◌∙◌, [], ◌∷◌, ◌++◌, ltb, arith,
  Bool-cases, inl, inr,
}
use wai_bindgen.Source.Str.{Text}
use wai_bindgen.Ns.Names.{digits, decimal}

unfoldable value : ℕ → Text → ℕ
value a [] = a
value a (c ∷ s) = value (a * 10 + (c - 48)) s

value-append : (a : ℕ) (s t : Text) → value a (s ++ t) ≡ value (value a s) t
unfolding value
value-append a [] t = refl
value-append a (c ∷ s) t = value-append (a * 10 + (c - 48)) s t

value-digits : (fuel n : ℕ) → n < fuel → value 0 (digits fuel n) ≡ n
unfolding digits value
value-digits zero n lt = absurd (omega arith)
value-digits (suc fuel) n lt = elim (Bool-cases (ltb n 10)) [
  | inl small ↦ ground (arith, small)
  | inr large ↦
      let ih = value-digits fuel (n / 10) (ground (arith, large)) in
      let last = 48 + n % 10 in
      let whole : value 0 (digits fuel (n / 10) ++ last ∷ []) ≡ n =
        value-append 0 (digits fuel (n / 10)) (last ∷ [])
        ∙ ap (λ k. k * 10 + (last - 48)) ih
        ∙ omega arith in
      ground (arith, large, whole)
]

pub decimal-injective : (m n : ℕ) → decimal m ≡ decimal n → m ≡ n
unfolding decimal
decimal-injective m n e =
    sym (value-digits (m + 1) m (omega arith))
    ∙ ap (value 0) e
    ∙ value-digits (n + 1) n (omega arith)
