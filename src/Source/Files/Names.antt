-- ===== src/Source/Files/Names.antt =====
-- The order of names.
use wai_bindgen.Prelude.{◌≡◌, Bool, true, false, ◌&&◌, ◌||◌, [], ◌∷◌, ltb, ◌==◌, arith}
use wai_bindgen.Source.Str.{Text}
use wai_bindgen.Ns.Names.{text_eq}

unfoldable pub text_lt : Text → Text → Bool
text_lt s [] = false
text_lt [] (d ∷ t) = true
text_lt (c ∷ s) (d ∷ t) = ltb c d || ((c == d) && text_lt s t)

pub text_eq_of_lt : (s t : Text) → text_lt s t ≡ true → text_eq s t ≡ false
unfolding text_lt text_eq
text_eq_of_lt [] [] e = ground arith
text_eq_of_lt (c ∷ s) [] e = ground arith
text_eq_of_lt [] (d ∷ t) e = ground arith
text_eq_of_lt (c ∷ s) (d ∷ t) e = ground (arith, e, text_eq_of_lt s t)

pub text_lt_of_not : (s t : Text) → text_eq s t ≡ false → text_lt s t ≡ false → text_lt t s ≡ true
unfolding text_lt text_eq
text_lt_of_not [] [] e l = ground arith
text_lt_of_not (c ∷ s) [] e l = ground arith
text_lt_of_not [] (d ∷ t) e l = ground arith
text_lt_of_not (c ∷ s) (d ∷ t) e l = ground (arith, e, l, text_lt_of_not s t)

pub text_lt_trans : (r s t : Text) → text_lt r s ≡ true → text_lt s t ≡ true → text_lt r t ≡ true
unfolding text_lt
text_lt_trans r s [] e l = ground arith
text_lt_trans r [] (d ∷ t) e l = ground arith
text_lt_trans [] (c ∷ s) (d ∷ t) e l = ground arith
text_lt_trans (b ∷ r) (c ∷ s) (d ∷ t) e l = ground (arith, e, l, text_lt_trans r s t)
