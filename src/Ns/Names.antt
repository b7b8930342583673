-- ===== src/Ns/Names.antt =====
-- Strings as crates/core/src/ns.rs uses them: their equality, sets of them, and the decimal digits
-- that `format!` writes.
use wai_bindgen.Prelude.{
  ℕ, zero, suc, ◌+◌, ◌/◌, ◌%◌, ◌≡◌, refl, Bool, true, false, ◌&&◌, ◌||◌, List, [], ◌∷◌, ◌++◌, ltb,
  ◌==◌, if◌then◌else◌, arith,
}
use wai_bindgen.Source.Str.{Text}

unfoldable pub text_eq : Text → Text → Bool
text_eq [] [] = true
text_eq (c ∷ s) (d ∷ t) = (c == d) && text_eq s t
text_eq _ _ = false

-- `HashSet::contains`
unfoldable pub contains : Text → List Text → Bool
contains x [] = false
contains x (y ∷ ys) = text_eq x y || contains x ys

unfoldable pub digits : ℕ → ℕ → Text
digits zero n = []
digits (suc fuel) n =
    let rest = digits fuel (n / 10) in
    if ltb n 10 then (48 + n) ∷ [] else rest ++ (48 + n % 10) ∷ []

-- A number has no more digits than itself, and one.
unfoldable pub decimal : ℕ → Text
unfolding digits
decimal n = digits (n + 1) n

pub text_eq_sound : (s t : Text) → text_eq s t ≡ true → s ≡ t
unfolding text_eq
text_eq_sound [] [] e = refl
text_eq_sound [] (d ∷ t) e = absurd (ground arith)
text_eq_sound (c ∷ s) [] e = absurd (ground arith)
text_eq_sound (c ∷ s) (d ∷ t) e = ground (arith, text_eq_sound s t)
