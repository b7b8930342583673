-- ===== src/Source/Lines.antt =====
-- What the lines of a text hold.
use mathlib.Core.List.{reverse_aux}
use wai_bindgen.Prelude.{
  ℕ, ◌≡◌, refl, sym, ap, ◌∙◌, subst, Bool, true, false, not, ◌&&◌, ◌||◌, List, [], ◌∷◌, ◌++◌, ◌==◌,
  if◌then◌else◌, Bool-cases, inl, inr, arith, All,
}
use wai_bindgen.Source.{is_empty}
use wai_bindgen.Source.Str.{
  Text, newline_char, is_whitespace, lines, cons_first, ends_with_char, starts_with_char,
  carriage_return,
}
use wai_bindgen.Source.Kept.{is_kept, kept, kept-append, one_line}

-- What the lines have, with the newlines between them.
unfoldable pub kept_lines : Bool → List Text → Text
unfolding is_empty
kept_lines ends [] = []
kept_lines ends (l ∷ ls) =
    (kept l ++ (if not (is_empty ls) || ends then newline_char ∷ [] else [])) ++ kept_lines ends ls

cons_first-one_line :
    (c : ℕ) (ls : List Text)
    → (c == newline_char) ≡ false
    → All (λ l. one_line l ≡ true) ls
    → All (λ l. one_line l ≡ true) (cons_first c ls)
unfolding cons_first one_line
cons_first-one_line c [] e a = (ground (arith, e), tt)
cons_first-one_line c (l ∷ ls) e a = (ground (arith, e, a.0), a.1)

is_return : ℕ → Text → Bool
is_return c cs = (c == carriage_return) && starts_with_char newline_char cs

lines_newline : (c : ℕ) (cs : Text) → (c == newline_char) ≡ true → lines (c ∷ cs) ≡ [] ∷ lines cs
unfolding lines
lines_newline c cs e = ground (arith, e)

lines_return :
    (c : ℕ) (cs : Text)
    → (c == newline_char) ≡ false
    → is_return c cs ≡ true
    → lines (c ∷ cs) ≡ lines cs
unfolding lines is_return
lines_return c cs e r = ground (arith, e, r)

lines_char :
    (c : ℕ) (cs : Text)
    → (c == newline_char) ≡ false
    → is_return c cs ≡ false
    → lines (c ∷ cs) ≡ cons_first c (lines cs)
unfolding lines is_return
lines_char c cs e r = ground (arith, e, r)

pub lines-one_line : (s : Text) → All (λ l. one_line l ≡ true) (lines s)
unfolding one_line lines
lines-one_line [] = tt
lines-one_line (c ∷ cs) =
    let ih = lines-one_line cs in
    let goal : List Text → Type 0 = λ ls. All (λ l. one_line l ≡ true) ls in
    elim (Bool-cases (c == newline_char)) [
      | inl e ↦ subst goal (sym (lines_newline c cs e)) (refl, ih)
      | inr e ↦ elim (Bool-cases (is_return c cs)) [
        | inl r ↦ subst goal (sym (lines_return c cs e r)) ih
        | inr r ↦ subst goal (sym (lines_char c cs e r)) (cons_first-one_line c (lines cs) e ih)
      ]
    ]

-- A text with a character has a line.
lines_nonempty : (c : ℕ) (cs : Text) → is_empty (lines (c ∷ cs)) ≡ false
unfolding lines is_empty cons_first
lines_nonempty c [] = ground arith
lines_nonempty c (d ∷ cs) = ground (arith, lines_nonempty d cs)

cons_first-kept :
    (ends : Bool) (c : ℕ) (ls : List Text)
    → (is_empty ls && ends) ≡ false
    → kept_lines ends (cons_first c ls) ≡ kept (c ∷ []) ++ kept_lines ends ls
unfolding kept_lines cons_first kept is_empty
cons_first-kept false c [] e = ground arith
cons_first-kept true c [] e = absurd (ground arith)
cons_first-kept ends c (l ∷ ls) e = ground arith

first_of :
    (n d : ℕ) (cs r r' : Text)
    → starts_with_char n (reverse_aux cs (d ∷ r)) ≡ starts_with_char n (reverse_aux cs (d ∷ r'))
unfolding starts_with_char
first_of n d [] r r' = refl
first_of n d (e ∷ cs) r r' = first_of n e cs (d ∷ r) (d ∷ r')

ends_with_char-cons :
    (n c d : ℕ) (cs : Text) → ends_with_char n (c ∷ d ∷ cs) ≡ ends_with_char n (d ∷ cs)
unfolding ends_with_char
ends_with_char-cons n c d cs = first_of n d cs (c ∷ []) []

kept-one :
    (c : ℕ) → kept_lines (ends_with_char newline_char (c ∷ [])) (lines (c ∷ [])) ≡ kept (c ∷ [])
unfolding kept_lines lines kept is_kept ends_with_char starts_with_char cons_first is_empty
kept-one c = ground arith

kept-newline :
    (ends : Bool) (d : ℕ) (ds : Text)
    → kept_lines ends ([] ∷ lines (d ∷ ds)) ≡ newline_char ∷ kept_lines ends (lines (d ∷ ds))
unfolding kept_lines kept
kept-newline ends d ds = ground (arith, lines_nonempty d ds)

kept-char : (c : ℕ) (cs : Text) → kept (c ∷ cs) ≡ kept (c ∷ []) ++ kept cs
unfolding kept
kept-char c cs = kept-append (c ∷ []) cs

kept-return : (c : ℕ) (cs : Text) → is_return c cs ≡ true → kept (c ∷ cs) ≡ kept cs
unfolding kept is_kept is_whitespace is_return
kept-return c cs e = ground (arith, e)

kept-at_newline :
    (c : ℕ) (cs : Text) → (c == newline_char) ≡ true → kept (c ∷ cs) ≡ newline_char ∷ kept cs
unfolding kept is_kept
kept-at_newline c cs e = ground (arith, e)

-- The lines of a text hold what the text does, with a newline after each but a last that has none.
pub kept-lines : (s : Text) → kept_lines (ends_with_char newline_char s) (lines s) ≡ kept s
unfolding kept_lines lines kept
kept-lines [] = refl
kept-lines (c ∷ []) = kept-one c
kept-lines (c ∷ d ∷ ds) =
    let ends = ends_with_char newline_char (d ∷ ds) in
    let ih = kept-lines (d ∷ ds) in
    ap (λ b. kept_lines b (lines (c ∷ d ∷ ds))) (ends_with_char-cons newline_char c d ds)
    ∙ elim (Bool-cases (c == newline_char)) [
      | inl e ↦
          ap (kept_lines ends) (lines_newline c (d ∷ ds) e)
          ∙ kept-newline ends d ds
          ∙ ap (λ l. newline_char ∷ l) ih
          ∙ sym (kept-at_newline c (d ∷ ds) e)
      | inr e ↦ elim (Bool-cases (is_return c (d ∷ ds))) [
        | inl r ↦
            ap (kept_lines ends) (lines_return c (d ∷ ds) e r) ∙ ih ∙ sym (kept-return c (d ∷ ds) r)
        | inr r ↦
            ap (kept_lines ends) (lines_char c (d ∷ ds) e r)
            ∙ cons_first-kept ends c (lines (d ∷ ds)) (ground (arith, lines_nonempty d ds))
            ∙ ap (λ l. kept (c ∷ []) ++ l) ih
            ∙ sym (kept-char c (d ∷ ds))
      ]
    ]
