-- ===== src/Source/Kept.antt =====
-- `Source::push_str` changes nothing but the whitespace within lines.
use mathlib.Core.List.{append-nil, reverse-reverse, reverse-append}
use wai_bindgen.Prelude.{
  ℕ, zero, suc, ◌≡◌, refl, sym, ap, ◌∙◌, Bool, true, not, ◌&&◌, ◌||◌, [], ◌∷◌, ◌++◌, reverse, drop,
  ◌==◌, if◌then◌else◌, arith,
}
use wai_bindgen.Source.{pop_twice}
use wai_bindgen.Source.Str.{
  Text, newline_char, space, is_whitespace, trim_start, replicate, ends_with_spaces,
}

-- A newline, or no whitespace.
unfoldable pub is_kept : ℕ → Bool
is_kept c = (c == newline_char) || not (is_whitespace c)

unfoldable pub kept : Text → Text
kept [] = []
kept (c ∷ cs) = if is_kept c then c ∷ kept cs else kept cs

pub kept-append : (a b : Text) → kept (a ++ b) ≡ kept a ++ kept b
unfolding kept
kept-append [] b = refl
kept-append (c ∷ a) b = ground (arith, kept-append a b)

pub kept-spaces : (n : ℕ) → kept (replicate n space) ≡ []
unfolding kept is_kept is_whitespace
kept-spaces zero = refl
kept-spaces (suc n) = kept-spaces n

-- No newline.
unfoldable pub one_line : Text → Bool
one_line [] = true
one_line (c ∷ cs) = not (c == newline_char) && one_line cs

pub kept-trim_start : (s : Text) → one_line s ≡ true → kept (trim_start s) ≡ kept s
unfolding kept trim_start is_kept one_line
kept-trim_start [] e = refl
kept-trim_start (c ∷ cs) e = ground (arith, kept-trim_start cs)

two-spaces : (s : Text) → ends_with_spaces s ≡ true → (t : Text) × (reverse s ≡ space ∷ space ∷ t)
unfolding ends_with_spaces
two-spaces s e = go (reverse s) refl
  where
    go : (r : Text) → reverse s ≡ r → (t : Text) × (r ≡ space ∷ space ∷ t)
    go [] q = absurd (ground arith)
    go (c ∷ []) q = absurd (ground arith)
    go (c ∷ d ∷ t) q = (t, ground arith)

pub kept-pop_twice : (s : Text) → ends_with_spaces s ≡ true → kept (pop_twice s) ≡ kept s
unfolding pop_twice kept is_kept is_whitespace
kept-pop_twice s e =
    let q = two-spaces s e in
    let t = q.0 in
    let back : s ≡ reverse t ++ space ∷ space ∷ [] =
      sym (reverse-reverse s) ∙ ap reverse q.1 ∙ reverse-append (space ∷ space ∷ []) t in
    let popped : pop_twice s ≡ reverse t = ap (λ r. reverse (drop 2 r)) q.1 in
    ap kept popped
    ∙ sym (
        ap kept back ∙ kept-append (reverse t) (space ∷ space ∷ []) ∙ append-nil (kept (reverse t)))
