-- ===== src/Source/Layout.antt =====
-- The layout of nested blocks that are pushed line by line to a `Source`.
use mathlib.Core.List.{append-nil, append_assoc, reverse-reverse, reverse-append}
use wai_bindgen.Prelude.{
  ℕ, zero, suc, ◌+◌, ◌≡◌, refl, sym, ap, ◌∙◌, Bool, true, false, not, ◌&&◌, [], ◌∷◌, ◌++◌, reverse,
  drop, ◌==◌, if◌then◌else◌, arith,
}
use wai_bindgen.Source.{
  Source, start_line, note_comment, outdent, adjust_indent, next_indent, line_text, push_line,
  push_lines, push_str, newline, pop_twice, is_empty, has_one,
}
use wai_bindgen.Source.Str.{
  Text, newline_char, carriage_return, space, open_brace, close_brace, trim, replicate,
  ends_with_spaces, two_spaces, starts_with_comment, starts_with_char, ends_with_char, lines,
  cons_first,
}

-- Lines and blocks, one after the other.
pub data Layout : Type 0 where
  stop : Layout
  line : Text → Layout → Layout
  block : Text → Layout → Text → Layout → Layout

abbrev pub with_newline : Text → Text
with_newline l = l ++ newline_char ∷ []

-- The lines are pushed one by one.
unfoldable pub push_layout : Layout → Source → Source
push_layout stop t = t
push_layout (line l k) t = push_layout k (push_str (with_newline l) t)
push_layout (block o b c k) t =
    push_layout k (push_str (with_newline c) (push_layout b (push_str (with_newline o) t)))

abbrev pub spaces : ℕ → Text
spaces n = replicate (n + n) space

-- Two spaces for each block that a line is in.
unfoldable pub layout_text : ℕ → Layout → Text
layout_text n stop = []
layout_text n (line l k) = spaces n ++ with_newline l ++ layout_text n k
layout_text n (block o b c k) =
    (spaces n ++ with_newline o)
    ++ layout_text (n + 1) b
    ++ (spaces n ++ with_newline c)
    ++ layout_text n k

-- No end of a line within it.
unfoldable pub unbroken : Text → Bool
unbroken [] = true
unbroken (c ∷ cs) = not (c == newline_char) && not (c == carriage_return) && unbroken cs

-- A line that is not empty and no comment, with what its braces do.
unfoldable pub IsLine : Bool → Bool → Text → Type 0
IsLine opens closes l =
    (is_empty l ≡ false)
    × ((unbroken l ≡ true)
        × ((starts_with_comment (trim l) ≡ false)
            × ((ends_with_char open_brace (trim l) ≡ opens)
                × (starts_with_char close_brace (trim l) ≡ closes))))

unfoldable pub IsLayout : Layout → Type 0
IsLayout stop = Unit
IsLayout (line l k) = IsLine false false l × IsLayout k
IsLayout (block o b c k) = IsLine true false o × (IsLayout b × (IsLine false true c × IsLayout k))

-- A source at the start of a line.
abbrev pub fresh : Text → ℕ → Source
fresh s n = record { s = s; indent = n; in_line_comment = false; continuing_line = false }

lines-with_newline : (l : Text) → unbroken l ≡ true → lines (with_newline l) ≡ l ∷ []
unfolding lines unbroken cons_first
lines-with_newline [] e = ground arith
lines-with_newline (c ∷ cs) e = ground (arith, lines-with_newline cs)

ends-with_newline : (l : Text) → ends_with_char newline_char (with_newline l) ≡ true
unfolding ends_with_char starts_with_char
ends-with_newline l = ap (starts_with_char newline_char) (reverse-append l (newline_char ∷ []))

push_str-line :
    (l : Text) (t : Source)
    → unbroken l ≡ true
    → push_str (with_newline l) t ≡ newline (push_line true l t)
unfolding push_str push_lines has_one is_empty
push_str-line l t e =
    ap (λ ls. push_lines (has_one ls) (ends_with_char newline_char (with_newline l)) ls t)
      (lines-with_newline l e)
    ∙ ap (λ b. push_lines true b (l ∷ []) t) (ends-with_newline l)

line_end :
    (s p l : Text) (n : ℕ)
    → fresh (s ++ p ++ l ++ newline_char ∷ []) n ≡ fresh (s ++ (p ++ with_newline l)) n
line_end s p l n =
    ap (λ r. fresh r n)
      (append_assoc (s ++ p) l (newline_char ∷ []) ∙ append_assoc s p (with_newline l))

-- The steps of a line that starts no comment and closes no block.
push_line_plain :
    (opens : Bool) (l s : Text) (n : ℕ)
    → IsLine opens false l
    → newline (push_line true l (fresh s n))
      ≡ fresh (s ++ (spaces n ++ with_newline l)) (if opens then n + 1 else n)
unfolding push_line start_line note_comment outdent adjust_indent next_indent line_text newline
    IsLine is_empty
push_line_plain opens [] s n e = absurd (ground (arith, e.0))
push_line_plain opens (c ∷ l) s n e =
    let steps : newline (push_line true (c ∷ l) (fresh s n))
        ≡ fresh (((s ++ spaces n) ++ c ∷ l) ++ newline_char ∷ []) (if opens then n + 1 else n) =
      ground (arith, e.1.1.0, e.1.1.1.0, e.1.1.1.1) in
    steps ∙ line_end s (spaces n) (c ∷ l) (if opens then n + 1 else n)

-- Two spaces at the end are seen and taken away.
ends_with_spaces-spaces : (s : Text) → ends_with_spaces (s ++ space ∷ space ∷ []) ≡ true
unfolding ends_with_spaces two_spaces
ends_with_spaces-spaces s = ap two_spaces (reverse-append s (space ∷ space ∷ []))

pop_twice-spaces : (s : Text) → pop_twice (s ++ space ∷ space ∷ []) ≡ s
unfolding pop_twice
pop_twice-spaces s =
    ap (λ r. reverse (drop 2 r)) (reverse-append s (space ∷ space ∷ [])) ∙ reverse-reverse s

replicate-two : (n : ℕ) → replicate (suc (suc n)) space ≡ replicate n space ++ space ∷ space ∷ []
replicate-two zero = refl
replicate-two (suc n) = ap {B = Text} (λ r. space ∷ r) (replicate-two n)

spaces-suc : (n : ℕ) → spaces (n + 1) ≡ spaces n ++ space ∷ space ∷ []
spaces-suc n =
    let e : n + 1 + (n + 1) ≡ suc (suc (n + n)) = omega arith in
    ap (λ k. replicate k space) e ∙ replicate-two (n + n)

push_line_closing :
    (l s : Text) (n : ℕ)
    → IsLine false true l
    → newline (push_line true l (fresh s (n + 1))) ≡ fresh (s ++ (spaces n ++ with_newline l)) n
unfolding push_line start_line note_comment outdent adjust_indent next_indent line_text newline
    IsLine is_empty
push_line_closing [] s n e = absurd (ground (arith, e.0))
push_line_closing (c ∷ l) s n e =
    let at : s ++ spaces (n + 1) ≡ s ++ spaces n ++ space ∷ space ∷ [] =
      ap (λ r. s ++ r) (spaces-suc n) ∙ sym (append_assoc s (spaces n) (space ∷ space ∷ [])) in
    let seen : ends_with_spaces (s ++ spaces (n + 1)) ≡ true =
      ap ends_with_spaces at ∙ ends_with_spaces-spaces (s ++ spaces n) in
    let popped : pop_twice (s ++ spaces (n + 1)) ≡ s ++ spaces n =
      ap pop_twice at ∙ pop_twice-spaces (s ++ spaces n) in
    let steps : newline (push_line true (c ∷ l) (fresh s (n + 1)))
        ≡ fresh (pop_twice (s ++ spaces (n + 1)) ++ c ∷ l ++ newline_char ∷ []) n =
      ground (arith, seen, e.1.1.0, e.1.1.1.0, e.1.1.1.1) in
    steps
    ∙ ap (λ r. fresh (r ++ c ∷ l ++ newline_char ∷ []) n) popped
    ∙ line_end s (spaces n) (c ∷ l) n

push_str_plain :
    (opens : Bool) (l s : Text) (n : ℕ)
    → IsLine opens false l
    → push_str (with_newline l) (fresh s n)
      ≡ fresh (s ++ (spaces n ++ with_newline l)) (if opens then n + 1 else n)
unfolding IsLine
push_str_plain opens l s n e = push_str-line l (fresh s n) e.1.0 ∙ push_line_plain opens l s n e

push_str_closing :
    (l s : Text) (n : ℕ)
    → IsLine false true l
    → push_str (with_newline l) (fresh s (n + 1)) ≡ fresh (s ++ (spaces n ++ with_newline l)) n
unfolding IsLine
push_str_closing l s n e = push_str-line l (fresh s (n + 1)) e.1.0 ∙ push_line_closing l s n e

append_assoc4 : (s a b c d : Text) → s ++ a ++ b ++ c ++ d ≡ s ++ (a ++ b ++ c ++ d)
append_assoc4 s a b c d =
    ap (λ r. r ++ d) (ap (λ r. r ++ c) (append_assoc s a b) ∙ append_assoc s (a ++ b) c)
    ∙ append_assoc s (a ++ b ++ c) d

-- Blocks that are pushed line by line at the start of a line stand indented by two spaces for each
-- block around, and leave the level where it was.
pub push_layout-text :
    (k : Layout) (s : Text) (n : ℕ)
    → IsLayout k
    → push_layout k (fresh s n) ≡ fresh (s ++ layout_text n k) n
unfolding push_layout layout_text IsLayout
push_layout-text stop s n w = ap (λ r. fresh r n) (sym (append-nil s))
push_layout-text (line l k) s n w =
    ap (push_layout k) (push_str_plain false l s n w.0)
    ∙ push_layout-text k (s ++ (spaces n ++ with_newline l)) n w.1
    ∙ ap (λ r. fresh r n) (append_assoc s (spaces n ++ with_newline l) (layout_text n k))
push_layout-text (block o b c k) s n w =
    let opened = s ++ (spaces n ++ with_newline o) in
    let inner = opened ++ layout_text (n + 1) b in
    let closed = inner ++ (spaces n ++ with_newline c) in
    ap (λ t. push_layout k (push_str (with_newline c) (push_layout b t)))
      (push_str_plain true o s n w.0)
    ∙ ap (λ t. push_layout k (push_str (with_newline c) t))
        (push_layout-text b opened (n + 1) w.1.0)
    ∙ ap (push_layout k) (push_str_closing c inner n w.1.1.0)
    ∙ push_layout-text k closed n w.1.1.1
    ∙ ap (λ r. fresh r n)
        (append_assoc4 s (spaces n ++ with_newline o) (layout_text (n + 1) b)
          (spaces n ++ with_newline c) (layout_text n k))
