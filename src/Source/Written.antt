-- ===== src/Source/Written.antt =====
-- What `Source::push_str` writes.
use mathlib.Core.List.{append-nil, append_assoc}
use wai_bindgen.Prelude.{
  ◌+◌, ◌≡◌, refl, sym, ap, ◌∙◌, Bool, true, false, not, ◌||◌, List, [], ◌∷◌, ◌++◌, if◌then◌else◌,
  arith, All,
}
use wai_bindgen.Source.{
  Source, start_line, note_comment, outdent, adjust_indent, line_text, push_line, push_lines,
  push_str, newline, is_empty,
}
use wai_bindgen.Source.Str.{Text, newline_char, space, trim, replicate, lines}
use wai_bindgen.Source.Lines.{kept_lines, lines-one_line, kept-lines}
use wai_bindgen.Source.Kept.{
  is_kept, kept, kept-append, kept-spaces, one_line, kept-trim_start, kept-pop_twice,
}

kept-start_line : (line : Text) (t : Source) → kept (start_line line t).s ≡ kept t.s
unfolding start_line
kept-start_line [] t = ground arith
kept-start_line (c ∷ cs) t =
    let n = t.indent + t.indent in
    let written : kept (t.s ++ replicate n space) ≡ kept t.s =
      kept-append t.s (replicate n space)
      ∙ ap (λ r. kept t.s ++ r) (kept-spaces n)
      ∙ append-nil (kept t.s) in
    ground (arith, written)

kept-note_comment : (line : Text) (t : Source) → kept (note_comment line t).s ≡ kept t.s
unfolding note_comment
kept-note_comment line t = ground arith

kept-outdent : (line : Text) (t : Source) → kept (outdent line t).s ≡ kept t.s
unfolding outdent
kept-outdent line t = ground (arith, kept-pop_twice t.s)

adjust_indent_text : (line : Text) (t : Source) → (adjust_indent line t).s ≡ t.s
unfolding adjust_indent
adjust_indent_text line t = ground arith

kept-line_text :
    (single : Bool) (line : Text) → one_line line ≡ true → kept (line_text single line) ≡ kept line
unfolding line_text
kept-line_text true line e = refl
kept-line_text false line e = kept-trim_start line e

kept-push_line :
    (single : Bool) (line : Text) (t : Source)
    → one_line line ≡ true
    → kept (push_line single line t).s ≡ kept t.s ++ kept line
unfolding push_line
kept-push_line single line t e =
    let a = start_line line t in
    let b = note_comment (trim line) a in
    let c = outdent (trim line) b in
    ap kept (adjust_indent_text (trim line) (record c { s = c.s ++ line_text single line }))
    ∙ kept-append c.s (line_text single line)
    ∙ ap (λ l. kept c.s ++ l) (kept-line_text single line e)
    ∙ ap (λ l. l ++ kept line)
        (kept-outdent (trim line) b ∙ kept-note_comment (trim line) a ∙ kept-start_line line t)

kept-end_line :
    (b : Bool) (t : Source)
    → kept (if b then newline t else t).s ≡ kept t.s ++ (if b then newline_char ∷ [] else [])
unfolding newline kept is_kept
kept-end_line true t = kept-append t.s (newline_char ∷ [])
kept-end_line false t = sym (append-nil (kept t.s))

kept-push_lines :
    (single ends : Bool) (ls : List Text) (t : Source)
    → All (λ l. one_line l ≡ true) ls
    → kept (push_lines single ends ls t).s ≡ kept t.s ++ kept_lines ends ls
unfolding push_lines kept_lines newline
kept-push_lines single ends [] t a = sym (append-nil (kept t.s))
kept-push_lines single ends (l ∷ ls) t a =
    let b = not (is_empty ls) || ends in
    let u = push_line single l t in
    let nl = if b then newline_char ∷ [] else [] in
    kept-push_lines single ends ls (if b then newline u else u) a.1
    ∙ ap (λ r. r ++ kept_lines ends ls)
        (kept-end_line b u
          ∙ ap (λ r. r ++ nl) (kept-push_line single l t a.0)
          ∙ append_assoc (kept t.s) (kept l) nl)
    ∙ append_assoc (kept t.s) (kept l ++ nl) (kept_lines ends ls)

-- Whatever is pushed, and wherever a line was left, the text gains just what is pushed, as far as
-- newlines and characters that are not whitespace go: all else that is written or taken away is
-- whitespace within lines.
pub kept-push_str : (src : Text) (t : Source) → kept (push_str src t).s ≡ kept t.s ++ kept src
unfolding push_str
kept-push_str src t =
    kept-push_lines _ _ (lines src) t (lines-one_line src)
    ∙ ap (λ r. kept t.s ++ r) (kept-lines src)
