-- ===== src/Source.antt =====
-- crates/core/src/source.rs: the text that a generator writes (`Source`), and the files (`Files`).
-- A string is the list of its code points. What `str` gives is written out: `lines`, `trim`,
-- `trim_start`, `starts_with` and `ends_with`.
pub mod Str
pub mod Kept
pub mod Layout
pub mod Lines
pub mod Written
pub mod Files
mod Tests
use wai_bindgen.Prelude.{
  ℕ, ◌+◌, ◌-◌, Bool, true, false, Option, none, some, ltb, not, ◌&&◌, ◌||◌, List, [], ◌∷◌, ◌++◌,
  reverse, drop, ◌==◌, if◌then◌else◌,
}
use wai_bindgen.Source.Str.{
  Text, newline_char, space, open_brace, close_brace, trim, trim_start, starts_with_char,
  starts_with_comment, ends_with_char, ends_with_spaces, lines, replicate,
}

pub record Source : Type 0 where
  pub s : Text
  pub indent : ℕ
  pub in_line_comment : Bool
  pub continuing_line : Bool

-- `Source::default()`
abbrev pub empty_source : Source
empty_source = record { s = []; indent = 0; in_line_comment = false; continuing_line = false }

unfoldable pub append_src : Source → Source → Source
append_src self src = record self {
  s = self.s ++ src.s;
  indent = self.indent + src.indent;
  in_line_comment = src.in_line_comment;
}

unfoldable pub newline : Source → Source
newline self = record self {
  in_line_comment = false;
  continuing_line = false;
  s = self.s ++ newline_char ∷ [];
}

-- The indentation of a line that starts.
unfoldable pub start_line : Text → Source → Source
start_line line self = if self.continuing_line then self else (elim line [
  | [] ↦ record self { continuing_line = true }
  | c ∷ cs ↦ record self {
    s = self.s ++ replicate (self.indent + self.indent) space;
    continuing_line = true;
  }
])

-- `self.s.pop(); self.s.pop();`
unfoldable pub pop_twice : Text → Text
pop_twice s = reverse (drop 2 (reverse s))

unfoldable pub note_comment : Text → Source → Source
note_comment trimmed self =
    if starts_with_comment trimmed then record self { in_line_comment = true } else self

unfoldable pub outdent : Text → Source → Source
unfolding pop_twice
outdent trimmed self =
    if not self.in_line_comment && starts_with_char close_brace trimmed && ends_with_spaces self.s
    then record self { s = pop_twice self.s }
    else self

-- The level that a line leaves, where it is not in a comment.
unfoldable pub next_indent : Text → ℕ → ℕ
next_indent trimmed n =
    let opened = if ends_with_char open_brace trimmed then n + 1 else n in
    if starts_with_char close_brace trimmed then opened - 1 else opened

unfoldable pub adjust_indent : Text → Source → Source
unfolding next_indent
adjust_indent trimmed self =
    if self.in_line_comment then self else record self { indent = next_indent trimmed self.indent }

-- The text of a line, which keeps its leading whitespace where it is the only line.
unfoldable pub line_text : Bool → Text → Text
line_text single line = if single then line else trim_start line

-- One turn of the loop of `push_str`, but for the newline.
unfoldable pub push_line : Bool → Text → Source → Source
unfolding start_line note_comment outdent adjust_indent line_text
push_line single line self =
    let before = outdent (trim line) (note_comment (trim line) (start_line line self)) in
    adjust_indent (trim line) (record before { s = before.s ++ line_text single line })

unfoldable pub is_empty : {A : Type 0} → List A → Bool
is_empty [] = true
is_empty (x ∷ xs) = false

-- The loop of `push_str`; `ends` is whether the text ends with a newline.
unfoldable pub push_lines : Bool → Bool → List Text → Source → Source
unfolding push_line newline is_empty
push_lines single ends [] self = self
push_lines single ends (line ∷ rest) self =
    let after = push_line single line self in
    push_lines single ends rest (if not (is_empty rest) || ends then newline after else after)

unfoldable pub has_one : {A : Type 0} → List A → Bool
has_one (x ∷ []) = true
has_one _ = false

unfoldable pub push_str : Text → Source → Source
unfolding push_lines has_one
push_str src self =
    push_lines (has_one (lines src)) (ends_with_char newline_char src) (lines src) self

-- `Source::indent`
unfoldable pub add_indent : ℕ → Source → Source
add_indent amt self = record self { indent = self.indent + amt }

unfoldable pub set_indent : ℕ → Source → ℕ × Source
set_indent amt self = (self.indent, record self { indent = amt })

-- `Source::deindent`; in a build with overflow checks, a level below 0 is a panic.
unfoldable pub deindent : ℕ → Source → Option Source
deindent amt self =
    if ltb self.indent amt then none else some (record self { indent = self.indent - amt })
